-- ===== src/Auth/SignIn/Lockout.antt =====
-- The lockout of src/modules/auth/auth.service.ts (login, handleLoginFailure) and lock of
-- src/modules/user/user.service.ts against a machine that only counts.
use all_service_api.Common.{
  leb, if◌then◌else◌, Bool-cases, invalid_credentials, account_locked, unauthorized, ok, err, ℕ,
  ◌+◌, String, ◌≡◌, refl, ap, ◌∙◌, inl, inr, Bool, true, false, ◌&&◌, Option, none, some,
}
use all_service_api.Prisma.Keys.{find_first-IsOnly, IsOnly, update-IsOnly, update-IsOnly_other}
use all_service_api.Auth.State.{user_locked, emit, account_locked_mail, send, User, Accounts}
use all_service_api.Auth.Credentials.{SignInEnv, LoginContext}
use all_service_api.Auth.Strategy.{locked_past}
use all_service_api.Auth.SignIn.{
  login_refused, login_user, login, verify, lock_after, handle_login_failure,
}
use all_service_api.Auth.Response.{LoginDto, request_of, Draws, failed_login_lock_ms}
use all_service_api.Users.State.{
  find_by_email_with_secrets, to_with_secrets, has_user_id, is_account_of,
}
use all_service_api.Users.Account.{lock_audit, require_tenant, lock, add_failed_attempt, set_lock}
use all_service_api.Users.Rows.{write_row-row, increment-row, with_row}

-- The machine: the wrong guesses so far and the moment until which it refuses to look at a guess.
pub record Lockout : Type 0 where
  pub attempts : ℕ
  pub is_locked : Bool
  pub until : Option ℕ

abbrev pub is_closed : Lockout → ℕ → Bool
is_closed l now = l.is_locked && locked_past l.until now

abbrev pub fail : ℕ → Lockout → Lockout
fail now l =
    if leb 5 (l.attempts + 1)
    then record { attempts = l.attempts + 1; is_locked = true; until = some (now + 900000) }
    else record l { attempts = l.attempts + 1 }

-- A wrong guess at a time.
abbrev pub guess : ℕ → Lockout → Lockout
guess now l = if is_closed l now then l else fail now l

abbrev pub lockout : User → Lockout
lockout row = record {
  attempts = row.failed_login_attempts;
  is_locked = row.is_locked;
  until = row.locked_until;
}

-- The row is the one active account of the address, with the given identifier and password.
abbrev pub IsTarget : (env : SignInEnv) (email id password_hash : String) → Accounts → User → Type 0
IsTarget env email id password_hash s row =
    IsOnly (has_user_id id) s.users row
    × IsOnly (is_account_of (env.users.normalise_email email)) s.users row
    × (row.id ≡ id)
    × (row.password_hash ≡ password_hash)
    × (row.is_active ≡ true)

module _ (env : SignInEnv) (email id password_hash : String) where
  -- Counting a failed attempt keeps the target, and so does locking it.
  pub add_failed_attempt-IsTarget :
      (s : Accounts) (row : User)
      → IsTarget env email id password_hash s row
      → IsTarget env email id password_hash
          (with_row id add_failed_attempt s)
          (add_failed_attempt row)
  add_failed_attempt-IsTarget s row (by_id, by_email, e, h, a) = (
    update-IsOnly (has_user_id id) add_failed_attempt s.users row by_id by_id.1,
    update-IsOnly_other (has_user_id id) (is_account_of (env.users.normalise_email email))
        add_failed_attempt s.users row by_id by_email by_email.1,
    e,
    h,
    a,
  )

  pub set_lock-IsTarget :
      (reason : String) (until : Option ℕ) (s : Accounts) (row : User)
      → IsTarget env email id password_hash s row
      → IsTarget env email id password_hash
          (with_row id (set_lock reason until) s)
          (set_lock reason until row)
  set_lock-IsTarget reason until s row (by_id, by_email, e, h, a) = (
    update-IsOnly (has_user_id id) (set_lock reason until) s.users row by_id by_id.1,
    update-IsOnly_other (has_user_id id) (is_account_of (env.users.normalise_email email))
        (set_lock reason until) s.users row by_id by_email by_email.1,
    e,
    h,
    a,
  )

  module _ (context : LoginContext) (draws : Draws) (now : ℕ) where
    abbrev until : ℕ
    until = now + failed_login_lock_ms

    abbrev pub counted : Accounts → Accounts
    counted s = with_row id add_failed_attempt s

    abbrev reason : String
    reason = "too_many_failed_attempts"

    abbrev pub locked : String → Accounts → Accounts
    locked address s = send (account_locked_mail address until) (
        lock_audit reason (some until) none (request_of context) (
          emit (user_locked id reason (some until))
            (with_row id (set_lock reason (some until)) (counted s))))

    lock-row :
        (s : Accounts) (row : User)
        → IsOnly (has_user_id id) s.users row
        → lock env.users id reason (some until) none (request_of context) none s ≡ (
          ok tt,
          lock_audit reason (some until) none (request_of context) (
              emit
                (user_locked id reason (some until))
                (with_row id (set_lock reason (some until)) s)),
        )
    unfolding lock require_tenant
    lock-row s row only =
        write_row-row env.users id s (set_lock reason (some until))
          (emit (user_locked id reason (some until)))
          (lock_audit reason (some until) none (request_of context)) row only

    failure-open :
        (s : Accounts) (row : User)
        → IsTarget env email id password_hash s row
        → handle_login_failure env (to_with_secrets row) context now s
          ≡ (ok tt, if leb 5 (row.failed_login_attempts + 1) then locked row.email s else counted s)
    unfolding handle_login_failure lock_after
    failure-open s row t = rw t.2 (
        rw (increment-row env.users id s row t.0)
          (elim (Bool-cases (leb 5 (row.failed_login_attempts + 1))) [
            | inl e ↦ rw e (
                rw
                  (lock-row (counted s) (add_failed_attempt row)
                    (add_failed_attempt-IsTarget s row t).0)
                  refl)
            | inr e ↦ rw e refl
          ]))

    -- A sign-in to the account with a password that its hash does not accept.
    module _ (password : String) (code : Option String)
        (wrong : verify env password password_hash ≡ false) where
      abbrev attempt : LoginDto
      attempt = record { email = email; password = password; mfa_code = code }

      found-target :
          (s : Accounts) (row : User)
          → IsTarget env email id password_hash s row
          → find_by_email_with_secrets env.users email s ≡ some (to_with_secrets row)
      unfolding find_by_email_with_secrets
      found-target s row t =
          rw
            (find_first-IsOnly env.users.auth.db (is_account_of (env.users.normalise_email email))
              s.users row t.1)
            refl

      pub login-closed :
          (s : Accounts) (row : User)
          → IsTarget env email id password_hash s row
          → is_closed (lockout row) now ≡ true
          → login env attempt context draws now s ≡ (err (unauthorized account_locked), s)
      unfolding login login_user
      login-closed s row t closed = rw (found-target s row t) (rw closed refl)

      pub login-open :
          (s : Accounts) (row : User)
          → IsTarget env email id password_hash s row
          → is_closed (lockout row) now ≡ false
          → login env attempt context draws now s ≡ (
            err (unauthorized invalid_credentials),
            if leb 5 (row.failed_login_attempts + 1) then locked row.email s else counted s,
          )
      unfolding login login_user login_refused
      login-open s row t opened =
          let refused : verify env password row.password_hash ≡ false =
            ap (verify env password) t.3 ∙ wrong in
          rw (found-target s row t)
            (rw opened (rw t.4 (rw refused (rw (failure-open s row t) refl))))
