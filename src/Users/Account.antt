-- ===== src/Users/Account.antt =====
-- src/modules/user/user.service.ts: passwords, verified addresses, sign-in records, locks, MFA secrets
-- and deletion.
use all_service_api.Common.{
  if◌then◌else◌, is_some, code_not_found, not_found, M, pure, ◌>>=◌, ◌>>◌, gets, modify, require,
  some_or, catch_with, ℕ, ◌+◌, String, true, false, Option, none, some, List, [], ◌∷◌, str_eq,
}
use all_service_api.Auth.State.{
  User, Accounts, RequestContext, AuditValue, text, null, moment, nullable, write_audit, emit,
  user_locked, user_deleted,
}
use all_service_api.Users.State.{UserEnv, is_account, update_user, rethrow_prisma, same_text}

abbrev pub set_password : String → ℕ → User → User
set_password password_hash now user = record user {
  password_hash = password_hash;
  password_changed_at = some now;
}

abbrev pub set_email_verified : User → User
set_email_verified user = record user { email_verified = true }

abbrev pub set_login_success : String → ℕ → User → User
set_login_success ip_hash now user = record user {
  last_login_at = some now;
  last_login_ip = some ip_hash;
  failed_login_attempts = 0;
  is_locked = false;
  lock_reason = none;
  locked_until = none;
}

abbrev pub add_failed_attempt : User → User
add_failed_attempt user = record user { failed_login_attempts = user.failed_login_attempts + 1 }

abbrev pub set_lock : String → Option ℕ → User → User
set_lock reason until user = record user {
  is_locked = true;
  lock_reason = some reason;
  locked_until = until;
}

abbrev pub release_lock : User → User
release_lock user = record user {
  is_locked = false;
  lock_reason = none;
  locked_until = none;
  failed_login_attempts = 0;
}

abbrev pub set_secret : String → List String → User → User
set_secret encrypted_secret hashed_recovery_codes user = record user {
  mfa_secret = some encrypted_secret;
  mfa_recovery_codes = hashed_recovery_codes;
  mfa_enabled = true;
}

abbrev pub clear_secret : User → User
clear_secret user = record user { mfa_secret = none; mfa_recovery_codes = []; mfa_enabled = false }

abbrev pub set_recovery_codes : List String → User → User
set_recovery_codes codes user = record user { mfa_recovery_codes = codes }

abbrev pub set_deleted : ℕ → User → User
set_deleted now user = record user { deleted_at = some now; is_active = false }

abbrev pub set_restored : User → User
set_restored user = record user { deleted_at = none; is_active = true }

abbrev time_or_null : Option ℕ → AuditValue
time_or_null none = null
time_or_null (some t) = moment t

-- The entries of two operations in the audit log.
abbrev pub lock_audit : String → Option ℕ → Option String → RequestContext → Accounts → Accounts
lock_audit reason until actor_id context = write_audit "user.locked" actor_id context (
    ("reason", text reason)
    ∷ ("lockedUntil", time_or_null until)
    ∷ ("actorId", nullable actor_id)
    ∷ [])

abbrev pub deletion_audit : String → RequestContext → Accounts → Accounts
deletion_audit actor_id context =
    write_audit "user.deleted" (some actor_id) context (("actorId", text actor_id) ∷ [])

abbrev pub keep_item : String → Option (List String) → Option (List String)
keep_item code none = none
keep_item code (some rest) = some (code ∷ rest)

-- `indexOf` and `splice(index, 1)`: the list without the first such item, if there is one.
unfoldable pub remove_first : String → List String → Option (List String)
remove_first wanted [] = none
remove_first wanted (code ∷ codes) =
    let later = remove_first wanted codes in
    if str_eq code wanted then some codes else keep_item code later

module _ (env : UserEnv) where
  -- An update of one row with its audit entry.
  abbrev pub write_row :
      String → (User → User) → (Accounts → Accounts) → (Accounts → Accounts) → M Accounts (Unit {0})
  write_row user_id change announce audit =
      catch_with (do _ ← update_user env.auth.db user_id change; modify announce; modify audit)
        rethrow_prisma

  unfoldable pub update_password : String → String → RequestContext → ℕ → M Accounts (Unit {0})
  update_password user_id password_hash context now =
      write_row user_id (set_password password_hash now) (λ s. s)
        (write_audit "user.password.updated" (some user_id) context [])

  unfoldable pub write_verified : String → User → RequestContext → M Accounts (Unit {0})
  write_verified user_id target context =
      if target.email_verified
      then pure tt
      else write_row user_id set_email_verified (λ s. s)
          (write_audit "user.email.verified" (some user_id) context [])

  unfoldable pub mark_email_verified : String → RequestContext → M Accounts (Unit {0})
  unfolding write_verified
  mark_email_verified user_id context = do
    found ← gets (λ s. env.auth.db.find_first (is_account user_id) s.users)
    target ← some_or (not_found code_not_found) found
    write_verified user_id target context

  unfoldable pub record_login_success : String → String → ℕ → M Accounts (Unit {0})
  record_login_success user_id ip_hash now =
      write_row user_id (set_login_success ip_hash now) (λ s. s) (λ s. s)

  unfoldable pub increment_failed_login_attempts : String → M Accounts ℕ
  increment_failed_login_attempts user_id =
      catch_with
        (do
          updated ← update_user env.auth.db user_id add_failed_attempt
          pure updated.failed_login_attempts)
        rethrow_prisma

  -- An actor bound to a tenant acts on its accounts only; `none` is no `actorTenantId`.
  unfoldable pub require_tenant : String → Option (Option String) → M Accounts (Unit {0})
  require_tenant user_id none = pure tt
  require_tenant user_id (some actor_tenant_id) = do
    found ← gets (λ s. env.auth.db.find_first (is_account user_id) s.users)
    target ← some_or (not_found code_not_found) found
    require (same_text target.tenant_id actor_tenant_id) (not_found code_not_found)

  unfoldable pub lock :
      (user_id reason : String) (until : Option ℕ) (actor_id : Option String)
      (context : RequestContext) (actor_tenant_id : Option (Option String))
      → M Accounts (Unit {0})
  unfolding require_tenant
  lock user_id reason until actor_id context actor_tenant_id = do
    require_tenant user_id (if is_some actor_id then actor_tenant_id else none)
    write_row user_id (set_lock reason until) (emit (user_locked user_id reason until))
        (lock_audit reason until actor_id context)

  unfoldable pub unlock :
      (user_id actor_id : String) (context : RequestContext)
      (actor_tenant_id : Option (Option String))
      → M Accounts (Unit {0})
  unfolding require_tenant
  unlock user_id actor_id context actor_tenant_id = do
    require_tenant user_id actor_tenant_id
    write_row user_id release_lock (λ s. s)
        (write_audit "user.unlocked" (some actor_id) context (("actorId", text actor_id) ∷ []))

  unfoldable pub set_mfa_secret :
      String → String → List String → RequestContext → M Accounts (Unit {0})
  set_mfa_secret user_id encrypted_secret hashed_recovery_codes context =
      write_row user_id (set_secret encrypted_secret hashed_recovery_codes) (λ s. s)
        (write_audit "user.mfa.secret.set" (some user_id) context [])

  unfoldable pub clear_mfa : String → RequestContext → M Accounts (Unit {0})
  clear_mfa user_id context =
      write_row user_id clear_secret (λ s. s)
        (write_audit "user.mfa.cleared" (some user_id) context [])

  unfoldable pub consume_recovery_code : String → String → M Accounts (Unit {0})
  unfolding remove_first
  consume_recovery_code user_id hashed_code = do
    found ← gets (λ s. env.auth.db.find_first (is_account user_id) s.users)
    target ← some_or (not_found code_not_found) found
    remaining ←
        some_or (not_found code_not_found) (remove_first hashed_code target.mfa_recovery_codes)
    write_row user_id (set_recovery_codes remaining) (λ s. s) (λ s. s)

  unfoldable pub soft_delete : String → String → RequestContext → ℕ → M Accounts (Unit {0})
  soft_delete user_id actor_id context now =
      write_row user_id (set_deleted now) (emit (user_deleted user_id))
        (deletion_audit actor_id context)

  unfoldable pub restore : String → String → RequestContext → M Accounts (Unit {0})
  restore user_id actor_id context =
      write_row user_id set_restored (λ s. s)
        (write_audit "user.restored" (some actor_id) context (("actorId", text actor_id) ∷ []))
