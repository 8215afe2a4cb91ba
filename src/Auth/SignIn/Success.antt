-- ===== src/Auth/SignIn/Success.antt =====
-- What a sign-in of src/modules/auth/auth.service.ts needs to succeed, and what it opens.
use all_service_api.Auth.Token.Signed.{ended, generate_access_token-ok}
use all_service_api.Common.{
  if◌then◌else◌, Bool-cases, Option-cases, or_else, account_locked, account_disabled, mfa_invalid,
  unauthorized, Result, ok, require, resume-ok, require-ok, run_if-true, run_if-false, ℕ, String,
  ◌≡◌, refl, sym, ap, ◌∙◌, ◌≢◌, ◌⊎◌, inl, inr, Bool, true, false, not, some, Memᴰ, arith, eq_refl,
}
use all_service_api.Redis.{get, session_key}
use all_service_api.Users.State.{
  UserWithSecrets, find_by_email_with_secrets, to_with_secrets, is_account_of, UserSafe,
}
use all_service_api.Users.Account.{record_login_success}
use all_service_api.Auth.Mfa.{verify_code}
use all_service_api.Auth.Password.{verify}
use all_service_api.Auth.Strategy.{is_locked_at}
use all_service_api.Auth.State.{User, Accounts, session, SessionMetadata}
use all_service_api.Auth.Session.{create}
use all_service_api.Auth.Credentials.{SignInEnv, LoginContext}
use all_service_api.Auth.Token.{generate_access_token}
use all_service_api.Auth.SignIn.{
  assert_account_usable, login, login_user, login_verified, login_refused, login_with_code,
  issue_mfa_challenge, handle_login_failure, complete_login, issue_tokens, sign_input,
}
use all_service_api.Auth.Response.{
  LoginDto, LoginResponse, has_code, build_auth_response, signed_in, AuthResponse, Draws, Tokens,
}

module _ (env : SignInEnv) where
  -- The session that a sign-in opens.
  abbrev pub IsOpened : String → LoginContext → Draws → ℕ → Accounts → Type 0
  IsOpened user_id context draws now s =
      (m : SessionMetadata) × (get (session_key env.users.auth.region user_id draws.session_id)
          s.redis
        ≡ some (session m))
      × (m.refresh_token_hash ≡ env.users.auth.hash draws.refresh_token)

  issue_tokens-IsOpened :
      (user : UserSafe) (context : LoginContext) (draws : Draws) (now : ℕ) (s s' : Accounts)
      (tokens : Tokens)
      → issue_tokens env user context draws now s ≡ (ok tokens, s')
      → IsOpened user.id context draws now s' × (tokens.refresh_token ≡ draws.refresh_token)
  unfolding issue_tokens create
  issue_tokens-IsOpened user context draws now s s' tokens e =
      let s1 = ended (
        create env.users.auth user.id context.device_info context.ip_hash draws.session_id
          draws.refresh_token now s) in
      let (token, (s2, f, g)) =
        resume-ok
          (generate_access_token env (sign_input env user draws.session_id) now draws.signing s1) _
          tokens s' e in
      let same : s1 ≡ s' =
        generate_access_token-ok env (sign_input env user draws.session_id) now draws.signing token
          s1 s2 f
        ∙ ap ended g in
      let m : SessionMetadata = record {
        session_id = draws.session_id;
        device_info = context.device_info;
        ip_hash = context.ip_hash;
        refresh_token_hash = env.users.auth.hash draws.refresh_token;
        created_at = now;
        last_active_at = now;
      } in
      let key = session_key env.users.auth.region user.id draws.session_id in
      let stored : get key s1.redis ≡ some (session m) =
        env.users.auth.server.get-set key (session m) env.users.auth.refresh_ttl_seconds s.redis key
        ∙ rw (eq_refl key) refl in
      ((m, rw (sym same) stored, refl), cc)

  -- The end of a sign-in opens the session that it answers with.
  complete_login-IsOpened :
      (user : UserWithSecrets) (context : LoginContext) (draws : Draws) (now : ℕ) (s s' : Accounts)
      (r : AuthResponse)
      → complete_login env user context draws now s ≡ (ok (signed_in r), s')
      → IsOpened user.safe.id context draws now s'
        × (r.refresh_token ≡ some draws.refresh_token)
        × (r.user.id ≡ user.safe.id)
  unfolding complete_login
  complete_login-IsOpened user context draws now s s' r e =
      let (u, (s1, f, g)) =
        resume-ok (record_login_success env.users user.safe.id context.ip_hash now s) _
          (signed_in r) s' e in
      let (tokens, (s2, h, i)) =
        resume-ok (issue_tokens env user.safe context draws now s1) _ (signed_in r) s' g in
      let (opened, token) = issue_tokens-IsOpened user.safe context draws now s1 s2 tokens h in
      let answered_with : r ≡ build_auth_response user.safe tokens = cc in
      let (m, stored, digest) = opened in
      (
        (m, rw (sym (ap ended i)) stored, digest),
        ap (λ (x : AuthResponse). x.refresh_token) answered_with ∙ ap some token,
        ap (λ (x : AuthResponse). x.user.id) answered_with,
      )

  -- The second factor: none is set up, or the given code is accepted.
  abbrev pub HasSecondFactor : UserWithSecrets → LoginDto → ℕ → Accounts → Type 0
  HasSecondFactor user dto now s =
      (user.safe.mfa_enabled ≡ false)
      ⊎ ((has_code dto.mfa_code ≡ true)
          × ((verify_code env user.safe.id (or_else dto.mfa_code "") now s).0 ≡ ok true))

  abbrev Opens : UserWithSecrets → LoginContext → Draws → ℕ → Accounts → AuthResponse → Type 0
  Opens user context draws now s r =
      IsOpened user.safe.id context draws now s
      × (r.refresh_token ≡ some draws.refresh_token)
      × (r.user.id ≡ user.safe.id)

  login_with_code-Opens :
      (user : UserWithSecrets) (code : String) (context : LoginContext) (draws : Draws) (now : ℕ)
      (s s' : Accounts) (r : AuthResponse)
      → login_with_code env user code context draws now s ≡ (ok (signed_in r), s')
      → ((verify_code env user.safe.id code now s).0 ≡ ok true) × Opens user context draws now s' r
  unfolding login_with_code
  login_with_code-Opens user code context draws now s s' r e =
      let (valid, (s1, f, g)) =
        resume-ok (verify_code env user.safe.id code now s) _ (signed_in r) s' e in
      let (u, (s2, h, i)) =
        resume-ok (require valid (unauthorized mfa_invalid) s1) _ (signed_in r) s' g in
      let (accepted, _) = require-ok valid (unauthorized mfa_invalid) s1 s2 u h in
      (
        ap (λ (x : Result Bool × Accounts). x.0) f ∙ ap ok accepted,
        complete_login-IsOpened user context draws now s2 s' r i,
      )

  login_verified-Opens :
      (user : UserWithSecrets) (dto : LoginDto) (context : LoginContext) (draws : Draws) (now : ℕ)
      (s s' : Accounts) (r : AuthResponse)
      → login_verified env user dto context draws now s ≡ (ok (signed_in r), s')
      → HasSecondFactor user dto now s × Opens user context draws now s' r
  unfolding login_verified issue_mfa_challenge
  login_verified-Opens user dto context draws now s s' r e =
      let coded = login_with_code env user (or_else dto.mfa_code "") context draws now in
      let challenged = issue_mfa_challenge env user draws.opaque_token in
      let second = if has_code dto.mfa_code then coded else challenged in
      elim (Bool-cases user.safe.mfa_enabled) [
        | inr plain ↦
            let one =
              run_if-true (not user.safe.mfa_enabled) (complete_login env user context draws now)
                second s (rw plain refl) in
            (inl plain, complete_login-IsOpened user context draws now s s' r (sym one ∙ e))
        | inl enabled ↦
            let f =
              sym (
                run_if-false (not user.safe.mfa_enabled) (complete_login env user context draws now)
                  second s (rw enabled refl))
              ∙ e in
            elim (Bool-cases (has_code dto.mfa_code)) [
              | inr absent ↦
                  let g =
                    sym (run_if-false (has_code dto.mfa_code) coded challenged s absent) ∙ f in
                  cc
              | inl given ↦
                  let (accepted, opens) =
                    login_with_code-Opens user (or_else dto.mfa_code "") context draws now s s' r
                      (sym (run_if-true (has_code dto.mfa_code) coded challenged s given) ∙ f) in
                  (inr (given, accepted), opens)
            ]
      ]

  login_refused-throws :
      (user : UserWithSecrets) (context : LoginContext) (now : ℕ) (s s' : Accounts)
      (r : LoginResponse)
      → login_refused env user context now s ≢ (ok r, s')
  unfolding login_refused
  login_refused-throws user context now s s' r e =
      let (u, (s1, f, g)) = resume-ok (handle_login_failure env user context now s) _ r s' e in cc

  login_user-Opens :
      (user : UserWithSecrets) (dto : LoginDto) (context : LoginContext) (draws : Draws) (now : ℕ)
      (s s' : Accounts) (r : AuthResponse)
      → login_user env user dto context draws now s ≡ (ok (signed_in r), s')
      → (is_locked_at user now ≡ false)
        × (user.safe.is_active ≡ true)
        × (verify env dto.password user.password_hash ≡ true)
        × HasSecondFactor user dto now s
        × Opens user context draws now s' r
  unfolding login_user
  login_user-Opens user dto context draws now s s' r e =
      let right = login_verified env user dto context draws now in
      let wrong = login_refused env user context now in
      let (u, (s3, f, g)) = resume-ok (assert_account_usable env user now s) _ (signed_in r) s' e in
      let (v, (s1, h, i)) =
        resume-ok (require (not (is_locked_at user now)) (unauthorized account_locked) s) _ u s3
          f in
      let (open_now, e1) =
        require-ok (not (is_locked_at user now)) (unauthorized account_locked) s s1 v h in
      let (active, e2) = require-ok user.safe.is_active (unauthorized account_disabled) s1 s3 u i in
      let back : s3 ≡ s = sym (e1 ∙ e2) in
      let at_start = rw back at g in
      elim (Bool-cases (verify env dto.password user.password_hash)) [
        | inr v ↦ absurd (
            login_refused-throws user context now s s' (signed_in r) (
              sym (run_if-false (verify env dto.password user.password_hash) right wrong s v)
              ∙ at_start))
        | inl v ↦
            let (second, opens) = login_verified-Opens user dto context draws now s s' r (
              sym (run_if-true (verify env dto.password user.password_hash) right wrong s v)
              ∙ at_start) in
            (ground (arith, open_now), active, v, second, opens)
      ]

  -- A sign-in that is answered with tokens names a stored account that is not deleted, by its address;
  -- no lock of it is pending and it is active; the password is the one of its hash; and where a second
  -- factor is set up, the code given is accepted. Afterwards the session is in Redis with the digest
  -- of the refresh token that the answer carries, and the answer is about that account.
  pub login_signs_in :
      (dto : LoginDto) (context : LoginContext) (draws : Draws) (now : ℕ) (s s' : Accounts)
      (r : AuthResponse)
      → login env dto context draws now s ≡ (ok (signed_in r), s')
      → (row : User) × Memᴰ row s.users
        × (is_account_of (env.users.normalise_email dto.email) row ≡ true)
        × (is_locked_at (to_with_secrets row) now ≡ false)
        × (row.is_active ≡ true)
        × (verify env dto.password row.password_hash ≡ true)
        × HasSecondFactor (to_with_secrets row) dto now s
        × IsOpened row.id context draws now s'
        × (r.refresh_token ≡ some draws.refresh_token)
        × (r.user.id ≡ row.id)
  unfolding login find_by_email_with_secrets
  login_signs_in dto context draws now s s' r e =
      let test = is_account_of (env.users.normalise_email dto.email) in
      elim (Option-cases (env.users.auth.db.find_first test s.users)) [
        | inl absent ↦ let f = rw absent at e in cc
        | inr (row, there) ↦
            let f : login_user env (to_with_secrets row) dto context draws now s
                ≡ (ok (signed_in r), s') =
              rw there at e in
            let (m, hit) = env.users.auth.db.found test s.users row there in
            let (l, a, v, second, (opened, token, same)) =
              login_user-Opens (to_with_secrets row) dto context draws now s s' r f in
            (row, m, hit, l, a, v, second, opened, token, same)
      ]
