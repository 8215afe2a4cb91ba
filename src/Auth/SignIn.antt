-- ===== src/Auth/SignIn.antt =====
-- src/modules/auth/auth.service.ts: registration, sign-in with its lockout and MFA, refresh and logout.
-- Metrics and product analytics are left out.
pub mod Lockout
mod Tests
pub mod Guessing
pub mod Success
pub mod GuessBound
use all_service_api.Auth.Response.{
  Draws, Tokens, AuthResponseUser, AuthResponse, LoginResponse, RegisterDto, LoginDto,
  RefreshResponse, failed_login_lock_threshold, failed_login_lock_ms, request_of, has_code,
  challenge_key, build_auth_response, write_auth_audit, mfa_required, signed_in,
}
use all_service_api.Common.{
  leb, if◌then◌else◌, or_else, all, invalid_credentials, account_locked, account_disabled,
  mfa_invalid, email_already_exists, unauthorized, conflict, ok, M, pure, throw, ◌>>=◌, ◌>>◌, gets,
  modify, require, some_or, ℕ, ◌+◌, ◌*◌, String, false, not, Option, none, some, [], ◌∷◌,
}
use all_service_api.Access.Roles.{flatten_roles}
use all_service_api.Redis.{get, cache_key, email_verify, join}
use all_service_api.Auth.State.{
  Accounts, RequestContext, AuditValue, RedisValue, plain, challenge, text, write_audit, send,
  verification_mail, account_locked_mail,
}
use all_service_api.Auth.Session
use all_service_api.Auth.Session.{RefreshResult}
use all_service_api.Auth.Credentials.{SignInEnv, JwtSignInput, LoginContext}
use all_service_api.Auth.Password.{hash, verify, assert_password_acceptable}
use all_service_api.Auth.Token.{SigningAnswer, generate_access_token}
use all_service_api.Auth.Mfa.{verify_code}
use all_service_api.Auth.Strategy.{is_locked_at}
use all_service_api.Users.State.{
  UserSafe, UserWithSecrets, find_by_id_or_fail, find_by_email_with_secrets, exists_by_email,
}
use all_service_api.Users.Profile
use all_service_api.Users.Account.{record_login_success, increment_failed_login_attempts, lock}

module _ (env : SignInEnv) where
  abbrev pub sign_input : UserSafe → String → JwtSignInput
  sign_input user session_id = record {
    sub = user.id;
    email = user.email;
    roles = user.roles;
    permissions = flatten_roles user.roles;
    tenant_id = user.tenant_id;
    jti = session_id;
  }

  unfoldable pub issue_tokens : UserSafe → LoginContext → Draws → ℕ → M Accounts Tokens
  issue_tokens user context draws now = do
    session ←
        Session.create env.users.auth user.id context.device_info context.ip_hash draws.session_id
          draws.refresh_token now
    access_token ← generate_access_token env (sign_input user session.session_id) now draws.signing
    pure (record {
      access_token = access_token;
      refresh_token = session.refresh_token;
      expires_in = env.access_ttl_seconds;
      session_id = session.session_id;
    })

  unfoldable pub queue_verification_email : UserSafe → String → Accounts → Accounts
  queue_verification_email user token s = send (verification_mail user.email token) (record s {
    redis =
        env.users.auth.server.set (email_verify env.users.auth.region token) (plain user.id) 86400
          s.redis;
  })

  unfoldable pub register : RegisterDto → LoginContext → Draws → ℕ → M Accounts AuthResponse
  unfolding queue_verification_email issue_tokens
  register dto context draws now = do
    assert_password_acceptable env dto.password draws.breach_range
    exists ← gets (exists_by_email env.users dto.email)
    require (not exists) (conflict email_already_exists)
    created ←
        Profile.create env.users
          (record {
            email = dto.email;
            password_hash = hash env draws.salt dto.password;
            first_name = dto.first_name;
            last_name = dto.last_name;
            roles = none;
            tenant_id = none;
            email_verified = some false;
          })
          draws.user_id
    modify (queue_verification_email created draws.opaque_token)
    tokens ← issue_tokens created context draws now
    modify (
        write_auth_audit "auth.register" (some created.id) (request_of context)
          (("email", text created.email) ∷ []))
    pure (build_auth_response created tokens)

  abbrev pub assert_account_usable : UserWithSecrets → ℕ → M Accounts (Unit {0})
  assert_account_usable user now = do
    require (not (is_locked_at user now)) (unauthorized account_locked)
    require user.safe.is_active (unauthorized account_disabled)

  -- `attempts >= FAILED_LOGIN_LOCK_THRESHOLD`
  unfoldable pub lock_after : ℕ → UserWithSecrets → LoginContext → ℕ → M Accounts (Unit {0})
  lock_after attempts user context now =
      if leb failed_login_lock_threshold attempts
      then (do
        lock env.users user.safe.id "too_many_failed_attempts" (some (now + failed_login_lock_ms))
            none (request_of context) none
        modify (send (account_locked_mail user.safe.email (now + failed_login_lock_ms))))
      else pure tt

  unfoldable pub handle_login_failure : UserWithSecrets → LoginContext → ℕ → M Accounts (Unit {0})
  unfolding lock_after
  handle_login_failure user context now = do
    attempts ← increment_failed_login_attempts env.users user.safe.id
    lock_after attempts user context now

  unfoldable pub issue_mfa_challenge : UserWithSecrets → String → M Accounts LoginResponse
  issue_mfa_challenge user token s = (
    ok (mfa_required token 300),
    record s {
      redis =
          env.users.auth.server.set (challenge_key env.users.auth.region token)
            (challenge user.safe.id) 300 s.redis;
    },
  )

  -- The end of `login`.
  unfoldable pub complete_login :
      UserWithSecrets → LoginContext → Draws → ℕ → M Accounts LoginResponse
  unfolding issue_tokens
  complete_login user context draws now = do
    record_login_success env.users user.safe.id context.ip_hash now
    tokens ← issue_tokens user.safe context draws now
    modify (
        write_auth_audit "auth.login" (some user.safe.id) (request_of context)
          (("sessionId", text tokens.session_id) ∷ []))
    pure (signed_in (build_auth_response user.safe tokens))

  unfoldable pub login_with_code :
      UserWithSecrets → String → LoginContext → Draws → ℕ → M Accounts LoginResponse
  unfolding complete_login
  login_with_code user code context draws now = do
    mfa_valid ← verify_code env user.safe.id code now
    require mfa_valid (unauthorized mfa_invalid)
    complete_login user context draws now

  unfoldable pub login_verified :
      UserWithSecrets → LoginDto → LoginContext → Draws → ℕ → M Accounts LoginResponse
  unfolding complete_login login_with_code issue_mfa_challenge
  login_verified user dto context draws now =
      if not user.safe.mfa_enabled
      then complete_login user context draws now
      else if has_code dto.mfa_code
      then login_with_code user (or_else dto.mfa_code "") context draws now
      else issue_mfa_challenge user draws.opaque_token

  unfoldable pub login_refused : UserWithSecrets → LoginContext → ℕ → M Accounts LoginResponse
  unfolding handle_login_failure
  login_refused user context now = do
    handle_login_failure user context now
    throw (unauthorized invalid_credentials)

  unfoldable pub login_user :
      UserWithSecrets → LoginDto → LoginContext → Draws → ℕ → M Accounts LoginResponse
  unfolding login_verified login_refused
  login_user user dto context draws now = do
    assert_account_usable user now
    (if verify env dto.password user.password_hash
        then login_verified user dto context draws now
        else login_refused user context now)

  unfoldable pub login : LoginDto → LoginContext → Draws → ℕ → M Accounts LoginResponse
  unfolding login_user
  login dto context draws now = do
    found ← gets (find_by_email_with_secrets env.users dto.email)
    user ← some_or (unauthorized invalid_credentials) found
    login_user user dto context draws now

  unfoldable pub refresh : String → LoginContext → Draws → ℕ → M Accounts RefreshResponse
  refresh raw_refresh_token context draws now = do
    result ←
        Session.refresh env.users.auth raw_refresh_token (request_of context) draws.refresh_token
          now
    user ← find_by_id_or_fail env.users result.user_id
    access_token ← generate_access_token env (sign_input user result.session_id) now draws.signing
    pure (record {
      access_token = access_token;
      refresh_token = result.refresh_token;
      expires_in = env.access_ttl_seconds;
    })

  unfoldable pub logout : String → String → RequestContext → Accounts → Accounts
  logout user_id session_id context s =
      write_auth_audit "auth.logout" (some user_id) context (("sessionId", text session_id) ∷ [])
        (Session.revoke env.users.auth session_id user_id context s)

  unfoldable pub logout_all : String → RequestContext → Accounts → Accounts
  logout_all user_id context s =
      write_auth_audit "auth.logout.all" (some user_id) context []
        (Session.revoke_all env.users.auth user_id context "user_logout_all" s)

  abbrev as_challenge : Option RedisValue → Option String
  as_challenge (some (challenge user_id)) = some user_id
  as_challenge _ = none

  abbrev taken : String → Option String → M Accounts (Option String)
  taken key none s = (ok none, s)
  taken key (some user_id) s =
      (ok (some user_id), record s { redis = env.users.auth.server.del key s.redis })

  unfoldable pub consume_mfa_challenge : String → M Accounts (Option String)
  consume_mfa_challenge token s =
      let key = challenge_key env.users.auth.region token in
      taken key (as_challenge (get key s.redis)) s
