-- ===== src/Auth/Recovery.antt =====
-- src/modules/auth/auth.service.ts: verified addresses, forgotten and changed passwords, and turning MFA
-- on and off.
pub mod Reset
use all_service_api.Common.{
  if◌then◌else◌, invalid_credentials, mfa_invalid, verification_token_invalid, reset_token_invalid,
  bad_request, unauthorized, M, pure, ◌>>=◌, ◌>>◌, gets, modify, require, some_or, ℕ, ◌*◌, String,
  Bool, true, false, Option, none, some, [], ◌∷◌, str_eq,
}
use all_service_api.Redis.{get, email_verify, password_reset}
use all_service_api.Auth.State.{
  Accounts, RequestContext, plain, text, send, password_reset_mail, password_changed_mail,
  mfa_enabled_mail,
}
use all_service_api.Auth.Session
use all_service_api.Auth.Credentials.{SignInEnv, truthy}
use all_service_api.Auth.Password.{as_plain, hash, verify, assert_password_acceptable}
use all_service_api.Auth.Mfa.{verify_setup, verify_code, disable}
use all_service_api.Auth.Response.{write_auth_audit}
use all_service_api.Users.State.{
  UserWithSecrets, find_by_id_or_fail, find_by_id_with_secrets, find_by_email,
}
use all_service_api.Users.Account.{update_password, mark_email_verified}

pub record ChangePasswordDto : Type 0 where
  pub current_password : String
  pub new_password : String

module _ (env : SignInEnv) where
  -- `redis.get` of a token's key, where an empty text counts as none.
  abbrev pub read_token : String → Accounts → Option String
  read_token key s = truthy (as_plain (get key s.redis))

  abbrev pub drop_key : String → Accounts → Accounts
  drop_key key s = record s { redis = env.users.auth.server.del key s.redis }

  unfoldable pub verify_email : String → RequestContext → M Accounts (Unit {0})
  verify_email token context = do
    let key = email_verify env.users.auth.region token
    found ← gets (read_token key)
    user_id ← some_or (bad_request verification_token_invalid) found
    mark_email_verified env.users user_id context
    modify (drop_key key)
    modify (write_auth_audit "auth.email.verify" (some user_id) context [])

  unfoldable pub forgot_password : String → String → RequestContext → Accounts → Accounts
  forgot_password email token context s =
      let s1 =
        write_auth_audit "auth.password.reset.request" none context (("email", text email) ∷ [])
          s in
      elim (find_by_email env.users email s1) [
        | none ↦ s1
        | some user ↦ send (password_reset_mail user.email token) (record s1 {
          redis =
              env.users.auth.server.set (password_reset env.users.auth.region token) (plain user.id)
                3600 s1.redis;
        })
      ]

  -- What `resetPassword` does with the account that its token names.
  unfoldable pub reset_of :
      (key user_id password salt : String) (breach_range : Option String)
      → RequestContext
      → ℕ
      → M Accounts (Unit {0})
  reset_of key user_id password salt breach_range context now = do
    assert_password_acceptable env password breach_range
    update_password env.users user_id (hash env salt password) context now
    modify (Session.revoke_all env.users.auth user_id context "password_reset")
    modify (drop_key key)
    modify (write_auth_audit "auth.password.reset" (some user_id) context [])

  unfoldable pub reset_password :
      (token password salt : String) (breach_range : Option String)
      → RequestContext
      → ℕ
      → M Accounts (Unit {0})
  unfolding reset_of
  reset_password token password salt breach_range context now = do
    let key = password_reset env.users.auth.region token
    found ← gets (read_token key)
    user_id ← some_or (bad_request reset_token_invalid) found
    reset_of key user_id password salt breach_range context now

  -- A user without a password hash counts as none.
  abbrev with_password : Option UserWithSecrets → Option UserWithSecrets
  with_password none = none
  with_password (some user) = if str_eq user.password_hash "" then none else some user

  unfoldable pub require_password : String → String → M Accounts UserWithSecrets
  require_password user_id password = do
    found ← gets (λ s. with_password (find_by_id_with_secrets env.users user_id s))
    user ← some_or (unauthorized invalid_credentials) found
    require (verify env password user.password_hash) (unauthorized invalid_credentials)
    pure user

  unfoldable pub change_password :
      (user_id : String)
      → ChangePasswordDto
      → (salt : String) (breach_range : Option String) (session_id : String) → RequestContext
      → ℕ
      → M Accounts (Unit {0})
  unfolding require_password
  change_password user_id dto salt breach_range session_id context now = do
    user ← require_password user_id dto.current_password
    assert_password_acceptable env dto.new_password breach_range
    update_password env.users user_id (hash env salt dto.new_password) context now
    modify (Session.revoke_all_except env.users.auth user_id session_id context)
    modify (send (password_changed_mail user.safe.email))
    modify (write_auth_audit "auth.password.change" (some user_id) context [])

  finish_mfa : String → RequestContext → M Accounts Bool
  finish_mfa user_id context = do
    user ← find_by_id_or_fail env.users user_id
    modify (send (mfa_enabled_mail user.email))
    modify (write_auth_audit "auth.mfa.enable" (some user_id) context [])
    pure true

  unfoldable pub mfa_verify_setup :
      (user_id code iv : String) → RequestContext → ℕ → M Accounts Bool
  unfolding finish_mfa
  mfa_verify_setup user_id code iv context now = do
    valid ← verify_setup env user_id code iv context now
    (if valid then finish_mfa user_id context else pure false)

  unfoldable pub mfa_disable :
      (user_id password code : String) → RequestContext → ℕ → M Accounts (Unit {0})
  unfolding require_password
  mfa_disable user_id password code context now = do
    _ ← require_password user_id password
    mfa_ok ← verify_code env user_id code now
    require mfa_ok (unauthorized mfa_invalid)
    disable env user_id context
    modify (write_auth_audit "auth.mfa.disable" (some user_id) context [])
