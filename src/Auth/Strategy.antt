-- ===== src/Auth/Strategy.antt =====
-- src/modules/auth/strategies/jwt.strategy.ts: which verified payloads sign a request in, and
-- src/modules/auth/listeners/user-events.listener.ts: what becomes of the sessions of an account that
-- is locked, deleted or deactivated.
pub mod Accepts
pub mod Closing
use all_service_api.Common.{
  ltb, account_locked, account_disabled, token_invalid, token_revoked, unauthorized, M, pure, ◌>>=◌,
  ◌>>◌, gets, require, some_or, ℕ, ◌*◌, String, Bool, false, not, ◌&&◌, Option, none, some, List,
  [], ◌∷◌,
}
use all_service_api.Redis.{join}
use all_service_api.Auth.State.{
  Accounts, RequestContext, texts, write_audit, UserEvent, user_created, user_locked, user_deleted,
  user_deactivated, user_roles_changed,
}
use all_service_api.Auth.Session.{get_current_refresh_token_hash, revoke_all}
use all_service_api.Auth.Credentials.{SignInEnv, JwtPayload, truthy}
use all_service_api.Users.State.{UserWithSecrets, find_by_id_with_secrets}

pub record AuthenticatedUser : Type 0 where
  pub id : String
  pub email : String
  pub roles : List String
  pub permissions : List String
  pub tenant_id : Option String
  pub session_id : String

-- `isLocked && lockedUntil && lockedUntil.getTime() > Date.now()`, a moment after 1970.
abbrev pub locked_past : Option ℕ → ℕ → Bool
locked_past none now = false
locked_past (some until) now = ltb now until

abbrev pub is_locked_at : UserWithSecrets → ℕ → Bool
is_locked_at user now = user.safe.is_locked && locked_past user.safe.locked_until now

-- `passwordChangedAt && passwordChangedAt.getTime() / 1_000 > payload.iat`
abbrev pub changed_after : Option ℕ → ℕ → Bool
changed_after none iat = false
changed_after (some changed_at) iat = ltb (iat * 1000) changed_at

module _ (env : SignInEnv) where
  unfoldable pub validate : JwtPayload → ℕ → M Accounts AuthenticatedUser
  validate payload now = do
    found ← gets (find_by_id_with_secrets env.users payload.sub)
    user ← some_or (unauthorized token_invalid) found
    require user.safe.is_active (unauthorized account_disabled)
    require (not (is_locked_at user now)) (unauthorized account_locked)
    require (not (changed_after user.password_changed_at payload.iat)) (unauthorized token_revoked)
    hash ← gets (get_current_refresh_token_hash env.users.auth payload.sub payload.jti)
    _ ← some_or (unauthorized token_revoked) (truthy hash)
    pure (record {
      id = user.safe.id;
      email = user.safe.email;
      roles = payload.roles;
      permissions = payload.permissions;
      tenant_id = payload.tenant_id;
      session_id = payload.jti;
    })

  -- The context of what the system does by itself.
  abbrev pub system_context : String → RequestContext
  system_context request_id = record {
    ip_hash = "system";
    user_agent = some "system";
    request_id = request_id;
  }

  abbrev pub revoke_and_log : String → String → String → Accounts → Accounts
  revoke_and_log user_id reason request_id s =
      revoke_all env.users.auth user_id (system_context request_id) reason s

  unfoldable pub on_event : UserEvent → String → Accounts → Accounts
  on_event (user_created user_id email) request_id s = s
  on_event (user_deactivated user_id) request_id s =
      revoke_and_log user_id "user_deactivated" request_id s
  on_event (user_deleted user_id) request_id s = revoke_and_log user_id "user_deleted" request_id s
  on_event (user_locked user_id reason until) request_id s =
      revoke_and_log user_id (join ("user_locked:" ∷ reason ∷ [])) request_id s
  on_event (user_roles_changed user_id old_roles new_roles) request_id s =
      write_audit "auth.roles.propagated" (some user_id) (system_context request_id)
        (("oldRoles", texts old_roles) ∷ ("newRoles", texts new_roles) ∷ []) s
