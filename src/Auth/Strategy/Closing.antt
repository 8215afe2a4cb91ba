-- ===== src/Auth/Strategy/Closing.antt =====
-- What src/modules/auth/listeners/user-events.listener.ts does to the access tokens of an account, and
-- how it composes with the operations of src/modules/user/user.service.ts that emit the events.
use all_service_api.Common.{
  ok, M, ℕ, String, ◌≡◌, refl, ◌∙◌, Bool, true, false, Option, none, some, [], ◌∷◌, ◌++◌, str_eq,
  eq_iff, eq_refl,
}
use all_service_api.Redis.{get, session_key, session_pattern, join}
use all_service_api.Auth.State.{
  emit, User, Accounts, RequestContext, UserEvent, user_created, user_locked, user_deleted,
  user_deactivated, user_roles_changed,
}
use all_service_api.Auth.Session.{revoke_all}
use all_service_api.Auth.Session.Revocation.{revoke_all_complete}
use all_service_api.Auth.Credentials.{SignInEnv, JwtPayload}
use all_service_api.Auth.Strategy.{on_event, revoke_and_log, system_context}
use all_service_api.Users.Account.{
  deletion_audit, lock_audit, soft_delete, lock, require_tenant, set_deleted, set_lock,
}
use all_service_api.Users.Rows.{write_row-row}
use all_service_api.Auth.Strategy.Accepts.{IsRefused, validate-ended}
use all_service_api.Prisma.Keys.{IsOnly}
use all_service_api.Users.State.{has_user_id}

-- The events that close an account.
abbrev pub closes : UserEvent → String → Bool
closes (user_locked user_id reason until) id = str_eq user_id id
closes (user_deleted user_id) id = str_eq user_id id
closes (user_deactivated user_id) id = str_eq user_id id
closes _ id = false

-- The server's glob matching finds the keys of every session of the user.
abbrev pub FindsSessions : SignInEnv → String → Type 0
FindsSessions env user_id =
    (jti : String)
    → env.users.auth.server.matches (session_pattern env.users.auth.region user_id)
        (session_key env.users.auth.region user_id jti)
      ≡ true

module _ (env : SignInEnv) (user_id : String) (finds : FindsSessions env user_id) where
  pub get-revoke_all :
      (context : RequestContext) (reason : String) (s : Accounts) (jti : String)
      → get
          (session_key env.users.auth.region user_id jti)
          (revoke_all env.users.auth user_id context reason s).redis
        ≡ none
  get-revoke_all context reason s jti =
      (revoke_all_complete env.users.auth user_id context reason s).0
        (session_key env.users.auth.region user_id jti)
      ∙ rw (finds jti) refl

  pub refused-no_session :
      (payload : JwtPayload) (now : ℕ) (s : Accounts)
      → payload.sub ≡ user_id
      → get (session_key env.users.auth.region user_id payload.jti) s.redis ≡ none
      → IsRefused env payload now s
  refused-no_session payload now s own absent =
      validate-ended env payload now s (rw own (rw absent refl))

  refused-revoked :
      (reason request_id : String) (s : Accounts) (payload : JwtPayload) (now : ℕ)
      → payload.sub ≡ user_id
      → IsRefused env payload now (revoke_and_log env user_id reason request_id s)
  refused-revoked reason request_id s payload now own =
      refused-no_session payload now (revoke_and_log env user_id reason request_id s) own
        (get-revoke_all (system_context env request_id) reason s payload.jti)

  pub refused-on_event :
      (event : UserEvent) (request_id : String) (s : Accounts) (payload : JwtPayload) (now : ℕ)
      → closes event user_id ≡ true
      → payload.sub ≡ user_id
      → IsRefused env payload now (on_event env event request_id s)
  unfolding on_event
  refused-on_event (user_created id email) request_id s payload now c own = cc
  refused-on_event (user_deactivated id) request_id s payload now c own =
      rw ((eq_iff id user_id).0 c) (refused-revoked "user_deactivated" request_id s payload now own)
  refused-on_event (user_deleted id) request_id s payload now c own =
      rw ((eq_iff id user_id).0 c) (refused-revoked "user_deleted" request_id s payload now own)
  refused-on_event (user_locked id reason until) request_id s payload now c own =
      rw ((eq_iff id user_id).0 c)
        (refused-revoked (join ("user_locked:" ∷ reason ∷ [])) request_id s payload now own)
  refused-on_event (user_roles_changed id old new) request_id s payload now c own = cc

  abbrev pub SignsOut : UserEvent → M Accounts (Unit {0}) → Accounts → Type 0
  SignsOut event operation s =
      ((operation s).0 ≡ ok tt)
      × ((operation s).1.events ≡ s.events ++ event ∷ [])
      × ((request_id : String) (payload : JwtPayload) (later : ℕ)
          → payload.sub ≡ user_id
          → IsRefused env payload later (on_event env event request_id (operation s).1))

  -- Deleting an account, and locking it with or without an end and by an actor of no tenant scope,
  -- both succeed on the one row with the identifier and emit one event more; once the listener has
  -- handled it, every access token of the account is refused, whatever it claims, at any time.
  pub closing-SignsOut :
      (s : Accounts) (row : User) (actor_id reason : String) (until : Option ℕ)
      (context : RequestContext) (now : ℕ)
      → IsOnly (has_user_id user_id) s.users row
      → SignsOut (user_deleted user_id) (soft_delete env.users user_id actor_id context now) s
        × SignsOut
            (user_locked user_id reason until)
            (lock env.users user_id reason until (some actor_id) context none)
            s
  unfolding soft_delete lock require_tenant
  closing-SignsOut s row actor_id reason until context now only = (
    (
      rw
          (write_row-row env.users user_id s (set_deleted now) (emit (user_deleted user_id))
            (deletion_audit actor_id context) row only)
          refl,
      rw
          (write_row-row env.users user_id s (set_deleted now) (emit (user_deleted user_id))
            (deletion_audit actor_id context) row only)
          refl,
      λ request_id payload later own.
          refused-on_event (user_deleted user_id) request_id _ payload later (eq_refl user_id) own,
    ),
    (
      rw
          (write_row-row env.users user_id s (set_lock reason until)
            (emit (user_locked user_id reason until))
            (lock_audit reason until (some actor_id) context) row only)
          refl,
      rw
          (write_row-row env.users user_id s (set_lock reason until)
            (emit (user_locked user_id reason until))
            (lock_audit reason until (some actor_id) context) row only)
          refl,
      λ request_id payload later own.
          refused-on_event (user_locked user_id reason until) request_id _ payload later
            (eq_refl user_id) own,
    ),
  )
