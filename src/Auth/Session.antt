-- ===== src/Auth/Session.antt =====
-- src/modules/auth/session.service.ts: refresh-token families in the database and session metadata
-- in Redis.

pub mod Rotation
pub mod Revocation
use mathlib.Core.Option
use all_service_api.Common.{
  ltb, if◌then◌else◌, all, token_expired, token_invalid, token_revoked, refresh_token_reused,
  unauthorized, record_missing, Result, ok, err, M, pure, ◌>>=◌, ◌>>◌, modify, require, ℕ, ◌+◌, ◌*◌,
  String, Bool, true, false, not, ◌&&◌, Option, none, some, List, [], ◌∷◌, ◌++◌, map, str_eq,
}
use all_service_api.Redis.{Redis, get, session_key, session_pattern}
use all_service_api.Auth.State.{
  RefreshTokenFamily, SessionMetadata, RedisValue, session, Accounts, RequestContext, AuthEnv,
  as_session, write_audit, text,
}

pub record SessionCreateResult : Type 0 where
  pub session_id : String
  pub refresh_token : String
  pub expires_at : ℕ

pub record SessionInfo : Type 0 where
  pub session_id : String
  pub device_info : Option String
  pub ip_hash : String
  pub created_at : ℕ
  pub last_active_at : ℕ
  pub is_current : Bool

pub record RefreshResult : Type 0 where
  pub user_id : String
  pub session_id : String
  pub refresh_token : String

abbrev pub session_recent_activity_threshold_ms : ℕ
session_recent_activity_threshold_ms = 5 * 60 * 1000

-- `for (const key of keys) await this.redis.del(key)`
unfoldable pub del_all :
    Redis → List String → List (String × RedisValue) → List (String × RedisValue)
del_all server [] contents = contents
del_all server (key ∷ keys) contents = del_all server keys (server.del key contents)

-- The loop of `revokeAllExcept`.
unfoldable pub del_all_but :
    Redis → String → List String → List (String × RedisValue) → List (String × RedisValue)
del_all_but server kept [] contents = contents
del_all_but server kept (key ∷ keys) contents =
    del_all_but server kept keys (if str_eq key kept then contents else server.del key contents)

abbrev pub has_hash : String → RefreshTokenFamily → Bool
has_hash hash f = str_eq f.current_token_hash hash

abbrev pub has_id : String → RefreshTokenFamily → Bool
has_id id f = str_eq f.id id

abbrev pub is_live_of : String → RefreshTokenFamily → Bool
is_live_of user_id f = str_eq f.user_id user_id && not f.is_revoked

abbrev pub revoke_with : String → RefreshTokenFamily → RefreshTokenFamily
revoke_with reason f = record f { is_revoked = true; revoked_reason = some reason }

abbrev pub rotate_to : String → ℕ → RefreshTokenFamily → RefreshTokenFamily
rotate_to hash now f = record f { current_token_hash = hash; last_used_at = now }

abbrev store_family :
    Accounts
    → Option (RefreshTokenFamily × List RefreshTokenFamily)
    → Result RefreshTokenFamily × Accounts
store_family s none = (err record_missing, s)
store_family s (some (f, rows)) = (ok f, record s { families = rows })

module _ (env : AuthEnv) where
  unfoldable pub create :
      (user_id : String) (device_info : Option String) (ip_hash : String)
      (session_id refresh_token : String) (now : ℕ)
      → M Accounts SessionCreateResult
  create user_id device_info ip_hash session_id refresh_token now s =
      let expires_at = now + env.refresh_ttl_seconds * 1000 in
      let family : RefreshTokenFamily = record {
        id = session_id;
        user_id = user_id;
        current_token_hash = env.hash refresh_token;
        region = env.region;
        device_info = device_info;
        ip_hash = ip_hash;
        is_revoked = false;
        revoked_reason = none;
        expires_at = expires_at;
        last_used_at = now;
      } in
      let metadata : SessionMetadata = record {
        session_id = session_id;
        device_info = device_info;
        ip_hash = ip_hash;
        refresh_token_hash = env.hash refresh_token;
        created_at = now;
        last_active_at = now;
      } in
      (
        ok (record {
          session_id = session_id;
          refresh_token = refresh_token;
          expires_at = expires_at;
        }),
        record s {
          families = env.db.create family s.families;
          redis =
              env.server.set (session_key env.region user_id session_id) (session metadata)
                env.refresh_ttl_seconds s.redis;
        },
      )

  -- `deleteRedisSessions`
  unfoldable pub delete_redis_sessions : String → Accounts → Accounts
  unfolding del_all
  delete_redis_sessions user_id s =
      let keys = env.server.scan (session_pattern env.region user_id) s.redis in
      record s { redis = del_all env.server keys s.redis }

  -- The user's families that are not revoked are, with the reason.
  abbrev pub revoke_families : String → String → Accounts → Accounts
  revoke_families user_id reason s = record s {
    families = env.db.update_many (is_live_of user_id) (revoke_with reason) s.families;
  }

  -- `where: { currentTokenHash: incomingHash, isRevoked: true }`
  abbrev pub find_family_by_reuse : String → Accounts → Option RefreshTokenFamily
  find_family_by_reuse incoming_hash s =
      env.db.find_first (λ f. has_hash incoming_hash f && f.is_revoked) s.families

  abbrev handle_reuse : RefreshTokenFamily → RequestContext → Accounts → Accounts
  handle_reuse f context s =
      let s1 =
        delete_redis_sessions f.user_id (revoke_families f.user_id "token_reuse_detected" s) in
      let s2 =
        write_audit "auth.token.reuse_detected" (some f.user_id) context
          (("familyId", text f.id) ∷ []) s1 in
      record s2 { alerts = s2.alerts ++ "refresh_token_reuse_detected" ∷ [] }

  -- No family has the presented hash.
  refuse_unknown : Option RefreshTokenFamily → RequestContext → M Accounts RefreshResult
  refuse_unknown (some f) context s =
      (err (unauthorized refresh_token_reused), handle_reuse f context s)
  refuse_unknown none context s = (err (unauthorized token_invalid), s)

  -- The metadata with the new hash, if the session is still in Redis.
  abbrev pub touch_session : String → Option SessionMetadata → String → ℕ → Accounts → Accounts
  touch_session key none hash now s = s
  touch_session key (some m) hash now s =
      let updated = record m { refresh_token_hash = hash; last_active_at = now } in
      record s { redis = env.server.set key (session updated) env.refresh_ttl_seconds s.redis }

  unfoldable pub rotate : RefreshTokenFamily → String → ℕ → M Accounts RefreshResult
  rotate f new_token now = do
    _ ← (λ s.
        store_family s
          (env.db.update (has_id f.id) (rotate_to (env.hash new_token) now) s.families))
    let key = session_key env.region f.user_id f.id
    modify (λ s. touch_session key (as_session (get key s.redis)) (env.hash new_token) now s)
    pure (record { user_id = f.user_id; session_id = f.id; refresh_token = new_token })

  unfoldable pub refresh_found : RefreshTokenFamily → String → ℕ → M Accounts RefreshResult
  refresh_found f new_token now = do
    require (not f.is_revoked) (unauthorized token_revoked)
    require (ltb now f.expires_at) (unauthorized token_expired)
    rotate f new_token now

  unfoldable pub refresh_family :
      Option RefreshTokenFamily → String → RequestContext → String → ℕ → M Accounts RefreshResult
  unfolding refuse_unknown refresh_found
  refresh_family none incoming_hash context new_token now s =
      refuse_unknown (find_family_by_reuse incoming_hash s) context s
  refresh_family (some f) incoming_hash context new_token now s = refresh_found f new_token now s

  -- `new_token` is the random token that `generateRefreshToken` draws.
  unfoldable pub refresh : String → RequestContext → String → ℕ → M Accounts RefreshResult
  unfolding refresh_family
  refresh raw_refresh_token context new_token now s =
      let incoming_hash = env.hash raw_refresh_token in
      refresh_family (env.db.find_first (has_hash incoming_hash) s.families) incoming_hash context
        new_token now s

  unfoldable pub revoke : String → String → RequestContext → Accounts → Accounts
  revoke session_id user_id context s =
      let s1 = record s {
        redis = env.server.del (session_key env.region user_id session_id) s.redis;
      } in
      let own = λ (f : RefreshTokenFamily). has_id session_id f && is_live_of user_id f in
      let s2 = record s1 {
        families = env.db.update_many own (revoke_with "user_logout") s1.families;
      } in
      write_audit "auth.session.revoked" (some user_id) context
        (("sessionId", text session_id) ∷ []) s2

  unfoldable pub revoke_all : String → RequestContext → String → Accounts → Accounts
  unfolding delete_redis_sessions
  revoke_all user_id context reason s =
      let s1 = revoke_families user_id reason (delete_redis_sessions user_id s) in
      write_audit "auth.session.revoked.all" (some user_id) context (("reason", text reason) ∷ [])
        s1

  unfoldable pub revoke_all_except : String → String → RequestContext → Accounts → Accounts
  unfolding del_all_but
  revoke_all_except user_id keep_session_id context s =
      let keys = env.server.scan (session_pattern env.region user_id) s.redis in
      let keep_key = session_key env.region user_id keep_session_id in
      let others =
        λ (f : RefreshTokenFamily). is_live_of user_id f && not (has_id keep_session_id f) in
      let s1 = record s {
        redis = del_all_but env.server keep_key keys s.redis;
        families = env.db.update_many others (revoke_with "password_changed") s.families;
      } in
      write_audit "auth.session.revoked.all_except" (some user_id) context
        (("keepSessionId", text keep_session_id) ∷ []) s1

  abbrev session_info : String → SessionMetadata → SessionInfo
  session_info current_session_id m = record {
    session_id = m.session_id;
    device_info = m.device_info;
    ip_hash = m.ip_hash;
    created_at = m.created_at;
    last_active_at = m.last_active_at;
    is_current = str_eq m.session_id current_session_id;
  }

  abbrev add_info : String → Option SessionMetadata → List SessionInfo → List SessionInfo
  add_info current_session_id none infos = infos
  add_info current_session_id (some m) infos = session_info current_session_id m ∷ infos

  list_from : String → List String → List (String × RedisValue) → List SessionInfo
  list_from current_session_id [] contents = []
  list_from current_session_id (key ∷ keys) contents =
      add_info current_session_id (as_session (get key contents))
        (list_from current_session_id keys contents)

  unfoldable pub list_sessions : String → String → Accounts → List SessionInfo
  unfolding list_from
  list_sessions user_id current_session_id s =
      list_from current_session_id (env.server.scan (session_pattern env.region user_id) s.redis)
        s.redis

  -- `ttl` is what Redis answers of the key, with its negative answers as 0; a recent activity is
  -- not written again.
  abbrev touch_stale : String → Option SessionMetadata → ℕ → ℕ → Accounts → Accounts
  touch_stale key none ttl now s = s
  touch_stale key (some m) ttl now s =
      let updated = record m { last_active_at = now } in
      let effective_ttl = if ltb 0 ttl then ttl else env.refresh_ttl_seconds in
      if ltb now (m.last_active_at + session_recent_activity_threshold_ms)
      then s
      else record s { redis = env.server.set key (session updated) effective_ttl s.redis }

  unfoldable pub update_last_active : String → String → ℕ → ℕ → Accounts → Accounts
  update_last_active user_id session_id ttl now s =
      let key = session_key env.region user_id session_id in
      touch_stale key (as_session (get key s.redis)) ttl now s

  unfoldable pub get_current_refresh_token_hash : String → String → Accounts → Option String
  get_current_refresh_token_hash user_id session_id s =
      Option.map (λ m. m.refresh_token_hash)
        (as_session (get (session_key env.region user_id session_id) s.redis))
