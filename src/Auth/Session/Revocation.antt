-- ===== src/Auth/Session/Revocation.antt =====
-- What ends a user's sessions: logging out of all of them, and of all but one.
use mathlib.Core.Bool.{false≢true}
use all_service_api.Common.{
  if◌then◌else◌, Bool-cases, Option-cases, str_eq-of-ne, All, All-lookup, All-tabulate, String, ◌≡◌,
  refl, sym, ap, ◌∙◌, subst, inl, inr, Bool, true, false, not, ◌&&◌, none, List, [], ◌∷◌, Memᴰ,
  arith, str_eq, eq_iff,
}
use all_service_api.Prisma.{reject}
use all_service_api.Prisma.Keys.{All-reject, All-update, mem-update_kept}
use all_service_api.Redis.{session_key, Redis, get, session_pattern}
use all_service_api.Auth.State.{RefreshTokenFamily, Accounts, RequestContext, AuthEnv, RedisValue}
use all_service_api.Auth.Session.{
  has_id, revoke_all_except, del_all, del_all_but, delete_redis_sessions, revoke_all, is_live_of,
  revoke_with,
}

-- A key that is not among the deleted ones keeps its value.
get-del_all-kept :
    (server : Redis) (keys : List String) (contents : List (String × RedisValue)) (k : String)
    → All (λ key. str_eq key k ≡ false) keys
    → get k (del_all server keys contents) ≡ get k contents
unfolding del_all
get-del_all-kept server [] contents k others = refl
get-del_all-kept server (key ∷ keys) contents k (ne, others) =
    get-del_all-kept server keys (server.del key contents) k others
    ∙ ground (arith, server.get-del key contents k)

get-del_all-none :
    (server : Redis) (keys : List String) (contents : List (String × RedisValue)) (k : String)
    → get k contents ≡ none
    → get k (del_all server keys contents) ≡ none
unfolding del_all
get-del_all-none server [] contents k e = e
get-del_all-none server (key ∷ keys) contents k e =
    get-del_all-none server keys (server.del key contents) k
      (ground (arith, server.get-del key contents k))

get-del_all-gone :
    (server : Redis) (keys : List String) (contents : List (String × RedisValue)) (k : String)
    → Memᴰ k keys
    → get k (del_all server keys contents) ≡ none
unfolding del_all
get-del_all-gone server [] contents k m = elim m [ ]
get-del_all-gone server (key ∷ keys) contents k (Memᴰ.head e) =
    get-del_all-none server keys (server.del key contents) k
      (ground (arith, server.get-del key contents k, eq_iff key k))
get-del_all-gone server (key ∷ keys) contents k (Memᴰ.tail m) =
    get-del_all-gone server keys (server.del key contents) k m

-- A key that the pattern does not match is not among the scanned ones.
unmatched :
    (server : Redis) (pattern : String) (contents : List (String × RedisValue)) (k : String)
    → server.matches pattern k ≡ false
    → All (λ key. str_eq key k ≡ false) (server.scan pattern contents)
unmatched server pattern contents k miss =
    All-tabulate (λ key. str_eq key k ≡ false) (server.scan pattern contents)
      λ key m. str_eq-of-ne key k λ q.
        let hit : server.matches pattern key ≡ true =
          All-lookup (λ j. server.matches pattern j ≡ true) (server.scan pattern contents)
            (server.scan_sound pattern contents) m in
        false≢true (sym miss ∙ ap (server.matches pattern) (sym q) ∙ hit)

-- Deleting what a scan finds deletes what its pattern matches, and nothing else.
get-del_all-scan :
    (server : Redis) (pattern : String) (contents : List (String × RedisValue)) (k : String)
    → get k (del_all server (server.scan pattern contents) contents)
      ≡ (if server.matches pattern k then none else get k contents)
get-del_all-scan server pattern contents k = elim (Bool-cases (server.matches pattern k)) [
  | inl hit ↦ rw hit (elim (Option-cases (get k contents)) [
    | inl e ↦ get-del_all-none server (server.scan pattern contents) contents k e
    | inr (v, e) ↦
        get-del_all-gone server (server.scan pattern contents) contents k
          (server.scan_complete pattern contents k v hit e)
  ])
  | inr miss ↦ rw miss (
      get-del_all-kept server (server.scan pattern contents) contents k
        (unmatched server pattern contents k miss))
]

-- Deleting all but one key leaves that one out.
del_all_but-reject :
    (server : Redis) (kept : String) (keys : List String) (contents : List (String × RedisValue))
    → del_all_but server kept keys contents
      ≡ del_all server (reject (λ key. str_eq key kept) keys) contents
unfolding del_all del_all_but
del_all_but-reject server kept [] contents = refl
del_all_but-reject server kept (key ∷ keys) contents = elim (Bool-cases (str_eq key kept)) [
  | inl same ↦ rw same (del_all_but-reject server kept keys contents)
  | inr other ↦ rw other (del_all_but-reject server kept keys (server.del key contents))
]

others-reject :
    (kept : String) (keys : List String)
    → All (λ key. str_eq key kept ≡ false) (reject (λ key. str_eq key kept) keys)
others-reject kept [] = tt
others-reject kept (key ∷ keys) = elim (Bool-cases (str_eq key kept)) [
  | inl same ↦ rw same (others-reject kept keys)
  | inr other ↦ rw other (other, others-reject kept keys)
]

mem-reject :
    (kept : String) (keys : List String) (k : String)
    → Memᴰ k keys
    → str_eq k kept ≡ false
    → Memᴰ k (reject (λ key. str_eq key kept) keys)
mem-reject kept [] k m ne = elim m [ ]
mem-reject kept (key ∷ keys) k (Memᴰ.head e) ne =
    let other : str_eq key kept ≡ false = ap (λ j. str_eq j kept) (sym e) ∙ ne in
    rw other (Memᴰ.head e)
mem-reject kept (key ∷ keys) k (Memᴰ.tail m) ne = elim (Bool-cases (str_eq key kept)) [
  | inl same ↦ rw same (mem-reject kept keys k m ne)
  | inr other ↦ rw other (Memᴰ.tail (mem-reject kept keys k m ne))
]

module _ (env : AuthEnv) where
  -- Revoking every session of a user takes exactly the keys that the user's pattern matches out of
  -- Redis, leaves none of the user's families live, and keeps every family of another user and
  -- every one revoked before as it was.
  pub revoke_all_complete :
      (user_id : String) (context : RequestContext) (reason : String) (s : Accounts)
      → ((k : String)
          → get k (revoke_all env user_id context reason s).redis ≡ (
              if env.server.matches (session_pattern env.region user_id) k
              then none
              else get k s.redis))
        × (All
            (λ f. is_live_of user_id f ≡ false)
            (revoke_all env user_id context reason s).families)
        × ((f : RefreshTokenFamily)
            → Memᴰ f s.families
            → is_live_of user_id f ≡ false
            → Memᴰ f (revoke_all env user_id context reason s).families)
  unfolding revoke_all delete_redis_sessions
  revoke_all_complete user_id context reason s = (
    λ k. get-del_all-scan env.server (session_pattern env.region user_id) s.redis k,
    rw (env.db.update_many_lem (is_live_of user_id) (revoke_with reason) s.families) (
        All-update (λ f. is_live_of user_id f ≡ false) (is_live_of user_id) (revoke_with reason)
          s.families (λ f m p. ground arith) (λ f m p. p)),
    λ f m dead.
        rw (env.db.update_many_lem (is_live_of user_id) (revoke_with reason) s.families)
          (mem-update_kept (is_live_of user_id) (revoke_with reason) s.families f m dead),
  )

  -- What `revokeAllExcept` leaves in Redis.
  pub revoke_all_except-get :
      (user_id keep_session_id : String) (context : RequestContext) (s : Accounts) (k : String)
      → get k (revoke_all_except env user_id keep_session_id context s).redis ≡ (
          if str_eq k (session_key env.region user_id keep_session_id)
          then get k s.redis
          else if env.server.matches (session_pattern env.region user_id) k
          then none
          else get k s.redis)
  unfolding revoke_all_except
  revoke_all_except-get user_id keep_session_id context s k =
      let kept = session_key env.region user_id keep_session_id in
      let pattern = session_pattern env.region user_id in
      let keys = env.server.scan pattern s.redis in
      ap (get k) (del_all_but-reject env.server kept keys s.redis)
      ∙ elim (Bool-cases (str_eq k kept)) [
        | inl same ↦ rw same (
            get-del_all-kept env.server (reject (λ key. str_eq key kept) keys) s.redis k (
              subst
                (λ (j : String).
                  All (λ key. str_eq key j ≡ false) (reject (λ key. str_eq key kept) keys))
                (sym ((eq_iff k kept).0 same)) (others-reject kept keys)))
        | inr other ↦ rw other (elim (Bool-cases (env.server.matches pattern k)) [
          | inl hit ↦ rw hit (elim (Option-cases (get k s.redis)) [
            | inl e ↦ get-del_all-none env.server (reject (λ key. str_eq key kept) keys) s.redis k e
            | inr (v, e) ↦
                get-del_all-gone env.server (reject (λ key. str_eq key kept) keys) s.redis k (
                  mem-reject kept keys k (env.server.scan_complete pattern s.redis k v hit e) other)
          ])
          | inr miss ↦ rw miss (
              get-del_all-kept env.server (reject (λ key. str_eq key kept) keys) s.redis k (
                All-reject (λ key. str_eq key k ≡ false) (λ key. str_eq key kept) keys
                  (unmatched env.server pattern s.redis k miss)))
        ])
      ]

  -- Revoking every session of a user but one takes the keys that the user's pattern matches out of
  -- Redis, the kept session's excepted; afterwards the user's only live families have the kept
  -- identifier, and every family that was not the user's, was not live or has it is as it was.
  pub revoke_all_except_complete :
      (user_id keep_session_id : String) (context : RequestContext) (s : Accounts)
      → ((k : String)
          → get k (revoke_all_except env user_id keep_session_id context s).redis ≡ (
              if str_eq k (session_key env.region user_id keep_session_id)
              then get k s.redis
              else if env.server.matches (session_pattern env.region user_id) k
              then none
              else get k s.redis))
        × (All
            (λ f. is_live_of user_id f ≡ true → f.id ≡ keep_session_id)
            (revoke_all_except env user_id keep_session_id context s).families)
        × ((f : RefreshTokenFamily)
            → Memᴰ f s.families
            → (is_live_of user_id f && not (has_id keep_session_id f)) ≡ false
            → Memᴰ f (revoke_all_except env user_id keep_session_id context s).families)
  unfolding revoke_all_except
  revoke_all_except_complete user_id keep_session_id context s =
      let others : RefreshTokenFamily → Bool =
        λ f. is_live_of user_id f && not (has_id keep_session_id f) in
      let change = revoke_with "password_changed" in
      (
        revoke_all_except-get user_id keep_session_id context s,
        rw (env.db.update_many_lem others change s.families) (
            All-update (λ f. is_live_of user_id f ≡ true → f.id ≡ keep_session_id) others change
              s.families (λ f m p q. absurd (ground arith))
              λ f m p q. (eq_iff f.id keep_session_id).0 (ground arith)),
        λ f m p.
            rw (env.db.update_many_lem others change s.families)
              (mem-update_kept others change s.families f m p),
      )
