-- ===== src/Auth/Session/Rotation.antt =====
-- What presenting a refresh token does.
use all_service_api.Common.{
  ltb, if◌then◌else◌, Bool-cases, Option-cases, str_eq-of-ne, ne-of-str_eq, All, All-lookup,
  token_expired, token_invalid, token_revoked, Failure, unauthorized, ok, err, ℕ, String, ◌≡◌, sym,
  ap, ◌∙◌, subst, ◌≢◌, ◌⊎◌, inl, inr, true, false, Option, none, some, List, map, Memᴰ, arith,
  eq_iff, eq_refl,
}
use all_service_api.Prisma.{update_if}
use all_service_api.Prisma.Keys.{
  only_row, find_first_only, mem-update, mem_of_update, HasUniqueKeys, find_first_of_mem,
  find_first_none,
}
use all_service_api.Redis.{get, session_key}
use all_service_api.Auth.State.{RefreshTokenFamily, Accounts, RequestContext, AuthEnv, as_session}
use all_service_api.Auth.Session.{
  RefreshResult, has_hash, has_id, rotate_to, find_family_by_reuse, touch_session, rotate,
  refresh_found, refresh_family, refresh,
}

module _ (env : AuthEnv) where
  abbrev pub family_of : String → Accounts → Option RefreshTokenFamily
  family_of raw s = env.db.find_first (has_hash (env.hash raw)) s.families

  -- Where no family has the hash, none that is revoked has it.
  refresh_missing :
      (raw : String) (context : RequestContext) (new_token : String) (now : ℕ) (s : Accounts)
      → family_of raw s ≡ none
      → refresh env raw context new_token now s ≡ (err (unauthorized token_invalid), s)
  unfolding refresh
  refresh_missing raw context new_token now s e =
      let none_revoked : find_family_by_reuse env (env.hash raw) s ≡ none =
        find_first_none env.db _ s.families λ f m.
          let other =
            All-lookup (λ g. has_hash (env.hash raw) g ≡ false) s.families
              (env.db.missing (has_hash (env.hash raw)) s.families e) m in
          ground arith in
      rw (e, refresh_family, none_revoked)

  -- The state after a rotation.
  abbrev pub rotated : RefreshTokenFamily → String → ℕ → Accounts → Accounts
  rotated f new_token now s =
      let s1 = record s {
        families = map (update_if (has_id f.id) (rotate_to (env.hash new_token) now)) s.families;
      } in
      let key = session_key env.region f.user_id f.id in
      touch_session env key (as_session (get key s.redis)) (env.hash new_token) now s1

  rotate_lem :
      (f : RefreshTokenFamily) (new_token : String) (now : ℕ) (s : Accounts)
      → Memᴰ f s.families
      → rotate env f new_token now s ≡ (
        ok (record { user_id = f.user_id; session_id = f.id; refresh_token = new_token }),
        rotated f new_token now s,
      )
  unfolding rotate
  rotate_lem f new_token now s m =
      let (g, e) = find_first_of_mem env.db (has_id f.id) s.families f m (eq_refl f.id) in
      rw (env.db.update_found (has_id f.id) (rotate_to (env.hash new_token) now) s.families g e)

  -- What a token does whose hash a family has.
  pub refresh_found_lem :
      (raw : String) (context : RequestContext) (new_token : String) (now : ℕ) (s : Accounts)
      (f : RefreshTokenFamily)
      → family_of raw s ≡ some f
      → refresh env raw context new_token now s ≡ (
          if f.is_revoked
          then (err (unauthorized token_revoked), s)
          else if ltb now f.expires_at
          then (
            ok (record { user_id = f.user_id; session_id = f.id; refresh_token = new_token }),
            rotated f new_token now s,
          )
          else (err (unauthorized token_expired), s))
  unfolding refresh
  refresh_found_lem raw context new_token now s f e =
      let (m, _) = env.db.found (has_hash (env.hash raw)) s.families f e in
      rw (e, refresh_family, refresh_found) (ground (arith, rotate_lem f new_token now s m))

  -- A refresh that fails reports an invalid, a revoked or an expired token, never a reused one, and
  -- changes nothing: no session is revoked, no audit entry written and no alert raised.
  pub refresh_refused :
      (raw : String) (context : RequestContext) (new_token : String) (now : ℕ) (s : Accounts)
      (e : Failure)
      → (refresh env raw context new_token now s).0 ≡ err e
      → ((e ≡ unauthorized token_invalid)
          ⊎ ((e ≡ unauthorized token_revoked) ⊎ (e ≡ unauthorized token_expired)))
        × ((refresh env raw context new_token now s).1 ≡ s)
  refresh_refused raw context new_token now s e h = elim (Option-cases (family_of raw s)) [
    | inl k ↦ ground (arith, refresh_missing raw context new_token now s k)
    | inr (f, k) ↦ ground (arith, refresh_found_lem raw context new_token now s f k)
  ]

  rotated-families :
      (f : RefreshTokenFamily) (new_token : String) (now : ℕ) (s : Accounts)
      → (rotated f new_token now s).families
        ≡ map (update_if (has_id f.id) (rotate_to (env.hash new_token) now)) s.families
  rotated-families f new_token now s = ground arith

  -- A refresh that succeeds found a live family by its hash, and rotated it.
  pub refresh_ok :
      (raw : String) (context : RequestContext) (new_token : String) (now : ℕ) (s s1 : Accounts)
      (r : RefreshResult)
      → refresh env raw context new_token now s ≡ (ok r, s1)
      → (f : RefreshTokenFamily) × (family_of raw s ≡ some f)
        × (f.is_revoked ≡ false)
        × (ltb now f.expires_at ≡ true)
        × (r.user_id ≡ f.user_id)
        × (r.session_id ≡ f.id)
        × (r.refresh_token ≡ new_token)
        × (s1 ≡ rotated f new_token now s)
  refresh_ok raw context new_token now s s1 r h = elim (Option-cases (family_of raw s)) [
    | inl k ↦ absurd (cc (refresh_missing raw context new_token now s k))
    | inr (f, k) ↦
        let e = refresh_found_lem raw context new_token now s f k in
        (
          f,
          k,
          ground (arith, e),
          ground (arith, e),
          ground (arith, e),
          ground (arith, e),
          ground (arith, e),
          ground (arith, e),
        )
  ]

  -- Where the hashes are unique, no family has a hash that was rotated away.
  pub rotated_away :
      (f : RefreshTokenFamily) (hash : String) (now : ℕ) (rows : List RefreshTokenFamily)
      → HasUniqueKeys (λ (g : RefreshTokenFamily). g.current_token_hash) rows
      → Memᴰ f rows
      → hash ≢ f.current_token_hash
      → (g : RefreshTokenFamily) → Memᴰ g (map (update_if (has_id f.id) (rotate_to hash now)) rows)
      → has_hash f.current_token_hash g ≡ false
  rotated_away f hash now rows unique m ne g n =
      let (x, nx, k) = mem_of_update (has_id f.id) (rotate_to hash now) rows g n in
      rw k (elim (Bool-cases (has_id f.id x)) [
        | inl own ↦ rw own (str_eq-of-ne hash f.current_token_hash ne)
        | inr other ↦ rw other (
            str_eq-of-ne x.current_token_hash f.current_token_hash λ q.
              ne-of-str_eq x.id f.id other (
                ap (λ (y : RefreshTokenFamily). y.id)
                  (only_row (λ (y : RefreshTokenFamily). y.current_token_hash) rows f x unique m nx
                    q)))
      ])

  -- Where the identifiers are unique and no family had the new hash, the rotated one alone has it.
  pub rotated_to :
      (f : RefreshTokenFamily) (hash : String) (now : ℕ) (rows : List RefreshTokenFamily)
      → HasUniqueKeys (λ (g : RefreshTokenFamily). g.id) rows
      → All (λ g. g.current_token_hash ≢ hash) rows
      → Memᴰ f rows
      → env.db.find_first (has_hash hash) (map (update_if (has_id f.id) (rotate_to hash now)) rows)
        ≡ some (rotate_to hash now f)
  rotated_to f hash now rows unique fresh m =
      let change = rotate_to hash now in
      let there : Memᴰ (change f) (map (update_if (has_id f.id) change) rows) =
        rw (eq_refl f.id) at (mem-update (has_id f.id) change rows f m) in
      find_first_only env.db (has_hash hash) (map (update_if (has_id f.id) change) rows) (change f)
        there (eq_refl hash)
        λ g n q.
          let (x, nx, k) = mem_of_update (has_id f.id) change rows g n in
          elim (Bool-cases (has_id f.id x)) [
            | inl own ↦
                let same : x ≡ f =
                  only_row (λ (y : RefreshTokenFamily). y.id) rows f x unique m nx
                    ((eq_iff x.id f.id).0 own) in
                rw own at k ∙ ap change same
            | inr other ↦
                let k' : g ≡ x = rw other at k in
                absurd (
                  All-lookup (λ y. y.current_token_hash ≢ hash) rows fresh nx
                    (ap (λ (y : RefreshTokenFamily). y.current_token_hash) (sym k')
                      ∙ (eq_iff g.current_token_hash hash).0 q))
          ]

  -- A refresh token serves once: presented again after it was rotated it is refused as invalid, and
  -- the state stays as it is, so the session that it was rotated into lives on. The families'
  -- hashes are unique, and the new token's differs.
  pub refresh_once :
      (raw : String) (context : RequestContext) (new_token : String) (now : ℕ) (s s1 : Accounts)
      (r : RefreshResult) (context' : RequestContext) (new_token' : String) (now' : ℕ)
      → HasUniqueKeys (λ (f : RefreshTokenFamily). f.current_token_hash) s.families
      → env.hash new_token ≢ env.hash raw
      → refresh env raw context new_token now s ≡ (ok r, s1)
      → refresh env raw context' new_token' now' s1 ≡ (err (unauthorized token_invalid), s1)
  refresh_once raw context new_token now s s1 r context' new_token' now' unique ne h =
      let (f, found, _, _, _, _, _, e) = refresh_ok raw context new_token now s s1 r h in
      let (m, p) = env.db.found (has_hash (env.hash raw)) s.families f found in
      let same : f.current_token_hash ≡ env.hash raw =
        (eq_iff f.current_token_hash (env.hash raw)).0 p in
      let rows : s1.families
          ≡ map (update_if (has_id f.id) (rotate_to (env.hash new_token) now)) s.families =
        ap (λ (t : Accounts). t.families) e ∙ rotated-families f new_token now s in
      refresh_missing raw context' new_token' now' s1 (
        ap (env.db.find_first (has_hash (env.hash raw))) rows
        ∙ find_first_none env.db (has_hash (env.hash raw))
            (map (update_if (has_id f.id) (rotate_to (env.hash new_token) now)) s.families)
            λ g n.
              subst (λ (k : String). has_hash k g ≡ false) same
                (rotated_away f (env.hash new_token) now s.families unique m (λ q. ne (q ∙ same)) g
                  n))

  -- The token that a refresh hands out refreshes the same session of the same user, until the
  -- family's fixed expiry. The families' identifiers are unique, and no family has the new hash.
  pub refresh_continues :
      (raw : String) (context : RequestContext) (new_token : String) (now : ℕ) (s s1 : Accounts)
      (r : RefreshResult) (context' : RequestContext) (new_token' : String) (now' : ℕ)
      → HasUniqueKeys (λ (f : RefreshTokenFamily). f.id) s.families
      → All (λ f. f.current_token_hash ≢ env.hash new_token) s.families
      → refresh env raw context new_token now s ≡ (ok r, s1)
      → (f : RefreshTokenFamily) × (family_of raw s ≡ some f)
        × ((refresh env new_token context' new_token' now' s1).0 ≡ (
            if ltb now' f.expires_at
            then ok (record {
              user_id = r.user_id;
              session_id = r.session_id;
              refresh_token = new_token';
            })
            else err (unauthorized token_expired)))
  refresh_continues raw context new_token now s s1 r context' new_token' now' unique fresh h =
      let (f, found, live, _, u, i, _, e) = refresh_ok raw context new_token now s s1 r h in
      let (m, p) = env.db.found (has_hash (env.hash raw)) s.families f found in
      let change = rotate_to (env.hash new_token) now in
      let rows : s1.families ≡ map (update_if (has_id f.id) change) s.families =
        ap (λ (t : Accounts). t.families) e ∙ rotated-families f new_token now s in
      let found' : family_of new_token s1 ≡ some (change f) =
        ap (env.db.find_first (has_hash (env.hash new_token))) rows
        ∙ rotated_to f (env.hash new_token) now s.families unique fresh m in
      (
        f,
        found,
        ground (arith, refresh_found_lem new_token context' new_token' now' s1 (change f) found'),
      )
