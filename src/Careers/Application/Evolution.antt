-- ===== src/Careers/Application/Evolution.antt =====
-- The ways in which the tables of applications and of status history change, apart from pruning.
use all_service_api.Common.{
  str_eq-of-ne, any, All, All-lookup, All-tabulate, All-append, String, ◌≡◌, refl, sym, ◌∙◌, subst,
  ◌≢◌, inl, true, false, List, [], ◌∷◌, ◌++◌, map, Memᴰ, arith, str_eq, eq_iff,
}
use all_service_api.Prisma.{update_if}
use all_service_api.Careers.Status.{is_terminal, is_allowed, draft, submitted}
use all_service_api.Careers.State.{Application, StatusChange}
use all_service_api.Careers.Application.{ApplicationStatus, has_id}
use all_service_api.Careers.Application.Trail.{
  IsTrail-append_own, IsTrail-append_other, AreConsistent, IsTrail, trail_of, IsMove,
}
use all_service_api.Careers.Application.Moves.{moved-AreConsistent}
use all_service_api.Prisma.Keys.{mem-append_left, mem-update_kept}

pub data Evolves (apps : List Application) (hist : List StatusChange) (apps' : List Application)
    (hist' : List StatusChange) : Type 0 where
  unchanged : apps' ≡ apps → hist' ≡ hist → Evolves apps hist apps' hist'
  -- A live application moves, and the move is appended to the history.
  moved :
      (a : Application) (h : StatusChange) (change : Application → Application)
      → Memᴰ a apps
      → a.id ≡ h.application_id
      → h.from_status ≡ a.status
      → IsMove a.status h.to_status
      → ((x : Application) → (change x).id ≡ x.id)
      → ((x : Application) → (change x).status ≡ h.to_status)
      → apps' ≡ map (update_if (has_id h.application_id) change) apps
      → hist' ≡ hist ++ h ∷ []
      → Evolves apps hist apps' hist'
  -- A new application is filed, with its move from draft to submitted.
  filed :
      (a : Application) (h : StatusChange)
      → All (λ x. x.id ≢ a.id) apps
      → h.application_id ≡ a.id
      → h.from_status ≡ draft
      → h.to_status ≡ submitted
      → a.status ≡ submitted
      → apps' ≡ apps ++ a ∷ []
      → hist' ≡ hist ++ h ∷ []
      → Evolves apps hist apps' hist'

-- A trail determines where it ends.
IsTrail-unique :
    (from : ApplicationStatus) (hs : List StatusChange) (to to' : ApplicationStatus)
    → IsTrail from hs to
    → IsTrail from hs to'
    → to ≡ to'
IsTrail-unique from [] to to' t t' = sym t ∙ t'
IsTrail-unique from (h ∷ hs) to to' (_, _, t) (_, _, t') = IsTrail-unique h.to_status hs to to' t t'

any-fresh :
    (apps : List Application) (id : String)
    → All (λ x. x.id ≢ id) apps
    → any (λ x. str_eq x.id id) apps ≡ false
any-fresh [] id h = refl
any-fresh (x ∷ apps) id (ne, h) = ground (arith, str_eq-of-ne x.id id ne, any-fresh apps id h)

any-append :
    (apps : List Application) (a : Application) (k : String)
    → any (λ x. str_eq x.id k) apps ≡ true
    → any (λ x. str_eq x.id k) (apps ++ a ∷ []) ≡ true
any-append [] a k h = cc
any-append (x ∷ apps) a k h = ground (arith, any-append apps a k)

All-any-append :
    (apps : List Application) (a : Application) (hist : List StatusChange)
    → All (λ h. any (λ x. str_eq x.id h.application_id) apps ≡ true) hist
    → All (λ h. any (λ x. str_eq x.id h.application_id) (apps ++ a ∷ []) ≡ true) hist
All-any-append apps a [] h = tt
All-any-append apps a (g ∷ hist) (p, h) =
    (any-append apps a g.application_id p, All-any-append apps a hist h)

any-last :
    (apps : List Application) (a : Application) (k : String)
    → a.id ≡ k
    → any (λ x. str_eq x.id k) (apps ++ a ∷ []) ≡ true
any-last [] a k e = ground (arith, eq_iff a.id k)
any-last (x ∷ apps) a k e = ground (arith, any-last apps a k e)

-- An application that is not in its table has no history.
trail_of-fresh :
    (apps : List Application) (hist : List StatusChange) (id : String)
    → All (λ x. x.id ≢ id) apps
    → All (λ h. any (λ x. str_eq x.id h.application_id) apps ≡ true) hist
    → trail_of id hist ≡ []
trail_of-fresh apps [] id fresh owned = refl
trail_of-fresh apps (h ∷ hist) id fresh (p, owned) =
    let other : str_eq h.application_id id ≡ false =
      str_eq-of-ne h.application_id id (λ e. cc (any-fresh apps id fresh, rw e at p)) in
    rw (other, trail_of-fresh apps hist id fresh owned)

filed-AreConsistent :
    (apps : List Application) (hist : List StatusChange) (a : Application) (h : StatusChange)
    → AreConsistent apps hist
    → All (λ x. x.id ≢ a.id) apps
    → h.application_id ≡ a.id
    → h.from_status ≡ draft
    → h.to_status ≡ submitted
    → a.status ≡ submitted
    → AreConsistent (apps ++ a ∷ []) (hist ++ h ∷ [])
unfolding is_terminal is_allowed
filed-AreConsistent apps hist a h c fresh e from to status = record {
  recorded =
      All-append _ apps (a ∷ [])
        (All-tabulate _ apps λ x m.
          IsTrail-append_other hist x.id x.status h
            (λ k. All-lookup (λ y. y.id ≢ a.id) apps fresh m (sym k ∙ e))
            (All-lookup (λ y. IsTrail draft (trail_of y.id hist) y.status) apps c.recorded m))
        (
          rw (status, ← to)
              (subst (λ k. IsTrail draft (trail_of k (hist ++ h ∷ [])) h.to_status) e
                (IsTrail-append_own hist draft h
                  (rw (e, trail_of-fresh apps hist a.id fresh c.owned) refl) from
                  (rw to (refl, inl refl)))),
          tt,
        );
  owned =
      All-append _ hist (h ∷ []) (All-any-append apps a hist c.owned)
        (any-last apps a h.application_id (sym e), tt);
}

-- Every evolution keeps the tables consistent.
pub Evolves-AreConsistent :
    (apps : List Application) (hist : List StatusChange) (apps' : List Application)
    (hist' : List StatusChange)
    → Evolves apps hist apps' hist'
    → AreConsistent apps hist
    → AreConsistent apps' hist'
Evolves-AreConsistent apps hist apps' hist' (unchanged e k) c = rw (e, k) c
Evolves-AreConsistent apps hist apps' hist' (moved a h change m e from move ids status p q) c =
    rw (p, q) (moved-AreConsistent apps hist a h change c m e from move ids status)
Evolves-AreConsistent apps hist apps' hist' (filed a h fresh e from to status p q) c =
    rw (p, q) (filed-AreConsistent apps hist a h c fresh e from to status)

-- Two rows with one identifier have one status, since they share their trail.
same_status_of_id :
    (apps : List Application) (hist : List StatusChange) (a x : Application)
    → AreConsistent apps hist
    → Memᴰ a apps
    → Memᴰ x apps
    → a.id ≡ x.id
    → a.status ≡ x.status
same_status_of_id apps hist a x c m n e =
    let P = λ (y : Application). IsTrail draft (trail_of y.id hist) y.status in
    IsTrail-unique draft (trail_of x.id hist) a.status x.status
      (rw e at (All-lookup P apps c.recorded m)) (All-lookup P apps c.recorded n)

-- A row in a terminal status is not touched.
pub Evolves-terminal :
    (apps : List Application) (hist : List StatusChange) (apps' : List Application)
    (hist' : List StatusChange) (x : Application)
    → Evolves apps hist apps' hist'
    → AreConsistent apps hist
    → Memᴰ x apps
    → is_terminal x.status ≡ true
    → Memᴰ x apps'
Evolves-terminal apps hist apps' hist' x (unchanged e k) c n t = rw e n
Evolves-terminal apps hist apps' hist' x (moved a h change m e from move ids status p q) c n t =
    let other : has_id h.application_id x ≡ false = str_eq-of-ne x.id h.application_id λ k.
      let same : a.status ≡ x.status = same_status_of_id apps hist a x c m n (e ∙ sym k) in
      cc (move.0, t, same) in
    rw p (mem-update_kept (has_id h.application_id) change apps x n other)
Evolves-terminal apps hist apps' hist' x (filed a h fresh e from to status p q) c n t =
    rw p (mem-append_left apps (a ∷ []) x n)
