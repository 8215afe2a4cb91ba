-- ===== src/Careers/Application/Trail.antt =====
-- The status history of an application as a trail through the pipeline.
use all_service_api.Common.{
  str_eq-of-ne, any, All, String, ◌≡◌, refl, sym, ap, ◌∙◌, ◌≢◌, ◌⊎◌, true, false, List, [], ◌∷◌,
  ◌++◌, append-nil, Memᴰ, arith, str_eq, eq_iff, eq_refl,
}
use all_service_api.Prisma.{keep}
use all_service_api.Careers.Status.{ApplicationStatus, draft, withdrawn, is_terminal, is_allowed}
use all_service_api.Careers.State.{Application, StatusChange}

-- A move that the services make: along the transition table, or a withdrawal by the applicant.
abbrev pub IsMove : ApplicationStatus → ApplicationStatus → Type 0
IsMove from to = (is_terminal from ≡ false) × ((is_allowed from to ≡ true) ⊎ (to ≡ withdrawn))

-- The history rows of one application, oldest first.
abbrev pub trail_of : String → List StatusChange → List StatusChange
trail_of id = keep (λ h. str_eq h.application_id id)

-- The rows lead from one status to another by moves, each where the one before it ended.
abbrev pub IsTrail : ApplicationStatus → List StatusChange → ApplicationStatus → Type 0
IsTrail from [] to = from ≡ to
IsTrail from (h ∷ hs) to =
    (h.from_status ≡ from) × IsMove from h.to_status × IsTrail h.to_status hs to

-- Every application's history is a trail from draft to its status, and every history row belongs
-- to an application.
pub record AreConsistent (applications : List Application) (history : List StatusChange)
    : Type 0 where
  pub recorded : All (λ a. IsTrail draft (trail_of a.id history) a.status) applications
  pub owned : All (λ h. any (λ a. str_eq a.id h.application_id) applications ≡ true) history

IsTrail-extend :
    (from : ApplicationStatus) (hs : List StatusChange) (middle : ApplicationStatus)
    (h : StatusChange)
    → IsTrail from hs middle
    → h.from_status ≡ middle
    → IsMove middle h.to_status
    → IsTrail from (hs ++ h ∷ []) h.to_status
IsTrail-extend from [] middle h t e m = rw t (e, m, refl)
IsTrail-extend from (g ∷ hs) middle h (e', m', t) e m =
    (e', m', IsTrail-extend g.to_status hs middle h t e m)

trail_of-append :
    (id : String) (hs ks : List StatusChange)
    → trail_of id (hs ++ ks) ≡ trail_of id hs ++ trail_of id ks
trail_of-append id [] ks = refl
trail_of-append id (h ∷ hs) ks = ground (arith, trail_of-append id hs ks)

-- A row appended to the history extends its application's trail and no other.
pub IsTrail-append_own :
    (hs : List StatusChange) (middle : ApplicationStatus) (h : StatusChange)
    → IsTrail draft (trail_of h.application_id hs) middle
    → h.from_status ≡ middle
    → IsMove middle h.to_status
    → IsTrail draft (trail_of h.application_id (hs ++ h ∷ [])) h.to_status
IsTrail-append_own hs middle h t e m =
    rw (trail_of-append h.application_id hs (h ∷ []), eq_refl h.application_id)
      (IsTrail-extend draft (trail_of h.application_id hs) middle h t e m)

pub IsTrail-append_other :
    (hs : List StatusChange) (id : String) (status : ApplicationStatus) (h : StatusChange)
    → h.application_id ≢ id
    → IsTrail draft (trail_of id hs) status
    → IsTrail draft (trail_of id (hs ++ h ∷ [])) status
IsTrail-append_other hs id status h ne t =
    rw
      (
        trail_of-append id hs (h ∷ []),
        str_eq-of-ne h.application_id id ne,
        append-nil (trail_of id hs),
      )
      t

-- The test whether an application is there passes on its identifier.
pub any_of_mem :
    (rows : List Application) (a : Application) (k : String)
    → Memᴰ a rows
    → a.id ≡ k
    → any (λ x. str_eq x.id k) rows ≡ true
any_of_mem [] a k m e = elim m [ ]
any_of_mem (r ∷ rows) a k (Memᴰ.head p) e =
    let same : r.id ≡ k = ap (λ (x : Application). x.id) (sym p) ∙ e in rw ((eq_iff r.id k).1 same)
any_of_mem (r ∷ rows) a k (Memᴰ.tail m) e = ground (arith, any_of_mem rows a k m e)
