-- ===== src/Careers/Pipeline/Bounds.antt =====
-- How long a history gets, and what a hire went through.
use all_service_api.Common.{
  length, All, All-lookup, All-tabulate, ℕ, ◌+◌, ◌≤◌, ◌<◌, min, ◌≡◌, ◌≢◌, ◌⊎◌, inl, inr, true, List,
  [], ◌∷◌, map, Memᴰ, arith,
}
use all_service_api.Careers.Status.{
  ApplicationStatus, draft, submitted, under_review, shortlisted, interview_scheduled, interviewed,
  offer_extended, hired, rejected, withdrawn, rank, is_terminal, is_allowed,
}
use all_service_api.Careers.State.{Careers, Application, StatusChange}
use all_service_api.Careers.Application.{CareersEnv}
use all_service_api.Careers.Application.Trail.{IsMove, IsTrail, trail_of}
use all_service_api.Careers.Pipeline.{IsConsistent, Reach, Reach-IsConsistent}

-- How far along the pipeline a status is; the terminal ones are at the end.
abbrev stage : ApplicationStatus → ℕ
stage s = min 7 (rank s)

stage-lt-of-IsMove : (from to : ApplicationStatus) → IsMove from to → stage from < stage to
unfolding is_terminal is_allowed
stage-lt-of-IsMove from to (live, inl allowed) = ground arith
stage-lt-of-IsMove from to (live, inr e) = ground arith

length-IsTrail :
    (from : ApplicationStatus) (hs : List StatusChange) (to : ApplicationStatus)
    → IsTrail from hs to
    → length hs + stage from ≤ stage to
length-IsTrail from [] to t = ground arith
length-IsTrail from (h ∷ hs) to (e, move, t) =
    omega (arith, stage-lt-of-IsMove from h.to_status move, length-IsTrail h.to_status hs to t)

-- After any operations on consistent tables, no application has more than seven history rows.
pub history_bounded :
    (env : CareersEnv) (s s' : Careers)
    → Reach env s s'
    → IsConsistent s
    → All (λ a. length (trail_of a.id s'.history) ≤ 7) s'.applications
history_bounded env s s' r c = All-tabulate _ s'.applications λ a m.
    let t =
      All-lookup (λ y. IsTrail draft (trail_of y.id s'.history) y.status) s'.applications
        (Reach-IsConsistent env r c).recorded m in
    omega (arith, length-IsTrail draft (trail_of a.id s'.history) a.status t)

abbrev next_stage : ApplicationStatus → ApplicationStatus
next_stage draft = submitted
next_stage submitted = under_review
next_stage under_review = shortlisted
next_stage shortlisted = interview_scheduled
next_stage interview_scheduled = interviewed
next_stage interviewed = offer_extended
next_stage _ = hired

abbrev pub stages_to_hire : ApplicationStatus → List ApplicationStatus
stages_to_hire draft =
    submitted ∷ under_review ∷ shortlisted ∷ interview_scheduled ∷ interviewed ∷ offer_extended
    ∷ hired ∷ []
stages_to_hire submitted =
    under_review ∷ shortlisted ∷ interview_scheduled ∷ interviewed ∷ offer_extended ∷ hired ∷ []
stages_to_hire under_review =
    shortlisted ∷ interview_scheduled ∷ interviewed ∷ offer_extended ∷ hired ∷ []
stages_to_hire shortlisted = interview_scheduled ∷ interviewed ∷ offer_extended ∷ hired ∷ []
stages_to_hire interview_scheduled = interviewed ∷ offer_extended ∷ hired ∷ []
stages_to_hire interviewed = offer_extended ∷ hired ∷ []
stages_to_hire offer_extended = hired ∷ []
stages_to_hire _ = []

IsMove-cases :
    (from to : ApplicationStatus)
    → IsMove from to
    → ((to ≡ next_stage from) × (stages_to_hire from ≡ to ∷ stages_to_hire to))
      ⊎ ((to ≡ rejected) ⊎ (to ≡ withdrawn))
unfolding is_terminal is_allowed
IsMove-cases from to (live, inl allowed) = ground arith
IsMove-cases from to (live, inr e) = inr (inr e)

-- No trail leads on from a terminal status.
not-IsTrail-hired :
    (from : ApplicationStatus) (hs : List StatusChange)
    → is_terminal from ≡ true
    → from ≢ hired
    → ¬ IsTrail from hs hired
not-IsTrail-hired from [] t ne e = ne e
not-IsTrail-hired from (h ∷ hs) t ne (e, (live, _), _) = cc

hired_stages :
    (from : ApplicationStatus) (hs : List StatusChange)
    → IsTrail from hs hired
    → map (λ h. h.to_status) hs ≡ stages_to_hire from
unfolding is_terminal
hired_stages from [] e = rw e
hired_stages from (h ∷ hs) (_, move, t) = elim (IsMove-cases from h.to_status move) [
  | inl (_, k) ↦ rw (hired_stages h.to_status hs t, k)
  | inr (inl e) ↦ absurd (not-IsTrail-hired h.to_status hs (rw e) (λ k. cc (e, k)) t)
  | inr (inr e) ↦ absurd (not-IsTrail-hired h.to_status hs (rw e) (λ k. cc (e, k)) t)
]

-- After any operations on consistent tables, the history of a hired application went through every
-- stage of the pipeline, once each and in order.
pub hired_went_through :
    (env : CareersEnv) (s s' : Careers) (a : Application)
    → Reach env s s'
    → IsConsistent s
    → Memᴰ a s'.applications
    → a.status ≡ hired
    → map (λ h. h.to_status) (trail_of a.id s'.history) ≡ stages_to_hire draft
hired_went_through env s s' a r c m h =
    let t =
      All-lookup (λ y. IsTrail draft (trail_of y.id s'.history) y.status) s'.applications
        (Reach-IsConsistent env r c).recorded m in
    hired_stages draft (trail_of a.id s'.history) (rw h at t)
