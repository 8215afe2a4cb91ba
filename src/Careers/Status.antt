-- ===== src/Careers/Status.antt =====
-- The application statuses of prisma/schema.prisma and the transition table of
-- src/modules/careers/application.service.ts.
use all_service_api.Common.{
  ℕ, Bool, true, false, Option, none, some, List, [], ◌∷◌, ◌==◌, any, ◌≡◌, arith,
}

pub data ApplicationStatus : Type 0 where
  draft submitted under_review shortlisted interview_scheduled : ApplicationStatus
  interviewed offer_extended hired rejected withdrawn : ApplicationStatus

abbrev pub rank : ApplicationStatus → ℕ
rank draft = 0
rank submitted = 1
rank under_review = 2
rank shortlisted = 3
rank interview_scheduled = 4
rank interviewed = 5
rank offer_extended = 6
rank hired = 7
rank rejected = 8
rank withdrawn = 9

-- `===` on statuses.
abbrev pub same_status : ApplicationStatus → ApplicationStatus → Bool
same_status s t = rank s == rank t

pub eq-of-same_status : (s t : ApplicationStatus) → same_status s t ≡ true → s ≡ t
eq-of-same_status s t h = ground arith

-- `TERMINAL_STATUSES.has(status)`
unfoldable pub is_terminal : ApplicationStatus → Bool
is_terminal hired = true
is_terminal rejected = true
is_terminal withdrawn = true
is_terminal _ = false

-- `ALLOWED_TRANSITIONS[status]`; a terminal status has no entry.
unfoldable pub allowed_transitions : ApplicationStatus → Option (List ApplicationStatus)
allowed_transitions draft = some (submitted ∷ [])
allowed_transitions submitted = some (under_review ∷ rejected ∷ withdrawn ∷ [])
allowed_transitions under_review = some (shortlisted ∷ rejected ∷ withdrawn ∷ [])
allowed_transitions shortlisted = some (interview_scheduled ∷ rejected ∷ withdrawn ∷ [])
allowed_transitions interview_scheduled = some (interviewed ∷ rejected ∷ withdrawn ∷ [])
allowed_transitions interviewed = some (offer_extended ∷ rejected ∷ withdrawn ∷ [])
allowed_transitions offer_extended = some (hired ∷ rejected ∷ withdrawn ∷ [])
allowed_transitions _ = none

abbrev includes : Option (List ApplicationStatus) → ApplicationStatus → Bool
includes none new_status = false
includes (some allowed) new_status = any (λ s. same_status s new_status) allowed

-- `allowed && allowed.includes(newStatus)`
unfoldable pub is_allowed : ApplicationStatus → ApplicationStatus → Bool
unfolding allowed_transitions
is_allowed from to = includes (allowed_transitions from) to
