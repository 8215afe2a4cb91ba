-- ===== src/Careers/Application/Outcomes.antt =====
-- When `changeStatus` and `withdraw` succeed, and what a refusal leaves.
use all_service_api.Common.{
  Option-cases, posting_not_found, Failure, not_found, ok, err, String, ◌≡◌, ◌≢◌, ◌↔◌, inl, inr,
  true, false, Option, none, some, arith, str_eq,
}
use all_service_api.Careers.Status.{ApplicationStatus, withdrawn, is_terminal, is_allowed}
use all_service_api.Careers.State.{Careers, Application, JobPosting}
use all_service_api.Careers.Application.{
  CareersEnv, has_id, announce_change, change_status, withdraw,
}
use all_service_api.Careers.Application.Steps.{
  set_status, after_move, change_status_found, change_status_missing, withdraw_found,
  withdraw_missing,
}

module _ (env : CareersEnv) where
  abbrev pub find_application : String → Careers → Option Application
  find_application id s = env.db.find_first (has_id id) s.applications

  abbrev pub find_posting : String → Careers → Option JobPosting
  find_posting id s = env.db.find_first (λ p. str_eq p.id id) s.postings

  live-of-is_allowed :
      (from to : ApplicationStatus) → is_allowed from to ≡ true → is_terminal from ≡ false
  unfolding is_allowed is_terminal
  live-of-is_allowed from to h = ground arith

  announce_change_found :
      (id : String) (a updated : Application) (new_status : ApplicationStatus)
      (notes : Option String) (s : Careers) (p : JobPosting)
      → find_posting updated.job_posting_id s ≡ some p
      → (announce_change env id a updated new_status notes s).0 ≡ ok updated
  unfolding announce_change
  announce_change_found id a updated new_status notes s p e = rw e

  announce_change_missing :
      (id : String) (a updated : Application) (new_status : ApplicationStatus)
      (notes : Option String) (s : Careers)
      → find_posting updated.job_posting_id s ≡ none
      → (announce_change env id a updated new_status notes s).0 ≡ err (not_found posting_not_found)
  unfolding announce_change
  announce_change_missing id a updated new_status notes s e = rw e

  -- A status change succeeds exactly when the application is there, the transition table allows the
  -- move from its status, and its posting is there.
  pub change_status_ok_iff :
      (id : String) (new_status : ApplicationStatus) (by : String) (notes : Option String)
      (s : Careers)
      → ((u : Application) × ((change_status env id new_status by notes s).0 ≡ ok u)) ↔ (
          (a : Application) × (p : JobPosting) × (find_application id s ≡ some a)
          × (is_allowed a.status new_status ≡ true)
          × (find_posting a.job_posting_id s ≡ some p))
  change_status_ok_iff id new_status by notes s = (to, from)
    where
      to :
          ((u : Application) × ((change_status env id new_status by notes s).0 ≡ ok u))
          → (a : Application) × (p : JobPosting) × (find_application id s ≡ some a)
            × (is_allowed a.status new_status ≡ true)
            × (find_posting a.job_posting_id s ≡ some p)
      to (u, h) = elim (Option-cases (find_application id s)) [
        | inl e ↦ absurd (cc (change_status_missing env id new_status by notes s e))
        | inr (a, e) ↦ elim (Option-cases (find_posting a.job_posting_id s)) [
          | inl q ↦ absurd (
              ground (
                arith,
                change_status_found env id new_status by notes s a e,
                announce_change_missing id a (set_status new_status a) new_status notes
                    (after_move id a new_status notes (some by) s) q,
              ))
          | inr (p, q) ↦
              (a, p, e, ground (arith, change_status_found env id new_status by notes s a e), q)
        ]
      ]

      from :
          ((a : Application) × (p : JobPosting) × (find_application id s ≡ some a)
            × (is_allowed a.status new_status ≡ true)
            × (find_posting a.job_posting_id s ≡ some p))
          → (u : Application) × ((change_status env id new_status by notes s).0 ≡ ok u)
      from (a, p, e, allowed, q) = (
        set_status new_status a,
        rw
            (
              change_status_found env id new_status by notes s a e,
              live-of-is_allowed a.status new_status allowed,
              allowed,
            )
            (announce_change_found id a (set_status new_status a) new_status notes
              (after_move id a new_status notes (some by) s) p q),
      )

  -- A status change that is refused leaves the state as it was, unless what is missing is the
  -- posting: that is looked for after the change.
  pub change_status_refused :
      (id : String) (new_status : ApplicationStatus) (by : String) (notes : Option String)
      (s : Careers) (e : Failure)
      → (change_status env id new_status by notes s).0 ≡ err e
      → e ≢ not_found posting_not_found
      → (change_status env id new_status by notes s).1 ≡ s
  change_status_refused id new_status by notes s e h ne =
      elim (Option-cases (find_application id s)) [
        | inl k ↦ rw (change_status_missing env id new_status by notes s k)
        | inr (a, k) ↦ elim (Option-cases (find_posting a.job_posting_id s)) [
          | inl q ↦ ground (
            arith,
            change_status_found env id new_status by notes s a k,
            announce_change_missing id a (set_status new_status a) new_status notes
                (after_move id a new_status notes (some by) s) q,
          )
          | inr (p, q) ↦ ground (
            arith,
            change_status_found env id new_status by notes s a k,
            announce_change_found id a (set_status new_status a) new_status notes
                (after_move id a new_status notes (some by) s) p q,
          )
        ]
      ]

  -- A withdrawal succeeds exactly when the application is there and in no terminal status, a draft
  -- included; when it fails the state is as it was.
  pub withdraw_ok_iff :
      (id : String) (s : Careers)
      → (((u : Application) × ((withdraw env id s).0 ≡ ok u))
          ↔ ((a : Application) × (find_application id s ≡ some a) × (is_terminal a.status ≡ false)))
        × ((e : Failure) → (withdraw env id s).0 ≡ err e → (withdraw env id s).1 ≡ s)
  unfolding is_terminal
  withdraw_ok_iff id s = elim (Option-cases (find_application id s)) [
    | inl k ↦ (
      (λ (u, h). absurd (cc (withdraw_missing env id s k)), λ (a, e, t). absurd (cc (k, e))),
      λ e h. rw (withdraw_missing env id s k),
    )
    | inr (a, k) ↦ (
      (
        λ (u, h). (a, k, ground (arith, withdraw_found env id s a k)),
        λ (b, e, t). (set_status withdrawn a, ground (arith, withdraw_found env id s a k)),
      ),
      λ e h. ground (arith, withdraw_found env id s a k),
    )
  ]
