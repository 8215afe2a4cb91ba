-- ===== src/Careers/Application/Steps.antt =====
-- What `changeStatus` and `withdraw` do on every branch.
use all_service_api.Common.{
  if◌then◌else◌, Bool-cases, Option-cases, application_not_found, application_invalid_transition,
  application_already_withdrawn, application_terminal_status, not_found, conflict, ok, err, String,
  ◌≡◌, refl, inl, inr, Option, none, some, [], ◌∷◌, ◌++◌, map, arith, eq_iff,
}
use all_service_api.Prisma.{update_if}
use all_service_api.Careers.Status.{
  is_allowed, ApplicationStatus, withdrawn, is_terminal, same_status,
}
use all_service_api.Careers.State.{Careers, Application, StatusChange}
use all_service_api.Careers.Application.{
  announce_change, change_status, CareersEnv, has_id, write_status, withdraw,
}
use all_service_api.Careers.Application.Trail.{IsMove}
use all_service_api.Careers.Application.Evolution.{Evolves, unchanged, moved}

-- The row that a move writes to the history.
abbrev pub move_row :
    String → Application → ApplicationStatus → Option String → Option String → StatusChange
move_row id a new_status notes changed_by = record {
  application_id = id;
  from_status = a.status;
  to_status = new_status;
  notes = notes;
  changed_by = changed_by;
}

abbrev pub set_status : ApplicationStatus → Application → Application
set_status new_status a = record a { status = new_status }

-- The state after a move.
abbrev pub after_move :
    String → Application → ApplicationStatus → Option String → Option String → Careers → Careers
after_move id a new_status notes changed_by s = record s {
  applications = map (update_if (has_id id) (set_status new_status)) s.applications;
  history = s.history ++ move_row id a new_status notes changed_by ∷ [];
}

module _ (env : CareersEnv) where
  pub write_status_lem :
      (id : String) (a : Application) (new_status : ApplicationStatus) (notes by : Option String)
      (s : Careers)
      → env.db.find_first (has_id id) s.applications ≡ some a
      → write_status env id a new_status notes by s
        ≡ (ok (set_status new_status a), after_move id a new_status notes by s)
  unfolding write_status
  write_status_lem id a new_status notes by s e = rw (
    env.db.update_found (has_id id) (set_status new_status) s.applications a e,
    env.db.create_lem (move_row id a new_status notes by) s.history,
  )

  -- What `withdraw` does with the application that it finds.
  pub withdraw_found :
      (id : String) (s : Careers) (a : Application)
      → env.db.find_first (has_id id) s.applications ≡ some a
      → withdraw env id s ≡ (
          if same_status a.status withdrawn
          then (err (conflict application_already_withdrawn), s)
          else if is_terminal a.status
          then (err (conflict application_terminal_status), s)
          else (
            ok (set_status withdrawn a),
            after_move id a withdrawn (some "Withdrawn by applicant") none s,
          ))
  unfolding withdraw
  withdraw_found id s a e =
      ground (arith, write_status_lem id a withdrawn (some "Withdrawn by applicant") none s e)

  pub withdraw_missing :
      (id : String) (s : Careers)
      → env.db.find_first (has_id id) s.applications ≡ none
      → withdraw env id s ≡ (err (not_found application_not_found), s)
  unfolding withdraw
  withdraw_missing id s e = rw e

  -- What `changeStatus` does with the application that it finds.
  pub change_status_found :
      (id : String) (new_status : ApplicationStatus) (by : String) (notes : Option String)
      (s : Careers) (a : Application)
      → env.db.find_first (has_id id) s.applications ≡ some a
      → change_status env id new_status by notes s ≡ (
          if is_terminal a.status
          then (err (conflict application_terminal_status), s)
          else if is_allowed a.status new_status
          then announce_change env id a
              (set_status new_status a)
              new_status
              notes
              (after_move id a new_status notes (some by) s)
          else (err (conflict application_invalid_transition), s))
  unfolding change_status
  change_status_found id new_status by notes s a e =
      ground (arith, write_status_lem id a new_status notes (some by) s e)

  pub change_status_missing :
      (id : String) (new_status : ApplicationStatus) (by : String) (notes : Option String)
      (s : Careers)
      → env.db.find_first (has_id id) s.applications ≡ none
      → change_status env id new_status by notes s ≡ (err (not_found application_not_found), s)
  unfolding change_status
  change_status_missing id new_status by notes s e = rw e

  -- The announcement reads the postings and appends an event.
  pub announce_change-tables :
      (id : String) (a updated : Application) (new_status : ApplicationStatus)
      (notes : Option String) (s : Careers)
      → let s' = (announce_change env id a updated new_status notes s).1 in
        (s'.applications ≡ s.applications) × (s'.history ≡ s.history)
  unfolding announce_change
  announce_change-tables id a updated new_status notes s = ground arith

  Evolves-after_move :
      (id : String) (a : Application) (new_status : ApplicationStatus) (notes by : Option String)
      (s : Careers)
      → env.db.find_first (has_id id) s.applications ≡ some a
      → IsMove a.status new_status
      → let s' = after_move id a new_status notes by s in
        Evolves s.applications s.history s'.applications s'.history
  Evolves-after_move id a new_status notes by s e move =
      let (m, p) = env.db.found (has_id id) s.applications a e in
      moved a (move_row id a new_status notes by) (set_status new_status) m ((eq_iff a.id id).0 p)
        refl move (λ x. refl) (λ x. refl) refl refl

  pub withdraw-Evolves :
      (id : String) (s : Careers)
      → let s' = (withdraw env id s).1 in
        Evolves s.applications s.history s'.applications s'.history
  withdraw-Evolves id s = elim (Option-cases (env.db.find_first (has_id id) s.applications)) [
    | inl none_found ↦ rw (withdraw_missing id s none_found) (unchanged refl refl)
    | inr (a, found) ↦ rw (withdraw_found id s a found) (elim (Bool-cases (is_terminal a.status)) [
      | inl t ↦ elim (Bool-cases (same_status a.status withdrawn)) [
        | inl w ↦ rw w (unchanged refl refl)
        | inr w ↦ rw (w, t) (unchanged refl refl)
      ]
      | inr t ↦ elim (Bool-cases (same_status a.status withdrawn)) [
        | inl w ↦ rw w (unchanged refl refl)
        | inr w ↦
            rw (w, t)
              (Evolves-after_move id a withdrawn (some "Withdrawn by applicant") none s found
                (t, inr refl))
      ]
    ])
  ]

  pub change_status-Evolves :
      (id : String) (new_status : ApplicationStatus) (by : String) (notes : Option String)
      (s : Careers)
      → let s' = (change_status env id new_status by notes s).1 in
        Evolves s.applications s.history s'.applications s'.history
  change_status-Evolves id new_status by notes s =
      elim (Option-cases (env.db.find_first (has_id id) s.applications)) [
        | inl none_found ↦
            rw (change_status_missing id new_status by notes s none_found) (unchanged refl refl)
        | inr (a, found) ↦
            rw (change_status_found id new_status by notes s a found)
              (elim (Bool-cases (is_terminal a.status)) [
                | inl t ↦ rw t (unchanged refl refl)
                | inr t ↦ elim (Bool-cases (is_allowed a.status new_status)) [
                  | inl allowed ↦
                      let s1 = after_move id a new_status notes (some by) s in
                      let (p, q) =
                        announce_change-tables id a (set_status new_status a) new_status notes s1 in
                      rw (t, allowed, p, q)
                        (Evolves-after_move id a new_status notes (some by) s found
                          (t, inl allowed))
                  | inr refused ↦ rw (t, refused) (unchanged refl refl)
                ]
              ])
      ]
