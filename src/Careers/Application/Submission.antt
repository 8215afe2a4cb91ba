-- ===== src/Careers/Application/Submission.antt =====
-- What `submit` does to the tables.
use all_service_api.Common.{
  Bool-cases, Option-cases, or_else, All, All-lookup, application_duplicate,
  custom_field_validation_failed, bad_request, conflict, Result, ok, err, resume, ◌>>=◌, ◌>>◌,
  require, String, ◌≡◌, refl, sym, ◌≢◌, ◌⊎◌, inl, inr, Bool, true, false, not, ◌&&◌, Option, none,
  some, List, [], Memᴰ, arith, str_eq, eq_iff, eq_refl,
}
use all_service_api.Careers.Status.{
  eq-of-same_status, ApplicationStatus, submitted, is_terminal, is_allowed,
}
use all_service_api.Careers.State.{
  ResponseValue, CustomFieldDefinition, Application, StatusChange, Careers,
}
use all_service_api.Careers.ApplicantToken.{verify_stored, verify_code}
use all_service_api.Careers.Application.{
  submit, validate_responses, is_taken, has_applicant, JobPosting, conclude_submission, CareersEnv,
  SubmitApplicationDto, StoredFile, Drawn, has_id, fill_draft, new_application, write_submission,
}
use all_service_api.Careers.Application.Evolution.{unchanged, Evolves, moved, filed}
use all_service_api.Redis.{career_verify_code, get}
use all_service_api.Careers.CustomFields.{validate_custom_responses}
use all_service_api.Careers.Posting.{is_before, is_published}

abbrev submission_row : String → StatusChange
submission_row id = record {
  application_id = id;
  from_status = ApplicationStatus.draft;
  to_status = submitted;
  notes = some "Application submitted";
  changed_by = none;
}

module _ (env : CareersEnv) where
  -- The update by the identifier of a row that is there finds a row.
  find_own :
      (rows : List Application) (a : Application)
      → Memᴰ a rows
      → (row : Application) × (env.db.find_first (has_id a.id) rows ≡ some row)
  find_own rows a m = elim (Option-cases (env.db.find_first (has_id a.id) rows)) [
    | inl none_found ↦
        absurd
          (cc (All-lookup _ rows (env.db.missing (has_id a.id) rows none_found) m, eq_refl a.id))
    | inr found ↦ found
  ]

  write_submission-Evolves_new :
      (dto : SubmitApplicationDto) (ip_hash : String) (drawn : Drawn) (file : Option StoredFile)
      (s : Careers)
      → All (λ x. x.id ≢ drawn.id) s.applications
      → let s' = (write_submission env dto ip_hash drawn file none s).1 in
        Evolves s.applications s.history s'.applications s'.history
  unfolding write_submission
  write_submission-Evolves_new dto ip_hash drawn none s fresh =
      filed (new_application dto ip_hash drawn.id drawn.now) (submission_row drawn.id) fresh refl
        refl refl refl (env.db.create_lem _ s.applications) (env.db.create_lem _ s.history)
  write_submission-Evolves_new dto ip_hash drawn (some stored) s fresh =
      filed (new_application dto ip_hash drawn.id drawn.now) (submission_row drawn.id) fresh refl
        refl refl refl (env.db.create_lem _ s.applications) (env.db.create_lem _ s.history)

  write_submission-Evolves_draft :
      (dto : SubmitApplicationDto) (ip_hash : String) (drawn : Drawn) (file : Option StoredFile)
      (a : Application) (s : Careers)
      → Memᴰ a s.applications
      → a.status ≡ ApplicationStatus.draft
      → let s' = (write_submission env dto ip_hash drawn file (some a) s).1 in
        Evolves s.applications s.history s'.applications s'.history
  unfolding write_submission is_terminal is_allowed
  write_submission-Evolves_draft dto ip_hash drawn none a s m d =
      let (row, found) = find_own s.applications a m in
      let same : row.id ≡ a.id =
        (eq_iff row.id a.id).0 (env.db.found (has_id a.id) s.applications row found).1 in
      rw (env.db.update_found (has_id a.id) (fill_draft dto ip_hash) s.applications row found) (
        moved a (submission_row row.id) (fill_draft dto ip_hash) m (sym same) (sym d)
          (rw d (refl, inl refl)) (λ x. refl) (λ x. refl) (rw same) (env.db.create_lem _ s.history))
  write_submission-Evolves_draft dto ip_hash drawn (some stored) a s m d =
      let (row, found) = find_own s.applications a m in
      let same : row.id ≡ a.id =
        (eq_iff row.id a.id).0 (env.db.found (has_id a.id) s.applications row found).1 in
      rw (env.db.update_found (has_id a.id) (fill_draft dto ip_hash) s.applications row found) (
        moved a (submission_row row.id) (fill_draft dto ip_hash) m (sym same) (sym d)
          (rw d (refl, inl refl)) (λ x. refl) (λ x. refl) (rw same) (env.db.create_lem _ s.history))

  -- A verification code is checked against the server and does not touch the tables.
  verify_code-tables :
      (email posting_id code : String) (s : Careers)
      → (b : Bool) × (codes : List (String × String)) × (verify_code env.redis env.config email
            posting_id code s
          ≡ (ok b, record s { codes = codes }))
  unfolding verify_code
  verify_code-tables email posting_id code s =
      go (get (career_verify_code env.config.region email posting_id) s.codes) refl
    where
      go :
          (o : Option String)
          → get (career_verify_code env.config.region email posting_id) s.codes ≡ o
          → (b : Bool) × (codes : List (String × String)) × (verify_code env.redis env.config email
                posting_id code s
              ≡ (ok b, record s { codes = codes }))
      go none e = (false, s.codes, rw e)
      go (some stored) e = elim (Bool-cases (str_eq stored code && not (str_eq stored ""))) [
        | inl p ↦ (
          true,
          env.redis.del (career_verify_code env.config.region email posting_id) s.codes,
          rw (e, verify_stored, p),
        )
        | inr p ↦ (false, s.codes, rw (e, verify_stored, p))
      ]

  -- What follows the transaction leaves the two tables alone.
  conclude_submission-tables :
      (dto : SubmitApplicationDto) (posting : JobPosting) (drawn : Drawn)
      (r : Result Application × Careers)
      → let s' = (resume r (conclude_submission env dto posting drawn)).1 in
        (s'.applications ≡ r.1.applications) × (s'.history ≡ r.1.history)
  unfolding conclude_submission
  conclude_submission-tables dto posting drawn (ok a, s) = (refl, refl)
  conclude_submission-tables dto posting drawn (err e, s) = (refl, refl)

  -- The responses are checked without an effect.
  pub validate_responses-cases :
      (fields : List CustomFieldDefinition) (responses : List (String × ResponseValue))
      (s : Careers)
      → (validate_responses fields responses s ≡ (ok tt, s))
        ⊎ (validate_responses fields responses s
            ≡ (err (bad_request custom_field_validation_failed), s))
  unfolding validate_custom_responses
  validate_responses-cases fields responses s = ground arith

  module _ (dto : SubmitApplicationDto) (ip : String) (file : Option StoredFile) (drawn : Drawn)
      (s : Careers) (fresh : All (λ x. x.id ≢ drawn.id) s.applications) where
    -- The branches after the row that the duplicate check found, in the state with the code used.
    written :
        (posting : JobPosting) (codes : List (String × String)) (existing : Option Application)
        → env.db.find_first (has_applicant dto.email dto.job_posting_id) s.applications ≡ existing
        → is_taken existing ≡ false
        → let s1 = record s { codes = codes } in
          let s' =
            (resume
              (write_submission env dto (env.hash ip) drawn file existing s1)
              (conclude_submission env dto posting drawn)).1 in
          Evolves s.applications s.history s'.applications s'.history
    written posting codes none e free =
        let s1 = record s { codes = codes } in
        let (p, q) =
          conclude_submission-tables dto posting drawn
            (write_submission env dto (env.hash ip) drawn file none s1) in
        rw (p, q) (write_submission-Evolves_new dto (env.hash ip) drawn file s1 fresh)
    written posting codes (some a) e free =
        let s1 = record s { codes = codes } in
        let (p, q) =
          conclude_submission-tables dto posting drawn
            (write_submission env dto (env.hash ip) drawn file (some a) s1) in
        let (m, _) = env.db.found (has_applicant dto.email dto.job_posting_id) s.applications a e in
        rw (p, q)
          (write_submission-Evolves_draft dto (env.hash ip) drawn file a s1 m
            (eq-of-same_status a.status ApplicationStatus.draft (ground arith)))

    -- The branches from the duplicate check on.
    checked :
        (posting : JobPosting) (codes : List (String × String))
        → let s1 = record s { codes = codes } in
          let existing =
            env.db.find_first (has_applicant dto.email dto.job_posting_id) s.applications in
          let s' =
            ((require {S = Careers} (not (is_taken existing)) (conflict application_duplicate)
                >> (validate_responses
                      (or_else posting.custom_fields [])
                      (or_else dto.custom_responses [])
                    >> (write_submission env dto (env.hash ip) drawn file existing
                        >>= conclude_submission env dto posting drawn)))
              s1).1 in
          Evolves s.applications s.history s'.applications s'.history
    checked posting codes =
        let existing =
          env.db.find_first (has_applicant dto.email dto.job_posting_id) s.applications in
        let s1 = record s { codes = codes } in
        elim (Bool-cases (is_taken existing)) [
          | inl taken ↦ rw taken (unchanged refl refl)
          | inr free ↦
              rw free
                (elim (validate_responses-cases (or_else posting.custom_fields [])
                  (or_else dto.custom_responses []) s1) [
                    | inl valid ↦ rw valid (written posting codes existing refl free)
                    | inr invalid ↦ rw invalid (unchanged refl refl)
                  ])
        ]

    -- A submission files a new application, fills in a draft, or leaves both tables as they were.
    pub submit-Evolves :
        let s' = (submit env dto ip file drawn s).1 in
        Evolves s.applications s.history s'.applications s'.history
    unfolding submit
    submit-Evolves =
        elim (Option-cases (env.db.find_first (λ p. str_eq p.id dto.job_posting_id) s.postings)) [
          | inl e ↦ rw e (unchanged refl refl)
          | inr (posting, e) ↦ rw e (elim (Bool-cases (is_published posting.status)) [
            | inr p ↦ rw p (unchanged refl refl)
            | inl p ↦ elim (Bool-cases (is_before posting.closes_at drawn.now)) [
              | inl q ↦ rw (p, q) (unchanged refl refl)
              | inr q ↦
                  let (b, codes, v) =
                    verify_code-tables dto.email dto.job_posting_id dto.verification_code s in
                  rw (p, q, v)
                    (elim (Bool-cases b) [
                      | inl r ↦ rw r (checked posting codes)
                      | inr r ↦ rw r (unchanged refl refl)
                    ])
            ]
          ])
        ]
