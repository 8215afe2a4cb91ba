-- ===== src/Careers/Application/Codes.antt =====
-- The verification code of a submission: what it opens, and when it is used up.
use all_service_api.Careers.Application.Submission.{validate_responses-cases}
use all_service_api.Common.{
  Bool-cases, Option-cases, str_eq-of-ne, or_else, application_duplicate, Failure, conflict, Result,
  ok, err, resume, ◌>>=◌, ◌>>◌, require, String, ◌≡◌, refl, ap, ◌∙◌, ◌≢◌, ◌⊎◌, inl, inr, true,
  false, not, Option, none, some, [], arith, str_eq, eq_iff, eq_refl,
}
use all_service_api.Redis.{get, career_verify_code}
use all_service_api.Careers.State.{Careers, Application, JobPosting, published}
use all_service_api.Careers.Posting.{is_published, is_before}
use all_service_api.Careers.ApplicantToken.{verify_code, verify_stored}
use all_service_api.Careers.Application.{
  CareersEnv, SubmitApplicationDto, StoredFile, Drawn, has_applicant, is_taken, write_submission,
  conclude_submission, submit, validate_responses,
}

module _ (env : CareersEnv) (dto : SubmitApplicationDto) (ip : String) (file : Option StoredFile)
    (drawn : Drawn) where
  abbrev code_key : String
  code_key = career_verify_code env.config.region dto.email dto.job_posting_id

  abbrev pub posting_of : Careers → Option JobPosting
  posting_of s = env.db.find_first (λ p. str_eq p.id dto.job_posting_id) s.postings

  abbrev pub existing_of : Careers → Option Application
  existing_of s = env.db.find_first (has_applicant dto.email dto.job_posting_id) s.applications

  write_submission-codes :
      (existing : Option Application) (s : Careers)
      → (write_submission env dto (env.hash ip) drawn file existing s).1.codes ≡ s.codes
  unfolding write_submission
  write_submission-codes none s = ground arith
  write_submission-codes (some a) s = ground arith

  resume-codes :
      (posting : JobPosting) (r : Result Application × Careers)
      → (resume r (conclude_submission env dto posting drawn)).1.codes ≡ r.1.codes
  unfolding conclude_submission
  resume-codes posting (ok a, s) = refl
  resume-codes posting (err e, s) = refl

  verify_code_match :
      (s : Careers)
      → get code_key s.codes ≡ some dto.verification_code
      → str_eq dto.verification_code "" ≡ false
      → verify_code env.redis env.config dto.email dto.job_posting_id dto.verification_code s
        ≡ (ok true, record s { codes = env.redis.del code_key s.codes })
  unfolding verify_code
  verify_code_match s e full = rw (e, verify_stored, full, eq_refl dto.verification_code)

  verify_code_empty :
      (s : Careers)
      → get code_key s.codes ≡ some dto.verification_code
      → str_eq dto.verification_code "" ≡ true
      → verify_code env.redis env.config dto.email dto.job_posting_id dto.verification_code s
        ≡ (ok false, s)
  unfolding verify_code
  verify_code_empty s e empty = rw (e, verify_stored, eq_refl dto.verification_code, empty)

  verify_code_mismatch :
      (s : Careers)
      → get code_key s.codes ≢ some dto.verification_code
      → verify_code env.redis env.config dto.email dto.job_posting_id dto.verification_code s
        ≡ (ok false, s)
  unfolding verify_code
  verify_code_mismatch s ne = elim (Option-cases (get code_key s.codes)) [
    | inl e ↦ rw (e, verify_stored)
    | inr (stored, e) ↦
        rw (e, verify_stored, str_eq-of-ne stored dto.verification_code (λ k. ne (e ∙ ap some k)))
  ]

  -- From the duplicate check on the codes are left alone.
  checked-codes :
      (p : JobPosting) (s : Careers)
      → ((require {S = Careers} (not (is_taken (existing_of s))) (conflict application_duplicate)
            >> (validate_responses (or_else p.custom_fields []) (or_else dto.custom_responses [])
                >> (write_submission env dto (env.hash ip) drawn file (existing_of s)
                    >>= conclude_submission env dto p drawn)))
          s).1.codes
        ≡ s.codes
  checked-codes p s =
      let written =
        resume-codes p (write_submission env dto (env.hash ip) drawn file (existing_of s) s)
        ∙ write_submission-codes (existing_of s) s in
      elim (Bool-cases (is_taken (existing_of s))) [
        | inl taken ↦ rw taken
        | inr free ↦
            rw free
              (elim (validate_responses-cases env (or_else p.custom_fields [])
                (or_else dto.custom_responses []) s) [
                  | inl valid ↦ rw valid written
                  | inr invalid ↦ rw invalid
                ])
      ]

  -- A correct code, not empty, for a posting that takes applications is used up, whether the submission then
  -- succeeds or is refused as a duplicate or for its responses.
  pub submit_uses_code :
      (s : Careers) (p : JobPosting)
      → posting_of s ≡ some p
      → p.status ≡ published
      → is_before p.closes_at drawn.now ≡ false
      → get code_key s.codes ≡ some dto.verification_code
      → str_eq dto.verification_code "" ≡ false
      → get code_key (submit env dto ip file drawn s).1.codes ≡ none
  unfolding submit
  submit_uses_code s p found is_open early code full =
      let s1 = record s { codes = env.redis.del code_key s.codes } in
      let gone : get code_key s1.codes ≡ none =
        env.redis.get-del code_key s.codes code_key ∙ rw (eq_refl code_key) refl in
      let takes : is_published p.status ≡ true = ap is_published is_open in
      rw (found, takes, early, verify_code_match s code full)
        (ap (get code_key) (checked-codes p s1) ∙ gone)

  code-cases : (o : Option String) (code : String) → (o ≡ some code) ⊎ (o ≢ some code)
  code-cases none code = inr (λ e. cc)
  code-cases (some stored) code = elim (Bool-cases (str_eq stored code)) [
    | inl e ↦ inl (ap some ((eq_iff stored code).0 e))
    | inr e ↦ inr (λ k. ground (arith, eq_iff stored code))
  ]

  -- A submission succeeds only for a published posting whose closing time has not passed, with the
  -- code that was sent to the address, and with no earlier application but a draft. Any other
  -- submission fails, and no application, history row, document, link or event is written.
  pub submit_guarded :
      (s : Careers)
      → let (result, s') = submit env dto ip file drawn s in
        ((e : Failure) × (result ≡ err e)
          × (s'.applications ≡ s.applications)
          × (s'.history ≡ s.history)
          × (s'.documents ≡ s.documents)
          × (s'.tokens ≡ s.tokens)
          × (s'.events ≡ s.events))
        ⊎ ((p : JobPosting) × (posting_of s ≡ some p)
            × (is_published p.status ≡ true)
            × (is_before p.closes_at drawn.now ≡ false)
            × (get code_key s.codes ≡ some dto.verification_code)
            × (is_taken (existing_of s) ≡ false))
  unfolding submit
  submit_guarded s = elim (Option-cases (posting_of s)) [
    | inl e ↦ rw e (inl (_, refl, refl, refl, refl, refl, refl))
    | inr (p, e) ↦ elim (Bool-cases (is_published p.status)) [
      | inr q ↦ rw (e, q) (inl (_, refl, refl, refl, refl, refl, refl))
      | inl q ↦ elim (Bool-cases (is_before p.closes_at drawn.now)) [
        | inl b ↦ rw (e, q, b) (inl (_, refl, refl, refl, refl, refl, refl))
        | inr b ↦ elim (code-cases (get code_key s.codes) dto.verification_code) [
          | inr c ↦
              rw (e, q, b, verify_code_mismatch s c) (inl (_, refl, refl, refl, refl, refl, refl))
          | inl c ↦ elim (Bool-cases (str_eq dto.verification_code "")) [
            | inl empty ↦
                rw (e, q, b, verify_code_empty s c empty)
                  (inl (_, refl, refl, refl, refl, refl, refl))
            | inr full ↦ elim (Bool-cases (is_taken (existing_of s))) [
              | inl t ↦
                  rw (e, q, b, verify_code_match s c full, t)
                    (inl (_, refl, refl, refl, refl, refl, refl))
              | inr t ↦ inr (p, e, q, b, c, t)
            ]
          ]
        ]
      ]
    ]
  ]
