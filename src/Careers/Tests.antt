-- ===== src/Careers/Tests.antt =====
-- Examples: one posting, and applications to it at several points of the pipeline.
use all_service_api.Common.{
  ne-of-str_eq, length, All, application_invalid_transition, custom_field_validation_failed,
  Failure, bad_request, conflict, ok, err, ◌≤◌, ◌≡◌, refl, ◌↔◌, ◌⊎◌, inl, true, false, none, some,
  List, [], ◌∷◌, map, Memᴰ, arith,
}
use all_service_api.Prisma.{list_client}
use all_service_api.Redis.{get, map_server, career_verify_code}
use all_service_api.Careers.Status.{
  ApplicationStatus, submitted, under_review, shortlisted, interview_scheduled, interviewed,
  offer_extended, hired, is_terminal, is_allowed,
}
use all_service_api.Careers.State.{
  Careers, JobPosting, Application, StatusChange, CustomFieldDefinition, CustomFieldType,
  ResponseValue, published,
}
use all_service_api.Careers.ApplicantToken.{
  verify_code, validate_magic_link_token, generate_magic_link_token, generate_verification_code,
  CareersConfig,
}
use all_service_api.Careers.Application.{
  is_taken, CareersEnv, SubmitApplicationDto, Drawn, StoredFile,
}
use all_service_api.Careers.Application
use all_service_api.Careers.Application.Outcomes.{
  find_posting, find_application, change_status_ok_iff, change_status_refused, withdraw_ok_iff,
}
use all_service_api.Careers.Application.Codes.{
  existing_of, posting_of, submit_uses_code, submit_guarded,
}
use all_service_api.Careers.ApplicantToken.Laws.{verify_code_once, magic_link_valid}
use all_service_api.Careers.CustomFields.{validate_custom_responses, response}
use all_service_api.Careers.CustomFields.Laws.{IsAcceptable, validate_custom_responses_iff}
use all_service_api.Careers.Pipeline.{
  Reach, here, next, change, withdrawal, IsConsistent, Reach-IsConsistent, Reach-terminal,
}
use all_service_api.Careers.Pipeline.Bounds.{history_bounded, hired_went_through}
use all_service_api.Careers.Posting.Lifecycle.{Advances, lifecycle-Advances}
use all_service_api.Careers.Posting.Slug.Laws.{is_tidy, slug_shape}
use all_service_api.Careers.Application.Trail.{trail_of}
use all_service_api.Careers.Posting.Slug.{with_suffix, slug_base}
use all_service_api.Careers.Posting.{
  is_before, is_published, close_expired_postings, archive, close, publish,
}

abbrev settings : CareersConfig
settings = record { region = "UK"; magic_link_ttl_seconds = 86400; verify_code_ttl_seconds = 600 }

abbrev services : CareersEnv
services = record {
  db = list_client;
  redis = map_server;
  hash = λ text. text;
  encode_uri_component = λ text. text;
  config = settings;
  apply_web_url = "https://apply.example/";
}

abbrev fields : List CustomFieldDefinition
fields =
    record {
      id = "f1";
      label = "Notice period";
      type = CustomFieldType.number;
      required = true;
      options = none;
    }
    ∷ record {
      id = "f2";
      label = "Site";
      type = CustomFieldType.url;
      required = false;
      options = none;
    }
    ∷ []

abbrev engineer : JobPosting
engineer = record {
  id = "p1";
  title = "Engineer";
  slug = b'e' ∷ b'n' ∷ b'g' ∷ [];
  department = "Platform";
  location = "Leeds";
  type = "FULL_TIME";
  work_mode = "REMOTE";
  description = "Builds";
  requirements = "None";
  salary_min = none;
  salary_max = none;
  salary_currency = none;
  salary_period = none;
  cv_required = false;
  custom_fields = some fields;
  status = published;
  closes_at = some 5000;
  published_at = some 10;
  created_by = "staff";
}

abbrev applicant : ApplicationStatus → Application
applicant status = record {
  id = "a1";
  job_posting_id = "p1";
  applicant_name = "Ada";
  applicant_email = "ada@example.com";
  applicant_phone = none;
  phone_normalized = none;
  cover_letter = none;
  custom_responses = none;
  status = status;
  email_verified = true;
  ip_hash = "ip";
  created_at = 100;
}

abbrev row : ApplicationStatus → ApplicationStatus → StatusChange
row from to = record {
  application_id = "a1";
  from_status = from;
  to_status = to;
  notes = none;
  changed_by = none;
}

abbrev at_status : ApplicationStatus → List StatusChange → Careers
at_status status rows = record {
  postings = engineer ∷ [];
  applications = applicant status ∷ [];
  history = rows;
  documents = [];
  tokens = [];
  codes = [];
  events = [];
}

abbrev offered : Careers
offered = at_status offer_extended (
    row ApplicationStatus.draft submitted
    ∷ row submitted under_review
    ∷ row under_review shortlisted
    ∷ row shortlisted interview_scheduled
    ∷ row interview_scheduled interviewed
    ∷ row interviewed offer_extended
    ∷ [])

offered-IsConsistent : IsConsistent offered
unfolding is_terminal is_allowed
offered-IsConsistent = record {
  recorded = (
    (
      refl,
      (refl, inl refl),
      (
        refl,
        (refl, inl refl),
        (
          refl,
          (refl, inl refl),
          (refl, (refl, inl refl), (refl, (refl, inl refl), (refl, (refl, inl refl), refl))),
        ),
      ),
    ),
    tt,
  );
  owned = (refl, (refl, (refl, (refl, (refl, (refl, tt))))));
}

abbrev after_hire : Careers
after_hire = (Application.change_status services "a1" hired "staff" none offered).1

abbrev after_both : Careers
after_both = (Application.withdraw services "a1" after_hire).1

hire : Reach services offered after_hire
hire = next here (change "a1" hired "staff" none refl)

both : Reach services offered after_both
both = next hire (withdrawal "a1" refl)

Reach-IsConsistent_example : IsConsistent after_both
Reach-IsConsistent_example = Reach-IsConsistent services both offered-IsConsistent

hired-IsConsistent : IsConsistent after_hire
hired-IsConsistent = Reach-IsConsistent services hire offered-IsConsistent

Reach-terminal_example : Memᴰ (applicant hired) after_both.applications
unfolding is_terminal Application.change_status is_allowed Application.write_status
    Application.announce_change
Reach-terminal_example =
    Reach-terminal services (applicant hired) (next here (withdrawal "a1" refl)) hired-IsConsistent
      (Memᴰ.head refl) refl

history_bounded_example :
    All (λ a. length (trail_of a.id after_both.history) ≤ 7) after_both.applications
history_bounded_example = history_bounded services offered after_both both offered-IsConsistent

hired_went_through_example :
    map (λ h. h.to_status) (trail_of "a1" after_hire.history)
    ≡ submitted ∷ under_review ∷ shortlisted ∷ interview_scheduled ∷ interviewed ∷ offer_extended
      ∷ hired ∷ []
unfolding is_terminal is_allowed Application.change_status Application.write_status
    Application.announce_change
hired_went_through_example =
    hired_went_through services offered after_hire (applicant hired) hire offered-IsConsistent
      (Memᴰ.head refl) refl

change_status_ok_iff_example :
    ((u : Application) × ((Application.change_status services "a1" hired "staff" none offered).0
        ≡ ok u))
    ↔ ((a : Application) × (p : JobPosting) × (find_application services "a1" offered ≡ some a)
        × (is_allowed a.status hired ≡ true)
        × (find_posting services a.job_posting_id offered ≡ some p))
change_status_ok_iff_example = change_status_ok_iff services "a1" hired "staff" none offered

change_status_refused_example :
    (Application.change_status services "a1" submitted "staff" none offered).1 ≡ offered
unfolding is_terminal is_allowed Application.change_status
change_status_refused_example =
    change_status_refused services "a1" submitted "staff" none offered
      (conflict application_invalid_transition) refl (λ e. cc)

withdraw_ok_iff_example :
    (((u : Application) × ((Application.withdraw services "a1" offered).0 ≡ ok u)) ↔ (
      (a : Application) × (find_application services "a1" offered ≡ some a)
      × (is_terminal a.status ≡ false)))
    × ((e : Failure)
        → (Application.withdraw services "a1" offered).0 ≡ err e
        → (Application.withdraw services "a1" offered).1 ≡ offered)
withdraw_ok_iff_example = withdraw_ok_iff services "a1" offered

abbrev dto : SubmitApplicationDto
dto = record {
  job_posting_id = "p1";
  name = "Ada";
  email = "ada@example.com";
  phone = some "+44 (0) 113";
  cover_letter = none;
  verification_code = "123456";
  custom_responses = some (("f1", ResponseValue.number 30) ∷ []);
}

abbrev drawn : Drawn
drawn = record { id = "a2"; raw_token = "raw"; now = 1000 }

abbrev code_sent : Careers
code_sent = record (at_status ApplicationStatus.draft []) {
  codes = (career_verify_code "UK" "ada@example.com" "p1", "123456") ∷ [];
}

submit_uses_code_example :
    get
      (career_verify_code "UK" "ada@example.com" "p1")
      (Application.submit services dto "ip" none drawn code_sent).1.codes
    ≡ none
unfolding get
submit_uses_code_example =
    submit_uses_code services dto "ip" none drawn code_sent engineer refl refl refl refl refl

submit_guarded_example :
    let (result, s') = Application.submit services dto "ip" none drawn offered in
    ((e : Failure) × (result ≡ err e)
      × (s'.applications ≡ offered.applications)
      × (s'.history ≡ offered.history)
      × (s'.documents ≡ offered.documents)
      × (s'.tokens ≡ offered.tokens)
      × (s'.events ≡ offered.events))
    ⊎ ((p : JobPosting) × (posting_of services dto "ip" none drawn offered ≡ some p)
        × (is_published p.status ≡ true)
        × (is_before p.closes_at drawn.now ≡ false)
        × (get (career_verify_code "UK" "ada@example.com" "p1") offered.codes ≡ some "123456")
        × (is_taken (existing_of services dto "ip" none drawn offered) ≡ false))
submit_guarded_example = submit_guarded services dto "ip" none drawn offered

verify_code_once_example :
    let s1 =
      (generate_verification_code map_server settings "ada@example.com" "p1" "654321" offered).1 in
    let (first, s2) = verify_code map_server settings "ada@example.com" "p1" "654321" s1 in
    let (second, s3) = verify_code map_server settings "ada@example.com" "p1" "654321" s2 in
    (first ≡ ok true)
    × (second ≡ ok false)
    × (get (career_verify_code "UK" "bob@example.com" "p1") s3.codes
        ≡ get (career_verify_code "UK" "bob@example.com" "p1") offered.codes)
verify_code_once_example =
    verify_code_once map_server settings "ada@example.com" "p1" "654321" offered
      (career_verify_code "UK" "bob@example.com" "p1") refl (ne-of-str_eq _ _ refl)

magic_link_valid_example :
    let s' =
      (generate_magic_link_token list_client services.hash settings "a1" "raw" 1000 offered).1 in
    (validate_magic_link_token list_client services.hash settings "raw" 2000 s').0 ≡ ok (some "a1")
magic_link_valid_example =
    magic_link_valid list_client services.hash settings "a1" "raw" 1000 2000 offered tt

validate_custom_responses_iff_example :
    ((validate_custom_responses fields [] offered ≡ (ok tt, offered))
      ↔ All (λ f. IsAcceptable f (response f.id [])) fields)
    × ((validate_custom_responses fields [] offered ≡ (ok tt, offered))
        ⊎ (validate_custom_responses fields [] offered
            ≡ (err (bad_request custom_field_validation_failed), offered)))
validate_custom_responses_iff_example = validate_custom_responses_iff fields [] offered

lifecycle-Advances_example :
    Advances offered.postings (publish list_client "p1" 6000 offered).1.postings
    × Advances offered.postings (close list_client "p1" offered).1.postings
    × Advances offered.postings (archive list_client "p1" offered).1.postings
    × Advances offered.postings (close_expired_postings list_client 6000 offered).1.postings
lifecycle-Advances_example = lifecycle-Advances list_client offered (tt, tt) "p1" 6000

slug_shape_example :
    (is_tidy true (slug_base (b'-' ∷ b'c' ∷ b'+' ∷ b'+' ∷ [])) ≡ true)
    × (length (slug_base (b'-' ∷ b'c' ∷ b'+' ∷ b'+' ∷ [])) ≤ 280)
    × (length (with_suffix (slug_base (b'-' ∷ b'c' ∷ b'+' ∷ b'+' ∷ [])) (b'm' ∷ b'1' ∷ [])) ≤ 280)
slug_shape_example = slug_shape (b'-' ∷ b'c' ∷ b'+' ∷ b'+' ∷ []) (b'm' ∷ b'1' ∷ []) (omega arith)
