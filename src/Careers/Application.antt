-- ===== src/Careers/Application.antt =====
-- src/modules/careers/application.service.ts: submission, status changes, withdrawal, pruning.
pub mod Trail
pub mod Steps
pub mod Moves
pub mod Evolution
pub mod Submission
pub mod Outcomes
pub mod Codes
use Prim.Native.Char.{Char, code}
use Prim.Native.String.{◌++◌ as str_append}
use all_service_api.Common.{
  ltb, leb, ◌==◌, if◌then◌else◌, or_else, any, posting_not_published, posting_closed,
  application_not_found, application_duplicate, application_invalid_transition,
  application_already_withdrawn, application_terminal_status, verify_code_invalid, Failure,
  bad_request, not_found, conflict, gone, record_missing, Result, ok, err, M, pure, throw, ◌>>=◌,
  ◌>>◌, gets, modify, require, some_or, transaction, ℕ, ◌+◌, ◌*◌, String, Bool, true, false, not,
  ◌&&◌, ◌||◌, Option, none, some, List, [], ◌∷◌, ◌++◌, str_eq,
}
use all_service_api.Prisma.{Prisma, keep}
use all_service_api.Redis.{Redis}
use all_service_api.Careers.Status.{
  ApplicationStatus, submitted, withdrawn, same_status, is_terminal, is_allowed,
}
use all_service_api.Careers.State.{
  Careers, JobPosting, CustomFieldDefinition, ResponseValue, Application, StatusChange,
  ApplicationDocument, CareerEvent, application_submitted, status_changed,
}
use all_service_api.Careers.Posting.{is_published, is_before}
use all_service_api.Careers.Posting
use all_service_api.Careers.CustomFields.{is_empty, validate_custom_responses}
use all_service_api.Careers.ApplicantToken.{CareersConfig, verify_code, generate_magic_link_token}

pub record SubmitApplicationDto : Type 0 where
  pub job_posting_id : String
  pub name : String
  pub email : String
  pub phone : Option String
  pub cover_letter : Option String
  pub verification_code : String
  pub custom_responses : Option (List (String × ResponseValue))

-- What `saveFile` answers of an uploaded file.
pub record StoredFile : Type 0 where
  pub filename : String
  pub mime_type : String
  pub size_bytes : ℕ
  pub storage_path : String
  pub sha256_hash : String

-- The values that a submission draws: the row's identifier, the link's token and the time.
pub record Drawn : Type 0 where
  pub id : String
  pub raw_token : String
  pub now : ℕ

abbrev pub draft_prune_hours : ℕ
draft_prune_hours = 24

-- The services that the module is built on.
pub record CareersEnv : Type 1 where
  pub db : Prisma
  pub redis : Redis
  pub hash : String → String
  pub encode_uri_component : String → String
  pub config : CareersConfig
  pub apply_web_url : String

-- `phone.replace(/[^+\d]/g, '')`
abbrev is_phone_char : ℕ → Bool
is_phone_char c = c == b'+' || (leb b'0' c && leb c b'9')

unfoldable pub strip_phone : String → String
strip_phone String.[] = String.[]
strip_phone (String.◌∷◌ c rest) =
    let later = strip_phone rest in if is_phone_char (code c) then String.◌∷◌ c later else later

-- `dto.phone ? dto.phone.replace(…) : null`: an empty text counts as none.
abbrev normalize_phone : Option String → Option String
normalize_phone none = none
normalize_phone (some phone) = if str_eq phone "" then none else some (strip_phone phone)

-- `base.replace(/\/+$/, '')`
abbrev put_before : Char → String → String
put_before c String.[] = if code c == b'/' then String.[] else String.◌∷◌ c String.[]
put_before c (String.◌∷◌ d rest) = String.◌∷◌ c (String.◌∷◌ d rest)

drop_slashes : String → String
drop_slashes String.[] = String.[]
drop_slashes (String.◌∷◌ c rest) = put_before c (drop_slashes rest)

unfoldable pub build_magic_link_url : CareersEnv → String → String
unfolding drop_slashes
build_magic_link_url env raw_token =
    str_append (drop_slashes env.apply_web_url)
      (str_append "/application?token=" (env.encode_uri_component raw_token))

abbrev pub is_draft : ApplicationStatus → Bool
is_draft s = same_status s ApplicationStatus.draft

-- `existing && existing.status !== 'DRAFT'`
abbrev pub is_taken : Option Application → Bool
is_taken none = false
is_taken (some existing) = not (is_draft existing.status)

abbrev pub has_id : String → Application → Bool
has_id id a = str_eq a.id id

-- The unique index on email and posting.
abbrev pub has_applicant : String → String → Application → Bool
has_applicant email posting_id a =
    str_eq a.applicant_email email && str_eq a.job_posting_id posting_id

abbrev pub store_applications :
    Careers → Option (Application × List Application) → Result Application × Careers
store_applications s none = (err record_missing, s)
store_applications s (some (application, rows)) = (ok application, record s { applications = rows })

-- What a submission writes over a draft.
abbrev fill_draft : SubmitApplicationDto → String → Application → Application
fill_draft dto ip_hash a = record a {
  applicant_name = dto.name;
  applicant_phone = dto.phone;
  phone_normalized = normalize_phone dto.phone;
  cover_letter = dto.cover_letter;
  custom_responses = elim dto.custom_responses [ none ↦ a.custom_responses | some r ↦ some r ];
  status = submitted;
  email_verified = true;
  ip_hash = ip_hash;
}

abbrev new_application : SubmitApplicationDto → String → String → ℕ → Application
new_application dto ip_hash id now = record {
  id = id;
  job_posting_id = dto.job_posting_id;
  applicant_name = dto.name;
  applicant_email = dto.email;
  applicant_phone = dto.phone;
  phone_normalized = normalize_phone dto.phone;
  cover_letter = dto.cover_letter;
  custom_responses = dto.custom_responses;
  status = submitted;
  email_verified = true;
  ip_hash = ip_hash;
  created_at = now;
}

abbrev emit : CareerEvent → M Careers (Unit {0})
emit event = modify (λ s. record s { events = s.events ++ event ∷ [] })

abbrev validate_responses :
    List CustomFieldDefinition → List (String × ResponseValue) → M Careers (Unit {0})
validate_responses fields responses =
    if is_empty fields then pure tt else validate_custom_responses fields responses

-- `where: { status: 'DRAFT', createdAt: { lt: cutoff } }`
abbrev pub is_stale_draft : ℕ → Application → Bool
is_stale_draft now a =
    is_draft a.status && ltb (a.created_at + draft_prune_hours * 60 * 60 * 1000) now

module _ (env : CareersEnv) where
  unfoldable pub find_by_id : String → M Careers Application
  find_by_id id = do
    application ← gets (λ s. env.db.find_first (has_id id) s.applications)
    some_or (not_found application_not_found) application

  unfoldable pub find_by_email_and_posting : String → String → M Careers Application
  find_by_email_and_posting email posting_id = do
    application ← gets (λ s. env.db.find_first (has_applicant email posting_id) s.applications)
    some_or (not_found application_not_found) application

  -- `application.update({ where: { id }, data })`
  abbrev pub update_application : String → (Application → Application) → M Careers Application
  update_application id change s =
      store_applications s (env.db.update (has_id id) change s.applications)

  abbrev pub add_history : StatusChange → M Careers (Unit {0})
  add_history change = modify (λ s. record s { history = env.db.create change s.history })

  -- The status and its history row, in one transaction.
  unfoldable pub write_status :
      String
      → Application
      → ApplicationStatus
      → Option String
      → Option String
      → M Careers Application
  write_status id application new_status notes changed_by = transaction (do
    app ← update_application id (λ a. record a { status = new_status })
    add_history (record {
      application_id = id;
      from_status = application.status;
      to_status = new_status;
      notes = notes;
      changed_by = changed_by;
    })
    pure app)

  -- The end of `changeStatus`: the posting's title for the event.
  unfoldable pub announce_change :
      String → Application → Application → ApplicationStatus → Option String → M Careers Application
  unfolding Posting.find_by_id
  announce_change id application updated new_status notes = do
    posting ← Posting.find_by_id env.db updated.job_posting_id
    emit (status_changed id posting.title application.status new_status notes)
    pure updated

  unfoldable pub change_status :
      String → ApplicationStatus → String → Option String → M Careers Application
  unfolding find_by_id
  change_status id new_status changed_by notes = do
    application ← find_by_id id
    require (not (is_terminal application.status)) (conflict application_terminal_status)
    require (is_allowed application.status new_status) (conflict application_invalid_transition)
    updated ← write_status id application new_status notes (some changed_by)
    announce_change id application updated new_status notes

  unfoldable pub withdraw : String → M Careers Application
  unfolding find_by_id
  withdraw id = do
    application ← find_by_id id
    require (not (same_status application.status withdrawn))
        (conflict application_already_withdrawn)
    require (not (is_terminal application.status)) (conflict application_terminal_status)
    write_status id application withdrawn (some "Withdrawn by applicant") none

  -- The loop of `bulkChangeStatus`: a throw is caught, and its failure noted with the identifier.
  abbrev note_outcome :
      String
      → Result Application
      → List String × List (String × Failure)
      → List String × List (String × Failure)
  note_outcome id (ok a) (succeeded, failed) = (id ∷ succeeded, failed)
  note_outcome id (err e) (succeeded, failed) = (succeeded, (id, e) ∷ failed)

  unfoldable pub bulk_change_status :
      List String
      → ApplicationStatus
      → String
      → Option String
      → Careers
      → (List String × List (String × Failure)) × Careers
  bulk_change_status [] new_status changed_by notes s = (([], []), s)
  bulk_change_status (id ∷ ids) new_status changed_by notes s =
      let (outcome, s') = change_status id new_status changed_by notes s in
      let (rest, final) = bulk_change_status ids new_status changed_by notes s' in
      (note_outcome id outcome rest, final)

  -- The history rows of a deleted application go with it (`onDelete: Cascade`).
  unfoldable pub prune_draft_applications : ℕ → M Careers ℕ
  prune_draft_applications now s =
      let left = env.db.delete_many (is_stale_draft now) s.applications in
      (
        ok (env.db.count (is_stale_draft now) s.applications),
        record s {
          applications = left;
          history = keep (λ h. any (λ a. str_eq a.id h.application_id) left) s.history;
          documents = keep (λ d. any (λ a. str_eq a.id d.application_id) left) s.documents;
          tokens = keep (λ t. any (λ a. str_eq a.id t.application_id) left) s.tokens;
        },
      )

  -- The row of a submission: the draft filled in, or a new one.
  abbrev save_submission :
      SubmitApplicationDto → String → Drawn → Option Application → M Careers Application
  save_submission dto ip_hash drawn none s =
      let row = new_application dto ip_hash drawn.id drawn.now in
      (ok row, record s { applications = env.db.create row s.applications })
  save_submission dto ip_hash drawn (some existing) s =
      update_application existing.id (fill_draft dto ip_hash) s

  abbrev save_document : String → Option StoredFile → M Careers (Unit {0})
  save_document id none = pure tt
  save_document id (some stored) = modify λ s.
      let document : ApplicationDocument = record {
        application_id = id;
        filename = stored.filename;
        mime_type = stored.mime_type;
        size_bytes = stored.size_bytes;
        storage_path = stored.storage_path;
        sha256_hash = stored.sha256_hash;
      } in
      record s { documents = env.db.create document s.documents }

  -- The transaction of `submit`: the row, its history and its document.
  unfoldable pub write_submission :
      SubmitApplicationDto
      → String
      → Drawn
      → Option StoredFile
      → Option Application
      → M Careers Application
  write_submission dto ip_hash drawn file existing = transaction (do
    app ← save_submission dto ip_hash drawn existing
    add_history (record {
      application_id = app.id;
      from_status = ApplicationStatus.draft;
      to_status = submitted;
      notes = some "Application submitted";
      changed_by = none;
    })
    save_document app.id file
    pure app)

  -- The end of `submit`: the magic link and the event.
  unfoldable pub conclude_submission :
      SubmitApplicationDto → JobPosting → Drawn → Application → M Careers (Application × String)
  unfolding generate_magic_link_token
  conclude_submission dto posting drawn application = do
    raw_token ←
        generate_magic_link_token env.db env.hash env.config application.id drawn.raw_token
          drawn.now
    let url = build_magic_link_url env raw_token
    emit (application_submitted application.id dto.email posting.title url)
    pure (application, url)

  unfoldable pub submit :
      SubmitApplicationDto → String → Option StoredFile → Drawn → M Careers (Application × String)
  unfolding Posting.find_by_id validate_custom_responses
  submit dto ip_address file drawn = do
    posting ← Posting.find_by_id env.db dto.job_posting_id
    require (is_published posting.status) (bad_request posting_not_published)
    require (not (is_before posting.closes_at drawn.now)) (gone posting_closed)
    valid ← verify_code env.redis env.config dto.email dto.job_posting_id dto.verification_code
    require valid (bad_request verify_code_invalid)
    existing ←
        gets (λ s. env.db.find_first (has_applicant dto.email dto.job_posting_id) s.applications)
    require (not (is_taken existing)) (conflict application_duplicate)
    validate_responses (or_else posting.custom_fields []) (or_else dto.custom_responses [])
    application ← write_submission dto (env.hash ip_address) drawn file existing
    conclude_submission dto posting drawn application
