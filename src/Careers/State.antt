-- ===== src/Careers/State.antt =====
-- What the careers services read and write: the tables of prisma/schema.prisma with the columns
-- that the services use, the verification codes in Redis, and the events that were emitted.
-- Times are milliseconds; the identifiers, hashes and random values come in as arguments.
use all_service_api.Common.{ℕ, String, Bool, Option, List}
use all_service_api.Careers.Status.{ApplicationStatus}

pub data JobPostingStatus : Type 0 where
  draft published closed archived : JobPostingStatus

pub data CustomFieldType : Type 0 where
  text textarea select url number boolean : CustomFieldType

pub record CustomFieldDefinition : Type 0 where
  pub id : String
  pub label : String
  pub type : CustomFieldType
  pub required : Bool
  pub options : Option (List String)

-- A value of `customResponses`: a text, a number or a truth value.
pub data ResponseValue : Type 0 where
  text : String → ResponseValue
  number : ℕ → ResponseValue
  boolean : Bool → ResponseValue

-- A slug is the list of its code units.
pub record JobPosting : Type 0 where
  pub id : String
  pub title : String
  pub slug : List ℕ
  pub department : String
  pub location : String
  pub type : String
  pub work_mode : String
  pub description : String
  pub requirements : String
  pub salary_min : Option ℕ
  pub salary_max : Option ℕ
  pub salary_currency : Option String
  pub salary_period : Option String
  pub cv_required : Bool
  pub custom_fields : Option (List CustomFieldDefinition)
  pub status : JobPostingStatus
  pub closes_at : Option ℕ
  pub published_at : Option ℕ
  pub created_by : String

pub record Application : Type 0 where
  pub id : String
  pub job_posting_id : String
  pub applicant_name : String
  pub applicant_email : String
  pub applicant_phone : Option String
  pub phone_normalized : Option String
  pub cover_letter : Option String
  pub custom_responses : Option (List (String × ResponseValue))
  pub status : ApplicationStatus
  pub email_verified : Bool
  pub ip_hash : String
  pub created_at : ℕ

pub record StatusChange : Type 0 where
  pub application_id : String
  pub from_status : ApplicationStatus
  pub to_status : ApplicationStatus
  pub notes : Option String
  pub changed_by : Option String

pub record ApplicationDocument : Type 0 where
  pub application_id : String
  pub filename : String
  pub mime_type : String
  pub size_bytes : ℕ
  pub storage_path : String
  pub sha256_hash : String

pub record ApplicantToken : Type 0 where
  pub application_id : String
  pub token_hash : String
  pub expires_at : ℕ

pub data CareerEvent : Type 0 where
  application_submitted : (application_id email title magic_link_url : String) → CareerEvent
  status_changed :
      (application_id title : String) (from_status to_status : ApplicationStatus)
      (notes : Option String)
      → CareerEvent

pub record Careers : Type 0 where
  pub postings : List JobPosting
  pub applications : List Application
  pub history : List StatusChange
  pub documents : List ApplicationDocument
  pub tokens : List ApplicantToken
  pub codes : List (String × String)
  pub events : List CareerEvent
