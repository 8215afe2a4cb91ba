-- ===== src/Careers/Posting.antt =====
-- src/modules/careers/posting.service.ts: creation and lifecycle of a job posting.
-- The listings are queries with no effect and are left out.
pub mod Slug
pub mod Lifecycle
use all_service_api.Common.{
  ltb, or_else, posting_not_found, posting_invalid_transition, not_found, conflict, record_missing,
  Result, ok, err, M, pure, ◌>>=◌, ◌>>◌, gets, require, some_or, ℕ, ◌*◌, String, Bool, true, false,
  not, ◌&&◌, Option, none, some, List, str_eq,
}
use all_service_api.Prisma.{Prisma}
use all_service_api.Careers.State.{
  Careers, JobPosting, JobPostingStatus, draft, published, closed, archived, CustomFieldDefinition,
}
use Slug.{same_codes, slug_base, with_suffix}

pub record CreatePostingDto : Type 0 where
  pub title : String
  pub department : String
  pub location : String
  pub type : String
  pub work_mode : String
  pub description : String
  pub requirements : String
  pub salary_min : Option ℕ
  pub salary_max : Option ℕ
  pub salary_currency : Option String
  pub salary_period : Option String
  pub cv_required : Option Bool
  pub custom_fields : Option (List CustomFieldDefinition)
  pub closes_at : Option ℕ

-- Every field may be `undefined`.
pub record UpdatePostingDto : Type 0 where
  pub title : Option String
  pub department : Option String
  pub location : Option String
  pub type : Option String
  pub work_mode : Option String
  pub description : Option String
  pub requirements : Option String
  pub salary_min : Option ℕ
  pub salary_max : Option ℕ
  pub salary_currency : Option String
  pub salary_period : Option String
  pub cv_required : Option Bool
  pub custom_fields : Option (List CustomFieldDefinition)
  pub closes_at : Option ℕ

-- `if (value !== undefined) data.field = value` on a column that may be null.
abbrev set_if {ℓ} : {A : Type ℓ} → Option A → Option A → Option A
set_if none old = old
set_if (some new) old = some new

abbrev pub is_draft : JobPostingStatus → Bool
is_draft draft = true
is_draft _ = false

abbrev pub is_published : JobPostingStatus → Bool
is_published published = true
is_published _ = false

abbrev pub is_closed : JobPostingStatus → Bool
is_closed closed = true
is_closed _ = false

-- `closesAt: { lt: now }`, which a null does not satisfy.
abbrev pub is_before : Option ℕ → ℕ → Bool
is_before none now = false
is_before (some time) now = ltb time now

-- `code_units` gives the UTF-16 code units of `title.toLowerCase()`, and `stamp` those of
-- `Date.now().toString(36)`.
module _ (db : Prisma) (code_units : String → List ℕ) (stamp : List ℕ) where
  unfoldable pub generate_unique_slug : String → M Careers (List ℕ)
  generate_unique_slug title = do
    let base = slug_base (code_units title)
    existing ← gets (λ s. db.find_first (λ p. same_codes p.slug base) s.postings)
    pure (elim existing [ none ↦ base | some posting ↦ with_suffix base stamp ])

  unfoldable pub create : CreatePostingDto → String → String → M Careers JobPosting
  create dto created_by id = do
    slug ← generate_unique_slug dto.title
    let posting : JobPosting = record {
      id = id;
      title = dto.title;
      slug = slug;
      department = dto.department;
      location = dto.location;
      type = dto.type;
      work_mode = dto.work_mode;
      description = dto.description;
      requirements = dto.requirements;
      salary_min = dto.salary_min;
      salary_max = dto.salary_max;
      salary_currency = dto.salary_currency;
      salary_period = dto.salary_period;
      cv_required = or_else dto.cv_required true;
      custom_fields = dto.custom_fields;
      status = draft;
      closes_at = dto.closes_at;
      published_at = none;
      created_by = created_by;
    }
    (λ s. (ok posting, record s { postings = db.create posting s.postings }))

-- `set_if` on a column that may not be null.
abbrev set_or {ℓ} : {A : Type ℓ} → Option A → A → A
set_or none old = old
set_or (some new) old = new

apply_update : UpdatePostingDto → Option (List ℕ) → JobPosting → JobPosting
apply_update dto new_slug p = record p {
  title = set_or dto.title p.title;
  slug = set_or new_slug p.slug;
  department = set_or dto.department p.department;
  location = set_or dto.location p.location;
  type = set_or dto.type p.type;
  work_mode = set_or dto.work_mode p.work_mode;
  description = set_or dto.description p.description;
  requirements = set_or dto.requirements p.requirements;
  salary_min = set_if dto.salary_min p.salary_min;
  salary_max = set_if dto.salary_max p.salary_max;
  salary_currency = set_if dto.salary_currency p.salary_currency;
  salary_period = set_if dto.salary_period p.salary_period;
  cv_required = set_or dto.cv_required p.cv_required;
  custom_fields = set_if dto.custom_fields p.custom_fields;
  closes_at = set_if dto.closes_at p.closes_at;
}

-- The answer of an update of the table of postings.
abbrev pub store_postings :
    Careers → Option (JobPosting × List JobPosting) → Result JobPosting × Careers
store_postings s none = (err record_missing, s)
store_postings s (some (posting, rows)) = (ok posting, record s { postings = rows })

abbrev pub publish_change : ℕ → JobPosting → JobPosting
publish_change now p = record p { status = published; published_at = some now }

module _ (db : Prisma) where
  unfoldable pub find_by_id : String → M Careers JobPosting
  find_by_id id = do
    posting ← gets (λ s. db.find_first (λ p. str_eq p.id id) s.postings)
    some_or (not_found posting_not_found) posting

  unfoldable pub find_by_slug : List ℕ → M Careers JobPosting
  find_by_slug slug = do
    posting ← gets (λ s. db.find_first (λ p. same_codes p.slug slug) s.postings)
    some_or (not_found posting_not_found) posting

  -- `prismaWrite.jobPosting.update({ where: { id }, data })`
  unfoldable pub update_posting : String → (JobPosting → JobPosting) → M Careers JobPosting
  update_posting id change s = store_postings s (db.update (λ p. str_eq p.id id) change s.postings)

  unfoldable pub publish : String → ℕ → M Careers JobPosting
  unfolding find_by_id update_posting
  publish id now = do
    posting ← find_by_id id
    require (is_draft posting.status) (conflict posting_invalid_transition)
    update_posting id (publish_change now)

  unfoldable pub close : String → M Careers JobPosting
  unfolding find_by_id update_posting
  close id = do
    posting ← find_by_id id
    require (is_published posting.status) (conflict posting_invalid_transition)
    update_posting id (λ p. record p { status = closed })

  unfoldable pub archive : String → M Careers JobPosting
  unfolding find_by_id update_posting
  archive id = do
    posting ← find_by_id id
    require (is_closed posting.status) (conflict posting_invalid_transition)
    update_posting id (λ p. record p { status = archived })

  -- `where: { status: 'PUBLISHED', closesAt: { lt: new Date() } }`
  unfoldable pub close_expired_postings : ℕ → M Careers ℕ
  close_expired_postings now s =
      let expired = λ (p : JobPosting). is_published p.status && is_before p.closes_at now in
      let close_one = λ (p : JobPosting). record p { status = closed } in
      (
        ok (db.count expired s.postings),
        record s { postings = db.update_many expired close_one s.postings },
      )

-- A new title makes a new slug.
module _ (db : Prisma) (code_units : String → List ℕ) (stamp : List ℕ) where
  abbrev slug_of : Option String → M Careers (Option (List ℕ))
  slug_of none = pure none
  slug_of (some title) = do slug ← generate_unique_slug db code_units stamp title; pure (some slug)

  unfoldable pub update : String → UpdatePostingDto → M Careers JobPosting
  unfolding generate_unique_slug find_by_id update_posting apply_update
  update id dto = do
    _ ← find_by_id db id
    new_slug ← slug_of dto.title
    update_posting db id (apply_update dto new_slug)
