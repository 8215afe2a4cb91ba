-- ===== src/Careers/Posting/Lifecycle.antt =====
-- How the status of a posting moves.
use all_service_api.Common.{
  Bool-cases, Option-cases, All, All-tabulate, posting_invalid_transition, conflict, ◌>>=◌, ◌>>◌,
  require, ℕ, String, ◌≡◌, refl, sym, ◌∙◌, ◌⊎◌, inl, inr, Bool, true, ◌&&◌, Option, none, some,
  List, map, Memᴰ, arith, str_eq, eq_iff,
}
use all_service_api.Prisma.{Prisma, update_if}
use all_service_api.Prisma.Keys.{HasUniqueKeys, only_row, mem-update}
use all_service_api.Careers.State.{
  Careers, JobPosting, JobPostingStatus, draft, published, closed, archived,
}
use all_service_api.Careers.Posting.{
  is_draft, is_published, is_closed, is_before, publish_change, find_by_id, update_posting, publish,
  close, archive, close_expired_postings,
}

abbrev pub next_status : JobPostingStatus → Option JobPostingStatus
next_status draft = some published
next_status published = some closed
next_status closed = some archived
next_status archived = none

-- Each posting is still there, as it was or one step further.
abbrev pub Advances : List JobPosting → List JobPosting → Type 0
Advances before after =
    All
      (λ p.
        (q : JobPosting) × Memᴰ q after
        × (q.id ≡ p.id)
        × ((q ≡ p) ⊎ (next_status p.status ≡ some q.status)))
      before

-- A change of the postings that pass a test, each by one step, advances them.
Advances-update :
    (test : JobPosting → Bool) (change : JobPosting → JobPosting) (rows : List JobPosting)
    → ((p : JobPosting) → (change p).id ≡ p.id)
    → ((p : JobPosting)
        → Memᴰ p rows
        → test p ≡ true
        → next_status p.status ≡ some (change p).status)
    → Advances rows (map (update_if test change) rows)
Advances-update test change rows ids steps = All-tabulate _ rows λ p m. (
  update_if test change p,
  mem-update test change rows p m,
  elim (Bool-cases (test p)) [ inl e ↦ rw e (ids p) | inr e ↦ rw e refl ],
  elim (Bool-cases (test p)) [ inl e ↦ rw e (inr (steps p m e)) | inr e ↦ rw e (inl refl) ],
)

Advances-refl : (rows : List JobPosting) → Advances rows rows
Advances-refl rows = All-tabulate _ rows λ p m. (p, m, refl, inl refl)

module _ (db : Prisma) (s : Careers)
    (unique : HasUniqueKeys (λ (p : JobPosting). p.id) s.postings) where
  -- An update by identifier after a check of the status.
  guarded_update :
      (id : String) (wanted : JobPostingStatus → Bool) (change : JobPosting → JobPosting)
      → ((p : JobPosting) → (change p).id ≡ p.id)
      → ((p : JobPosting) → wanted p.status ≡ true → next_status p.status ≡ some (change p).status)
      → let s' =
          ((find_by_id db id >>= λ posting.
          (require (wanted posting.status) (conflict posting_invalid_transition)
            >> update_posting db id change))
            s).1 in
        Advances s.postings s'.postings
  unfolding find_by_id update_posting
  guarded_update id wanted change ids steps =
      let test = λ (p : JobPosting). str_eq p.id id in
      elim (Option-cases (db.find_first test s.postings)) [
        | inl e ↦ rw e (Advances-refl s.postings)
        | inr (posting, e) ↦ elim (Bool-cases (wanted posting.status)) [
          | inr w ↦ rw (e, w) (Advances-refl s.postings)
          | inl w ↦
              let (m, t) = db.found test s.postings posting e in
              rw (e, w, db.update_found test change s.postings posting e)
                (Advances-update test change s.postings ids λ p n k.
                  let same : p.id ≡ posting.id =
                    (eq_iff p.id id).0 k ∙ sym ((eq_iff posting.id id).0 t) in
                  let one : p ≡ posting =
                    only_row (λ (q : JobPosting). q.id) s.postings posting p unique m n same in
                  steps p (rw one w))
        ]
      ]

  -- Publishing, closing, archiving and the closing of expired postings each leave every posting in
  -- place, unchanged or in the next status of its life.
  pub lifecycle-Advances :
      (id : String) (now : ℕ)
      → Advances s.postings (publish db id now s).1.postings
        × Advances s.postings (close db id s).1.postings
        × Advances s.postings (archive db id s).1.postings
        × Advances s.postings (close_expired_postings db now s).1.postings
  unfolding publish close archive close_expired_postings
  lifecycle-Advances id now = (
    guarded_update id is_draft (publish_change now) (λ p. refl) (λ p w. ground arith),
    guarded_update id is_published (λ p. record p { status = closed }) (λ p. refl)
        (λ p w. ground arith),
    guarded_update id is_closed (λ p. record p { status = archived }) (λ p. refl)
        (λ p w. ground arith),
    rw
        (db.update_many_lem (λ p. is_published p.status && is_before p.closes_at now)
          (λ p. record p { status = closed }) s.postings)
        (Advances-update _ _ s.postings (λ p. refl) (λ p m w. ground arith)),
  )
