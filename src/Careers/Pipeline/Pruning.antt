-- ===== src/Careers/Pipeline/Pruning.antt =====
-- The pruning of stale drafts, with the rows that the database deletes along with them.
use all_service_api.Common.{
  Bool-cases, any, All, All-lookup, All-tabulate, ℕ, ◌≡◌, refl, sym, inl, inr, Bool, true, false,
  List, [], ◌∷◌, Memᴰ, arith, str_eq, eq_iff,
}
use all_service_api.Prisma.{keep, reject}
use all_service_api.Careers.Status.{draft, is_terminal}
use all_service_api.Careers.State.{Careers, Application, StatusChange}
use all_service_api.Careers.Application.{CareersEnv, is_stale_draft, prune_draft_applications}
use all_service_api.Careers.Application.Trail.{any_of_mem, AreConsistent, IsTrail, trail_of}

abbrev is_owned : List Application → StatusChange → Bool
is_owned apps h = any (λ a. str_eq a.id h.application_id) apps

All-keep :
    {A : Type 0} (test : A → Bool) (rows : List A) → All (λ r. test r ≡ true) (keep test rows)
All-keep test [] = tt
All-keep test (r ∷ rows) = elim (Bool-cases (test r)) [
  | inl p ↦ rw p (p, All-keep test rows)
  | inr p ↦ rw p (All-keep test rows)
]

-- The history of an application that stays is kept whole.
trail_of-owned :
    (apps : List Application) (hist : List StatusChange) (a : Application)
    → Memᴰ a apps
    → trail_of a.id (keep (is_owned apps) hist) ≡ trail_of a.id hist
trail_of-owned apps [] a m = refl
trail_of-owned apps (h ∷ hist) a m = elim (Bool-cases (str_eq h.application_id a.id)) [
  | inl own ↦
      let e : a.id ≡ h.application_id = sym ((eq_iff h.application_id a.id).0 own) in
      rw (any_of_mem apps a h.application_id m e, own, trail_of-owned apps hist a m)
  | inr other ↦ elim (Bool-cases (is_owned apps h)) [
    | inl p ↦ rw (p, other, trail_of-owned apps hist a m)
    | inr p ↦ rw (p, other, trail_of-owned apps hist a m)
  ]
]

mem-reject :
    {Row : Type 0} (test : Row → Bool) (rows : List Row) (row : Row)
    → Memᴰ row rows
    → test row ≡ false
    → Memᴰ row (reject test rows)
mem-reject test [] row m p = elim m [ ]
mem-reject test (r ∷ rows) row (Memᴰ.head e) p =
    let fails : test r ≡ false = rw (sym e) p in rw fails (Memᴰ.head e)
mem-reject test (r ∷ rows) row (Memᴰ.tail m) p = elim (Bool-cases (test r)) [
  | inl q ↦ rw q (mem-reject test rows row m p)
  | inr q ↦ rw q (Memᴰ.tail (mem-reject test rows row m p))
]

kept :
    {Row : Type 0} {r row : Row} {left rows : List Row}
    → (Memᴰ row left → Memᴰ row rows)
    → Memᴰ row (r ∷ left)
    → Memᴰ row (r ∷ rows)
kept f (Memᴰ.head e) = Memᴰ.head e
kept f (Memᴰ.tail n) = Memᴰ.tail (f n)

mem_of_reject :
    {Row : Type 0} (test : Row → Bool) (rows : List Row) (row : Row)
    → Memᴰ row (reject test rows)
    → Memᴰ row rows
mem_of_reject test [] row m = elim m [ ]
mem_of_reject test (r ∷ rows) row m = elim (Bool-cases (test r)) [
  | inl q ↦ Memᴰ.tail (mem_of_reject test rows row (rw q at m))
  | inr q ↦ kept (mem_of_reject test rows row) (rw q at m)
]

module _ (env : CareersEnv) (now : ℕ) (s : Careers) where
  pub prune-AreConsistent :
      AreConsistent s.applications s.history
      → let s' = (prune_draft_applications env now s).1 in AreConsistent s'.applications s'.history
  unfolding prune_draft_applications
  prune-AreConsistent c = rw (env.db.delete_many_lem (is_stale_draft now) s.applications) (record {
    recorded = All-tabulate _ left λ a m. rw (trail_of-owned left s.history a m) (
        All-lookup (λ y. IsTrail draft (trail_of y.id s.history) y.status) s.applications c.recorded
          (mem_of_reject (is_stale_draft now) s.applications a m));
    owned = All-keep (is_owned left) s.history;
  })
    where
      left : List Application
      left = reject (is_stale_draft now) s.applications

  pub prune-terminal :
      (x : Application)
      → Memᴰ x s.applications
      → is_terminal x.status ≡ true
      → Memᴰ x (prune_draft_applications env now s).1.applications
  unfolding prune_draft_applications is_terminal
  prune-terminal x m t =
      rw (env.db.delete_many_lem (is_stale_draft now) s.applications)
        (mem-reject (is_stale_draft now) s.applications x m (ground arith))
