-- ===== src/Prisma/Keys.antt =====
-- Tables whose rows have a unique key, as a primary key or a unique index makes them.
use mathlib.Core.Bool.{false≢true}
use all_service_api.Common.{
  Bool-cases, Option-cases, All, All-lookup, String, ◌≡◌, refl, sym, ap, ◌∙◌, subst, ◌≢◌, ◌⊎◌, inl,
  inr, Bool, true, false, none, some, List, [], ◌∷◌, ◌++◌, map, Memᴰ,
}
use all_service_api.Prisma.{Prisma, update_if, reject}

module _ {Row : Type 0} (key : Row → String) where
  abbrev pub HasUniqueKeys : List Row → Type 0
  HasUniqueKeys [] = Unit
  HasUniqueKeys (row ∷ rows) = All (λ other. key other ≢ key row) rows × HasUniqueKeys rows

  -- The row with a given key is the only one.
  pub only_row :
      (rows : List Row) (row other : Row)
      → HasUniqueKeys rows
      → Memᴰ row rows
      → Memᴰ other rows
      → key other ≡ key row
      → other ≡ row
  only_row [] row other u m n e = elim m [ ]
  only_row (r ∷ rows) row other (ne, u) (Memᴰ.head p) (Memᴰ.head q) e = q ∙ sym p
  only_row (r ∷ rows) row other (ne, u) (Memᴰ.head p) (Memᴰ.tail n) e =
      absurd (All-lookup (λ x. key x ≢ key r) rows ne n (e ∙ ap key p))
  only_row (r ∷ rows) row other (ne, u) (Memᴰ.tail m) (Memᴰ.head q) e =
      absurd (All-lookup (λ x. key x ≢ key r) rows ne m (sym e ∙ ap key q))
  only_row (r ∷ rows) row other (ne, u) (Memᴰ.tail m) (Memᴰ.tail n) e =
      only_row rows row other u m n e

-- What holds of every row before a change, and is kept by the change, holds after it.
pub All-update {κ} :
    {Row : Type 0} (P : Row → Type κ) (test : Row → Bool) (change : Row → Row) (rows : List Row)
    → ((row : Row) → Memᴰ row rows → test row ≡ true → P (change row))
    → ((row : Row) → Memᴰ row rows → test row ≡ false → P row)
    → All P (map (update_if test change) rows)
All-update P test change [] changed kept = tt
All-update P test change (row ∷ rows) changed kept = (
  elim (Bool-cases (test row)) [
    | inl passes ↦ rw passes (changed row (Memᴰ.head refl) passes)
    | inr fails ↦ rw fails (kept row (Memᴰ.head refl) fails)
  ],
  All-update P test change rows (λ r m. changed r (Memᴰ.tail m)) (λ r m. kept r (Memᴰ.tail m)),
)

pub All-reject {κ} :
    {Row : Type 0} (P : Row → Type κ) (test : Row → Bool) (rows : List Row)
    → All P rows
    → All P (reject test rows)
All-reject P test [] h = tt
All-reject P test (row ∷ rows) (p, h) = elim (Bool-cases (test row)) [
  | inl passes ↦ rw passes (All-reject P test rows h)
  | inr fails ↦ rw fails (p, All-reject P test rows h)
]

-- A row that fails the test is among the rows after the update.
pub mem-update_kept :
    {Row : Type 0} (test : Row → Bool) (change : Row → Row) (rows : List Row) (row : Row)
    → Memᴰ row rows
    → test row ≡ false
    → Memᴰ row (map (update_if test change) rows)
mem-update_kept test change [] row m p = elim m [ ]
mem-update_kept test change (r ∷ rows) row (Memᴰ.head e) p =
    let fails : test r ≡ false = rw (sym e) p in rw fails (Memᴰ.head e)
mem-update_kept test change (r ∷ rows) row (Memᴰ.tail m) p =
    Memᴰ.tail (mem-update_kept test change rows row m p)

pub mem-append_left :
    {Row : Type 0} (rows others : List Row) (row : Row) → Memᴰ row rows → Memᴰ row (rows ++ others)
mem-append_left [] others row m = elim m [ ]
mem-append_left (r ∷ rows) others row (Memᴰ.head e) = Memᴰ.head e
mem-append_left (r ∷ rows) others row (Memᴰ.tail m) = Memᴰ.tail (mem-append_left rows others row m)

pub mem-append_last :
    {Row : Type 0} (rows : List Row) (last row : Row)
    → Memᴰ row (rows ++ last ∷ [])
    → Memᴰ row rows ⊎ (row ≡ last)
mem-append_last [] last row (Memᴰ.head e) = inr e
mem-append_last [] last row (Memᴰ.tail m) = elim m [ ]
mem-append_last (r ∷ rows) last row (Memᴰ.head e) = inl (Memᴰ.head e)
mem-append_last (r ∷ rows) last row (Memᴰ.tail m) = elim (mem-append_last rows last row m) [
  | inl n ↦ inl (Memᴰ.tail n)
  | inr e ↦ inr e
]

pub mem_last : {Row : Type 0} (rows : List Row) (last : Row) → Memᴰ last (rows ++ last ∷ [])
mem_last [] last = Memᴰ.head refl
mem_last (r ∷ rows) last = Memᴰ.tail (mem_last rows last)

-- A new row that alone has its key is the one that a search by the key finds.
pub find_first-create :
    {Row : Type 0} (db : Prisma) (test : Row → Bool) (rows : List Row) (last : Row)
    → All (λ row. test row ≡ false) rows
    → test last ≡ true
    → db.find_first test (db.create last rows) ≡ some last
find_first-create db test rows last others here =
    rw (db.create_lem last rows) (elim (Option-cases (db.find_first test (rows ++ last ∷ []))) [
      | inl e ↦ absurd (
          false≢true (
            sym (
              All-lookup (λ r. test r ≡ false) (rows ++ last ∷ [])
                (db.missing test (rows ++ last ∷ []) e) (mem_last rows last))
            ∙ here))
      | inr (row, e) ↦
          let (m, p) = db.found test (rows ++ last ∷ []) row e in
          elim (mem-append_last rows last row m) [
            | inl n ↦ absurd (false≢true (sym (All-lookup (λ r. test r ≡ false) rows others n) ∙ p))
            | inr k ↦ e ∙ ap some k
          ]
    ])

pub mem-update :
    {Row : Type 0} (test : Row → Bool) (change : Row → Row) (rows : List Row) (row : Row)
    → Memᴰ row rows
    → Memᴰ (update_if test change row) (map (update_if test change) rows)
mem-update test change [] row m = elim m [ ]
mem-update test change (r ∷ rows) row (Memᴰ.head e) = Memᴰ.head (ap (update_if test change) e)
mem-update test change (r ∷ rows) row (Memᴰ.tail m) = Memᴰ.tail (mem-update test change rows row m)

-- Every row after an update comes from one before.
pub mem_of_update :
    {Row : Type 0} (test : Row → Bool) (change : Row → Row) (rows : List Row) (row : Row)
    → Memᴰ row (map (update_if test change) rows)
    → (old : Row) × Memᴰ old rows × (row ≡ update_if test change old)
mem_of_update test change [] row m = elim m [ ]
mem_of_update test change (r ∷ rows) row (Memᴰ.head e) = (r, Memᴰ.head refl, e)
mem_of_update test change (r ∷ rows) row (Memᴰ.tail m) =
    let (old, n, e) = mem_of_update test change rows row m in (old, Memᴰ.tail n, e)

-- A row that is there and passes a test is found, or another that passes it.
pub find_first_of_mem :
    {Row : Type 0} (db : Prisma) (test : Row → Bool) (rows : List Row) (row : Row)
    → Memᴰ row rows
    → test row ≡ true
    → (found : Row) × (db.find_first test rows ≡ some found)
find_first_of_mem db test rows row m p = elim (Option-cases (db.find_first test rows)) [
  | inl e ↦
      absurd
        (false≢true (sym (All-lookup (λ r. test r ≡ false) rows (db.missing test rows e) m) ∙ p))
  | inr found ↦ found
]

-- A search that no row passes finds nothing.
pub find_first_none :
    {Row : Type 0} (db : Prisma) (test : Row → Bool) (rows : List Row)
    → ((row : Row) → Memᴰ row rows → test row ≡ false)
    → db.find_first test rows ≡ none
find_first_none db test rows h = elim (Option-cases (db.find_first test rows)) [
  | inl e ↦ e
  | inr (row, e) ↦ let (m, p) = db.found test rows row e in absurd (false≢true (sym (h row m) ∙ p))
]

-- A search that one row alone passes finds it.
pub find_first_only :
    {Row : Type 0} (db : Prisma) (test : Row → Bool) (rows : List Row) (row : Row)
    → Memᴰ row rows
    → test row ≡ true
    → ((other : Row) → Memᴰ other rows → test other ≡ true → other ≡ row)
    → db.find_first test rows ≡ some row
find_first_only db test rows row m p only =
    let (found, e) = find_first_of_mem db test rows row m p in
    let (n, q) = db.found test rows found e in e ∙ ap some (only found n q)

-- A row that is there and alone passes a test.
abbrev pub IsOnly : {Row : Type 0} → (Row → Bool) → List Row → Row → Type 0
IsOnly {Row} test rows row =
    Memᴰ row rows
    × (test row ≡ true)
    × ((other : Row) → Memᴰ other rows → test other ≡ true → other ≡ row)

pub find_first-IsOnly :
    {Row : Type 0} (db : Prisma) (test : Row → Bool) (rows : List Row) (row : Row)
    → IsOnly test rows row
    → db.find_first test rows ≡ some row
find_first-IsOnly db test rows row (m, p, only) = find_first_only db test rows row m p only

-- After an update by one test, a row that alone passed both tests alone passes the second, changed.
pub update-IsOnly_other :
    {Row : Type 0} (p q : Row → Bool) (change : Row → Row) (rows : List Row) (row : Row)
    → IsOnly p rows row
    → IsOnly q rows row
    → q (change row) ≡ true
    → IsOnly q (map (update_if p change) rows) (change row)
update-IsOnly_other p q change rows row (m, passes, only) (_, _, only_q) kept =
    let here : update_if p change row ≡ change row = rw passes refl in
    let there : Memᴰ (change row) (map (update_if p change) rows) =
      subst (λ r. Memᴰ r (map (update_if p change) rows)) here (mem-update p change rows row m) in
    (
      there,
      kept,
      λ other n hit.
          let (old, o, e) = mem_of_update p change rows other n in
          elim (Bool-cases (p old)) [
            | inl yes_p ↦ e ∙ rw yes_p (ap change (only old o yes_p))
            | inr no_p ↦
                let same : other ≡ old = e ∙ rw no_p refl in
                let old_row : old ≡ row = only_q old o (ap q (sym same) ∙ hit) in
                absurd (false≢true (sym no_p ∙ ap p old_row ∙ passes))
          ],
    )

-- After an update by the test the changed row alone passes it.
pub update-IsOnly :
    {Row : Type 0} (test : Row → Bool) (change : Row → Row) (rows : List Row) (row : Row)
    → IsOnly test rows row
    → test (change row) ≡ true
    → IsOnly test (map (update_if test change) rows) (change row)
update-IsOnly test change rows row only q =
    update-IsOnly_other test test change rows row only only q

-- A new row that alone passes a test is the one row that passes it.
pub only-append :
    {Row : Type 0} (test : Row → Bool) (rows : List Row) (last : Row)
    → All (λ row. test row ≡ false) rows
    → (other : Row) → Memᴰ other (rows ++ last ∷ [])
    → test other ≡ true
    → other ≡ last
only-append test rows last others other m p = elim (mem-append_last rows last other m) [
  | inl n ↦ absurd (false≢true (sym (All-lookup (λ r. test r ≡ false) rows others n) ∙ p))
  | inr e ↦ e
]
