-- ===== src/Prisma.antt =====
-- The database client of @prisma/client, which the services only call: its queries are a parameter.
-- A table is the list of its rows in the order of creation, a `where` object is a test, and a
-- `data` object is a change of a row. The laws are what the client documents of each query.
pub mod Keys
pub mod Columns
use all_service_api.Common.{
  if◌then◌else◌, Bool-cases, All, ℕ, suc, ◌*◌, ◌≡◌, refl, sym, inl, inr, Bool, true, false, Option,
  none, some, List, [], ◌∷◌, ◌++◌, map, Memᴰ, arith,
}

-- The rows that pass a test changed, the others as they were.
abbrev pub update_if : {Row : Type 0} → (Row → Bool) → (Row → Row) → Row → Row
update_if test change row = if test row then change row else row

-- The rows that pass a test.
abbrev pub keep : {Row : Type 0} → (Row → Bool) → List Row → List Row
keep test [] = []
keep test (row ∷ rows) = let rest = keep test rows in if test row then row ∷ rest else rest

abbrev pub reject : {Row : Type 0} → (Row → Bool) → List Row → List Row
reject test [] = []
reject test (row ∷ rows) = let rest = reject test rows in if test row then rest else row ∷ rest

abbrev pub tally : {Row : Type 0} → (Row → Bool) → List Row → ℕ
tally test [] = 0
tally test (row ∷ rows) = let rest = tally test rows in if test row then suc rest else rest

pub record Prisma : Type 1 where
  pub find_first : {Row : Type 0} → (Row → Bool) → List Row → Option Row
  pub found :
      {Row : Type 0} (test : Row → Bool) (rows : List Row) (row : Row)
      → find_first test rows ≡ some row
      → Memᴰ row rows × (test row ≡ true)
  pub missing :
      {Row : Type 0} (test : Row → Bool) (rows : List Row)
      → find_first test rows ≡ none
      → All (λ row. test row ≡ false) rows
  pub create : {Row : Type 0} → Row → List Row → List Row
  pub create_lem : {Row : Type 0} (row : Row) (rows : List Row) → create row rows ≡ rows ++ row ∷ []
  -- An update of the one row that a unique `where` names; `none` is the P2025 refusal.
  pub update : {Row : Type 0} → (Row → Bool) → (Row → Row) → List Row → Option (Row × List Row)
  pub update_found :
      {Row : Type 0} (test : Row → Bool) (change : Row → Row) (rows : List Row) (row : Row)
      → find_first test rows ≡ some row
      → update test change rows ≡ some (change row, map (update_if test change) rows)
  pub update_missing :
      {Row : Type 0} (test : Row → Bool) (change : Row → Row) (rows : List Row)
      → find_first test rows ≡ none
      → update test change rows ≡ none
  pub update_many : {Row : Type 0} → (Row → Bool) → (Row → Row) → List Row → List Row
  pub update_many_lem :
      {Row : Type 0} (test : Row → Bool) (change : Row → Row) (rows : List Row)
      → update_many test change rows ≡ map (update_if test change) rows
  pub delete_many : {Row : Type 0} → (Row → Bool) → List Row → List Row
  pub delete_many_lem :
      {Row : Type 0} (test : Row → Bool) (rows : List Row)
      → delete_many test rows ≡ reject test rows
  pub find_many : {Row : Type 0} → (Row → Bool) → List Row → List Row
  pub find_many_lem :
      {Row : Type 0} (test : Row → Bool) (rows : List Row) → find_many test rows ≡ keep test rows
  pub count : {Row : Type 0} → (Row → Bool) → List Row → ℕ
  pub count_lem :
      {Row : Type 0} (test : Row → Bool) (rows : List Row) → count test rows ≡ tally test rows

-- A client that keeps the laws, for tests and examples: it finds the oldest row.
abbrev oldest : {Row : Type 0} → (Row → Bool) → List Row → Option Row
oldest test [] = none
oldest test (row ∷ rows) = let later = oldest test rows in if test row then some row else later

pub oldest_found :
    {Row : Type 0} (test : Row → Bool) (rows : List Row) (row : Row)
    → oldest test rows ≡ some row
    → Memᴰ row rows × (test row ≡ true)
oldest_found test [] row h = cc
oldest_found test (r ∷ rows) row h = elim (Bool-cases (test r)) [
  | inl passes ↦ let same : r ≡ row = ground arith in (Memᴰ.head (sym same), rw same at passes)
  | inr fails ↦ let (m, p) = oldest_found test rows row (ground arith) in (Memᴰ.tail m, p)
]

pub oldest_missing :
    {Row : Type 0} (test : Row → Bool) (rows : List Row)
    → oldest test rows ≡ none
    → All (λ row. test row ≡ false) rows
oldest_missing test [] h = tt
oldest_missing test (r ∷ rows) h = (ground arith, oldest_missing test rows (ground arith))

abbrev update_oldest :
    {Row : Type 0} → (Row → Bool) → (Row → Row) → List Row → Option (Row × List Row)
update_oldest test change rows = elim (oldest test rows) [
  | none ↦ none
  | some row ↦ some (change row, map (update_if test change) rows)
]

pub update_oldest_found :
    {Row : Type 0} (test : Row → Bool) (change : Row → Row) (rows : List Row) (row : Row)
    → oldest test rows ≡ some row
    → update_oldest test change rows ≡ some (change row, map (update_if test change) rows)
update_oldest_found test change rows row h = ground arith

pub update_oldest_missing :
    {Row : Type 0} (test : Row → Bool) (change : Row → Row) (rows : List Row)
    → oldest test rows ≡ none
    → update_oldest test change rows ≡ none
update_oldest_missing test change rows h = ground arith

abbrev pub list_client : Prisma
list_client = record {
  find_first = oldest;
  found = oldest_found;
  missing = oldest_missing;
  create = λ row rows. rows ++ row ∷ [];
  create_lem = λ row rows. refl;
  update = update_oldest;
  update_found = update_oldest_found;
  update_missing = update_oldest_missing;
  update_many = λ test change rows. map (update_if test change) rows;
  update_many_lem = λ test change rows. refl;
  delete_many = λ test rows. reject test rows;
  delete_many_lem = λ test rows. refl;
  find_many = λ test rows. keep test rows;
  find_many_lem = λ test rows. refl;
  count = λ test rows. tally test rows;
  count_lem = λ test rows. refl;
}
