-- ===== src/Users/RoleList/Sorting.antt =====
-- What `sort()` of texts promises, and sorted lists of the same texts.
use all_service_api.Common.{
  Bool-cases, length, All, All-lookup, ℕ, suc, String, ◌≡◌, refl, sym, ap, ◌∙◌, ◌⊎◌, inl, inr, List,
  [], ◌∷◌, Memᴰ, arith, str_eq, eq_iff, eq_refl,
}
use all_service_api.Prisma.{tally}

abbrev pub copies : String → List String → ℕ
copies text texts = tally (λ t. str_eq t text) texts

module _ (le : String → String → Type 0) where
  abbrev pub IsSorted : List String → Type 0
  IsSorted [] = Unit
  IsSorted (a ∷ rest) = All (le a) rest × IsSorted rest

-- Array.prototype.sort on texts: a rearrangement, in the order of the texts.
pub record Sorting (sort : List String → List String) : Type 1 where
  pub le : String → String → Type 0
  pub antisym : (a b : String) → le a b → le b a → a ≡ b
  pub sorted : (texts : List String) → IsSorted le (sort texts)
  pub same_copies :
      (text : String) (texts : List String) → copies text (sort texts) ≡ copies text texts
  pub same_length : (texts : List String) → length (sort texts) ≡ length texts

copies_mem :
    (text : String) (texts : List String) (n : ℕ) → copies text texts ≡ suc n → Memᴰ text texts
copies_mem text [] n e = absurd (omega arith)
copies_mem text (t ∷ texts) n e = elim (Bool-cases (str_eq t text)) [
  | inl hit ↦ Memᴰ.head (sym ((eq_iff t text).0 hit))
  | inr miss ↦ let f = rw miss at e in Memᴰ.tail (copies_mem text texts n f)
]

copies-head : (a : String) (rest : List String) → copies a (a ∷ rest) ≡ suc (copies a rest)
copies-head a rest = rw (eq_refl a) refl

module _ (le : String → String → Type 0) (antisym : (a b : String) → le a b → le b a → a ≡ b) where
  -- The first of a sorted list comes before every member.
  first-le :
      (a b : String) (rest : List String) → All (le b) rest → Memᴰ a (b ∷ rest) → (a ≡ b) ⊎ le b a
  first-le a b rest h (Memᴰ.head e) = inl e
  first-le a b rest h (Memᴰ.tail m) = inr (All-lookup (le b) rest h m)

  copies-tail :
      (a : String) (xs ys : List String)
      → ((text : String) → copies text (a ∷ xs) ≡ copies text (a ∷ ys))
      → (text : String) → copies text xs ≡ copies text ys
  copies-tail a xs ys h text = elim (Bool-cases (str_eq a text)) [
    | inl hit ↦ let f = rw hit at (h text) in omega (arith, f)
    | inr miss ↦ let f = rw miss at (h text) in f
  ]

  pub sorted_unique :
      (xs ys : List String)
      → IsSorted le xs
      → IsSorted le ys
      → ((text : String) → copies text xs ≡ copies text ys)
      → xs ≡ ys
  sorted_unique [] [] ha hb h = refl
  sorted_unique [] (b ∷ ys) ha hb h = absurd (omega (arith, h b, copies-head b ys))
  sorted_unique (a ∷ xs) [] ha hb h = absurd (omega (arith, h a, copies-head a xs))
  sorted_unique (a ∷ xs) (b ∷ ys) (la, ha) (lb, hb) h =
      let a_in : Memᴰ a (b ∷ ys) =
        copies_mem a (b ∷ ys) (copies a xs) (sym (h a) ∙ copies-head a xs) in
      let b_in : Memᴰ b (a ∷ xs) = copies_mem b (a ∷ xs) (copies b ys) (h b ∙ copies-head b ys) in
      let same : a ≡ b = elim (first-le a b ys lb a_in) [
        | inl e ↦ e
        | inr ba ↦ elim (first-le b a xs la b_in) [ inl e ↦ sym e | inr ab ↦ antisym a b ab ba ]
      ] in
      ap (λ x. x ∷ xs) same
      ∙ ap (λ rest. b ∷ rest) (sorted_unique xs ys ha hb (copies-tail b xs ys (rw same at h)))
