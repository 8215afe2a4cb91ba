-- ===== src/Users/RoleList/Insertion.antt =====
-- A sort of texts, for examples: insertion by the code points.
use all_service_api.Common.{
  ltb, ◌==◌, if◌then◌else◌, Bool-cases, length, All, ◌+◌, String, ◌≡◌, refl, ap, ◌∙◌, inl, inr,
  Bool, true, false, ◌&&◌, List, [], ◌∷◌, arith,
}
use Prim.Native.Char.{code}
use text.Mathlib.TextEquality.{codes_equal}
use text.Mathlib.TextPositions.{compare_self}
use all_service_api.Users.RoleList.Sorting.{copies, Sorting, IsSorted}

abbrev precedes : String → String → Bool
precedes String.[] t = true
precedes (String.◌∷◌ c s) String.[] = false
precedes (String.◌∷◌ c s) (String.◌∷◌ d t) =
    let rest = precedes s t in if ltb (code c) (code d) then true else (code c == code d) && rest

precedes_antisym : (s t : String) → precedes s t ≡ true → precedes t s ≡ true → s ≡ t
precedes_antisym String.[] String.[] a b = refl
precedes_antisym String.[] (String.◌∷◌ d t) a b = cc
precedes_antisym (String.◌∷◌ c s) String.[] a b = cc
precedes_antisym (String.◌∷◌ c s) (String.◌∷◌ d t) a b =
    let n : code c ≡ code d = ground arith in
    let first : c ≡ d = codes_equal c d (rw n (compare_self (code d))) in
    let there : precedes s t ≡ true = ground arith in
    let back : precedes t s ≡ true = ground arith in
    ap (λ x. String.◌∷◌ x s) first ∙ ap (λ xs. String.◌∷◌ d xs) (precedes_antisym s t there back)

precedes_total : (s t : String) → precedes s t ≡ false → precedes t s ≡ true
precedes_total String.[] t e = cc
precedes_total (String.◌∷◌ c s) String.[] e = refl
precedes_total (String.◌∷◌ c s) (String.◌∷◌ d t) e = ground (arith, precedes_total s t)

precedes_trans : (s t u : String) → precedes s t ≡ true → precedes t u ≡ true → precedes s u ≡ true
precedes_trans String.[] t u a b = refl
precedes_trans (String.◌∷◌ c s) String.[] u a b = cc
precedes_trans (String.◌∷◌ c s) (String.◌∷◌ d t) String.[] a b = cc
precedes_trans (String.◌∷◌ c s) (String.◌∷◌ d t) (String.◌∷◌ e u) a b =
    ground (arith, precedes_trans s t u)

abbrev insert : String → List String → List String
insert text [] = text ∷ []
insert text (t ∷ texts) =
    let rest = insert text texts in if precedes text t then text ∷ t ∷ texts else t ∷ rest

abbrev pub insertion_sort : List String → List String
insertion_sort [] = []
insertion_sort (t ∷ texts) = insert t (insertion_sort texts)

abbrev IsBefore : String → String → Type 0
IsBefore s t = precedes s t ≡ true

length-insert :
    (text : String) (texts : List String) → length (insert text texts) ≡ length texts + 1
length-insert text [] = refl
length-insert text (t ∷ texts) = ground (arith, length-insert text texts)

copies-insert :
    (role text : String) (texts : List String)
    → copies role (insert text texts) ≡ copies role (text ∷ texts)
copies-insert role text [] = refl
copies-insert role text (t ∷ texts) = ground (arith, copies-insert role text texts)

All-insert :
    (s text : String) (texts : List String)
    → IsBefore s text
    → All (IsBefore s) texts
    → All (IsBefore s) (insert text texts)
All-insert s text [] h every = (h, tt)
All-insert s text (t ∷ texts) h (p, every) = elim (Bool-cases (precedes text t)) [
  | inl b ↦ rw b (h, (p, every))
  | inr b ↦ rw b (p, All-insert s text texts h every)
]

All-trans :
    (s t : String) (texts : List String)
    → IsBefore s t
    → All (IsBefore t) texts
    → All (IsBefore s) texts
All-trans s t [] h every = tt
All-trans s t (u ∷ texts) h (p, every) = (precedes_trans s t u h p, All-trans s t texts h every)

insert-IsSorted :
    (text : String) (texts : List String)
    → IsSorted IsBefore texts
    → IsSorted IsBefore (insert text texts)
insert-IsSorted text [] h = (tt, tt)
insert-IsSorted text (t ∷ texts) (every, h) = elim (Bool-cases (precedes text t)) [
  | inl b ↦ rw b ((b, All-trans text t texts b every), (every, h))
  | inr b ↦
      rw b (All-insert t text texts (precedes_total text t b) every, insert-IsSorted text texts h)
]

insertion_sort-IsSorted : (texts : List String) → IsSorted IsBefore (insertion_sort texts)
insertion_sort-IsSorted [] = tt
insertion_sort-IsSorted (t ∷ texts) =
    insert-IsSorted t (insertion_sort texts) (insertion_sort-IsSorted texts)

insertion_sort-copies :
    (role : String) (texts : List String) → copies role (insertion_sort texts) ≡ copies role texts
insertion_sort-copies role [] = refl
insertion_sort-copies role (t ∷ texts) =
    copies-insert role t (insertion_sort texts) ∙ ground (arith, insertion_sort-copies role texts)

length-insertion_sort : (texts : List String) → length (insertion_sort texts) ≡ length texts
length-insertion_sort [] = refl
length-insertion_sort (t ∷ texts) =
    omega (arith, length-insert t (insertion_sort texts), length-insertion_sort texts)

pub insertion_promise : Sorting insertion_sort
insertion_promise = record {
  le = IsBefore;
  antisym = precedes_antisym;
  sorted = insertion_sort-IsSorted;
  same_copies = insertion_sort-copies;
  same_length = length-insertion_sort;
}
