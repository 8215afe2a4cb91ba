-- ===== src/Common/Lists.antt =====
-- Lists over the native numbers, and what a test says of every element.
use Prim.Native.Nat.{ℕ, suc, ◌+◌}
use mathlib.Core.Path.{◌≡◌, refl}
use mathlib.Core.Bool.{Bool, true, false, ◌&&◌, ◌||◌}
use mathlib.Core.List.{List, [], ◌∷◌, ◌++◌, Memᴰ}
use native.Mathlib.Omega.{arith}

module _ {ℓ} {A : Type ℓ} where
  abbrev pub length : List A → ℕ
  length [] = 0
  length (x ∷ xs) = suc (length xs)

  abbrev pub all : (A → Bool) → List A → Bool
  all p [] = true
  all p (x ∷ xs) = p x && all p xs

  abbrev pub any : (A → Bool) → List A → Bool
  any p [] = false
  any p (x ∷ xs) = p x || any p xs

  pub length-append : (xs ys : List A) → length (xs ++ ys) ≡ length xs + length ys
  length-append [] ys = omega arith
  length-append (x ∷ xs) ys = omega (arith, length-append xs ys)

module _ {ℓ κ} {A : Type ℓ} (P : A → Type κ) where
  abbrev pub All : List A → Type κ
  All [] = Unit
  All (x ∷ xs) = P x × All xs

  pub All-lookup : (xs : List A) {x : A} → All xs → Memᴰ x xs → P x
  All-lookup [] h m = elim m [ ]
  All-lookup (x ∷ xs) (p, h) (Memᴰ.head e) = rw e p
  All-lookup (x ∷ xs) (p, h) (Memᴰ.tail m) = All-lookup xs h m

  pub All-tabulate : (xs : List A) → ((x : A) → Memᴰ x xs → P x) → All xs
  All-tabulate [] h = tt
  All-tabulate (x ∷ xs) h = (h x (Memᴰ.head refl), All-tabulate xs (λ y m. h y (Memᴰ.tail m)))

  pub All-append : (xs ys : List A) → All xs → All ys → All (xs ++ ys)
  All-append [] ys h k = k
  All-append (x ∷ xs) ys (p, h) k = (p, All-append xs ys h k)
