-- ===== src/Careers/Posting/Slug/Laws.antt =====
-- The shape of the slugs that the postings get.
use all_service_api.Common.{
  ◌==◌, length, length-append, ℕ, zero, suc, ◌-◌, ◌≤◌, ◌≡◌, refl, Bool, true, false, not, ◌&&◌,
  ◌||◌, List, [], ◌∷◌, arith,
}
use all_service_api.Careers.Posting.Slug.{
  is_plain, hyphenate, drop_leading, prepend, drop_trailing, take, slug_base, with_suffix,
}

-- Letters, digits and single hyphens; none at the start if `after` says that one came before.
abbrev pub is_tidy : Bool → List ℕ → Bool
is_tidy after [] = true
is_tidy after (c ∷ cs) =
    (is_plain c && is_tidy false cs) || ((c == b'-') && (not after && is_tidy true cs))

is_tidy-hyphenate : (b : Bool) (cs : List ℕ) → is_tidy b (hyphenate b cs) ≡ true
unfolding hyphenate
is_tidy-hyphenate b [] = refl
is_tidy-hyphenate b (c ∷ cs) = ground (arith, is_tidy-hyphenate false cs, is_tidy-hyphenate true cs)

is_tidy-drop_leading :
    (b : Bool) (cs : List ℕ) → is_tidy b cs ≡ true → is_tidy true (drop_leading cs) ≡ true
unfolding drop_leading is_plain
is_tidy-drop_leading b [] h = refl
is_tidy-drop_leading b (c ∷ cs) h = ground (arith, is_tidy-drop_leading true cs)

is_tidy-prepend :
    (b : Bool) (c : ℕ) (ds : List ℕ) → is_tidy b (c ∷ ds) ≡ true → is_tidy b (prepend c ds) ≡ true
is_tidy-prepend b c [] h = ground arith
is_tidy-prepend b c (d ∷ ds) h = h

is_tidy-drop_trailing :
    (b : Bool) (cs : List ℕ) → is_tidy b cs ≡ true → is_tidy b (drop_trailing cs) ≡ true
unfolding drop_trailing
is_tidy-drop_trailing b [] h = refl
is_tidy-drop_trailing b (c ∷ cs) h =
    is_tidy-prepend b c (drop_trailing cs)
      (ground (arith, is_tidy-drop_trailing false cs, is_tidy-drop_trailing true cs))

is_tidy-take : (b : Bool) (n : ℕ) (cs : List ℕ) → is_tidy b cs ≡ true → is_tidy b (take n cs) ≡ true
unfolding take
is_tidy-take b zero cs h = refl
is_tidy-take b (suc n) [] h = refl
is_tidy-take b (suc n) (c ∷ cs) h = ground (arith, is_tidy-take false n cs, is_tidy-take true n cs)

length-take : (n : ℕ) (cs : List ℕ) → length (take n cs) ≤ n
unfolding take
length-take zero cs = omega arith
length-take (suc n) [] = omega arith
length-take (suc n) (c ∷ cs) = omega (arith, length-take n cs)

-- The base of a slug has letters, digits and single hyphens only, does not begin with a hyphen, and
-- has at most 280 units; and so long as the suffix has at most 279, so has the slug with it.
pub slug_shape :
    (title suffix : List ℕ)
    → length suffix ≤ 279
    → (is_tidy true (slug_base title) ≡ true)
      × (length (slug_base title) ≤ 280)
      × (length (with_suffix (slug_base title) suffix) ≤ 280)
unfolding slug_base with_suffix
slug_shape title suffix h =
    let hyphenated = hyphenate false title in
    let trimmed = drop_trailing (drop_leading hyphenated) in
    let base = slug_base title in
    (
      is_tidy-take true 280 trimmed (
          is_tidy-drop_trailing true (drop_leading hyphenated)
            (is_tidy-drop_leading false hyphenated (is_tidy-hyphenate false title))),
      length-take 280 trimmed,
      omega (
        arith,
        length-append (take (280 - length suffix - 1) base) (b'-' ∷ suffix),
        length-take (280 - length suffix - 1) base,
      ),
    )
