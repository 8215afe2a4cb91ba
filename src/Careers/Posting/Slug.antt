-- ===== src/Careers/Posting/Slug.antt =====
-- The slug of a posting's title, as src/modules/careers/posting.service.ts builds it, on the code
-- units of the lower-case title.
pub mod Laws
use all_service_api.Common.{
  leb, ◌==◌, if◌then◌else◌, length, ℕ, zero, suc, ◌-◌, ◌*◌, Bool, true, false, ◌&&◌, ◌||◌, List, [],
  ◌∷◌, ◌++◌,
}

-- `[a-z0-9]`
unfoldable pub is_plain : ℕ → Bool
is_plain c = (leb b'a' c && leb c b'z') || (leb b'0' c && leb c b'9')

-- `.replace(/[^a-z0-9]+/g, '-')`: `in_run` says that the run's hyphen is written already.
unfoldable pub hyphenate : Bool → List ℕ → List ℕ
hyphenate in_run [] = []
hyphenate in_run (c ∷ cs) =
    let plain = c ∷ hyphenate false cs in
    let rest = hyphenate true cs in
    if is_plain c then plain else if in_run then rest else b'-' ∷ rest

-- `.replace(/^-+|-+$/g, '')`: the hyphens at both ends.
unfoldable pub drop_leading : List ℕ → List ℕ
drop_leading [] = []
drop_leading (c ∷ cs) = let rest = drop_leading cs in if c == b'-' then rest else c ∷ cs

abbrev pub prepend : ℕ → List ℕ → List ℕ
prepend c [] = if c == b'-' then [] else c ∷ []
prepend c (d ∷ ds) = c ∷ d ∷ ds

unfoldable pub drop_trailing : List ℕ → List ℕ
drop_trailing [] = []
drop_trailing (c ∷ cs) = prepend c (drop_trailing cs)

-- `.slice(0, n)`
unfoldable pub take : ℕ → List ℕ → List ℕ
take zero cs = []
take (suc n) [] = []
take (suc n) (c ∷ cs) = c ∷ take n cs

abbrev pub slug_max_length : ℕ
slug_max_length = 280

unfoldable pub slug_base : List ℕ → List ℕ
unfolding hyphenate drop_leading drop_trailing take is_plain
slug_base title = take slug_max_length (drop_trailing (drop_leading (hyphenate false title)))

-- The base cut so that the suffix fits. The suffix is the time in base 36, far shorter than the
-- 279 units at which the source's difference would fall below 0.
unfoldable pub with_suffix : List ℕ → List ℕ → List ℕ
unfolding take
with_suffix base suffix = take (slug_max_length - length suffix - 1) base ++ b'-' ∷ suffix

abbrev pub same_codes : List ℕ → List ℕ → Bool
same_codes [] [] = true
same_codes (c ∷ cs) (d ∷ ds) = (c == d) && same_codes cs ds
same_codes _ _ = false
