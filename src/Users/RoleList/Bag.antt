-- ===== src/Users/RoleList/Bag.antt =====
-- Roles up to order: what `rolesEqual` of src/modules/user/user.service.ts decides.
use all_service_api.Common.{
  eqb_refl, length, ℕ, String, ◌≡◌, refl, sym, ap, ◌∙◌, ◌↔◌, true, List, [], ◌∷◌, arith, str_eq,
  eq_iff, eq_refl,
}
use mathlib.Core.Quot
use mathlib.Core.Quot.{Quot, Quot-set}
use all_service_api.Users.RoleList.{same_items, roles_equal}
use all_service_api.Users.RoleList.Sorting.{copies, Sorting, sorted_unique}

abbrev pub SameRoles : List String → List String → Type 0
SameRoles xs ys = (role : String) → copies role xs ≡ copies role ys

-- Lists of roles, without their order.
abbrev pub RoleBag : Type 0
RoleBag = Quot SameRoles

abbrev pub bag : List String → RoleBag
bag = Quot.mk

unfoldable held : String → RoleBag → ℕ
held role = Quot.lift (hlevel) (copies role) λ xs ys h. h role

bag_exact : (xs ys : List String) → bag xs ≡ bag ys → SameRoles xs ys
unfolding held
bag_exact xs ys e role = ap (held role) e

same_items_refl : (xs : List String) → same_items xs xs ≡ true
unfolding same_items
same_items_refl [] = refl
same_items_refl (x ∷ xs) = rw (eq_refl x) (same_items_refl xs)

same_items_eq : (xs ys : List String) → length xs ≡ length ys → same_items xs ys ≡ true → xs ≡ ys
unfolding same_items
same_items_eq [] [] e h = refl
same_items_eq [] (y ∷ ys) e h = absurd (omega arith)
same_items_eq (x ∷ xs) [] e h = absurd (omega arith)
same_items_eq (x ∷ xs) (y ∷ ys) e h =
    let first : str_eq x y ≡ true = ground (arith, h) in
    let rest : same_items xs ys ≡ true = ground (arith, h) in
    ap (λ z. z ∷ xs) ((eq_iff x y).0 first)
    ∙ ap (λ zs. y ∷ zs) (same_items_eq xs ys (omega (arith, e)) rest)

module _ (sort : List String → List String) (promise : Sorting sort) (xs ys : List String) where
  equal_bags : roles_equal sort xs ys ≡ true → bag xs ≡ bag ys
  unfolding roles_equal
  equal_bags h =
      let lengths : length xs ≡ length ys = ground (arith, h) in
      let items : same_items (sort xs) (sort ys) ≡ true = ground (arith, h) in
      let same : sort xs ≡ sort ys =
        same_items_eq (sort xs) (sort ys)
          (promise.same_length xs ∙ lengths ∙ sym (promise.same_length ys)) items in
      Quot.sound λ role.
        sym (promise.same_copies role xs) ∙ ap (copies role) same ∙ promise.same_copies role ys

  bags_equal : bag xs ≡ bag ys → roles_equal sort xs ys ≡ true
  unfolding roles_equal
  bags_equal e =
      let same : sort xs ≡ sort ys =
        sorted_unique promise.le promise.antisym (sort xs) (sort ys) (promise.sorted xs)
          (promise.sorted ys)
          λ role.
            promise.same_copies role xs
            ∙ bag_exact xs ys e role
            ∙ sym (promise.same_copies role ys) in
      let lengths : length xs ≡ length ys =
        sym (promise.same_length xs) ∙ ap length same ∙ promise.same_length ys in
      rw lengths (rw (eqb_refl (length ys)) (rw same (same_items_refl (sort ys))))

  -- With a `sort` that rearranges texts into their order, two lists of roles are found equal exactly
  -- if they are the same list up to order: each role is as often in the one as in the other.
  pub roles_equal_iff : (roles_equal sort xs ys ≡ true) ↔ (bag xs ≡ bag ys)
  roles_equal_iff = (equal_bags, bags_equal)
