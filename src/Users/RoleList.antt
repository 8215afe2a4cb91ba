-- ===== src/Users/RoleList.antt =====
-- `rolesEqual` of src/modules/user/user.service.ts. `sort()` of texts is a parameter.

-- The loop over both lists by index: the lists are of one length there, and an index that is out of
-- one of them finds `undefined`, which no text equals.
pub mod Sorting
pub mod Bag
pub mod Insertion
use all_service_api.Common.{
  ◌==◌, if◌then◌else◌, length, String, Bool, true, false, not, ◌&&◌, List, [], ◌∷◌, str_eq,
}

unfoldable pub same_items : List String → List String → Bool
same_items [] bs = true
same_items (a ∷ rest) [] = false
same_items (a ∷ rest) (b ∷ bs) = str_eq a b && same_items rest bs

unfoldable pub roles_equal : (List String → List String) → List String → List String → Bool
unfolding same_items
roles_equal sort a b = if not (length a == length b) then false else same_items (sort a) (sort b)
