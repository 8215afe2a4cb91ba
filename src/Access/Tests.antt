-- ===== src/Access/Tests.antt =====
-- Examples: a user who asks for their own profile, and an administrator's token.
use all_service_api.Common.{
  All, String, ◌≡◌, refl, ◌≢◌, ◌↔◌, ◌⊎◌, true, Option, none, some, List, [], ◌∷◌, Memᴰ,
}
use all_service_api.Access.Roles.{includes, flatten_roles}
use all_service_api.Access.Roles.Laws.{IsGranted, HasNoRepeat, flatten_roles_iff}
use all_service_api.Access.Guards.{
  Actor, Request, PermissionMetadata, all_of, any_of, check_permissions, check_roles,
  check_internal,
}
use all_service_api.Access.Guards.Decisions.{
  MayUse, check_permissions_iff, check_roles_iff, check_internal_iff,
}

abbrev member : Actor
member = record { id = "u1"; roles = "user" ∷ []; permissions = flatten_roles ("user" ∷ []) }

abbrev own_profile : Request
own_profile = record {
  user = some member;
  path = "/users/u1";
  params = ("id", "u1") ∷ [];
  body_user_id = none;
}

abbrev administrators : List String
administrators = "admin" ∷ []

abbrev guess : Option String
guess = some "guess"

abbrev secret : String
secret = "secret"

abbrev reading : PermissionMetadata
reading = record { permissions = "user:read:self" ∷ []; mode = all_of }

flatten_roles_iff_example :
    ((includes (flatten_roles ("user" ∷ "admin" ∷ [])) "user:create" ≡ true)
      ↔ IsGranted ("user" ∷ "admin" ∷ []) "user:create")
    × HasNoRepeat (flatten_roles ("user" ∷ "admin" ∷ []))
flatten_roles_iff_example = flatten_roles_iff ("user" ∷ "admin" ∷ []) "user:create"

check_permissions_iff_example : (check_permissions (some reading) none own_profile ≡ none) ↔ (
    (reading.permissions ≡ [])
    ⊎ (((reading.mode ≡ all_of) × All (MayUse own_profile member none) reading.permissions)
        ⊎ ((reading.mode ≡ any_of)
            × ((code : String) × Memᴰ code reading.permissions
                × MayUse own_profile member none code))))
check_permissions_iff_example = check_permissions_iff reading none own_profile member refl refl

check_roles_iff_example : (check_roles (some administrators) own_profile ≡ none) ↔ (
    (administrators ≡ [])
    ⊎ ((role : String) × Memᴰ role administrators × (includes member.roles role ≡ true)))
check_roles_iff_example = check_roles_iff administrators own_profile member refl

check_internal_iff_example :
    (check_internal secret guess ≡ none) ↔ ((guess ≡ some secret) × (secret ≢ ""))
check_internal_iff_example = check_internal_iff secret guess
