-- ===== src/Access/Guards.antt =====
-- src/common/guards: permissions.guard.ts, roles.guard.ts and internal-api.guard.ts, on what they
-- read of a request.
pub mod Decisions
pub mod Own
use all_service_api.Access.Roles.{includes}
use all_service_api.Common.{
  if◌then◌else◌, or_else, all, any, internal_error, code_forbidden, code_unauthorized,
  insufficient_permissions, Failure, unauthorized, forbidden, throw, ◌*◌, String, Bool, true, false,
  not, ◌||◌, Option, none, some, List, [], ◌∷◌, str_eq,
}

pub data PermissionMode : Type 0 where
  all_of any_of : PermissionMode

pub record PermissionMetadata : Type 0 where
  pub permissions : List String
  pub mode : PermissionMode

pub record Actor : Type 0 where
  pub id : String
  pub roles : List String
  pub permissions : List String

-- `params` are the route's; `body_user_id` is `body.userId` where that is a text.
pub record Request : Type 0 where
  pub user : Option Actor
  pub path : String
  pub params : List (String × String)
  pub body_user_id : Option String

-- `text.endsWith(suffix)`
unfoldable pub ends_with : String → String → Bool
ends_with suffix String.[] = str_eq suffix String.[]
ends_with suffix (String.◌∷◌ c rest) =
    let later = ends_with suffix rest in str_eq suffix (String.◌∷◌ c rest) || later

unfoldable pub param : String → List (String × String) → Option String
param name [] = none
param name ((key, value) ∷ rest) =
    let later = param name rest in if str_eq key name then some value else later

abbrev pub equals : Option String → String → Bool
equals none id = false
equals (some value) id = str_eq value id

unfoldable pub is_self_request : Request → Actor → String → Bool
unfolding ends_with param
is_self_request request actor param_name =
    ends_with "/me" request.path
    || equals (param param_name request.params) actor.id
    || equals request.body_user_id actor.id

-- The closure `satisfies`.
unfoldable pub satisfies : Request → Actor → Option String → String → Bool
unfolding is_self_request
satisfies request actor self_param perm =
    if not (includes actor.permissions perm)
    then false
    else if ends_with ":self" perm
    then is_self_request request actor (or_else self_param "id")
    else true

abbrev pub passes : PermissionMetadata → (String → Bool) → Bool
passes metadata test = elim metadata.mode [
  | all_of ↦ all test metadata.permissions
  | any_of ↦ any test metadata.permissions
]

abbrev pub is_empty : List String → Bool
is_empty [] = true
is_empty (x ∷ xs) = false

abbrev decide : Option Actor → Failure → (Actor → Bool) → Option Failure
decide none refusal test = some (forbidden code_unauthorized)
decide (some actor) refusal test = if test actor then none else some refusal

-- `PermissionsGuard.canActivate`: `none` lets the request through, and `some` is the throw.
unfoldable pub check_permissions :
    Option PermissionMetadata → Option String → Request → Option Failure
unfolding satisfies
check_permissions none self_param request = none
check_permissions (some metadata) self_param request =
    if is_empty metadata.permissions
    then none
    else decide request.user (forbidden insufficient_permissions)
        (λ actor. passes metadata (satisfies request actor self_param))

-- `RolesGuard.canActivate`
unfoldable pub check_roles : Option (List String) → Request → Option Failure
check_roles none request = none
check_roles (some required) request =
    if is_empty required
    then none
    else decide request.user (forbidden code_forbidden)
        (λ actor. any (λ role. includes actor.roles role) required)

-- `InternalApiGuard.canActivate`: the header `x-internal-secret`, where it is one text. Two texts
-- with the same bytes are equal.
unfoldable pub check_internal : (expected : String) (incoming : Option String) → Option Failure
check_internal expected none = some (unauthorized code_unauthorized)
check_internal expected (some incoming) =
    if str_eq incoming ""
    then some (unauthorized code_unauthorized)
    else if str_eq expected ""
    then some (unauthorized internal_error)
    else if str_eq incoming expected
    then none
    else some (unauthorized code_unauthorized)
