-- ===== src/Access/Roles.antt =====
-- src/common/constants/role-permissions.ts: what a role may do. A permission is its code. A role is
-- not the name of a property that every object has.
pub mod Laws
use all_service_api.Common.{
  if◌then◌else◌, any, ◌>>=◌, ◌>>◌, ◌*◌, String, Bool, not, Option, none, some, List, [], ◌∷◌, ◌++◌,
  str_eq,
}

abbrev user_permissions : List String
user_permissions =
    "user:read:self" ∷ "user:write:self" ∷ "session:read:self" ∷ "session:revoke:self"
    ∷ "mfa:manage:self" ∷ []

abbrev tenant_admin_permissions : List String
tenant_admin_permissions =
    "user:read:self" ∷ "user:write:self" ∷ "user:read:tenant" ∷ "user:write:tenant"
    ∷ "user:list:tenant" ∷ "user:lock:tenant" ∷ "session:read:self" ∷ "session:revoke:self"
    ∷ "mfa:manage:self" ∷ "audit:read:tenant" ∷ []

abbrev admin_permissions : List String
admin_permissions =
    "user:read:self" ∷ "user:write:self" ∷ "user:read:any" ∷ "user:write:any" ∷ "user:create"
    ∷ "user:delete" ∷ "user:restore" ∷ "user:list:any" ∷ "user:lock:any" ∷ "session:read:self"
    ∷ "session:revoke:self" ∷ "session:revoke:any" ∷ "mfa:manage:self" ∷ "audit:read:any"
    ∷ "career:posting:read" ∷ "career:posting:write" ∷ "career:application:read"
    ∷ "career:application:write" ∷ "career:analytics:read" ∷ "webhook:read" ∷ "webhook:write"
    ∷ "webhook:delete" ∷ []

-- `ROLE_PERMISSIONS[role]`
unfoldable pub role_permissions : String → Option (List String)
role_permissions role =
    if str_eq role "user"
    then some user_permissions
    else if str_eq role "tenant-admin"
    then some tenant_admin_permissions
    else if str_eq role "admin"
    then some admin_permissions
    else none

abbrev pub includes : List String → String → Bool
includes codes code = any (λ c. str_eq c code) codes

-- `set.add(code)`: a set keeps the order in which its members came.
abbrev pub add : List String → String → List String
add set code = if includes set code then set else set ++ code ∷ []

unfoldable pub add_all : List String → List String → List String
add_all set [] = set
add_all set (code ∷ codes) = add_all (add set code) codes

abbrev pub add_role : List String → Option (List String) → List String
add_role set none = set
add_role set (some codes) = add_all set codes

unfoldable pub flatten_from : List String → List String → List String
unfolding add_all
flatten_from set [] = set
flatten_from set (role ∷ roles) = flatten_from (add_role set (role_permissions role)) roles

unfoldable pub flatten_roles : List String → List String
unfolding flatten_from
flatten_roles roles = flatten_from [] roles
