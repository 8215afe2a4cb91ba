-- ===== src/Users/Tests.antt =====
-- Examples: an account created, renamed by the administrator of its tenant, deleted and restored.
use all_service_api.Common.{
  ok, String, ◌≡◌, refl, ◌↔◌, true, false, none, some, List, [], ◌∷◌, map, Memᴰ, str_eq,
}
use all_service_api.Prisma.{list_client, update_if}
use all_service_api.Redis.{map_server}
use all_service_api.Access.Roles.{includes}
use all_service_api.Auth.State.{User, Accounts, AuthEnv, RequestContext}
use all_service_api.Users.State.{
  UserEnv, UserSafe, CreateUserData, AdminUpdateUserDto, has_user_id, is_account, to_safe,
  update_user,
}
use all_service_api.Users.Profile.{
  create, admin_update, admin_edits, apply_edits, write_admin_update,
}
use all_service_api.Users.Account.{soft_delete, restore}
use all_service_api.Users.Lifecycle.{IsWellFormed}
use all_service_api.Users.Sound.Steps.{
  Reach, here, next, creation, deletion, restoration, Reach-IsWellFormed,
}
use all_service_api.Users.RoleList.{roles_equal}
use all_service_api.Users.RoleList.Bag.{bag, roles_equal_iff}
use all_service_api.Users.RoleList.Insertion.{insertion_sort, insertion_promise}
use all_service_api.Users.Authority.{IsInScope, admin_update_authorised}

abbrev store : AuthEnv
store = record {
  db = list_client;
  server = map_server;
  hash = λ text. text;
  region = "UK";
  refresh_ttl_seconds = 3600;
}

abbrev services : UserEnv
services = record {
  auth = store;
  normalise_email = λ email. email;
  sort = λ roles. roles;
  contains = λ text part. str_eq text part;
  order_by = λ column direction rows. rows;
  tenant_exists = λ tenant. true;
}

abbrev nobody : Accounts
nobody = record {
  users = [];
  families = [];
  redis = [];
  audits = [];
  mails = [];
  events = [];
  alerts = [];
}

abbrev request : RequestContext
request = record { ip_hash = "ip"; user_agent = none; request_id = "r1" }

abbrev bob : CreateUserData
bob = record {
  email = "bob@example.org";
  password_hash = "hash";
  first_name = some "Bob";
  last_name = none;
  roles = none;
  tenant_id = some "t1";
  email_verified = none;
}

abbrev created : Accounts
created = (create services bob "u1" nobody).1

abbrev deleted : Accounts
deleted = (soft_delete services "u1" "admin" request 1000 created).1

abbrev restored : Accounts
restored = (restore services "u1" "admin" request deleted).1

history : Reach services nobody restored
history =
    next (next (next here (creation bob "u1" tt refl)) (deletion "u1" "admin" request 1000 refl))
      (restoration "u1" "admin" request refl)

Reach-IsWellFormed_example : IsWellFormed restored.users
Reach-IsWellFormed_example = Reach-IsWellFormed services history (tt, tt, tt)

abbrev rename : AdminUpdateUserDto
rename = record {
  first_name = some "Robert";
  last_name = none;
  roles = none;
  is_active = none;
  tenant_id = none;
  email_verified = none;
}

abbrev row : User
row = record {
  id = "u1";
  email = "bob@example.org";
  email_verified = false;
  password_hash = "hash";
  first_name = some "Bob";
  last_name = none;
  roles = "user" ∷ [];
  is_active = true;
  is_locked = false;
  lock_reason = none;
  locked_until = none;
  failed_login_attempts = 0;
  last_login_at = none;
  last_login_ip = none;
  password_changed_at = none;
  mfa_enabled = false;
  mfa_secret = none;
  mfa_recovery_codes = [];
  tenant_id = some "t1";
  deleted_at = none;
}

abbrev manager : UserSafe
manager = to_safe (record row { id = "u2"; roles = "tenant-admin" ∷ [] })

abbrev stored : Accounts
stored = record nobody { users = row ∷ [] }

abbrev renamed : Accounts
renamed = (admin_update services "u1" rename manager ("user:write:tenant" ∷ []) request stored).1

abbrev answered : UserSafe
answered = to_safe (record row { first_name = some "Robert" })

rename_ok :
    admin_update services "u1" rename manager ("user:write:tenant" ∷ []) request stored
    ≡ (ok answered, renamed)
unfolding admin_update write_admin_update update_user
rename_ok = refl

admin_update_authorised_example :
    (target : User) × Memᴰ target stored.users
    × (is_account "u1" target ≡ true)
    × (includes ("user:write:tenant" ∷ []) "user:write:any" ≡ false
        → IsInScope services "u1" rename manager request target)
    × (renamed.users
        ≡ map (update_if (has_user_id "u1") (apply_edits (admin_edits rename target))) stored.users)
admin_update_authorised_example =
    admin_update_authorised services "u1" rename manager request ("user:write:tenant" ∷ []) stored
      renamed answered rename_ok

abbrev old_roles : List String
old_roles = "user" ∷ "admin" ∷ "user" ∷ []

abbrev new_roles : List String
new_roles = "user" ∷ "user" ∷ "admin" ∷ []

roles_equal_iff_example :
    (roles_equal insertion_sort old_roles new_roles ≡ true) ↔ (bag old_roles ≡ bag new_roles)
roles_equal_iff_example = roles_equal_iff insertion_sort insertion_promise old_roles new_roles

same_bag : bag old_roles ≡ bag new_roles
unfolding roles_equal
same_bag = roles_equal_iff_example.0 refl
