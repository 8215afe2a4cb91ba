-- ===== src/Users/Controller.antt =====
-- src/modules/user/user.controller.ts: what an actor's permissions let a request reach.
use all_service_api.Common.{
  if◌then◌else◌, code_not_found, not_found, M, pure, ◌>>=◌, ◌>>◌, require, ℕ, ◌+◌, ◌*◌, String,
  Bool, true, false, Option, none, some, List, str_eq,
}
use all_service_api.Access.Roles.{includes}
use all_service_api.Auth.State.{Accounts, RequestContext}
use all_service_api.Auth.Strategy.{AuthenticatedUser}
use all_service_api.Users.State.{
  UserEnv, UserSafe, AdminCreateUserDto, UpdateProfileDto, AdminUpdateUserDto, ListUsersDto,
  ListUsersResult, find_by_id_or_fail, same_text,
}
use all_service_api.Users.Profile
use all_service_api.Users.Account

-- `durationMinutes`, if it is given.
abbrev lock_end : Option ℕ → ℕ → Option ℕ
lock_end none now = none
lock_end (some minutes) now = some (now + minutes * 60000)

-- `undefined` for an actor who may lock any account, else the actor's tenant, which may be null.
abbrev lock_scope : AuthenticatedUser → List String → Option (Option String)
lock_scope actor permissions =
    if includes permissions "user:lock:any" then none else some actor.tenant_id

abbrev pub to_user_safe : AuthenticatedUser → UserSafe
to_user_safe user = record {
  id = user.id;
  email = user.email;
  first_name = none;
  last_name = none;
  roles = user.roles;
  is_active = true;
  is_locked = false;
  lock_reason = none;
  locked_until = none;
  email_verified = false;
  mfa_enabled = false;
  tenant_id = user.tenant_id;
  last_login_at = none;
}

abbrev may_read : UserSafe → AuthenticatedUser → List String → Bool
may_read target actor permissions =
    if includes permissions "user:read:any"
    then true
    else if includes permissions "user:read:tenant"
    then same_text target.tenant_id actor.tenant_id
    else str_eq target.id actor.id

abbrev pub enforce_read_scope : UserSafe → AuthenticatedUser → List String → M Accounts (Unit {0})
enforce_read_scope target actor permissions =
    require (may_read target actor permissions) (not_found code_not_found)

module _ (env : UserEnv) where
  unfoldable pub get_me : AuthenticatedUser → M Accounts UserSafe
  get_me user = find_by_id_or_fail env user.id

  unfoldable pub update_me :
      AuthenticatedUser → UpdateProfileDto → RequestContext → M Accounts UserSafe
  update_me user dto context = Profile.update_profile env user.id dto context

  unfoldable pub get_by_id : String → AuthenticatedUser → List String → M Accounts UserSafe
  get_by_id id actor permissions = do
    target ← find_by_id_or_fail env id
    enforce_read_scope target actor permissions
    pure target

  unfoldable pub list : ListUsersDto → AuthenticatedUser → List String → Accounts → ListUsersResult
  list query actor permissions s = Profile.list env query (to_user_safe actor) permissions s

  unfoldable pub create :
      AdminCreateUserDto
      → String
      → AuthenticatedUser
      → RequestContext
      → String
      → M Accounts UserSafe
  create dto password_hash actor context id =
      Profile.admin_create env dto password_hash (to_user_safe actor) context id

  unfoldable pub update :
      String
      → AdminUpdateUserDto
      → AuthenticatedUser
      → List String
      → RequestContext
      → M Accounts UserSafe
  update id dto actor permissions context =
      Profile.admin_update env id dto (to_user_safe actor) permissions context

  unfoldable pub soft_delete :
      String → AuthenticatedUser → RequestContext → ℕ → M Accounts (Unit {0})
  soft_delete id actor context now = Account.soft_delete env id actor.id context now

  unfoldable pub restore : String → AuthenticatedUser → RequestContext → M Accounts (Unit {0})
  restore id actor context = Account.restore env id actor.id context

  unfoldable pub lock :
      (id reason : String) (duration_minutes : Option ℕ)
      → AuthenticatedUser
      → List String
      → RequestContext
      → ℕ
      → M Accounts (Unit {0})
  lock id reason duration_minutes actor permissions context now =
      Account.lock env id reason (lock_end duration_minutes now) (some actor.id) context
        (lock_scope actor permissions)

  unfoldable pub unlock :
      String → AuthenticatedUser → List String → RequestContext → M Accounts (Unit {0})
  unlock id actor permissions context =
      Account.unlock env id actor.id context (lock_scope actor permissions)
