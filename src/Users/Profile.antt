-- ===== src/Users/Profile.antt =====
-- src/modules/user/user.service.ts: listing, creating and updating accounts, as a user and as an
-- administrator.
use all_service_api.Common.{
  if◌then◌else◌, is_some, or_else, code_not_found, code_forbidden, forbidden, not_found,
  record_missing, M, pure, ◌>>=◌, ◌>>◌, gets, modify, require, some_or, catch_with, ℕ, zero, suc,
  ◌-◌, ◌*◌, String, Bool, true, false, not, ◌&&◌, ◌||◌, Option, none, some, List, [], ◌∷◌, ◌++◌,
  map, str_eq,
}
use mathlib.Core.Option
use all_service_api.Access.Roles.{includes}
use all_service_api.Auth.State.{
  User, Accounts, RequestContext, AuditValue, text, texts, flag, changed, nullable, write_audit,
  emit, UserEvent, user_created, user_deactivated, user_roles_changed,
}
use all_service_api.Users.RoleList.{roles_equal}
use all_service_api.Users.State.{
  UserEnv, UserSafe, CreateUserData, AdminCreateUserDto, UpdateProfileDto, AdminUpdateUserDto,
  ListUsersDto, ListUsersResult, to_safe, same_text, same_flag, is_account, update_user,
  insert_user, connects, rethrow_prisma,
}

-- `skip` and `take` of a query.
abbrev slice : {A : Type 0} → ℕ → ℕ → List A → List A
slice skip take [] = []
slice zero zero (a ∷ rest) = []
slice zero (suc take) (a ∷ rest) = a ∷ slice zero take rest
slice (suc skip) take (a ∷ rest) = slice skip take rest

abbrev given_is : Option Bool → Bool → Bool
given_is none b = true
given_is (some wanted) b = same_flag wanted b

abbrev given_text : Option String → Option String → Bool
given_text none t = true
given_text (some wanted) t = same_text (some wanted) t

-- A value that a request gives in place of the stored one, which may be null.
abbrev replaces : Option String → Option String → Option String
replaces none old = old
replaces (some new) old = some new

-- A field that is given and differs from the stored one.
abbrev edit_text : Option String → Option String → Option String
edit_text none current = none
edit_text (some new) current = if same_text (some new) current then none else some new

abbrev edit_flag : Option Bool → Bool → Option Bool
edit_flag none current = none
edit_flag (some new) current = if same_flag new current then none else some new

-- The `updateData` of `adminUpdate`: roles that are given count as an edit, the same ones too.
abbrev pub admin_edits : AdminUpdateUserDto → User → AdminUpdateUserDto
admin_edits dto target = record {
  first_name = edit_text dto.first_name target.first_name;
  last_name = edit_text dto.last_name target.last_name;
  roles = dto.roles;
  is_active = edit_flag dto.is_active target.is_active;
  tenant_id = edit_text dto.tenant_id target.tenant_id;
  email_verified = edit_flag dto.email_verified target.email_verified;
}

abbrev pub apply_edits : AdminUpdateUserDto → User → User
apply_edits edits user = record user {
  first_name = replaces edits.first_name user.first_name;
  last_name = replaces edits.last_name user.last_name;
  roles = or_else edits.roles user.roles;
  is_active = or_else edits.is_active user.is_active;
  tenant_id = replaces edits.tenant_id user.tenant_id;
  email_verified = or_else edits.email_verified user.email_verified;
}

abbrev entry : String → AuditValue → Option AuditValue → List (String × AuditValue)
entry key before none = []
entry key before (some after) = (key, changed before after) ∷ []

-- The `diff` of `adminUpdate`.
abbrev admin_diff : AdminUpdateUserDto → User → List (String × AuditValue)
admin_diff edits target =
    entry "diff.firstName" (nullable target.first_name) (Option.map text edits.first_name)
    ++ entry "diff.lastName" (nullable target.last_name) (Option.map text edits.last_name)
    ++ entry "diff.roles" (texts target.roles) (Option.map texts edits.roles)
    ++ entry "diff.isActive" (flag target.is_active) (Option.map flag edits.is_active)
    ++ entry "diff.tenantId" (nullable target.tenant_id) (Option.map text edits.tenant_id)
    ++ entry "diff.emailVerified" (flag target.email_verified)
        (Option.map flag edits.email_verified)

abbrev pub emit_if : Bool → UserEvent → Accounts → Accounts
emit_if true event s = emit event s
emit_if false event s = s

-- `dto.isActive === false && target.isActive`
abbrev pub deactivates : Option Bool → User → Bool
deactivates (some false) target = target.is_active
deactivates _ target = false

-- `dto.roles !== undefined && !this.rolesEqual(target.roles, dto.roles)`
abbrev pub changes_roles : UserEnv → Option (List String) → User → Bool
changes_roles env none target = false
changes_roles env (some roles) target = not (roles_equal env.sort target.roles roles)

abbrev pub update_profile_row : UpdateProfileDto → User → User
update_profile_row dto user = record user {
  first_name = replaces dto.first_name user.first_name;
  last_name = replaces dto.last_name user.last_name;
}

abbrev given_entry : String → Option String → List (String × AuditValue)
given_entry key none = []
given_entry key (some new) = (key, text new) ∷ []

abbrev pub admin_data : AdminCreateUserDto → String → CreateUserData
admin_data dto password_hash = record {
  email = dto.email;
  password_hash = password_hash;
  first_name = dto.first_name;
  last_name = dto.last_name;
  roles = some dto.roles;
  tenant_id = dto.tenant_id;
  email_verified = some (or_else dto.email_verified false);
}

module _ (env : UserEnv) where
  -- `buildListWhere`
  unfoldable pub build_list_where : ListUsersDto → UserSafe → Bool → User → Bool
  build_list_where query actor has_list_any user =
      let visible =
        if has_list_any
        then (query.include_deleted || not (is_some user.deleted_at))
          && given_text query.tenant_id user.tenant_id
        else not (is_some user.deleted_at) && same_text user.tenant_id actor.tenant_id in
      let wanted = or_else query.search "" in
      let hit =
        str_eq wanted ""
        || env.contains user.email wanted
        || or_else (Option.map (λ name. env.contains name wanted) user.first_name) false
        || or_else (Option.map (λ name. env.contains name wanted) user.last_name) false in
      let role = or_else (Option.map (includes user.roles) query.role) true in
      visible
      && hit
      && role
      && given_is query.is_active user.is_active
      && given_is query.is_locked user.is_locked

  -- Pages count from 1.
  unfoldable pub list : ListUsersDto → UserSafe → List String → Accounts → ListUsersResult
  unfolding build_list_where
  list query actor actor_permissions s =
      let where_list = build_list_where query actor (includes actor_permissions "user:list:any") in
      let rows =
        env.order_by query.sort_by query.sort_order (env.auth.db.find_many where_list s.users) in
      record {
        items = map to_safe (slice ((query.page - 1) * query.page_size) query.page_size rows);
        total = env.auth.db.count where_list s.users;
        page = query.page;
        page_size = query.page_size;
      }

  -- `buildCreateInput`, with the defaults of the columns that it leaves out; `id` is the new row's.
  abbrev pub build_create_input : CreateUserData → String → String → User
  build_create_input dto normalised_email id = record {
    id = id;
    email = normalised_email;
    email_verified = or_else dto.email_verified false;
    password_hash = dto.password_hash;
    first_name = dto.first_name;
    last_name = dto.last_name;
    roles = or_else dto.roles ("user" ∷ []);
    is_active = true;
    is_locked = false;
    lock_reason = none;
    locked_until = none;
    failed_login_attempts = 0;
    last_login_at = none;
    last_login_ip = none;
    password_changed_at = none;
    mfa_enabled = false;
    mfa_secret = none;
    mfa_recovery_codes = [];
    tenant_id = dto.tenant_id;
    deleted_at = none;
  }

  -- The `try` of `create`.
  unfoldable pub write_create : CreateUserData → String → M Accounts UserSafe
  write_create dto id = do
    created ← insert_user env (build_create_input dto (env.normalise_email dto.email) id)
    modify (emit (user_created created.id created.email))
    pure (to_safe created)

  unfoldable pub create : CreateUserData → String → M Accounts UserSafe
  unfolding write_create
  create dto id = catch_with (write_create dto id) rethrow_prisma

  -- `password_hash` is what `hash` answers of the password.
  unfoldable pub admin_create :
      AdminCreateUserDto → String → UserSafe → RequestContext → String → M Accounts UserSafe
  unfolding create
  admin_create dto password_hash actor context id = do
    created ← create (admin_data dto password_hash) id
    modify (
        write_audit "user.admin.created" (some actor.id) context (
          ("actorId", text actor.id)
          ∷ ("targetId", text created.id)
          ∷ ("email", text created.email)
          ∷ ("roles", texts created.roles)
          ∷ []))
    pure created

  -- The `try` of `updateProfile`.
  unfoldable pub write_profile : String → UpdateProfileDto → RequestContext → M Accounts UserSafe
  write_profile user_id dto context = do
    updated ← update_user env.auth.db user_id (update_profile_row dto)
    modify (
        write_audit "user.profile.updated" (some user_id) context
          (given_entry "firstName" dto.first_name ++ given_entry "lastName" dto.last_name))
    pure (to_safe updated)

  unfoldable pub update_profile : String → UpdateProfileDto → RequestContext → M Accounts UserSafe
  unfolding write_profile
  update_profile user_id dto context = catch_with (write_profile user_id dto context) rethrow_prisma

  -- The `try` of `adminUpdate`.
  unfoldable pub write_admin_update :
      String → AdminUpdateUserDto → User → UserSafe → RequestContext → M Accounts UserSafe
  write_admin_update user_id dto target actor context = do
    let edits = admin_edits dto target
    require (connects env edits.tenant_id) record_missing
    updated ← update_user env.auth.db user_id (apply_edits edits)
    modify (emit_if (deactivates dto.is_active target) (user_deactivated updated.id))
    modify (
        emit_if (changes_roles env dto.roles target)
          (user_roles_changed updated.id target.roles (or_else dto.roles [])))
    modify (
        write_audit "user.admin.updated" (some actor.id) context
          (("actorId", text actor.id) ∷ ("targetId", text updated.id) ∷ admin_diff edits target))
    pure (to_safe updated)

  unfoldable pub admin_update :
      String → AdminUpdateUserDto → UserSafe → List String → RequestContext → M Accounts UserSafe
  unfolding write_admin_update
  admin_update user_id dto actor actor_permissions context = do
    let has_write_any = includes actor_permissions "user:write:any"
    require (has_write_any || not (is_some dto.roles)) (forbidden code_forbidden)
    require (has_write_any || not (is_some dto.tenant_id)) (forbidden code_forbidden)
    found ← gets (λ s. env.auth.db.find_first (is_account user_id) s.users)
    target ← some_or (not_found code_not_found) found
    require (has_write_any || same_text target.tenant_id actor.tenant_id) (not_found code_not_found)
    catch_with (write_admin_update user_id dto target actor context) rethrow_prisma
