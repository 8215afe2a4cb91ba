-- ===== src/Users/State.antt =====
-- src/modules/user/user.service.ts, its data and the steps its operations share, with the DTOs and
-- the interfaces of the module and src/modules/user/user.mapper.ts. The columns createdAt and
-- updatedAt, which only the database writes, are left out.
use all_service_api.Common.{
  ltb, if◌then◌else◌, is_some, any, code_not_found, email_already_exists, Failure, not_found,
  conflict, record_missing, unique_violation, Result, ok, err, M, some_or, ℕ, String, Bool, true,
  false, not, ◌&&◌, Option, none, some, List, str_eq,
}
use all_service_api.Prisma.{Prisma}
use all_service_api.Auth.State.{User, Accounts, AuthEnv}
use mathlib.Core.Option

-- `trim().toLowerCase()`, `sort()` of texts, the case-insensitive `contains`, the ORDER BY of a query
-- and whether a tenant exists.
pub record UserEnv : Type 1 where
  pub auth : AuthEnv
  pub normalise_email : String → String
  pub sort : List String → List String
  pub contains : String → String → Bool
  pub order_by : String → String → List User → List User
  pub tenant_exists : String → Bool

pub record UserSafe : Type 0 where
  pub id : String
  pub email : String
  pub first_name : Option String
  pub last_name : Option String
  pub roles : List String
  pub is_active : Bool
  pub is_locked : Bool
  pub lock_reason : Option String
  pub locked_until : Option ℕ
  pub email_verified : Bool
  pub mfa_enabled : Bool
  pub tenant_id : Option String
  pub last_login_at : Option ℕ

-- `extends UserSafe` is the field `safe`.
pub record UserWithSecrets : Type 0 where
  pub safe : UserSafe
  pub password_hash : String
  pub mfa_secret : Option String
  pub mfa_recovery_codes : List String
  pub failed_login_attempts : ℕ
  pub last_login_ip : Option String
  pub password_changed_at : Option ℕ

abbrev pub to_safe : User → UserSafe
to_safe user = record {
  id = user.id;
  email = user.email;
  first_name = user.first_name;
  last_name = user.last_name;
  roles = user.roles;
  is_active = user.is_active;
  is_locked = user.is_locked;
  lock_reason = user.lock_reason;
  locked_until = user.locked_until;
  email_verified = user.email_verified;
  mfa_enabled = user.mfa_enabled;
  tenant_id = user.tenant_id;
  last_login_at = user.last_login_at;
}

abbrev pub to_with_secrets : User → UserWithSecrets
to_with_secrets user = record {
  safe = to_safe user;
  password_hash = user.password_hash;
  mfa_secret = user.mfa_secret;
  mfa_recovery_codes = user.mfa_recovery_codes;
  failed_login_attempts = user.failed_login_attempts;
  last_login_ip = user.last_login_ip;
  password_changed_at = user.password_changed_at;
}

-- An absent field is `none`; the tenant is a tenant, `null` and an absent one alike.
pub record CreateUserData : Type 0 where
  pub email : String
  pub password_hash : String
  pub first_name : Option String
  pub last_name : Option String
  pub roles : Option (List String)
  pub tenant_id : Option String
  pub email_verified : Option Bool

pub record AdminCreateUserDto : Type 0 where
  pub email : String
  pub first_name : Option String
  pub last_name : Option String
  pub roles : List String
  pub tenant_id : Option String
  pub email_verified : Option Bool

pub record UpdateProfileDto : Type 0 where
  pub first_name : Option String
  pub last_name : Option String

pub record AdminUpdateUserDto : Type 0 where
  pub first_name : Option String
  pub last_name : Option String
  pub roles : Option (List String)
  pub is_active : Option Bool
  pub tenant_id : Option String
  pub email_verified : Option Bool

pub record ListUsersDto : Type 0 where
  pub page : ℕ
  pub page_size : ℕ
  pub search : Option String
  pub role : Option String
  pub is_active : Option Bool
  pub is_locked : Option Bool
  pub tenant_id : Option String
  pub include_deleted : Bool
  pub sort_by : String
  pub sort_order : String

pub record ListUsersResult : Type 0 where
  pub items : List UserSafe
  pub total : ℕ
  pub page : ℕ
  pub page_size : ℕ

-- `===` of two tenants or names that may be null.
abbrev pub same_text : Option String → Option String → Bool
same_text none none = true
same_text (some a) (some b) = str_eq a b
same_text _ _ = false

abbrev pub same_flag : Bool → Bool → Bool
same_flag true b = b
same_flag false b = not b

abbrev pub has_user_id : String → User → Bool
has_user_id id u = str_eq u.id id

-- `where: { id, deletedAt: null }`
abbrev pub is_account : String → User → Bool
is_account id u = str_eq u.id id && not (is_some u.deleted_at)

abbrev pub has_email : String → User → Bool
has_email email u = str_eq u.email email

-- `where: { email, deletedAt: null }`
abbrev pub is_account_of : String → User → Bool
is_account_of email u = str_eq u.email email && not (is_some u.deleted_at)

-- `rethrowPrisma`
abbrev pub rethrow_prisma : {S A : Type 0} → Failure → M S A
rethrow_prisma unique_violation s = (err (conflict email_already_exists), s)
rethrow_prisma record_missing s = (err (not_found code_not_found), s)
rethrow_prisma e s = (err e, s)

abbrev pub store_user : Accounts → Option (User × List User) → Result User × Accounts
store_user s none = (err record_missing, s)
store_user s (some (u, rows)) = (ok u, record s { users = rows })

-- `prismaWrite.user.update({ where: { id }, data })`
unfoldable pub update_user : Prisma → String → (User → User) → M Accounts User
update_user db id change s = store_user s (db.update (has_user_id id) change s.users)

-- `tenant: { connect: { id } }` of a tenant that does not exist is refused.
abbrev pub connects : UserEnv → Option String → Bool
connects env none = true
connects env (some tenant) = env.tenant_exists tenant

-- `prismaWrite.user.create({ data })`: the column `email` is unique.
unfoldable pub insert_user : UserEnv → User → M Accounts User
insert_user env user s =
    if not (connects env user.tenant_id)
    then (err record_missing, s)
    else if any (has_email user.email) s.users
    then (err unique_violation, s)
    else (ok user, record s { users = env.auth.db.create user s.users })

module _ (env : UserEnv) where
  unfoldable pub find_by_id : String → Accounts → Option UserSafe
  find_by_id id s = Option.map to_safe (env.auth.db.find_first (is_account id) s.users)

  unfoldable pub find_by_id_or_fail : String → M Accounts UserSafe
  unfolding find_by_id
  find_by_id_or_fail id s = some_or (not_found code_not_found) (find_by_id id s) s

  unfoldable pub find_by_email : String → Accounts → Option UserSafe
  find_by_email email s =
      Option.map to_safe
        (env.auth.db.find_first (is_account_of (env.normalise_email email)) s.users)

  unfoldable pub find_by_id_with_secrets : String → Accounts → Option UserWithSecrets
  find_by_id_with_secrets id s =
      Option.map to_with_secrets (env.auth.db.find_first (is_account id) s.users)

  unfoldable pub find_by_email_with_secrets : String → Accounts → Option UserWithSecrets
  find_by_email_with_secrets email s =
      Option.map to_with_secrets
        (env.auth.db.find_first (is_account_of (env.normalise_email email)) s.users)

  unfoldable pub exists_by_email : String → Accounts → Bool
  exists_by_email email s =
      ltb 0 (env.auth.db.count (is_account_of (env.normalise_email email)) s.users)
