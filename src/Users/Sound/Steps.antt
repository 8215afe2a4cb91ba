-- ===== src/Users/Sound/Steps.antt =====
-- Everything that src/modules/user/user.service.ts can do to the accounts, as a step relation.
use all_service_api.Common.{ℕ, String, ◌≡◌, Option, List}
use all_service_api.Auth.State.{Accounts, RequestContext}
use all_service_api.Users.State.{
  UserEnv, UserSafe, CreateUserData, AdminCreateUserDto, UpdateProfileDto, AdminUpdateUserDto,
}
use all_service_api.Users.Profile.{create, admin_create, update_profile, admin_update}
use all_service_api.Users.Account.{
  update_password, mark_email_verified, record_login_success, increment_failed_login_attempts, lock,
  unlock, set_mfa_secret, clear_mfa, consume_recovery_code, soft_delete, restore,
}
use all_service_api.Users.Lifecycle.{IsWellFormed}
use all_service_api.Users.Sound.{
  Keeps-update_password, Keeps-mark_email_verified, Keeps-set_mfa_secret, Keeps-clear_mfa,
  Keeps-soft_delete, Keeps-restore, Keeps-lock, Keeps-unlock, Keeps-update_profile,
  Keeps-record_login_success, Keeps-increment, Keeps-consume_recovery_code,
}
use all_service_api.Users.Sound.Profiles.{
  IsNew, IsWellFormed-create, IsWellFormed-admin_create, IsWellFormed-admin_update,
}

-- One call of an operation, whatever it answers; `elsewhere` is a call of another service.
pub data Step (env : UserEnv) (s s' : Accounts) : Type 0 where
  creation :
      (dto : CreateUserData) (id : String)
      → IsNew env id s
      → s' ≡ (create env dto id s).1
      → Step env s s'
  admin_creation :
      (dto : AdminCreateUserDto) (password_hash : String) (actor : UserSafe)
      (context : RequestContext) (id : String)
      → IsNew env id s
      → s' ≡ (admin_create env dto password_hash actor context id s).1
      → Step env s s'
  profile :
      (id : String) (dto : UpdateProfileDto) (context : RequestContext)
      → s' ≡ (update_profile env id dto context s).1
      → Step env s s'
  administration :
      (id : String) (dto : AdminUpdateUserDto) (actor : UserSafe) (permissions : List String)
      (context : RequestContext)
      → s' ≡ (admin_update env id dto actor permissions context s).1
      → Step env s s'
  password :
      (id password_hash : String) (context : RequestContext) (now : ℕ)
      → s' ≡ (update_password env id password_hash context now s).1
      → Step env s s'
  verification :
      (id : String) (context : RequestContext)
      → s' ≡ (mark_email_verified env id context s).1
      → Step env s s'
  login_success :
      (id ip_hash : String) (now : ℕ)
      → s' ≡ (record_login_success env id ip_hash now s).1
      → Step env s s'
  login_failure : (id : String) → s' ≡ (increment_failed_login_attempts env id s).1 → Step env s s'
  locking :
      (id reason : String) (until : Option ℕ) (actor_id : Option String) (context : RequestContext)
      (scope : Option (Option String))
      → s' ≡ (lock env id reason until actor_id context scope s).1
      → Step env s s'
  unlocking :
      (id actor_id : String) (context : RequestContext) (scope : Option (Option String))
      → s' ≡ (unlock env id actor_id context scope s).1
      → Step env s s'
  mfa_on :
      (id secret : String) (codes : List String) (context : RequestContext)
      → s' ≡ (set_mfa_secret env id secret codes context s).1
      → Step env s s'
  mfa_off :
      (id : String) (context : RequestContext) → s' ≡ (clear_mfa env id context s).1 → Step env s s'
  recovery : (id code : String) → s' ≡ (consume_recovery_code env id code s).1 → Step env s s'
  deletion :
      (id actor_id : String) (context : RequestContext) (now : ℕ)
      → s' ≡ (soft_delete env id actor_id context now s).1
      → Step env s s'
  restoration :
      (id actor_id : String) (context : RequestContext)
      → s' ≡ (restore env id actor_id context s).1
      → Step env s s'
  elsewhere : s'.users ≡ s.users → Step env s s'

pub data Reach (env : UserEnv) (s : Accounts) : Accounts → Type 0 where
  here : Reach env s s
  next : {t u : Accounts} → Reach env s t → Step env t u → Reach env s u

module _ (env : UserEnv) where
  Step-IsWellFormed :
      {s s' : Accounts} → Step env s s' → IsWellFormed s.users → IsWellFormed s'.users
  Step-IsWellFormed {s} (creation dto id fresh e) h =
      rw e (IsWellFormed-create env dto id s fresh h)
  Step-IsWellFormed {s} (admin_creation dto hash actor context id fresh e) h =
      rw e (IsWellFormed-admin_create env dto hash actor context id s fresh h)
  Step-IsWellFormed {s} (profile id dto context e) h =
      rw e ((Keeps-update_profile env id context dto).at s h)
  Step-IsWellFormed {s} (administration id dto actor permissions context e) h =
      rw e (IsWellFormed-admin_update env id dto actor permissions context s h)
  Step-IsWellFormed {s} (password id hash context now e) h =
      rw e ((Keeps-update_password env id context hash now).at s h)
  Step-IsWellFormed {s} (verification id context e) h =
      rw e ((Keeps-mark_email_verified env id context).at s h)
  Step-IsWellFormed {s} (login_success id ip_hash now e) h =
      rw e ((Keeps-record_login_success env id ip_hash now).at s h)
  Step-IsWellFormed {s} (login_failure id e) h = rw e ((Keeps-increment env id).at s h)
  Step-IsWellFormed {s} (locking id reason until actor_id context scope e) h =
      rw e ((Keeps-lock env id context reason until actor_id scope).at s h)
  Step-IsWellFormed {s} (unlocking id actor_id context scope e) h =
      rw e ((Keeps-unlock env id context actor_id scope).at s h)
  Step-IsWellFormed {s} (mfa_on id secret codes context e) h =
      rw e ((Keeps-set_mfa_secret env id context secret codes).at s h)
  Step-IsWellFormed {s} (mfa_off id context e) h = rw e ((Keeps-clear_mfa env id context).at s h)
  Step-IsWellFormed {s} (recovery id code e) h =
      rw e ((Keeps-consume_recovery_code env id code).at s h)
  Step-IsWellFormed {s} (deletion id actor_id context now e) h =
      rw e ((Keeps-soft_delete env id context actor_id now).at s h)
  Step-IsWellFormed {s} (restoration id actor_id context e) h =
      rw e ((Keeps-restore env id context actor_id).at s h)
  Step-IsWellFormed (elsewhere e) h = rw e h

  -- Any sequence of the user service's operations, with identifiers that are new where an account is
  -- created and whatever each call answers, keeps the table of users sound: no two accounts share an
  -- identifier or an address, deleted accounts included, and no deleted account is active.
  pub Reach-IsWellFormed :
      {s s' : Accounts} → Reach env s s' → IsWellFormed s.users → IsWellFormed s'.users
  Reach-IsWellFormed here h = h
  Reach-IsWellFormed (next r st) h = Step-IsWellFormed st (Reach-IsWellFormed r h)
