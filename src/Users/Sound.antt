-- ===== src/Users/Sound.antt =====
-- What the operations of src/modules/user/user.service.ts on one account do to the table of users.
pub mod Profiles
pub mod Steps
use all_service_api.Common.{
  if◌then◌else◌, is_some, pure, ◌>>=◌, ◌>>◌, modify, ℕ, ◌*◌, String, refl, sym, Option, none, some,
  List, [], ◌∷◌,
}
use all_service_api.Auth.State.{
  emit, user_locked, text, user_deleted, RequestContext, User, Accounts,
}
use all_service_api.Prisma.Columns.{keys-append}
use all_service_api.Users.State.{
  insert_user, connects, has_email, CreateUserData, UserEnv, update_user, UpdateProfileDto,
  AdminCreateUserDto, AdminUpdateUserDto, UserSafe, is_account, has_user_id, same_text,
  rethrow_prisma,
}
use all_service_api.Users.Account.{
  lock_audit, write_verified, lock, set_lock, unlock, release_lock, record_login_success,
  set_login_success, increment_failed_login_attempts, add_failed_attempt, set_recovery_codes,
  consume_recovery_code, update_password, set_password, mark_email_verified, set_email_verified,
  set_mfa_secret, set_secret, clear_mfa, clear_secret, soft_delete, set_deleted, restore,
  set_restored, write_row, require_tenant,
}
use all_service_api.Users.Profile.{
  write_create, write_profile, create, build_create_input, update_profile, update_profile_row,
  admin_create, admin_update, write_admin_update, admin_edits, apply_edits,
}
use all_service_api.Users.Lifecycle.{
  IsConsistent, IsWellFormed, Keeps-recover, Keeps-if, Keeps-pure, Keeps-skip, Keeps-emit,
  Keeps-write_audit, Keeps-bind, Keeps-catch, Keeps, IsQuiet, keeps_rules, Keeps-update_user,
}

module _ (env : UserEnv) where
  pub Keeps-write_row :
      (id : String) (change : User → User) (announce audit : Accounts → Accounts)
      → IsQuiet change
      → Keeps (modify announce)
      → Keeps (modify audit)
      → Keeps (write_row env id change announce audit)
  Keeps-write_row id change announce audit quiet a b =
      Keeps-catch (update_user env.auth.db id change >>= λ u. modify announce >> modify audit)
        (search (keeps_rules, Keeps-update_user env.auth.db id change quiet, a, b))

  pub Keeps-require_tenant :
      (id : String) (scope : Option (Option String)) → Keeps (require_tenant env id scope)
  unfolding require_tenant
  Keeps-require_tenant id none = search keeps_rules
  Keeps-require_tenant id (some tenant) = search keeps_rules

  module _ (id : String) (context : RequestContext) where
    pub Keeps-update_password :
        (password_hash : String) (now : ℕ)
        → Keeps (update_password env id password_hash context now)
    unfolding update_password
    Keeps-update_password password_hash now =
        Keeps-write_row id (set_password password_hash now) (λ s. s) _ (λ u. (refl, refl, λ h. h))
          Keeps-skip (Keeps-write_audit "user.password.updated" (some id) context [])

    pub Keeps-write_verified : (target : User) → Keeps (write_verified env id target context)
    unfolding write_verified
    Keeps-write_verified target = Keeps-if target.email_verified (pure tt) _ (Keeps-pure tt) (
        Keeps-write_row id set_email_verified (λ s. s) _ (λ u. (refl, refl, λ h. h)) Keeps-skip
          (Keeps-write_audit "user.email.verified" (some id) context []))

    pub Keeps-mark_email_verified : Keeps (mark_email_verified env id context)
    unfolding mark_email_verified
    Keeps-mark_email_verified = search (keeps_rules, Keeps-write_verified)

    pub Keeps-set_mfa_secret :
        (secret : String) (codes : List String) → Keeps (set_mfa_secret env id secret codes context)
    unfolding set_mfa_secret
    Keeps-set_mfa_secret secret codes =
        Keeps-write_row id (set_secret secret codes) (λ s. s) _ (λ u. (refl, refl, λ h. h))
          Keeps-skip (Keeps-write_audit "user.mfa.secret.set" (some id) context [])

    pub Keeps-clear_mfa : Keeps (clear_mfa env id context)
    unfolding clear_mfa
    Keeps-clear_mfa =
        Keeps-write_row id clear_secret (λ s. s) _ (λ u. (refl, refl, λ h. h)) Keeps-skip
          (Keeps-write_audit "user.mfa.cleared" (some id) context [])

    pub Keeps-soft_delete :
        (actor_id : String) (now : ℕ) → Keeps (soft_delete env id actor_id context now)
    unfolding soft_delete
    Keeps-soft_delete actor_id now =
        Keeps-write_row id (set_deleted now) _ _ (λ u. (refl, refl, λ h e. refl))
          (Keeps-emit (user_deleted id))
          (Keeps-write_audit "user.deleted" (some actor_id) context
            (("actorId", text actor_id) ∷ []))

    pub Keeps-restore : (actor_id : String) → Keeps (restore env id actor_id context)
    unfolding restore
    Keeps-restore actor_id =
        Keeps-write_row id set_restored (λ s. s) _ (λ u. (refl, refl, λ h e. sym e)) Keeps-skip
          (Keeps-write_audit "user.restored" (some actor_id) context
            (("actorId", text actor_id) ∷ []))

    pub Keeps-lock :
        (reason : String) (until : Option ℕ) (actor_id : Option String)
        (scope : Option (Option String))
        → Keeps (lock env id reason until actor_id context scope)
    unfolding lock
    Keeps-lock reason until actor_id scope =
        Keeps-bind _ _ (Keeps-require_tenant id (if is_some actor_id then scope else none)) λ u.
          Keeps-write_row id (set_lock reason until) (emit (user_locked id reason until))
            (lock_audit reason until actor_id context) (λ v. (refl, refl, λ h. h))
            (Keeps-emit (user_locked id reason until)) (record { at = λ s h. h })

    pub Keeps-unlock :
        (actor_id : String) (scope : Option (Option String))
        → Keeps (unlock env id actor_id context scope)
    unfolding unlock
    Keeps-unlock actor_id scope = Keeps-bind _ _ (Keeps-require_tenant id scope) λ u.
        Keeps-write_row id release_lock (λ s. s) _ (λ v. (refl, refl, λ h. h)) Keeps-skip
          (Keeps-write_audit "user.unlocked" (some actor_id) context
            (("actorId", text actor_id) ∷ []))

    pub Keeps-update_profile : (dto : UpdateProfileDto) → Keeps (update_profile env id dto context)
    unfolding update_profile write_profile
    Keeps-update_profile dto = Keeps-catch (write_profile env id dto context) (
        search (
          keeps_rules,
          Keeps-update_user env.auth.db id (update_profile_row dto) (λ u. (refl, refl, λ h. h)),
        ))

  pub Keeps-record_login_success :
      (id ip_hash : String) (now : ℕ) → Keeps (record_login_success env id ip_hash now)
  unfolding record_login_success
  Keeps-record_login_success id ip_hash now =
      Keeps-write_row id (set_login_success ip_hash now) (λ s. s) (λ s. s)
        (λ u. (refl, refl, λ h. h)) Keeps-skip Keeps-skip

  pub Keeps-increment : (id : String) → Keeps (increment_failed_login_attempts env id)
  unfolding increment_failed_login_attempts
  Keeps-increment id =
      Keeps-catch
        (update_user env.auth.db id add_failed_attempt >>= λ u. pure u.failed_login_attempts)
        (search (
          keeps_rules,
          Keeps-update_user env.auth.db id add_failed_attempt (λ u. (refl, refl, λ h. h)),
        ))

  pub Keeps-set_codes :
      (id : String) (codes : List String)
      → Keeps (write_row env id (set_recovery_codes codes) (λ s. s) (λ s. s))
  Keeps-set_codes id codes =
      Keeps-write_row id (set_recovery_codes codes) (λ s. s) (λ s. s) (λ u. (refl, refl, λ h. h))
        Keeps-skip Keeps-skip

  pub Keeps-consume_recovery_code : (id code : String) → Keeps (consume_recovery_code env id code)
  unfolding consume_recovery_code
  Keeps-consume_recovery_code id code = search (keeps_rules, Keeps-set_codes)
