-- ===== src/Users/Sound/Profiles.antt =====
-- What creating accounts and updating them as an administrator (src/modules/user/user.service.ts) does
-- to the table of users.
use all_service_api.Common.{
  Bool-cases, ne-of-str_eq, is_some, any, All, All-append, code_not_found, code_forbidden,
  forbidden, not_found, record_missing, M, pure, ◌>>=◌, ◌>>◌, gets, modify, require, some_or,
  catch_with, String, ◌≡◌, refl, sym, ap, ◌∙◌, ◌≢◌, inl, inr, Bool, true, false, not, ◌||◌, List,
  [], ◌∷◌, Memᴰ, arith, str_eq, eq_iff,
}
use all_service_api.Prisma.Keys.{only_row}
use mathlib.Core.Bool.{false≢true}
use all_service_api.Access.Roles.{includes}
use all_service_api.Prisma.Columns.{keys-append}
use all_service_api.Auth.State.{UserEvent, emit, user_created, User, Accounts, RequestContext}
use all_service_api.Users.State.{
  same_text, rethrow_prisma, has_user_id, is_account, connects, update_user, AdminUpdateUserDto,
  to_safe, UserEnv, UserSafe, CreateUserData, AdminCreateUserDto, insert_user, has_email,
}
use all_service_api.Users.Profile.{
  emit_if, apply_edits, admin_edits, write_admin_update, admin_update, admin_data,
  build_create_input, write_create, create, admin_create,
}
use all_service_api.Users.Lifecycle.{
  Keeps, Keeps-emit, Keeps-skip, IsWellFormed-require, IsWellFormed-some_or,
  IsWellFormed-update_user, IsConsistent, IsWellFormed, Keeps-recover, Keeps-resume, keeps_rules,
}

module _ (env : UserEnv) where
  -- The identifiers that the database draws for new rows are new.
  abbrev pub IsNew : String → Accounts → Type 0
  IsNew id s = All (λ (u : User). u.id ≢ id) s.users

  no_email :
      (email : String) (users : List User)
      → any (has_email email) users ≡ false
      → All (λ (u : User). u.email ≢ email) users
  no_email email [] e = tt
  no_email email (u ∷ users) e =
      (ne-of-str_eq u.email email (ground arith), no_email email users (ground arith))

  -- A new account is consistent and alone with its identifier and address.
  IsWellFormed-insert :
      (user : User) (s : Accounts)
      → IsNew user.id s
      → IsConsistent user
      → IsWellFormed s.users
      → IsWellFormed (insert_user env user s).1.users
  unfolding insert_user
  IsWellFormed-insert user s new_id consistent (ids, emails, every) =
      elim (Bool-cases (connects env user.tenant_id)) [
        | inr c ↦ rw c (ids, emails, every)
        | inl c ↦ rw c (elim (Bool-cases (any (has_email user.email) s.users)) [
          | inl taken ↦ rw taken (ids, emails, every)
          | inr free ↦ rw free (
              rw (env.auth.db.create_lem user s.users) (
                keys-append (λ (u : User). u.id) s.users user ids new_id,
                keys-append (λ (u : User). u.email) s.users user emails
                    (no_email user.email s.users free),
                All-append IsConsistent s.users (user ∷ []) every (consistent, tt),
              ))
        ])
      ]

  pub IsWellFormed-create :
      (dto : CreateUserData) (id : String) (s : Accounts)
      → IsNew id s
      → IsWellFormed s.users
      → IsWellFormed (create env dto id s).1.users
  unfolding create write_create
  IsWellFormed-create dto id s new_id h =
      let row = build_create_input env dto (env.normalise_email dto.email) id in
      Keeps-recover (write_create env dto id s) (
        Keeps-resume (insert_user env row s)
          (λ created.
            modify (emit (user_created created.id created.email)) >> pure (to_safe created))
          (IsWellFormed-insert row s new_id (λ e. sym e) h) λ u. search keeps_rules)

  pub IsWellFormed-admin_create :
      (dto : AdminCreateUserDto) (password_hash : String) (actor : UserSafe)
      (context : RequestContext) (id : String) (s : Accounts)
      → IsNew id s
      → IsWellFormed s.users
      → IsWellFormed (admin_create env dto password_hash actor context id s).1.users
  unfolding admin_create
  IsWellFormed-admin_create dto password_hash actor context id s new_id h =
      Keeps-resume (create env (admin_data dto password_hash) id s) _
        (IsWellFormed-create (admin_data dto password_hash) id s new_id h) λ u. search keeps_rules

  Keeps-emit_if : (b : Bool) (event : UserEvent) → Keeps (modify (emit_if b event))
  Keeps-emit_if true event = Keeps-emit event
  Keeps-emit_if false event = Keeps-skip

  -- The edits of an administrator keep an account that is not deleted consistent.
  IsConsistent-edits :
      (id : String) (edits : AdminUpdateUserDto) (target : User) (users : List User)
      → IsWellFormed users
      → Memᴰ target users
      → is_account id target ≡ true
      → (u : User) → Memᴰ u users
      → has_user_id id u ≡ true
      → IsConsistent (apply_edits edits u)
  IsConsistent-edits id edits target users h m hit u n own e =
      let kept : is_some target.deleted_at ≡ false = ground (arith, hit) in
      let named : str_eq target.id id ≡ true = ground (arith, hit) in
      let same_id : u.id ≡ target.id =
        (eq_iff u.id id).0 own ∙ sym ((eq_iff target.id id).0 named) in
      let same : u ≡ target = only_row (λ (x : User). x.id) users target u h.0 m n same_id in
      absurd (false≢true (sym kept ∙ ap (λ (x : User). is_some x.deleted_at) (sym same) ∙ e))

  IsWellFormed-write_admin_update :
      (id : String) (dto : AdminUpdateUserDto) (target : User) (actor : UserSafe)
      (context : RequestContext) (s : Accounts)
      → Memᴰ target s.users
      → is_account id target ≡ true
      → IsWellFormed s.users
      → IsWellFormed (write_admin_update env id dto target actor context s).1.users
  unfolding write_admin_update
  IsWellFormed-write_admin_update id dto target actor context s m hit h =
      let edits = admin_edits dto target in
      let updated =
        IsWellFormed-update_user (apply_edits edits) (λ u. refl) (λ u. refl) env.auth.db id s h
          (IsConsistent-edits id edits target s.users h m hit) in
      IsWellFormed-require (connects env edits.tenant_id) record_missing _ s h (
        Keeps-resume (update_user env.auth.db id (apply_edits edits) s) _ updated
          λ u. search (keeps_rules, Keeps-emit_if))

  pub IsWellFormed-admin_update :
      (id : String) (dto : AdminUpdateUserDto) (actor : UserSafe) (permissions : List String)
      (context : RequestContext) (s : Accounts)
      → IsWellFormed s.users
      → IsWellFormed (admin_update env id dto actor permissions context s).1.users
  unfolding admin_update
  IsWellFormed-admin_update id dto actor permissions context s h =
      let any_tenant = includes permissions "user:write:any" in
      let guarded : User → M Accounts UserSafe = λ target.
        require (any_tenant || same_text target.tenant_id actor.tenant_id)
          (not_found code_not_found)
        >> catch_with (write_admin_update env id dto target actor context) rethrow_prisma in
      let found : M Accounts UserSafe =
        gets (λ x. env.auth.db.find_first (is_account id) x.users) >>= λ o.
        some_or (not_found code_not_found) o >>= guarded in
      let second =
        require (any_tenant || not (is_some dto.tenant_id)) (forbidden code_forbidden) >> found in
      IsWellFormed-require (any_tenant || not (is_some dto.roles)) (forbidden code_forbidden) second
        s h
        (IsWellFormed-require (any_tenant || not (is_some dto.tenant_id)) (forbidden code_forbidden)
          found s h
          (IsWellFormed-some_or (not_found code_not_found)
            (env.auth.db.find_first (is_account id) s.users) guarded s h
            λ target there.
              let (m, hit) = env.auth.db.found (is_account id) s.users target there in
              IsWellFormed-require (any_tenant || same_text target.tenant_id actor.tenant_id)
                (not_found code_not_found)
                (catch_with (write_admin_update env id dto target actor context) rethrow_prisma) s h
                (Keeps-recover (write_admin_update env id dto target actor context s)
                  (IsWellFormed-write_admin_update id dto target actor context s m hit h))))
