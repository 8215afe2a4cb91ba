-- ===== src/Users/Authority.antt =====
-- What an administrator's update of src/modules/user/user.service.ts needs and changes.
use all_service_api.Common.{
  Option-cases, is_some, or_else, code_not_found, code_forbidden, Failure, bad_request,
  unauthorized, forbidden, not_found, conflict, gone, internal, record_missing, unique_violation,
  Result, ok, err, require, some_or, recover, resume-ok, require-ok, some_or-ok, String, ◌≡◌, refl,
  sym, ap, ◌∙◌, ◌≢◌, inl, inr, Bool, true, false, not, ◌||◌, List, [], map, Memᴰ, arith,
}
use all_service_api.Access.Roles.{includes}
use all_service_api.Prisma.{Prisma, update_if}
use all_service_api.Auth.State.{
  User, Accounts, RequestContext, UserEvent, user_deactivated, user_roles_changed,
}
use all_service_api.Users.State.{
  UserEnv, UserSafe, AdminUpdateUserDto, has_user_id, is_account, update_user, connects, same_text,
  rethrow_prisma,
}
use all_service_api.Users.Profile.{
  admin_edits, apply_edits, emit_if, deactivates, changes_roles, write_admin_update, admin_update,
}

rethrow_prisma-throws :
    {A : Type 0} (e : Failure) (s s' : Accounts) (a : A) → rethrow_prisma {A = A} e s ≢ (ok a, s')
rethrow_prisma-throws unique_violation s s' a h = cc
rethrow_prisma-throws record_missing s s' a h = cc
rethrow_prisma-throws (bad_request c) s s' a h = cc
rethrow_prisma-throws (unauthorized c) s s' a h = cc
rethrow_prisma-throws (forbidden c) s s' a h = cc
rethrow_prisma-throws (not_found c) s s' a h = cc
rethrow_prisma-throws (conflict c) s s' a h = cc
rethrow_prisma-throws (gone c) s s' a h = cc
rethrow_prisma-throws (internal c) s s' a h = cc

recover-ok :
    {A : Type 0} (r : Result A × Accounts) (a : A) (s' : Accounts)
    → recover r rethrow_prisma ≡ (ok a, s')
    → r ≡ (ok a, s')
recover-ok (ok b, s) a s' e = e
recover-ok (err f, s) a s' e = absurd (rethrow_prisma-throws f s s' a e)

update_user-ok :
    (db : Prisma) (id : String) (change : User → User) (s s' : Accounts) (row : User)
    → update_user db id change s ≡ (ok row, s')
    → s'.users ≡ map (update_if (has_user_id id) change) s.users
unfolding update_user
update_user-ok db id change s s' row e =
    elim (Option-cases (db.find_first (has_user_id id) s.users)) [
      | inl absent ↦
          let f = rw (db.update_missing (has_user_id id) change s.users absent) at e in cc
      | inr (old, there) ↦
          let f = rw (db.update_found (has_user_id id) change s.users old there) at e in
          ap (λ (r : Result User × Accounts). r.1.users) (sym f)
    ]

emit_if-users : (b : Bool) (event : UserEvent) (s : Accounts) → (emit_if b event s).users ≡ s.users
emit_if-users true event s = refl
emit_if-users false event s = refl

module _ (env : UserEnv) (id : String) (dto : AdminUpdateUserDto) (actor : UserSafe)
    (context : RequestContext) where
  write_admin_update-users :
      (target : User) (s s' : Accounts) (u : UserSafe)
      → write_admin_update env id dto target actor context s ≡ (ok u, s')
      → s'.users ≡ map (update_if (has_user_id id) (apply_edits (admin_edits dto target))) s.users
  unfolding write_admin_update
  write_admin_update-users target s s' u e =
      let edits = admin_edits dto target in
      let (v, (s1, f, g)) =
        resume-ok (require (connects env edits.tenant_id) record_missing s) _ u s' e in
      let (_, same) = require-ok (connects env edits.tenant_id) record_missing s s1 v f in
      let (row, (s2, h, i)) =
        resume-ok (update_user env.auth.db id (apply_edits edits) s1) _ u s' g in
      let told = emit_if (deactivates dto.is_active target) (user_deactivated row.id) s2 in
      ap (λ (r : Result UserSafe × Accounts). r.1.users) (sym i)
      ∙ emit_if-users (changes_roles env dto.roles target)
          (user_roles_changed row.id target.roles (or_else dto.roles [])) told
      ∙ emit_if-users (deactivates dto.is_active target) (user_deactivated row.id) s2
      ∙ update_user-ok env.auth.db id (apply_edits edits) s1 s2 row h
      ∙ rw same refl

  -- What an actor without user:write:any has kept to.
  abbrev pub IsInScope : User → Type 0
  IsInScope target =
      (is_some dto.roles ≡ false)
      × (is_some dto.tenant_id ≡ false)
      × (same_text target.tenant_id actor.tenant_id ≡ true)

  -- An administrator's update that succeeds names an account that is not deleted. If the actor lacks
  -- user:write:any, the request gives neither roles nor a tenant, and the account is in the actor's
  -- tenant. The update applies the edits of the given fields to the rows with the identifier, and
  -- leaves every other row as it is.
  pub admin_update_authorised :
      (permissions : List String) (s s' : Accounts) (u : UserSafe)
      → admin_update env id dto actor permissions context s ≡ (ok u, s')
      → (target : User) × Memᴰ target s.users
        × (is_account id target ≡ true)
        × (includes permissions "user:write:any" ≡ false → IsInScope target)
        × (s'.users
            ≡ map (update_if (has_user_id id) (apply_edits (admin_edits dto target))) s.users)
  unfolding admin_update
  admin_update_authorised permissions s s' u e =
      let any_tenant = includes permissions "user:write:any" in
      let b1 = any_tenant || not (is_some dto.roles) in
      let b2 = any_tenant || not (is_some dto.tenant_id) in
      let (v1, (s1, f1, g1)) = resume-ok (require b1 (forbidden code_forbidden) s) _ u s' e in
      let (p1, q1) = require-ok b1 (forbidden code_forbidden) s s1 v1 f1 in
      let (v2, (s2, f2, g2)) = resume-ok (require b2 (forbidden code_forbidden) s1) _ u s' g1 in
      let (p2, q2) = require-ok b2 (forbidden code_forbidden) s1 s2 v2 f2 in
      let found = env.auth.db.find_first (is_account id) s2.users in
      let (target, (s3, f3, g3)) =
        resume-ok (some_or (not_found code_not_found) found s2) _ u s' g2 in
      let (p3, q3) = some_or-ok (not_found code_not_found) found target s2 s3 f3 in
      let b4 = any_tenant || same_text target.tenant_id actor.tenant_id in
      let (v4, (s4, f4, g4)) = resume-ok (require b4 (not_found code_not_found) s3) _ u s' g3 in
      let (p4, q4) = require-ok b4 (not_found code_not_found) s3 s4 v4 f4 in
      let back : s2 ≡ s = sym (q1 ∙ q2) in
      let (m, hit) = env.auth.db.found (is_account id) s2.users target p3 in
      (
        target,
        rw back at m,
        hit,
        λ lacks. (ground (arith, p1, lacks), ground (arith, p2, lacks), ground (arith, p4, lacks)),
        write_admin_update-users target s4 s' u
              (recover-ok (write_admin_update env id dto target actor context s4) u s' g4)
            ∙ rw (sym q4 ∙ sym q3 ∙ back) refl,
      )
