-- ===== src/Users/Rows.antt =====
-- How the updates of src/modules/user/user.service.ts act on the one row that has the given id.
use all_service_api.Common.{record_missing, ok, err, ◌+◌, String, ◌≡◌, refl, none, map}
use all_service_api.Prisma.{update_if}
use all_service_api.Prisma.Keys.{IsOnly, find_first-IsOnly}
use all_service_api.Auth.State.{User, Accounts}
use all_service_api.Users.State.{UserEnv, has_user_id, update_user}
use all_service_api.Users.Account.{write_row, increment_failed_login_attempts, add_failed_attempt}

-- The rows with the given id changed.
abbrev pub with_row : String → (User → User) → Accounts → Accounts
with_row id change s = record s { users = map (update_if (has_user_id id) change) s.users }

module _ (env : UserEnv) (id : String) (s : Accounts) where
  pub update_user-row :
      (change : User → User) (row : User)
      → IsOnly (has_user_id id) s.users row
      → update_user env.auth.db id change s ≡ (ok (change row), with_row id change s)
  unfolding update_user
  update_user-row change row only =
      rw
        (env.auth.db.update_found (has_user_id id) change s.users row
          (find_first-IsOnly env.auth.db (has_user_id id) s.users row only))
        refl

  pub update_user-missing :
      (change : User → User)
      → env.auth.db.find_first (has_user_id id) s.users ≡ none
      → update_user env.auth.db id change s ≡ (err record_missing, s)
  unfolding update_user
  update_user-missing change absent =
      rw (env.auth.db.update_missing (has_user_id id) change s.users absent) refl

  pub write_row-row :
      (change : User → User) (announce audit : Accounts → Accounts) (row : User)
      → IsOnly (has_user_id id) s.users row
      → write_row env id change announce audit s ≡ (ok tt, audit (announce (with_row id change s)))
  write_row-row change announce audit row only = rw (update_user-row change row only) refl

  pub increment-row :
      (row : User)
      → IsOnly (has_user_id id) s.users row
      → increment_failed_login_attempts env id s
        ≡ (ok (row.failed_login_attempts + 1), with_row id add_failed_attempt s)
  unfolding increment_failed_login_attempts
  increment-row row only = rw (update_user-row add_failed_attempt row only) refl
