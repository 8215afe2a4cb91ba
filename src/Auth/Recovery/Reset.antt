-- ===== src/Auth/Recovery/Reset.antt =====
-- resetPassword of src/modules/auth/auth.service.ts and what comes after it.
use all_service_api.Common.{
  reset_token_invalid, bad_request, Result, ok, err, ℕ, String, ◌≡◌, refl, sym, ap, ◌∙◌, Option,
  none, some, [], map, arith, eq_refl,
}
use all_service_api.Prisma.Keys.{IsOnly}
use all_service_api.Prisma.{update_if}
use all_service_api.Redis.{get, password_reset, session_key}
use all_service_api.Auth.State.{User, Accounts, RequestContext, write_audit}
use all_service_api.Auth.Session.{revoke_all, delete_redis_sessions}
use all_service_api.Auth.Credentials.{SignInEnv, JwtPayload}
use all_service_api.Auth.Password.{hash, assert_password_acceptable}
use all_service_api.Auth.Password.Frame.{assert_password_acceptable-users}
use all_service_api.Auth.Response.{write_auth_audit}
use all_service_api.Auth.Strategy.Accepts.{IsRefused}
use all_service_api.Auth.Strategy.Closing.{FindsSessions, get-revoke_all, refused-no_session}
use all_service_api.Auth.Recovery.{read_token, reset_password, reset_of, drop_key}
use all_service_api.Users.State.{has_user_id}
use all_service_api.Users.Account.{set_password, update_password}
use all_service_api.Users.Rows.{with_row, write_row-row}

module _ (env : SignInEnv) (user_id : String) (context : RequestContext) where
  -- The state that a reset leaves, from the one in which the password was found acceptable.
  abbrev updated : String → ℕ → Accounts → Accounts
  updated password_hash now s =
      write_audit "user.password.updated" (some user_id) context []
        (with_row user_id (set_password password_hash now) s)

  abbrev reset_state : String → String → ℕ → Accounts → Accounts
  reset_state token password_hash now s =
      write_auth_audit "auth.password.reset" (some user_id) context [] (
        drop_key env (password_reset env.users.auth.region token) (
          revoke_all env.users.auth user_id context "password_reset" (updated password_hash now s)))

  reset_password-state :
      (token password salt : String) (breach_range : Option String) (now : ℕ) (s s1 : Accounts)
      (row : User)
      → read_token env (password_reset env.users.auth.region token) s ≡ some user_id
      → assert_password_acceptable env password breach_range s ≡ (ok tt, s1)
      → IsOnly (has_user_id user_id) s1.users row
      → reset_password env token password salt breach_range context now s
        ≡ (ok tt, reset_state token (hash env salt password) now s1)
  unfolding reset_password reset_of update_password
  reset_password-state token password salt breach_range now s s1 row named fine only = rw named (
      rw fine (
        rw
          (write_row-row env.users user_id s1 (set_password (hash env salt password) now) (λ x. x)
            (write_audit "user.password.updated" (some user_id) context []) row only)
          refl))

  -- A token that is not in Redis resets nothing.
  reset_password-unknown :
      (token password salt : String) (breach_range : Option String) (now : ℕ) (s : Accounts)
      → get (password_reset env.users.auth.region token) s.redis ≡ none
      → reset_password env token password salt breach_range context now s
        ≡ (err (bad_request reset_token_invalid), s)
  unfolding reset_password
  reset_password-unknown token password salt breach_range now s absent = rw absent refl

  reset_state-users :
      (token password_hash : String) (now : ℕ) (s : Accounts)
      → (reset_state token password_hash now s).users
        ≡ (with_row user_id (set_password password_hash now) s).users
  unfolding revoke_all delete_redis_sessions
  reset_state-users token password_hash now s = refl

  reset_state-get :
      (token password_hash : String) (now : ℕ) (s : Accounts) (jti : String)
      → FindsSessions env user_id
      → get
          (session_key env.users.auth.region user_id jti)
          (reset_state token password_hash now s).redis
        ≡ none
  reset_state-get token password_hash now s jti finds =
      let contents =
        (revoke_all env.users.auth user_id context "password_reset"
          (updated password_hash now s)).redis in
      let absent =
        get-revoke_all env user_id finds context "password_reset" (updated password_hash now s)
          jti in
      ground (
        arith,
        absent,
        env.users.auth.server.get-del (password_reset env.users.auth.region token) contents
            (session_key env.users.auth.region user_id jti),
      )

  reset_state-get_token :
      (token password_hash : String) (now : ℕ) (s : Accounts)
      → get
          (password_reset env.users.auth.region token)
          (reset_state token password_hash now s).redis
        ≡ none
  reset_state-get_token token password_hash now s =
      let key = password_reset env.users.auth.region token in
      env.users.auth.server.get-del key
        (revoke_all env.users.auth user_id context "password_reset"
          (updated password_hash now s)).redis
        key
      ∙ rw (eq_refl key) refl

  -- A reset with a token that names an account and an acceptable password succeeds on the one row with
  -- the identifier. It gives that account the new hash and the moment of the change, and leaves every
  -- other account; the token serves no second time, whatever the password; and every access token of
  -- the account is refused from then on, at any time, until a session is opened.
  pub reset_password_once :
      (token password salt : String) (breach_range : Option String) (now : ℕ) (s s1 : Accounts)
      (row : User)
      → FindsSessions env user_id
      → read_token env (password_reset env.users.auth.region token) s ≡ some user_id
      → assert_password_acceptable env password breach_range s ≡ (ok tt, s1)
      → IsOnly (has_user_id user_id) s.users row
      → (after : Accounts) × (reset_password env token password salt breach_range context now s
          ≡ (ok tt, after))
        × (after.users
            ≡ map
                (update_if (has_user_id user_id) (set_password (hash env salt password) now))
                s.users)
        × ((again salt' : String) (breach_range' : Option String) (later : ℕ)
            → reset_password env token again salt' breach_range' context later after
              ≡ (err (bad_request reset_token_invalid), after))
        × ((payload : JwtPayload) (later : ℕ)
            → payload.sub ≡ user_id
            → IsRefused env payload later after)
  reset_password_once token password salt breach_range now s s1 row finds named fine only =
      let same : s1.users ≡ s.users =
        sym (ap (λ (r : Result (Unit {0}) × Accounts). r.1.users) fine)
        ∙ assert_password_acceptable-users env password breach_range s in
      let h = hash env salt password in
      let after = reset_state token h now s1 in
      (
        after,
        reset_password-state token password salt breach_range now s s1 row named fine
            (rw same only),
        reset_state-users token h now s1 ∙ rw same refl,
        λ again salt' breach_range' later.
            reset_password-unknown token again salt' breach_range' later after
              (reset_state-get_token token h now s1),
        λ payload later own.
            refused-no_session env user_id finds payload later after own
              (reset_state-get token h now s1 payload.jti finds),
      )
