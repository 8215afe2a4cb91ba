-- ===== src/Auth/Password/Frame.antt =====
-- What the password tests of src/modules/auth/password.service.ts do to the accounts.
use all_service_api.Common.{
  Bool-cases, password_breached, Failure, bad_request, Result, ok, err, resume, require, String,
  ◌≡◌, refl, ◌∙◌, inl, inr, Bool, true, false, not, Option, none, some, [], ◌∷◌,
}
use all_service_api.Redis.{get, cache_key, join}
use all_service_api.Auth.State.{Accounts}
use all_service_api.Auth.Credentials.{SignInEnv}
use all_service_api.Auth.Password.{
  assert_password_acceptable, validate_strength, is_valid, check_breached, answer_cached,
  answer_fetched, as_plain,
}

module _ (env : SignInEnv) where
  answer_fetched-users :
      (key suffix : String) (fetched : Option String) (s : Accounts)
      → (answer_fetched env key suffix fetched s).1.users ≡ s.users
  unfolding answer_fetched
  answer_fetched-users key suffix none s = refl
  answer_fetched-users key suffix (some body) s = refl

  answer_cached-users :
      (key suffix : String) (cached fetched : Option String) (s : Accounts)
      → (answer_cached env key suffix cached fetched s).1.users ≡ s.users
  unfolding answer_cached
  answer_cached-users key suffix (some body) fetched s = refl
  answer_cached-users key suffix none fetched s = answer_fetched-users key suffix fetched s

  check_breached-users :
      (password : String) (fetched : Option String) (s : Accounts)
      → (check_breached env password fetched s).1.users ≡ s.users
  unfolding check_breached
  check_breached-users password fetched s =
      let digest = env.sha1 password in
      let key =
        cache_key env.users.auth.region "password"
          (join ("breach:" ∷ env.slice digest 0 (some 5) ∷ [])) in
      answer_cached-users key (env.slice digest 5 none) (as_plain (get key s.redis)) fetched s

  require-users :
      (r : Result Bool × Accounts) (e : Failure)
      → (resume r (λ breached. require (not breached) e)).1.users ≡ r.1.users
  require-users (ok true, s) e = refl
  require-users (ok false, s) e = refl
  require-users (err f, s) e = refl

  -- Testing a password changes no account.
  pub assert_password_acceptable-users :
      (password : String) (fetched : Option String) (s : Accounts)
      → (assert_password_acceptable env password fetched s).1.users ≡ s.users
  unfolding assert_password_acceptable
  assert_password_acceptable-users password fetched s =
      elim (Bool-cases (is_valid env (validate_strength env password))) [
        | inr e ↦ rw e refl
        | inl e ↦ rw e (
            require-users (check_breached env password fetched s) (bad_request password_breached)
            ∙ check_breached-users password fetched s)
      ]
