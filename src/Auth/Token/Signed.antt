-- ===== src/Auth/Token/Signed.antt =====
-- What signing an access token (src/modules/auth/token.service.ts) does to the state.
use all_service_api.Common.{
  Bool-cases, internal_error, service_unavailable, internal, Result, ok, pure, some_or, resume-ok,
  some_or-ok, ℕ, String, ◌≡◌, ap, ◌∙◌, inl, inr,
}
use all_service_api.Auth.Credentials.{SignInEnv, JwtSignInput, truthy}
use all_service_api.Auth.Token.{
  SigningAnswer, generate_access_token, sign_locally, sign_remotely, read_answer, unreachable,
  refused, answered,
}

-- The state that a run ended in.
abbrev pub ended : {S A : Type 0} → Result A × S → S
ended r = r.1

read_answer-ok :
    {S : Type 0} (answer : SigningAnswer) (token : String) (s s' : S)
    → read_answer answer s ≡ (ok token, s')
    → s ≡ s'
read_answer-ok unreachable token s s' e = cc
read_answer-ok refused token s s' e = cc
read_answer-ok (answered body) token s s' e =
    (some_or-ok (internal service_unavailable) (truthy body) token s s' e).1

module _ (env : SignInEnv) where
  sign_locally-ok :
      {S : Type 0} (input : JwtSignInput) (now : ℕ) (token : String) (s s' : S)
      → sign_locally env input now s ≡ (ok token, s')
      → s ≡ s'
  unfolding sign_locally
  sign_locally-ok input now token s s' e =
      let (key, (s1, f, g)) =
        resume-ok (some_or (internal internal_error) (truthy env.private_key) s)
          (λ key. pure (env.sign_token key input now)) token s' e in
      (some_or-ok (internal internal_error) (truthy env.private_key) key s s1 f).1 ∙ ap ended g

  sign_remotely-ok :
      {S : Type 0} (answer : SigningAnswer) (token : String) (s s' : S)
      → sign_remotely env answer s ≡ (ok token, s')
      → s ≡ s'
  unfolding sign_remotely
  sign_remotely-ok answer token s s' e =
      let (url, (s1, f, g)) =
        resume-ok (some_or (internal internal_error) (truthy env.primary_api_url) s) _ token s' e in
      let (secret, (s2, h, i)) =
        resume-ok (some_or (internal internal_error) (truthy env.internal_api_secret) s1) _ token s'
          g in
      (some_or-ok (internal internal_error) (truthy env.primary_api_url) url s s1 f).1
      ∙ (some_or-ok (internal internal_error) (truthy env.internal_api_secret) secret s1 s2 h).1
      ∙ read_answer-ok answer token s2 s' i

  -- Signing a token changes no state.
  pub generate_access_token-ok :
      {S : Type 0} (input : JwtSignInput) (now : ℕ) (answer : SigningAnswer) (token : String)
      (s s' : S)
      → generate_access_token env input now answer s ≡ (ok token, s')
      → s ≡ s'
  unfolding generate_access_token
  generate_access_token-ok input now answer token s s' e = elim (Bool-cases env.is_primary) [
    | inl p ↦ sign_locally-ok input now token s s' (rw p at e)
    | inr p ↦ sign_remotely-ok answer token s s' (rw p at e)
  ]
