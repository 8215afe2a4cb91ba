-- ===== src/Auth/Token.antt =====
-- src/modules/auth/token.service.ts: access tokens, signed here or by the primary region.
pub mod Signed
use all_service_api.Common.{
  if◌then◌else◌, internal_error, service_unavailable, internal, M, pure, throw, ◌>>=◌, some_or, ℕ,
  String, Option,
}
use all_service_api.Auth.Credentials.{SignInEnv, JwtSignInput, truthy}

-- What the primary region answered: nothing, a refusal, or a body with or without a token.
pub data SigningAnswer : Type 0 where
  unreachable refused : SigningAnswer
  answered : (access_token : Option String) → SigningAnswer

abbrev pub read_answer : {S : Type 0} → SigningAnswer → M S String
read_answer unreachable = throw (internal service_unavailable)
read_answer refused = throw (internal service_unavailable)
read_answer (answered token) = some_or (internal service_unavailable) (truthy token)

module _ (env : SignInEnv) where
  unfoldable pub sign_locally : {S : Type 0} → JwtSignInput → ℕ → M S String
  sign_locally input now = do
    key ← some_or (internal internal_error) (truthy env.private_key)
    pure (env.sign_token key input now)

  unfoldable pub sign_remotely : {S : Type 0} → SigningAnswer → M S String
  sign_remotely answer = do
    _ ← some_or (internal internal_error) (truthy env.primary_api_url)
    _ ← some_or (internal internal_error) (truthy env.internal_api_secret)
    read_answer answer

  unfoldable pub generate_access_token :
      {S : Type 0} → JwtSignInput → ℕ → SigningAnswer → M S String
  unfolding sign_locally sign_remotely
  generate_access_token input now answer =
      if env.is_primary then sign_locally input now else sign_remotely answer
