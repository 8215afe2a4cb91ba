-- ===== src/Auth/Controller.antt =====
-- src/modules/auth/auth.controller.ts: how the tokens are delivered.
use mathlib.Core.Option
use all_service_api.Common.{
  if◌then◌else◌, or_else, token_invalid, bad_request, M, pure, ◌>>=◌, some_or, ℕ, ◌*◌, String, Bool,
  false, not, Option, none, some, str_eq,
}
use all_service_api.Auth.State.{Accounts}
use all_service_api.Auth.Credentials.{SignInEnv, LoginContext, truthy}
use all_service_api.Auth.SignIn
use all_service_api.Auth.Response.{
  RefreshResponse, AuthResponse, LoginResponse, mfa_required, signed_in, Draws, LoginDto,
  RegisterDto,
}

-- What the handlers read of a request: a header, the session cookie and the body's refresh token.
pub record TokenRequest : Type 0 where
  pub client_platform : Option String
  pub session_cookie : Option String
  pub body_token : Option String
  pub context : LoginContext

-- The cookie that a response sets, with its age in milliseconds; it is HttpOnly, Secure and Strict.
pub record SessionCookie : Type 0 where
  pub value : String
  pub max_age : ℕ

pub record Delivered : Type 0 where
  pub cookie : Option SessionCookie
  pub body : LoginResponse

pub record DeliveredRefresh : Type 0 where
  pub cookie : Option SessionCookie
  pub access_token : String
  pub refresh_token : Option String
  pub expires_in : ℕ

abbrev pub extract_refresh_token : TokenRequest → Option String
extract_refresh_token req = elim (truthy req.session_cookie) [
  | some token ↦ some token
  | none ↦ truthy req.body_token
]

abbrev pub set_session_cookie : String → ℕ → SessionCookie
set_session_cookie refresh_token expires_in_seconds = record {
  value = refresh_token;
  max_age = expires_in_seconds * 1000;
}

module _ (env : SignInEnv) where
  unfoldable pub is_web_client : TokenRequest → Bool
  is_web_client req =
      or_else (Option.map (λ platform. str_eq (env.lower platform) "web") req.client_platform) false

  unfoldable pub apply_token_delivery : TokenRequest → AuthResponse → Delivered
  apply_token_delivery req result =
      if not (is_web_client req)
      then record { cookie = none; body = signed_in result }
      else record {
        cookie = some (set_session_cookie (or_else result.refresh_token "") result.expires_in);
        body = signed_in (record result { refresh_token = none });
      }

  unfoldable pub register : TokenRequest → RegisterDto → Draws → ℕ → M Accounts Delivered
  unfolding apply_token_delivery
  register req dto draws now = do
    result ← SignIn.register env dto req.context draws now
    pure (apply_token_delivery req result)

  abbrev deliver_login : TokenRequest → LoginResponse → Delivered
  deliver_login req (mfa_required token expires_in) = record {
    cookie = none;
    body = mfa_required token expires_in;
  }
  deliver_login req (signed_in result) = apply_token_delivery req result

  unfoldable pub login : TokenRequest → LoginDto → Draws → ℕ → M Accounts Delivered
  unfolding apply_token_delivery
  login req dto draws now = do
    result ← SignIn.login env dto req.context draws now
    pure (deliver_login req result)

  abbrev deliver_refresh : TokenRequest → RefreshResponse → DeliveredRefresh
  deliver_refresh req result =
      if is_web_client req
      then record {
        cookie = some (set_session_cookie result.refresh_token result.expires_in);
        access_token = result.access_token;
        refresh_token = none;
        expires_in = result.expires_in;
      }
      else record {
        cookie = none;
        access_token = result.access_token;
        refresh_token = some result.refresh_token;
        expires_in = result.expires_in;
      }

  unfoldable pub refresh : TokenRequest → Draws → ℕ → M Accounts DeliveredRefresh
  unfolding is_web_client
  refresh req draws now = do
    raw ← some_or (bad_request token_invalid) (extract_refresh_token req)
    result ← SignIn.refresh env raw req.context draws now
    pure (deliver_refresh req result)
