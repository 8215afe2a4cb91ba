-- ===== src/Auth/Credentials.antt =====
-- What the sign-in services are configured with and call: argon2, otplib, node:crypto, the JWT library
-- and the operations on texts are fields.
use all_service_api.Common.{if◌then◌else◌, ℕ, String, Bool, Option, none, some, List, str_eq}
use all_service_api.Users.State.{UserEnv}

pub record JwtSignInput : Type 0 where
  pub sub : String
  pub email : String
  pub roles : List String
  pub permissions : List String
  pub tenant_id : Option String
  pub jti : String

-- Of the claims `iss` and `aud` the library makes and checks; `iat` is in seconds.
pub record JwtPayload : Type 0 where
  pub sub : String
  pub email : String
  pub roles : List String
  pub permissions : List String
  pub tenant_id : Option String
  pub jti : String
  pub iat : ℕ

-- `argon2_verify hash password` and `decrypt_at_rest` answer `none` where they throw, `parse_int` where
-- it is no number or a negative one; `sha1` is in upper-case hexadecimal; `sign_token` has the key.
pub record SignInEnv : Type 1 where
  pub users : UserEnv
  pub is_primary : Bool
  pub private_key : Option String
  pub primary_api_url : Option String
  pub internal_api_secret : Option String
  pub access_ttl_seconds : ℕ
  pub argon2_hash : (salt password : String) → String
  pub argon2_verify : (hash password : String) → Option Bool
  pub totp_verify : (token secret : String) (now : ℕ) → Bool
  pub encrypt_at_rest : (iv secret : String) → String
  pub decrypt_at_rest : String → Option String
  pub sign_token : (key : String) → JwtSignInput → (now : ℕ) → String
  pub sha1 : String → String
  pub units : String → ℕ
  pub slice : String → ℕ → Option ℕ → String
  pub split_lines : String → List String
  pub index_of_colon : String → Option ℕ
  pub trim : String → String
  pub upper : String → String
  pub lower : String → String
  pub parse_int : String → Option ℕ
  pub key_uri : (email secret : String) → String

-- `LoginContext`
pub record LoginContext : Type 0 where
  pub ip_hash : String
  pub user_agent : Option String
  pub request_id : String
  pub device_info : Option String

-- A text that is absent or empty is falsy.
abbrev pub truthy : Option String → Option String
truthy none = none
truthy (some t) = if str_eq t "" then none else some t
