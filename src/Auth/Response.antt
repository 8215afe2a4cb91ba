-- ===== src/Auth/Response.antt =====
-- What the handlers of src/modules/auth/auth.service.ts take and answer. The random tokens, the
-- session's identifiers, the hash's salt and what the network answered are fields of Draws.
use all_service_api.Common.{
  ℕ, ◌*◌, String, Bool, false, not, Option, none, some, List, [], ◌∷◌, str_eq,
}
use all_service_api.Redis.{cache_key, join}
use all_service_api.Auth.State.{Accounts, RequestContext, AuditValue, write_audit}
use all_service_api.Auth.Credentials.{LoginContext}
use all_service_api.Auth.Token.{SigningAnswer}
use all_service_api.Users.State.{UserSafe}

pub record Draws : Type 0 where
  pub user_id : String
  pub salt : String
  pub opaque_token : String
  pub session_id : String
  pub refresh_token : String
  pub breach_range : Option String
  pub signing : SigningAnswer

pub record Tokens : Type 0 where
  pub access_token : String
  pub refresh_token : String
  pub expires_in : ℕ
  pub session_id : String

pub record AuthResponseUser : Type 0 where
  pub id : String
  pub email : String
  pub first_name : Option String
  pub last_name : Option String
  pub roles : List String
  pub email_verified : Bool
  pub mfa_enabled : Bool

-- `tokenType` is always Bearer.
pub record AuthResponse : Type 0 where
  pub access_token : String
  pub refresh_token : Option String
  pub expires_in : ℕ
  pub user : AuthResponseUser

pub data LoginResponse : Type 0 where
  mfa_required : (mfa_session_token : String) (expires_in : ℕ) → LoginResponse
  signed_in : AuthResponse → LoginResponse

pub record RegisterDto : Type 0 where
  pub email : String
  pub password : String
  pub first_name : Option String
  pub last_name : Option String

pub record LoginDto : Type 0 where
  pub email : String
  pub password : String
  pub mfa_code : Option String

pub record RefreshResponse : Type 0 where
  pub access_token : String
  pub refresh_token : String
  pub expires_in : ℕ

abbrev pub failed_login_lock_threshold : ℕ
failed_login_lock_threshold = 5

abbrev pub failed_login_lock_ms : ℕ
failed_login_lock_ms = 15 * 60000

abbrev pub request_of : LoginContext → RequestContext
request_of context = record {
  ip_hash = context.ip_hash;
  user_agent = context.user_agent;
  request_id = context.request_id;
}

abbrev pub has_code : Option String → Bool
has_code none = false
has_code (some code) = not (str_eq code "")

abbrev pub challenge_key : String → String → String
challenge_key region token = cache_key region "mfa" (join ("challenge:" ∷ token ∷ []))

abbrev pub build_auth_response : UserSafe → Tokens → AuthResponse
build_auth_response user tokens = record {
  access_token = tokens.access_token;
  refresh_token = some tokens.refresh_token;
  expires_in = tokens.expires_in;
  user = record {
    id = user.id;
    email = user.email;
    first_name = user.first_name;
    last_name = user.last_name;
    roles = user.roles;
    email_verified = user.email_verified;
    mfa_enabled = user.mfa_enabled;
  };
}

-- `writeAuthAudit`
abbrev pub write_auth_audit :
    String → Option String → RequestContext → List (String × AuditValue) → Accounts → Accounts
write_auth_audit action user_id context detail s = write_audit action user_id context detail s
