-- ===== src/Auth/State.antt =====
-- What the auth and user services read and write: the tables of prisma/schema.prisma, the values in
-- Redis, and the audit entries, mails, domain events and Sentry messages that were sent.
-- Times are milliseconds; the identifiers, random tokens and the clock come in as arguments.
use all_service_api.Common.{ℕ, String, Bool, Option, none, some, List, [], ◌∷◌, ◌++◌}
use all_service_api.Prisma.{Prisma}
use all_service_api.Redis.{Redis}

pub record RefreshTokenFamily : Type 0 where
  pub id : String
  pub user_id : String
  pub current_token_hash : String
  pub region : String
  pub device_info : Option String
  pub ip_hash : String
  pub is_revoked : Bool
  pub revoked_reason : Option String
  pub expires_at : ℕ
  pub last_used_at : ℕ

pub record SessionMetadata : Type 0 where
  pub session_id : String
  pub device_info : Option String
  pub ip_hash : String
  pub refresh_token_hash : String
  pub created_at : ℕ
  pub last_active_at : ℕ

pub record User : Type 0 where
  pub id : String
  pub email : String
  pub email_verified : Bool
  pub password_hash : String
  pub first_name : Option String
  pub last_name : Option String
  pub roles : List String
  pub is_active : Bool
  pub is_locked : Bool
  pub lock_reason : Option String
  pub locked_until : Option ℕ
  pub failed_login_attempts : ℕ
  pub last_login_at : Option ℕ
  pub last_login_ip : Option String
  pub password_changed_at : Option ℕ
  pub mfa_enabled : Bool
  pub mfa_secret : Option String
  pub mfa_recovery_codes : List String
  pub tenant_id : Option String
  pub deleted_at : Option ℕ

-- The values that the services keep in Redis, after `JSON.parse`.
pub data RedisValue : Type 0 where
  plain : String → RedisValue
  session : SessionMetadata → RedisValue
  challenge : (user_id : String) → RedisValue
  setup : (secret : String) (recovery_codes : List String) → RedisValue

-- What an audit entry records of a field; the keys of a nested object carry the name it stands under.
pub data AuditValue : Type 0 where
  text : String → AuditValue
  texts : List String → AuditValue
  flag : Bool → AuditValue
  moment : ℕ → AuditValue
  null : AuditValue
  changed : (before after : AuditValue) → AuditValue

abbrev pub nullable : Option String → AuditValue
nullable none = null
nullable (some t) = text t

pub record AuditEntry : Type 0 where
  pub action : String
  pub user_id : Option String
  pub detail : List (String × AuditValue)
  pub ip_hash : String
  pub request_id : String

pub data Mail : Type 0 where
  verification_mail password_reset_mail : (to token : String) → Mail
  password_changed_mail mfa_enabled_mail : (to : String) → Mail
  account_locked_mail : (to : String) (locked_until : ℕ) → Mail

pub data UserEvent : Type 0 where
  user_created : (user_id email : String) → UserEvent
  user_locked : (user_id reason : String) (until : Option ℕ) → UserEvent
  user_deleted user_deactivated : (user_id : String) → UserEvent
  user_roles_changed : (user_id : String) (old_roles new_roles : List String) → UserEvent

pub record Accounts : Type 0 where
  pub users : List User
  pub families : List RefreshTokenFamily
  pub redis : List (String × RedisValue)
  pub audits : List AuditEntry
  pub mails : List Mail
  pub events : List UserEvent
  pub alerts : List String

-- The parts of a request that the audit entries carry.
pub record RequestContext : Type 0 where
  pub ip_hash : String
  pub user_agent : Option String
  pub request_id : String

-- The services underneath and the configuration; `hash` is SHA-256 in hexadecimal.
pub record AuthEnv : Type 1 where
  pub db : Prisma
  pub server : Redis
  pub hash : String → String
  pub region : String
  pub refresh_ttl_seconds : ℕ

-- `events.emit`
abbrev pub emit : UserEvent → Accounts → Accounts
emit event s = record s { events = s.events ++ event ∷ [] }

-- A mail service's call, which puts the mail in its queue.
abbrev pub send : Mail → Accounts → Accounts
send mail s = record s { mails = s.mails ++ mail ∷ [] }

-- `getJson<SessionMetadata>`
abbrev pub as_session : Option RedisValue → Option SessionMetadata
as_session (some (session m)) = some m
as_session _ = none

abbrev pub write_audit :
    String → Option String → RequestContext → List (String × AuditValue) → Accounts → Accounts
write_audit action user_id context detail s =
    let entry : AuditEntry = record {
      action = action;
      user_id = user_id;
      detail = detail;
      ip_hash = context.ip_hash;
      request_id = context.request_id;
    } in
    record s { audits = s.audits ++ entry ∷ [] }
