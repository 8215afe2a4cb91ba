-- ===== src/Common/Effects.antt =====
-- What a handler does: it reads and changes a state, and returns a value or throws.
-- A throw keeps the changes made before it; only a transaction takes them back.
use mathlib.Core.Bool.{Bool, true, false}
use mathlib.Core.Option.{Option, none, some}

-- The machine-readable codes that the modelled handlers throw.
pub data ErrorCode : Type 0 where
  internal_error code_not_found code_forbidden code_unauthorized insufficient_permissions :
      ErrorCode
  service_unavailable service_read_only code_conflict : ErrorCode
  invalid_credentials account_locked account_disabled : ErrorCode
  token_expired token_invalid token_revoked refresh_token_reused : ErrorCode
  mfa_invalid mfa_setup_required password_too_weak password_breached : ErrorCode
  email_already_exists verification_token_invalid reset_token_invalid : ErrorCode
  posting_not_found posting_not_published posting_closed posting_invalid_transition : ErrorCode
  application_not_found application_duplicate application_invalid_transition : ErrorCode
  application_already_withdrawn application_terminal_status verify_code_invalid : ErrorCode
  custom_field_validation_failed : ErrorCode
  webhook_not_found webhook_event_not_found webhook_payload_too_large : ErrorCode
  webhook_invalid_event_type webhook_delivery_not_found : ErrorCode

-- The exception classes; `record_missing` and `unique_violation` are the database's own refusals, of
-- an update of no row (P2025) and of a second row with a unique column's value (P2002).
pub data Failure : Type 0 where
  bad_request unauthorized forbidden not_found conflict gone internal : ErrorCode → Failure
  record_missing unique_violation : Failure

pub data Result {ℓ} (A : Type ℓ) : Type ℓ where
  ok : A → Result A
  err : Failure → Result A

abbrev pub M : Type 0 → Type 0 → Type 0
M S A = S → Result A × S

abbrev pub pure : {S A : Type 0} → A → M S A
pure a s = (ok a, s)

abbrev pub throw : {S A : Type 0} → Failure → M S A
throw e s = (err e, s)

abbrev pub resume : {S A B : Type 0} → Result A × S → (A → M S B) → Result B × S
resume (ok a, s) k = k a s
resume (err e, s) k = (err e, s)

infixl 5 ◌>>=◌ ◌>>◌
abbrev pub ◌>>=◌ : {S A B : Type 0} → M S A → (A → M S B) → M S B
◌>>=◌ m k s = resume (m s) k

abbrev pub ◌>>◌ : {S B : Type 0} → M S (Unit {0}) → M S B → M S B
m >> k = m >>= λ _. k

abbrev pub gets : {S A : Type 0} → (S → A) → M S A
gets f s = (ok (f s), s)

abbrev pub modify : {S : Type 0} → (S → S) → M S (Unit {0})
modify f s = (ok tt, f s)

-- `if (!b) throw e`
abbrev pub require : {S : Type 0} → Bool → Failure → M S (Unit {0})
require true e s = (ok tt, s)
require false e s = (err e, s)

-- `if (!o) throw e`
abbrev pub some_or : {S A : Type 0} → Failure → Option A → M S A
some_or e none s = (err e, s)
some_or e (some a) s = (ok a, s)

-- `$transaction`: a throw inside takes back what was written.
abbrev pub roll_back : {S A : Type 0} → S → Result A × S → Result A × S
roll_back s (ok a, s') = (ok a, s')
roll_back s (err e, s') = (err e, s)

abbrev pub transaction : {S A : Type 0} → M S A → M S A
transaction m s = roll_back s (m s)

-- `try m catch (e) k`: what was written before the throw stays.
abbrev pub recover : {S A : Type 0} → Result A × S → (Failure → M S A) → Result A × S
recover (ok a, s) k = (ok a, s)
recover (err e, s) k = k e s

abbrev pub catch_with : {S A : Type 0} → M S A → (Failure → M S A) → M S A
catch_with m k s = recover (m s) k
