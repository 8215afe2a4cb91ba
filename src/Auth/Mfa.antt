-- ===== src/Auth/Mfa.antt =====
-- src/modules/auth/mfa.service.ts: TOTP secrets and recovery codes.
pub mod RecoveryCodes
use all_service_api.Common.{
  ◌==◌, if◌then◌else◌, mfa_setup_required, bad_request, ok, M, pure, ◌>>=◌, ◌>>◌, gets, modify,
  some_or, ℕ, zero, suc, ◌+◌, ◌%◌, String, Bool, true, false, ◌||◌, Option, none, some, List, [],
  ◌∷◌, map, str_eq,
}
use all_service_api.Redis.{get, mfa_setup, join}
use all_service_api.Auth.State.{Accounts, RequestContext, RedisValue, setup}
use all_service_api.Auth.Credentials.{SignInEnv, truthy}
use all_service_api.Users.State.{UserWithSecrets, find_by_id_with_secrets}
use all_service_api.Users.Account.{set_mfa_secret, clear_mfa, consume_recovery_code}

pub record MfaSetupResult : Type 0 where
  pub secret : String
  pub otpauth_uri : String
  pub recovery_codes : List String

-- `getJson<MfaSetupRedisPayload>`
abbrev pub as_setup : Option RedisValue → Option (String × List String)
as_setup (some (setup secret codes)) = some (secret, codes)
as_setup _ = none

-- The letter of a random byte is the one at its remainder by 36.
abbrev recovery_code_alphabet : List String
recovery_code_alphabet =
    "A" ∷ "B" ∷ "C" ∷ "D" ∷ "E" ∷ "F" ∷ "G" ∷ "H" ∷ "I" ∷ "J" ∷ "K" ∷ "L" ∷ "M" ∷ "N" ∷ "O" ∷ "P"
    ∷ "Q" ∷ "R" ∷ "S" ∷ "T" ∷ "U" ∷ "V" ∷ "W" ∷ "X" ∷ "Y" ∷ "Z" ∷ "0" ∷ "1" ∷ "2" ∷ "3" ∷ "4" ∷ "5"
    ∷ "6" ∷ "7" ∷ "8" ∷ "9" ∷ []

abbrev char_at : List String → ℕ → String
char_at [] index = ""
char_at (letter ∷ letters) zero = letter
char_at (letter ∷ letters) (suc index) = char_at letters index

-- The letters with a dash after the fourth and the eighth.
abbrev dashed : ℕ → List String → List String
dashed position [] = []
dashed position (letter ∷ letters) =
    let rest = letter ∷ dashed (position + 1) letters in
    if position == 4 || position == 8 then "-" ∷ rest else rest

-- `bytes` are the 12 random bytes.
unfoldable pub generate_recovery_code : List ℕ → String
generate_recovery_code bytes =
    join (dashed 0 (map (λ byte. char_at recovery_code_alphabet (byte % 36)) bytes))

module _ (env : SignInEnv) where
  -- The random secret and the random bytes of the ten codes.
  unfoldable pub generate_setup :
      String → String → String → List (List ℕ) → M Accounts MfaSetupResult
  generate_setup user_id user_email secret random s =
      let recovery_codes = map generate_recovery_code random in
      (
        ok (record {
          secret = secret;
          otpauth_uri = env.key_uri user_email secret;
          recovery_codes = recovery_codes;
        }),
        record s {
          redis =
              env.users.auth.server.set (mfa_setup env.users.auth.region user_id)
                (setup secret recovery_codes) 600 s.redis;
        },
      )

  finish_setup : String → String × List String → String → RequestContext → M Accounts Bool
  finish_setup user_id (secret, recovery_codes) iv context = do
    set_mfa_secret env.users user_id (env.encrypt_at_rest iv secret)
        (map env.users.auth.hash recovery_codes) context
    modify (λ s. record s {
      redis = env.users.auth.server.del (mfa_setup env.users.auth.region user_id) s.redis;
    })
    pure true

  unfoldable pub verify_setup : String → String → String → RequestContext → ℕ → M Accounts Bool
  unfolding finish_setup
  verify_setup user_id code iv context now = do
    stored ← gets (λ s. as_setup (get (mfa_setup env.users.auth.region user_id) s.redis))
    payload ← some_or (bad_request mfa_setup_required) stored
    (if env.totp_verify code payload.0 now
        then finish_setup user_id payload iv context
        else pure false)

  unfoldable pub use_code : String → String → M Accounts Bool
  use_code user_id stored = do consume_recovery_code env.users user_id stored; pure true

  -- `timingSafeEqual` of two digests in hexadecimal: the digests are equal.
  unfoldable pub consume_recovery_code_if_matches :
      UserWithSecrets → String → List String → M Accounts Bool
  unfolding use_code
  consume_recovery_code_if_matches user code [] s = (ok false, s)
  consume_recovery_code_if_matches user code (stored ∷ rest) s =
      let later = consume_recovery_code_if_matches user code rest s in
      let used = use_code user.safe.id stored s in
      if str_eq stored (env.users.auth.hash code) then used else later

  abbrev pub totp_matches : Option String → String → ℕ → Bool
  totp_matches none code now = false
  totp_matches (some secret) code now = env.totp_verify code secret now

  verify_secret : UserWithSecrets → Option String → String → ℕ → M Accounts Bool
  unfolding consume_recovery_code_if_matches
  verify_secret user none code now s = (ok false, s)
  verify_secret user (some ciphertext) code now s =
      if totp_matches (env.decrypt_at_rest ciphertext) code now
      then (ok true, s)
      else consume_recovery_code_if_matches user code user.mfa_recovery_codes s

  verify_user : Option UserWithSecrets → String → ℕ → M Accounts Bool
  unfolding verify_secret
  verify_user none code now s = (ok false, s)
  verify_user (some user) code now s =
      if user.safe.mfa_enabled
      then verify_secret user (truthy user.mfa_secret) code now s
      else (ok false, s)

  unfoldable pub verify_code : String → String → ℕ → M Accounts Bool
  unfolding verify_user
  verify_code user_id code now s =
      verify_user (find_by_id_with_secrets env.users user_id s) code now s

  abbrev pub disable : String → RequestContext → M Accounts (Unit {0})
  disable user_id context = clear_mfa env.users user_id context
