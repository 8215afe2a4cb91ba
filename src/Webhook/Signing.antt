-- ===== src/Webhook/Signing.antt =====
-- src/modules/webhook/webhook-signing.service.ts: the signature of a payload and its check.
pub mod Laws
use all_service_api.Redis.{join}
use all_service_api.Common.{
  ◌+◌, none, str_eq, ◌-◌, some, leb, ◌==◌, not, false, starts_with, [], Option, if◌then◌else◌, ◌∷◌,
  ◌/◌, Bool, ℕ, String,
}

abbrev pub replay_tolerance_seconds : ℕ
replay_tolerance_seconds = 300

pub record SignedHeaders : Type 0 where
  pub signature : String
  pub timestamp : String

-- What `parseInt(text, 10)` answers.
pub data ParsedInt : Type 0 where
  not_a_number : ParsedInt
  non_negative negative : ℕ → ParsedInt

-- `hmac` is the HMAC in hexadecimal, `show` is `toString`, `units` a text's `length` and `bytes` the
-- length of its UTF-8 form.
pub record SigningEnv : Type 0 where
  pub hmac : (secret text : String) → String
  pub show : ℕ → String
  pub parse_int : String → ParsedInt
  pub units : String → ℕ
  pub bytes : String → ℕ

-- `Math.abs(now - ts) <= REPLAY_TOLERANCE_SECONDS` of a number.
abbrev pub is_recent : ℕ → ParsedInt → Bool
is_recent now not_a_number = false
is_recent now (non_negative ts) = leb ((now - ts) + (ts - now)) replay_tolerance_seconds
is_recent now (negative ts) = leb (now + ts) replay_tolerance_seconds

-- `signature.startsWith('v1=') ? signature : 'v1=' + signature`
abbrev pub prefixed : String → String
prefixed signature =
    if starts_with signature "v1=" then signature else join ("v1=" ∷ signature ∷ [])

module _ (env : SigningEnv) where
  abbrev pub expected_signature : String → String → String → String
  expected_signature payload secret timestamp =
      join ("v1=" ∷ env.hmac secret (join (timestamp ∷ "." ∷ payload ∷ [])) ∷ [])

  unfoldable pub sign : String → String → ℕ → SignedHeaders
  sign payload secret now =
      let timestamp = env.show (now / 1000) in
      record { signature = expected_signature payload secret timestamp; timestamp = timestamp }

  -- `timingSafeEqual` of the two texts' bytes; `none` is the throw on buffers of different lengths.
  abbrev pub timing_safe_equal : String → String → Option Bool
  timing_safe_equal a b = if env.bytes a == env.bytes b then some (str_eq a b) else none

  unfoldable pub verify : String → String → String → String → ℕ → Option Bool
  verify payload secret signature timestamp now =
      let expected = expected_signature payload secret timestamp in
      let clean = prefixed signature in
      if not (is_recent (now / 1000) (env.parse_int timestamp))
      then some false
      else if not (env.units expected == env.units clean)
      then some false
      else timing_safe_equal expected clean
