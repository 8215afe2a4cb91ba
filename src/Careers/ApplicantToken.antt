-- ===== src/Careers/ApplicantToken.antt =====
-- src/modules/careers/applicant-token.service.ts: email verification codes and magic links.
pub mod Laws
use all_service_api.Common.{
  ltb, if◌then◌else◌, ok, M, ℕ, ◌+◌, ◌*◌, String, Bool, true, false, not, ◌&&◌, Option, none, some,
  str_eq,
}
use all_service_api.Prisma.{Prisma}
use all_service_api.Redis.{Redis, get, career_verify_code}
use all_service_api.Careers.State.{Careers, ApplicantToken}

-- The module's configuration, with the region's name.
pub record CareersConfig : Type 0 where
  pub region : String
  pub magic_link_ttl_seconds : ℕ
  pub verify_code_ttl_seconds : ℕ

-- `Buffer.from(text).length` differs, or `timingSafeEqual` of the two buffers: the texts are equal.
abbrev pub same_bytes : String → String → Bool
same_bytes stored input = str_eq stored input

module _ (redis : Redis) (config : CareersConfig) where
  -- `code` is the random number from 100000 to 999999, in decimal.
  unfoldable pub generate_verification_code : String → String → String → M Careers String
  generate_verification_code email posting_id code s =
      let key = career_verify_code config.region email posting_id in
      (ok code, record s { codes = redis.set key code config.verify_code_ttl_seconds s.codes })

  -- An empty text counts as no code; `if (isValid) await this.redis.del(key)`.
  unfoldable pub verify_stored : String → String → Option String → M Careers Bool
  verify_stored key code none s = (ok false, s)
  verify_stored key code (some stored) s =
      if same_bytes stored code && not (str_eq stored "")
      then (ok true, record s { codes = redis.del key s.codes })
      else (ok false, s)

  unfoldable pub verify_code : String → String → String → M Careers Bool
  unfolding verify_stored
  verify_code email posting_id code s =
      let key = career_verify_code config.region email posting_id in
      verify_stored key code (get key s.codes) s

module _ (db : Prisma) (hash : String → String) (config : CareersConfig) where
  -- `raw_token` is 64 random bytes in hexadecimal, `hash` is SHA-256.
  unfoldable pub generate_magic_link_token : String → String → ℕ → M Careers String
  generate_magic_link_token application_id raw_token now s =
      let token : ApplicantToken = record {
        application_id = application_id;
        token_hash = hash raw_token;
        expires_at = now + config.magic_link_ttl_seconds * 1000;
      } in
      (ok raw_token, record s { tokens = db.create token s.tokens })

  abbrev live_application : ℕ → Option ApplicantToken → Option String
  live_application now none = none
  live_application now (some found) =
      if ltb found.expires_at now then none else some found.application_id

  unfoldable pub validate_magic_link_token : String → ℕ → M Careers (Option String)
  validate_magic_link_token raw_token now s =
      let token_hash = hash raw_token in
      (ok (live_application now (db.find_first (λ t. str_eq t.token_hash token_hash) s.tokens)), s)

  unfoldable pub prune_expired_tokens : ℕ → M Careers ℕ
  prune_expired_tokens now s =
      let expired = λ (t : ApplicantToken). ltb t.expires_at now in
      (ok (db.count expired s.tokens), record s { tokens = db.delete_many expired s.tokens })
