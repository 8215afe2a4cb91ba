-- ===== src/Careers/ApplicantToken/Laws.antt =====
-- Which verification codes and magic links are accepted.
use all_service_api.Common.{
  ltb, if◌then◌else◌, str_eq-of-ne, All, All-lookup, All-tabulate, ok, ℕ, ◌+◌, ◌*◌, String, ◌≡◌,
  refl, ◌∙◌, ◌≢◌, true, false, none, some, str_eq, eq_refl,
}
use all_service_api.Prisma.{Prisma}
use all_service_api.Redis.{Redis, get, career_verify_code}
use all_service_api.Careers.State.{Careers, ApplicantToken}
use all_service_api.Careers.ApplicantToken.{
  CareersConfig, generate_verification_code, verify_stored, verify_code, generate_magic_link_token,
  validate_magic_link_token,
}
use all_service_api.Prisma.Keys.{find_first-create}

module _ (redis : Redis) (config : CareersConfig) where
  verify_code_lem :
      (email posting_id code : String) (s : Careers)
      → let key = career_verify_code config.region email posting_id in
        get key s.codes ≡ some code
        → str_eq code "" ≡ false
        → verify_code redis config email posting_id code s
          ≡ (ok true, record s { codes = redis.del key s.codes })
  unfolding verify_code
  verify_code_lem email posting_id code s e full = rw (e, verify_stored, full, eq_refl code)

  -- The code that was generated for an address and a posting, when it is not empty, is accepted once:
  -- the second time it is refused, and another address or posting, whose key differs, still has its
  -- code.
  pub verify_code_once :
      (email posting_id code : String) (s : Careers) (other : String)
      → let key = career_verify_code config.region email posting_id in
        let s1 = (generate_verification_code redis config email posting_id code s).1 in
        let (first, s2) = verify_code redis config email posting_id code s1 in
        let (second, s3) = verify_code redis config email posting_id code s2 in
        str_eq code "" ≡ false
        → key ≢ other
        → ((first ≡ ok true) × (second ≡ ok false) × (get other s3.codes ≡ get other s.codes))
  unfolding verify_code generate_verification_code
  verify_code_once email posting_id code s other full ne =
      let key = career_verify_code config.region email posting_id in
      let s1 = (generate_verification_code redis config email posting_id code s).1 in
      let stored : get key s1.codes ≡ some code =
        redis.get-set key code config.verify_code_ttl_seconds s.codes key ∙ rw (eq_refl key) refl in
      let gone : get key (redis.del key s1.codes) ≡ none =
        redis.get-del key s1.codes key ∙ rw (eq_refl key) refl in
      rw (verify_code_lem email posting_id code s1 stored full, gone, verify_stored)
        (
          refl,
          refl,
          redis.get-del key s1.codes other
              ∙ rw (str_eq-of-ne key other ne) (
                  redis.get-set key code config.verify_code_ttl_seconds s.codes other
                  ∙ rw (str_eq-of-ne key other ne) refl),
        )

module _ (db : Prisma) (hash : String → String) (config : CareersConfig) where
  -- A magic link that was just generated, with a hash that no earlier link has, opens its
  -- application until it expires, and nothing afterwards.
  pub magic_link_valid :
      (application_id raw : String) (issued now : ℕ) (s : Careers)
      → All (λ t. t.token_hash ≢ hash raw) s.tokens
      → let s' = (generate_magic_link_token db hash config application_id raw issued s).1 in
        (validate_magic_link_token db hash config raw now s').0
        ≡ ok (
            if ltb (issued + config.magic_link_ttl_seconds * 1000) now
            then none
            else some application_id)
  unfolding validate_magic_link_token generate_magic_link_token
  magic_link_valid application_id raw issued now s fresh =
      let token : ApplicantToken = record {
        application_id = application_id;
        token_hash = hash raw;
        expires_at = issued + config.magic_link_ttl_seconds * 1000;
      } in
      let others =
        All-tabulate (λ t. str_eq t.token_hash (hash raw) ≡ false) s.tokens
          λ t m.
            str_eq-of-ne t.token_hash (hash raw)
              (All-lookup (λ t. t.token_hash ≢ hash raw) s.tokens fresh m) in
      rw (
        find_first-create db (λ t. str_eq t.token_hash (hash raw)) s.tokens token others
          (eq_refl (hash raw)))
