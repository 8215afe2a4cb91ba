-- ===== src/Auth/Password.antt =====
-- src/modules/auth/password.service.ts: password strength, breaches and hashes, with
-- `assertPasswordAcceptable` of src/modules/auth/auth.service.ts. What the breach service answered is
-- an argument, `none` where it failed.
pub mod Frame
use all_service_api.Common.{
  ltb, if◌then◌else◌, or_else, password_too_weak, password_breached, bad_request, ok, M, ◌>>=◌,
  ◌>>◌, require, ℕ, ◌+◌, String, Bool, true, false, not, ◌&&◌, Option, none, some, List, [], ◌∷◌,
  str_eq,
}
use all_service_api.Redis.{get, cache_key, join}
use all_service_api.Auth.State.{Accounts, RedisValue, plain}
use all_service_api.Auth.Credentials.{SignInEnv}

pub data Strength : Type 0 where
  valid password_too_short password_too_long : Strength

abbrev pub as_plain : Option RedisValue → Option String
as_plain (some (plain t)) = some t
as_plain _ = none

module _ (env : SignInEnv) where
  abbrev pub hash : String → String → String
  hash salt password = env.argon2_hash salt password

  -- A hash that argon2 cannot read is of no password.
  abbrev pub verify : (password hash : String) → Bool
  verify password hash = or_else (env.argon2_verify hash password) false

  unfoldable pub validate_strength : String → Strength
  validate_strength password =
      if ltb (env.units password) 12
      then password_too_short
      else if ltb 128 (env.units password)
      then password_too_long
      else valid

  -- The first line with the suffix decides.
  abbrev line_count : String → Option ℕ → ℕ
  line_count line none = 0
  line_count line (some colon) =
      or_else (env.parse_int (env.trim (env.slice line (colon + 1) none))) 0

  abbrev has_suffix : String → String → Option ℕ → Bool
  has_suffix suffix line none = false
  has_suffix suffix line (some colon) =
      ltb 0 colon && str_eq (env.upper (env.trim (env.slice line 0 (some colon)))) suffix

  unfoldable pub suffix_in_lines : String → List String → Bool
  suffix_in_lines suffix [] = false
  suffix_in_lines suffix (line ∷ lines) =
      let rest = suffix_in_lines suffix lines in
      let colon = env.index_of_colon line in
      if has_suffix suffix line colon then ltb 0 (line_count line colon) else rest

  abbrev pub suffix_in_range_body : String → String → Bool
  suffix_in_range_body body suffix = suffix_in_lines suffix (env.split_lines body)

  -- No answer counts as no breach.
  answer_fetched : String → String → Option String → M Accounts Bool
  answer_fetched key suffix none s = (ok false, s)
  answer_fetched key suffix (some body) s = (
    ok (suffix_in_range_body body suffix),
    record s { redis = env.users.auth.server.set key (plain body) 86400 s.redis },
  )

  answer_cached : String → String → Option String → Option String → M Accounts Bool
  unfolding answer_fetched
  answer_cached key suffix (some body) fetched s = (ok (suffix_in_range_body body suffix), s)
  answer_cached key suffix none fetched s = answer_fetched key suffix fetched s

  unfoldable pub check_breached : String → Option String → M Accounts Bool
  unfolding suffix_in_lines answer_cached
  check_breached password fetched s =
      let digest = env.sha1 password in
      let prefix = env.slice digest 0 (some 5) in
      let suffix = env.slice digest 5 none in
      let key = cache_key env.users.auth.region "password" (join ("breach:" ∷ prefix ∷ [])) in
      answer_cached key suffix (as_plain (get key s.redis)) fetched s

  abbrev pub is_valid : Strength → Bool
  is_valid valid = true
  is_valid _ = false

  -- `register` begins with the same tests.
  unfoldable pub assert_password_acceptable : String → Option String → M Accounts (Unit {0})
  unfolding validate_strength check_breached
  assert_password_acceptable password fetched = do
    require (is_valid (validate_strength password)) (bad_request password_too_weak)
    breached ← check_breached password fetched
    require (not breached) (bad_request password_breached)
