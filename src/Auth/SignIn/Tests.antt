-- ===== src/Auth/SignIn/Tests.antt =====
-- Examples: one account, with a wrong, a right and a reset password, a recovery code and a lock.
use Prim.Native.String.{◌++◌ as str_append}
use text.Mathlib.TextLemmas.{append_assoc as assoc}
use text.Mathlib.TextPositions.{starts_with-append}
use all_service_api.Common.{
  All, reset_token_invalid, bad_request, Result, ok, err, ℕ, suc, ◌+◌, ◌-◌, ◌*◌, ◌≤◌, String, ◌≡◌,
  refl, ◌∙◌, subst, ◌↔◌, Bool, true, false, Option, none, some, List, [], ◌∷◌, map, Memᴰ, arith,
  str_eq, starts_with,
}
use all_service_api.Auth.Strategy.Closing.{FindsSessions, SignsOut, closing-SignsOut}
use all_service_api.Auth.State.{
  user_deleted, user_locked, RequestContext, User, Accounts, AuthEnv, RedisValue, plain, session,
}
use all_service_api.Users.Account.{
  soft_delete, lock, set_password, set_recovery_codes, record_login_success,
}
use all_service_api.Auth.Password.{
  assert_password_acceptable, validate_strength, check_breached, verify,
}
use all_service_api.Auth.Recovery.{read_token, reset_password}
use all_service_api.Auth.Recovery.Reset.{reset_password_once}
use all_service_api.Prisma.{update_if, list_client}
use all_service_api.Auth.Mfa.{verify_code}
use all_service_api.Auth.Mfa.RecoveryCodes.{HasMfa, verify_code-copies}
use all_service_api.Users.RoleList.Sorting.{copies}
use all_service_api.Users.Rows.{with_row}
use all_service_api.Users.State.{
  find_by_email_with_secrets, update_user, is_account, to_with_secrets, UserEnv, has_user_id,
  is_account_of,
}
use all_service_api.Auth.Session.{create}
use all_service_api.Auth.Token.{generate_access_token, unreachable}
use all_service_api.Auth.SignIn.{login}
use all_service_api.Auth.Response.{signed_in, AuthResponse, LoginResponse, Draws}
use all_service_api.Prisma.Keys.{IsOnly}
use all_service_api.Redis.{
  map_server-matches, session_pattern, map_server, get, session_key, password_reset,
}
use all_service_api.Auth.Strategy.{is_locked_at}
use all_service_api.Auth.Strategy.Accepts.{IsAccepted, IsUsable, IsRefused, accepts_iff}
use all_service_api.Auth.SignIn.Success.{HasSecondFactor, IsOpened, login_signs_in}
use all_service_api.Auth.Credentials.{JwtPayload, SignInEnv, LoginContext}
use all_service_api.Auth.SignIn.Lockout.{IsTarget, lockout}
use all_service_api.Auth.SignIn.Guessing.{
  IsWrong, Guess, times, machine, examined, answer, after_all, answers, guessing_refines,
}
use all_service_api.Auth.SignIn.GuessBound.{IsWithin, count_true, is_examined, guesses_bounded}

abbrev store : AuthEnv
store = record {
  db = list_client;
  server = map_server;
  hash = λ text. text;
  region = "UK";
  refresh_ttl_seconds = 3600;
}

abbrev accounts : UserEnv
accounts = record {
  auth = store;
  normalise_email = λ email. email;
  sort = λ roles. roles;
  contains = λ text part. str_eq text part;
  order_by = λ column direction rows. rows;
  tenant_exists = λ tenant. true;
}

abbrev services : SignInEnv
services = record {
  users = accounts;
  is_primary = true;
  private_key = some "key";
  primary_api_url = none;
  internal_api_secret = none;
  access_ttl_seconds = 900;
  argon2_hash = λ salt password. password;
  argon2_verify = λ stored password. some (str_eq stored password);
  totp_verify = λ token secret now. str_eq token secret;
  encrypt_at_rest = λ iv secret. secret;
  decrypt_at_rest = λ ciphertext. some ciphertext;
  sign_token = λ key input now. "token";
  sha1 = λ text. text;
  units = λ text. 12;
  slice = λ text start end. "part";
  split_lines = λ text. [];
  index_of_colon = λ text. none;
  trim = λ text. text;
  upper = λ text. text;
  lower = λ text. text;
  parse_int = λ text. none;
  key_uri = λ email secret. "uri";
}

abbrev alice : User
alice = record {
  id = "u1";
  email = "alice@example.org";
  email_verified = true;
  password_hash = "right";
  first_name = none;
  last_name = none;
  roles = "user" ∷ [];
  is_active = true;
  is_locked = false;
  lock_reason = none;
  locked_until = none;
  failed_login_attempts = 0;
  last_login_at = none;
  last_login_ip = none;
  password_changed_at = none;
  mfa_enabled = false;
  mfa_secret = none;
  mfa_recovery_codes = [];
  tenant_id = none;
  deleted_at = none;
}

abbrev accounts_with : User → List (String × RedisValue) → Accounts
accounts_with row redis = record {
  users = row ∷ [];
  families = [];
  redis = redis;
  audits = [];
  mails = [];
  events = [];
  alerts = [];
}

only_row_of : (test : User → Bool) (row : User) → test row ≡ true → IsOnly test (row ∷ []) row
only_row_of test row e = (Memᴰ.head refl, e, λ other m h. only other m)
  where
    only : (other : User) → Memᴰ other (row ∷ []) → other ≡ row
    only other (Memᴰ.head p) = p
    only other (Memᴰ.tail m) = elim m [ ]

abbrev at_home : LoginContext
at_home = record { ip_hash = "ip"; user_agent = none; request_id = "r1"; device_info = none }

abbrev request : RequestContext
request = record { ip_hash = "ip"; user_agent = none; request_id = "r1" }

abbrev drawn : Draws
drawn = record {
  user_id = "u2";
  salt = "salt";
  opaque_token = "opaque";
  session_id = "s1";
  refresh_token = "t1";
  breach_range = none;
  signing = unreachable;
}

abbrev wrong_at : ℕ → Guess
wrong_at now = record {
  password = "wrong";
  code = none;
  context = at_home;
  draws = drawn;
  now = now;
}

abbrev guesses : List Guess
guesses =
    wrong_at 1000
    ∷ wrong_at 2000
    ∷ wrong_at 3000
    ∷ wrong_at 4000
    ∷ wrong_at 5000
    ∷ wrong_at 6000
    ∷ []

abbrev before : Accounts
before = accounts_with alice []

alice-IsTarget : IsTarget services "alice@example.org" "u1" "right" before alice
alice-IsTarget = (
  only_row_of (has_user_id "u1") alice refl,
  only_row_of (is_account_of "alice@example.org") alice refl,
  refl,
  refl,
  refl,
)

All-IsWrong : All (IsWrong services "alice@example.org" "u1" "right") guesses
All-IsWrong = (refl, (refl, (refl, (refl, (refl, (refl, tt))))))

guessing_refines_example :
    ((row : User) × IsTarget services "alice@example.org" "u1" "right"
        (after_all services "alice@example.org" guesses before)
        row
      × (lockout row ≡ machine (times guesses) (lockout alice)))
    × (answers services "alice@example.org" guesses before
        ≡ map answer (examined (times guesses) (lockout alice)))
guessing_refines_example =
    guessing_refines services "alice@example.org" "u1" "right" guesses before alice alice-IsTarget
      All-IsWrong

-- The sixth guess is not looked at.
examined_five :
    examined (times guesses) (lockout alice) ≡ true ∷ true ∷ true ∷ true ∷ true ∷ false ∷ []
examined_five = refl

within : IsWithin 1000 6000 (times guesses)
within = (
  omega arith,
  omega arith,
  (
    omega arith,
    omega arith,
    (
      omega arith,
      omega arith,
      (omega arith, omega arith, (omega arith, omega arith, (omega arith, omega arith, tt))),
    ),
  ),
)

guesses_bounded_example :
    count_true (map is_examined (answers services "alice@example.org" guesses before)) * 900000
    ≤ 5 * 900000 + (6000 - 1000)
guesses_bounded_example =
    guesses_bounded services "alice@example.org" "u1" "right" guesses before alice 1000 6000
      alice-IsTarget refl refl All-IsWrong within

-- Signed in, with the session in Redis.
abbrev welcome : Result LoginResponse × Accounts
welcome =
    login services (record { email = "alice@example.org"; password = "right"; mfa_code = none })
      at_home drawn 7000 before

abbrev response : AuthResponse
response = record {
  access_token = "token";
  refresh_token = some "t1";
  expires_in = 900;
  user = record {
    id = "u1";
    email = "alice@example.org";
    first_name = none;
    last_name = none;
    roles = "user" ∷ [];
    email_verified = true;
    mfa_enabled = false;
  };
}

welcome_ok :
    login services
      (record { email = "alice@example.org"; password = "right"; mfa_code = none })
      at_home
      drawn
      7000
      before
    ≡ (ok (signed_in response), welcome.1)
unfolding login find_by_email_with_secrets record_login_success update_user create
    generate_access_token
welcome_ok = refl

login_signs_in_example :
    (row : User) × Memᴰ row before.users
    × (is_account_of "alice@example.org" row ≡ true)
    × (is_locked_at (to_with_secrets row) 7000 ≡ false)
    × (row.is_active ≡ true)
    × (verify services "right" row.password_hash ≡ true)
    × HasSecondFactor services
        (to_with_secrets row)
        (record { email = "alice@example.org"; password = "right"; mfa_code = none })
        7000
        before
    × IsOpened services row.id at_home drawn 7000 welcome.1
    × (response.refresh_token ≡ some "t1")
    × (response.user.id ≡ row.id)
login_signs_in_example =
    login_signs_in services
      (record { email = "alice@example.org"; password = "right"; mfa_code = none }) at_home drawn
      7000 before welcome.1 response welcome_ok

abbrev claims : JwtPayload
claims = record {
  sub = "u1";
  email = "alice@example.org";
  roles = "user" ∷ [];
  permissions = [];
  tenant_id = none;
  jti = "s1";
  iat = 7;
}

abbrev opened : Accounts
opened = accounts_with alice (
    (
      session_key "UK" "u1" "s1",
      session (record {
        session_id = "s1";
        device_info = none;
        ip_hash = "ip";
        refresh_token_hash = "t1";
        created_at = 7000;
        last_active_at = 7000;
      }),
    )
    ∷ [])

accepts_iff_example :
    IsAccepted services claims 8000 opened
    ↔ IsUsable services claims 8000 opened alice (only_row_of (is_account "u1") alice refl)
accepts_iff_example =
    accepts_iff services claims 8000 opened alice (only_row_of (is_account "u1") alice refl)

-- The events' sessions are found by the pattern of the account.
finds_sessions : FindsSessions services "u1"
finds_sessions jti =
    let rest = str_append jti "" in
    let z3 = str_append ":" rest in
    let z2 = str_append "u1" z3 in
    let z1 = str_append ":sessions:" z2 in
    let parts : str_append "as:UK:sessions:u1:" rest ≡ session_key "UK" "u1" jti =
      assoc "as:UK:sessions:u1" ":" rest
      ∙ assoc "as:UK:sessions:" "u1" z3
      ∙ assoc "as:UK" ":sessions:" z2
      ∙ assoc "as:" "UK" z1 in
    map_server-matches (session_pattern "UK" "u1") (session_key "UK" "u1" jti) (
      subst (λ key. starts_with key "as:UK:sessions:u1:" ≡ true) parts
        (starts_with-append "as:UK:sessions:u1:" rest))

closing-SignsOut_example :
    SignsOut services "u1" finds_sessions
      (user_deleted "u1")
      (soft_delete accounts "u1" "admin" request 9000)
      opened
    × SignsOut services "u1" finds_sessions
        (user_locked "u1" "abuse" none)
        (lock accounts "u1" "abuse" none (some "admin") request none)
        opened
closing-SignsOut_example =
    closing-SignsOut services "u1" finds_sessions opened alice "admin" "abuse" none request 9000
      (only_row_of (has_user_id "u1") alice refl)

abbrev asked : Accounts
asked = accounts_with alice ((password_reset "UK" "reset", plain "u1") ∷ [])

asked_acceptable : assert_password_acceptable services "a new password" none asked ≡ (ok tt, asked)
unfolding assert_password_acceptable validate_strength check_breached get
asked_acceptable = refl

asked_token : read_token services (password_reset "UK" "reset") asked ≡ some "u1"
unfolding get
asked_token = refl

reset_password_once_example :
    (after : Accounts) × (reset_password services "reset" "a new password" "salt" none request 9000
        asked
      ≡ (ok tt, after))
    × (after.users
        ≡ map (update_if (has_user_id "u1") (set_password "a new password" 9000)) asked.users)
    × ((again salt : String) (breach_range : Option String) (later : ℕ)
        → reset_password services "reset" again salt breach_range request later after
          ≡ (err (bad_request reset_token_invalid), after))
    × ((payload : JwtPayload) (later : ℕ)
        → payload.sub ≡ "u1"
        → IsRefused services payload later after)
reset_password_once_example =
    reset_password_once services "u1" request "reset" "a new password" "salt" none 9000 asked asked
      alice finds_sessions asked_token asked_acceptable (only_row_of (has_user_id "u1") alice refl)

abbrev guarded : User
guarded = record alice {
  mfa_enabled = true;
  mfa_secret = some "totp";
  mfa_recovery_codes = "c1" ∷ "c2" ∷ [];
}

guarded-HasMfa : HasMfa services "u1" "c2" (accounts_with guarded []) guarded "totp"
guarded-HasMfa = (
  only_row_of (has_user_id "u1") guarded refl,
  only_row_of (is_account "u1") guarded refl,
  refl,
  refl,
  refl,
)

verify_code-copies_example :
    (copies "c2" ("c1" ∷ "c2" ∷ []) ≡ 0
      → verify_code services "u1" "c2" 5 (accounts_with guarded [])
        ≡ (ok false, accounts_with guarded []))
    × ((n : ℕ)
        → copies "c2" ("c1" ∷ "c2" ∷ []) ≡ suc n
        → (rest : List String) × (verify_code services "u1" "c2" 5 (accounts_with guarded [])
            ≡ (ok true, with_row "u1" (set_recovery_codes rest) (accounts_with guarded [])))
          × HasMfa services "u1" "c2"
              (with_row "u1" (set_recovery_codes rest) (accounts_with guarded []))
              (set_recovery_codes rest guarded)
              "totp"
          × (copies "c2" rest ≡ n))
verify_code-copies_example =
    verify_code-copies services "u1" "c2" "totp" 5 refl (accounts_with guarded []) guarded
      guarded-HasMfa
