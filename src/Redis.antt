-- ===== src/Redis.antt =====
-- The Redis server, which src/redis/redis.service.ts and the services call through ioredis: its
-- commands are a parameter. The contents are the live keys with their values, and GET is `get`; the
-- laws are what the commands' documentation says of them. The key templates are src/common/constants/redis-keys.ts.
use Prim.Native.Char.{code}
use Prim.Native.String.{◌++◌ as str_append}
use all_service_api.Common.{
  ◌==◌, if◌then◌else◌, Bool-cases, All, ℕ, String, ◌≡◌, refl, sym, inl, inr, Bool, true, Option,
  none, some, List, [], ◌∷◌, Memᴰ, arith, str_eq, starts_with, eq_iff,
}

-- A template's text parts and arguments, put together.
abbrev pub join : List String → String
join [] = ""
join (s ∷ rest) = str_append s (join rest)

abbrev pub session_key : String → String → String → String
session_key region user_id session_id =
    join ("as:" ∷ region ∷ ":sessions:" ∷ user_id ∷ ":" ∷ session_id ∷ [])

abbrev pub session_pattern : String → String → String
session_pattern region user_id = join ("as:" ∷ region ∷ ":sessions:" ∷ user_id ∷ ":*" ∷ [])

abbrev pub email_verify : String → String → String
email_verify region token = join ("as:" ∷ region ∷ ":verify:" ∷ token ∷ [])

abbrev pub password_reset : String → String → String
password_reset region token = join ("as:" ∷ region ∷ ":reset:" ∷ token ∷ [])

abbrev pub mfa_setup : String → String → String
mfa_setup region user_id = join ("as:" ∷ region ∷ ":mfa:setup:" ∷ user_id ∷ [])

abbrev pub cache_key : String → String → String → String
cache_key region name key = join ("as:" ∷ region ∷ ":cache:" ∷ name ∷ ":" ∷ key ∷ [])

abbrev pub career_verify_code : String → String → String → String
career_verify_code region email job_posting_id =
    join ("as:" ∷ region ∷ ":career:verify:" ∷ email ∷ ":" ∷ job_posting_id ∷ [])

-- GET key
unfoldable pub get : {V : Type 0} → String → List (String × V) → Option V
get k [] = none
get k ((key, value) ∷ rest) = if str_eq key k then some value else get k rest

pub record Redis : Type 1 where
  -- SET key value EX ttl
  pub set : {V : Type 0} → String → V → ℕ → List (String × V) → List (String × V)
  pub get-set :
      {V : Type 0} (key : String) (value : V) (ttl : ℕ) (contents : List (String × V)) (k : String)
      → get k (set key value ttl contents) ≡ (if str_eq key k then some value else get k contents)
  pub del : {V : Type 0} → String → List (String × V) → List (String × V)
  pub get-del :
      {V : Type 0} (key : String) (contents : List (String × V)) (k : String)
      → get k (del key contents) ≡ (if str_eq key k then none else get k contents)
  -- SCAN to the end with MATCH pattern: every live key that the glob pattern matches.
  pub matches : String → String → Bool
  pub scan : {V : Type 0} → String → List (String × V) → List String
  pub scan_complete :
      {V : Type 0} (pattern : String) (contents : List (String × V)) (key : String) (value : V)
      → matches pattern key ≡ true
      → get key contents ≡ some value
      → Memᴰ key (scan pattern contents)
  pub scan_sound :
      {V : Type 0} (pattern : String) (contents : List (String × V))
      → All (λ key. matches pattern key ≡ true) (scan pattern contents)

-- A server that keeps the laws, for tests and examples; its patterns end in their one `*`.
erase : {V : Type 0} → String → List (String × V) → List (String × V)
erase key [] = []
erase key ((k, v) ∷ rest) =
    let later = erase key rest in if str_eq key k then later else (k, v) ∷ later

get-erase :
    {V : Type 0} (key : String) (contents : List (String × V)) (k : String)
    → get k (erase key contents) ≡ (if str_eq key k then none else get k contents)
unfolding get erase
get-erase key [] k = ground arith
get-erase key ((j, v) ∷ rest) k =
    ground (arith, get-erase key rest k, eq_iff key j, eq_iff j k, eq_iff key k)

scan_keys : {V : Type 0} → (String → Bool) → List (String × V) → List String
scan_keys test [] = []
scan_keys test ((k, v) ∷ rest) =
    let later = scan_keys test rest in if test k then k ∷ later else later

scan_keys_complete :
    {V : Type 0} (test : String → Bool) (contents : List (String × V)) (key : String) (value : V)
    → test key ≡ true
    → get key contents ≡ some value
    → Memᴰ key (scan_keys test contents)
unfolding get scan_keys
scan_keys_complete test [] key value p h = cc
scan_keys_complete test ((k, v) ∷ rest) key value p h = elim (Bool-cases (str_eq k key)) [
  | inl same ↦
      let e : k ≡ key = (eq_iff k key).0 same in
      let passes : test k ≡ true = rw e p in rw passes (Memᴰ.head (sym e))
  | inr other ↦
      let found : get key rest ≡ some value = rw other at h in
      let later = scan_keys_complete test rest key value p found in
      elim (Bool-cases (test k)) [ inl q ↦ rw q (Memᴰ.tail later) | inr q ↦ rw q later ]
]

scan_keys_sound :
    {V : Type 0} (test : String → Bool) (contents : List (String × V))
    → All (λ key. test key ≡ true) (scan_keys test contents)
unfolding scan_keys
scan_keys_sound test [] = tt
scan_keys_sound test ((k, v) ∷ rest) = elim (Bool-cases (test k)) [
  | inl q ↦ rw q (q, scan_keys_sound test rest)
  | inr q ↦ rw q (scan_keys_sound test rest)
]

-- The part of a pattern before its `*`.
abbrev pub before_star : String → String
before_star String.[] = String.[]
before_star (String.◌∷◌ c rest) =
    let later = before_star rest in if code c == b'*' then String.[] else String.◌∷◌ c later

get-set_head :
    {V : Type 0} (key : String) (value : V) (ttl : ℕ) (contents : List (String × V)) (k : String)
    → get k ((key, value) ∷ contents) ≡ (if str_eq key k then some value else get k contents)
unfolding get
get-set_head key value ttl contents k = refl

pub map_server : Redis
unfolding scan_keys
map_server = record {
  set = λ key value ttl contents. (key, value) ∷ contents;
  get-set = get-set_head;
  del = erase;
  get-del = get-erase;
  matches = λ pattern key. starts_with key (before_star pattern);
  scan = λ pattern contents. scan_keys (λ key. starts_with key (before_star pattern)) contents;
  scan_complete = λ pattern contents key value p h.
      scan_keys_complete (λ k. starts_with k (before_star pattern)) contents key value p h;
  scan_sound =
      λ pattern contents. scan_keys_sound (λ k. starts_with k (before_star pattern)) contents;
}

pub map_server-matches :
    (pattern key : String)
    → starts_with key (before_star pattern) ≡ true
    → map_server.matches pattern key ≡ true
unfolding map_server
map_server-matches pattern key h = h
