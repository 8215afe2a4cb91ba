-- ===== src/Auth/Tests.antt =====
-- Examples: two users with a session each.
use all_service_api.Prisma.{list_client}
use all_service_api.Redis.{map_server, get, session_key, session_pattern}
use all_service_api.Auth.State.{Accounts, AuthEnv, RequestContext, RefreshTokenFamily}
use all_service_api.Auth.Session.{
  has_id, rotate, is_live_of, RefreshResult, refresh, revoke_all, revoke_all_except,
}
use all_service_api.Auth.Session.Rotation.{
  family_of, refresh_refused, refresh_once, refresh_continues,
}
use all_service_api.Auth.Session.Revocation.{revoke_all_complete, revoke_all_except_complete}
use all_service_api.Common.{
  ltb, if◌then◌else◌, ne-of-str_eq, All, token_expired, token_invalid, token_revoked, unauthorized,
  ok, err, String, ◌≡◌, refl, ◌⊎◌, true, false, not, ◌&&◌, none, some, [], ◌∷◌, Memᴰ, str_eq,
}

abbrev services : AuthEnv
services = record {
  db = list_client;
  server = map_server;
  hash = λ text. text;
  region = "UK";
  refresh_ttl_seconds = 3600;
}

abbrev family : String → String → String → RefreshTokenFamily
family id user_id hash = record {
  id = id;
  user_id = user_id;
  current_token_hash = hash;
  region = "UK";
  device_info = none;
  ip_hash = "ip";
  is_revoked = false;
  revoked_reason = none;
  expires_at = 9000;
  last_used_at = 0;
}

abbrev signed_in : Accounts
signed_in = record {
  users = [];
  families = family "s1" "u1" "t1" ∷ family "s2" "u2" "t2" ∷ [];
  redis = [];
  audits = [];
  mails = [];
  events = [];
  alerts = [];
}

abbrev request : RequestContext
request = record { ip_hash = "ip"; user_agent = none; request_id = "r1" }

abbrev refreshed : Accounts
refreshed = (refresh services "t1" request "t3" 1000 signed_in).1

abbrev handed_out : RefreshResult
handed_out = record { user_id = "u1"; session_id = "s1"; refresh_token = "t3" }

refresh_succeeds : refresh services "t1" request "t3" 1000 signed_in ≡ (ok handed_out, refreshed)
unfolding refresh rotate
refresh_succeeds = refl

refresh_refused_example :
    ((unauthorized token_expired ≡ unauthorized token_invalid)
      ⊎ ((unauthorized token_expired ≡ unauthorized token_revoked)
          ⊎ (unauthorized token_expired ≡ unauthorized token_expired)))
    × ((refresh services "t2" request "t4" 9000 signed_in).1 ≡ signed_in)
unfolding refresh
refresh_refused_example =
    refresh_refused services "t2" request "t4" 9000 signed_in (unauthorized token_expired) refl

refresh_once_example :
    refresh services "t1" request "t5" 1001 refreshed
    ≡ (err (unauthorized token_invalid), refreshed)
refresh_once_example =
    refresh_once services "t1" request "t3" 1000 signed_in refreshed handed_out request "t5" 1001
      ((ne-of-str_eq "t2" "t1" refl, tt), (tt, tt)) (ne-of-str_eq "t3" "t1" refl) refresh_succeeds

refresh_continues_example :
    (f : RefreshTokenFamily) × (family_of services "t1" signed_in ≡ some f)
    × ((refresh services "t3" request "t5" 1001 refreshed).0 ≡ (
        if ltb 1001 f.expires_at
        then ok (record { user_id = "u1"; session_id = "s1"; refresh_token = "t5" })
        else err (unauthorized token_expired)))
refresh_continues_example =
    refresh_continues services "t1" request "t3" 1000 signed_in refreshed handed_out request "t5"
      1001 ((ne-of-str_eq "s2" "s1" refl, tt), (tt, tt))
      (ne-of-str_eq "t1" "t3" refl, (ne-of-str_eq "t2" "t3" refl, tt)) refresh_succeeds

revoke_all_complete_example :
    ((k : String)
      → get k (revoke_all services "u1" request "password_reset" signed_in).redis ≡ (
          if map_server.matches (session_pattern "UK" "u1") k then none else get k signed_in.redis))
    × (All
        (λ f. is_live_of "u1" f ≡ false)
        (revoke_all services "u1" request "password_reset" signed_in).families)
    × ((f : RefreshTokenFamily)
        → Memᴰ f signed_in.families
        → is_live_of "u1" f ≡ false
        → Memᴰ f (revoke_all services "u1" request "password_reset" signed_in).families)
revoke_all_complete_example = revoke_all_complete services "u1" request "password_reset" signed_in

revoke_all_except_complete_example :
    ((k : String)
      → get k (revoke_all_except services "u1" "s1" request signed_in).redis ≡ (
          if str_eq k (session_key "UK" "u1" "s1")
          then get k signed_in.redis
          else if map_server.matches (session_pattern "UK" "u1") k
          then none
          else get k signed_in.redis))
    × (All
        (λ f. is_live_of "u1" f ≡ true → f.id ≡ "s1")
        (revoke_all_except services "u1" "s1" request signed_in).families)
    × ((f : RefreshTokenFamily)
        → Memᴰ f signed_in.families
        → (is_live_of "u1" f && not (has_id "s1" f)) ≡ false
        → Memᴰ f (revoke_all_except services "u1" "s1" request signed_in).families)
revoke_all_except_complete_example = revoke_all_except_complete services "u1" "s1" request signed_in
