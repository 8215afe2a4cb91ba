-- ===== src/Webhook/Tests.antt =====
-- Examples: one endpoint whose circuit is about to open, and one event for it.
use all_service_api.Common.{
  All, ℕ, zero, suc, ◌+◌, ◌/◌, ◌≤◌, String, ◌≡◌, refl, ap, ◌↔◌, true, false, none, some, List, [],
  ◌∷◌, Memᴰ, arith, str_eq,
}
use all_service_api.Prisma.{list_client}
use all_service_api.Webhook.State.{
  active, paused, closed, opened, WebhookConfig, WebhookEndpoint, WebhookEvent, WebhookJob,
  Webhooks,
}
use all_service_api.Webhook.CircuitBreaker.{
  has_id, record_failure, record_success, probe_open_circuits,
}
use all_service_api.Webhook.CircuitBreaker.Soundness.{
  IsSound, here, next, failure, probe, Reach-IsSound,
}
use all_service_api.Webhook.CircuitBreaker.Stranded.{Calm}
use all_service_api.Webhook.CircuitBreaker.Recovery.{success_after_trip}
use all_service_api.Webhook.Signing.{
  SigningEnv, non_negative, is_recent, prefixed, expected_signature, sign, verify,
}
use all_service_api.Webhook.Signing.Laws.{verify_iff, verify-sign}
use all_service_api.Webhook.Delivery.{
  WebhookEnv, Attempt, answered, threw, deliver, signature_header,
}
use all_service_api.Webhook.Delivery.Outcome.{IsRecorded, deliver-IsRecorded}
use all_service_api.Webhook.Processor.{process}
use all_service_api.Webhook.Processor.Retries.{AddsRetry, process_retries, process_skips}

abbrev settings : WebhookConfig
settings = record {
  max_retries = 5;
  retry_base_delay_ms = 10000;
  retry_max_delay_ms = 3600000;
  circuit_breaker_threshold = 10;
  circuit_breaker_reset_ms = 300000;
  max_payload_bytes = 65536;
  retention_days = 90;
}

-- Timestamps in unary, which reads back.
abbrev strokes : ℕ → String
strokes zero = String.[]
strokes (suc n) = String.◌∷◌ "I" (strokes n)

abbrev count : String → ℕ
count String.[] = 0
count (String.◌∷◌ c rest) = suc (count rest)

count-strokes : (n : ℕ) → count (strokes n) ≡ n
count-strokes zero = refl
count-strokes (suc n) = ap suc (count-strokes n)

abbrev signing : SigningEnv
signing = record {
  hmac = λ secret text. text;
  show = strokes;
  parse_int = λ text. non_negative (count text);
  units = count;
  bytes = count;
}

abbrev services : WebhookEnv
services = record {
  db = list_client;
  config = settings;
  signing = signing;
  slice = λ n text. text;
  message_of = λ e. "failed";
}

abbrev hook : WebhookEndpoint
hook = record {
  id = "w1";
  url = "https://hook.example";
  description = none;
  secret = "secret";
  event_types = "user.created" ∷ [];
  status = active;
  metadata = none;
  created_by = "staff";
  failure_count = 9;
  last_failed_at = none;
  circuit_state = closed;
  circuit_opened_at = none;
}

abbrev happened : WebhookEvent
happened = record {
  id = "e1";
  endpoint_id = "w1";
  event_type = "user.created";
  payload = "{}";
  idempotency_key = "k1";
  created_at = 0;
}

abbrev with_endpoint : WebhookEndpoint → Webhooks
with_endpoint endpoint = record {
  endpoints = endpoint ∷ [];
  events = happened ∷ [];
  deliveries = [];
  jobs = [];
  metrics = [];
  alerts = 0;
}

abbrev idle : Webhooks
idle = with_endpoint hook

abbrev broken : WebhookEndpoint
broken = record hook { circuit_state = opened; circuit_opened_at = some 10 }

abbrev job : WebhookJob
job = record { event_id = "e1"; endpoint_id = "w1"; attempt_number = 1; delay = 0 }

abbrev attempt : Attempt
attempt = record { id = "d1"; now = 1000; latency = 20; jitter = 7 }

abbrev tripped : Webhooks
tripped = (record_failure list_client settings "w1" 1000 idle).1

abbrev probed : Webhooks
probed = (probe_open_circuits list_client settings 400000 tripped).1

Reach-IsSound_example : All IsSound probed.endpoints
Reach-IsSound_example =
    Reach-IsSound list_client settings
      (next (next here (failure "w1" 1000 refl)) (probe 400000 refl)) (refl, tt)

abbrev recovered : Webhooks
recovered = (record_success list_client settings "w1" tripped).1

abbrev failed_again : Webhooks
failed_again = (record_failure list_client settings "w1" 2000 recovered).1

abbrev probed_again : Webhooks
probed_again = (probe_open_circuits list_client settings 400000 failed_again).1

success_after_trip_example :
    (e3 : WebhookEndpoint) × (list_client.find_first (has_id "w1") probed_again.endpoints ≡ some e3)
    × (e3.status ≡ paused)
    × (e3.circuit_state ≡ closed)
success_after_trip_example =
    success_after_trip list_client settings idle probed_again hook 1000 1 (tt, tt) (Memᴰ.head refl)
      refl (omega arith) (omega arith) (Calm.probe 400000 (Calm.failure 2000 Calm.start refl) refl)

verify_iff_example : (verify signing "{}" "secret" "I.{}" "I" 1000 ≡ some true) ↔ (
    (is_recent (1000 / 1000) (signing.parse_int "I") ≡ true)
    × (prefixed "I.{}" ≡ expected_signature signing "{}" "secret" "I"))
verify_iff_example = verify_iff signing "{}" "secret" "I.{}" "I" 1000

verify-sign_example :
    let headers = sign signing "{}" "secret" 2000 in
    (verify signing "{}" "secret" headers.signature headers.timestamp 5000 ≡ some true)
    ↔ ((5000 / 1000 ≤ 2000 / 1000 + 300) × (2000 / 1000 ≤ 5000 / 1000 + 300))
verify-sign_example =
    verify-sign signing "{}" "secret" 2000 5000 (λ n. ap non_negative (count-strokes n))

process_retries_example :
    AddsRetry services job idle (process services job (threw "reset" false) attempt idle).1
process_retries_example = process_retries services job (threw "reset" false) attempt idle

process_skips_example :
    (process services job (threw "reset" false) attempt (with_endpoint broken)
      ≡ process services job (answered true 200 none) attempt (with_endpoint broken))
    × ((process services job (threw "reset" false) attempt (with_endpoint broken)).1.jobs ≡ [])
    × ((process services job (threw "reset" false) attempt (with_endpoint broken)).1.endpoints
        ≡ broken ∷ [])
process_skips_example =
    process_skips services job (threw "reset" false) (answered true 200 none) attempt
      (with_endpoint broken) broken refl refl

deliver-IsRecorded_example :
    (headers : List (String × String)) × IsRecorded services headers attempt false
      (deliver services hook happened 1 (threw "reset" false) attempt idle)
    × All (λ h. str_eq h.0 signature_header ≡ false) headers
deliver-IsRecorded_example =
    deliver-IsRecorded services hook happened 1 (threw "reset" false) attempt idle hook refl tt
