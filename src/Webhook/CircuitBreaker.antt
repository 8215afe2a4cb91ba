-- ===== src/Webhook/CircuitBreaker.antt =====
-- src/modules/webhook/webhook-circuit-breaker.service.ts
pub mod Soundness
pub mod Recovery
pub mod Stranded
use mathlib.Core.Option
use all_service_api.Prisma.{Prisma}
use all_service_api.Webhook.State.{
  EndpointStatus, active, paused, disabled, CircuitState, closed, opened, half_open,
  WebhookEndpoint, Webhooks, WebhookConfig,
}
use all_service_api.Common.{
  ltb, leb, record_missing, Result, ok, err, M, pure, ◌>>=◌, ◌>>◌, ℕ, ◌+◌, ◌-◌, ◌*◌, String, Bool,
  true, false, not, ◌&&◌, Option, none, some, List, map, str_eq,
}

abbrev pub is_open : CircuitState → Bool
is_open opened = true
is_open _ = false

abbrev pub is_disabled : EndpointStatus → Bool
is_disabled disabled = true
is_disabled _ = false

-- `circuitOpenedAt: { lt: cutoff }`, which a null does not satisfy.
abbrev pub opened_before : Option ℕ → ℕ → Bool
opened_before none cutoff = false
opened_before (some time) cutoff = ltb time cutoff

unfoldable pub should_deliver : WebhookEndpoint → Bool
should_deliver endpoint = not (is_open endpoint.circuit_state)

abbrev pub has_id : String → WebhookEndpoint → Bool
has_id id e = str_eq e.id id

abbrev pub store_endpoints :
    Webhooks → Option (WebhookEndpoint × List WebhookEndpoint) → Result WebhookEndpoint × Webhooks
store_endpoints s none = (err record_missing, s)
store_endpoints s (some (endpoint, rows)) = (ok endpoint, record s { endpoints = rows })

abbrev pub reset : WebhookEndpoint → WebhookEndpoint
reset e = record e {
  failure_count = 0;
  circuit_state = closed;
  circuit_opened_at = none;
  last_failed_at = none;
}

abbrev pub count_failure : ℕ → WebhookEndpoint → WebhookEndpoint
count_failure now e = record e { failure_count = e.failure_count + 1; last_failed_at = some now }

abbrev pub trip : ℕ → WebhookEndpoint → WebhookEndpoint
trip now e = record e { circuit_state = opened; circuit_opened_at = some now; status = paused }

abbrev pub reopen : ℕ → WebhookEndpoint → WebhookEndpoint
reopen now e = record e {
  circuit_state = opened;
  circuit_opened_at = some now;
  last_failed_at = some now;
  failure_count = e.failure_count + 1;
}

abbrev pub half_opened : WebhookEndpoint → WebhookEndpoint
half_opened e = record e { circuit_state = half_open; status = active }

module _ (db : Prisma) (config : WebhookConfig) where
  -- `webhookEndpoint.update({ where: { id }, data })`
  abbrev pub update_endpoint_row :
      String → (WebhookEndpoint → WebhookEndpoint) → M Webhooks WebhookEndpoint
  update_endpoint_row id change s = store_endpoints s (db.update (has_id id) change s.endpoints)

  unfoldable pub record_success : String → M Webhooks (Unit {0})
  record_success endpoint_id = update_endpoint_row endpoint_id reset >>= λ _. pure tt

  -- `endpoint.failureCount >= threshold && endpoint.circuitState !== CircuitState.OPEN`
  abbrev pub should_trip : WebhookEndpoint → Bool
  should_trip endpoint =
      leb config.circuit_breaker_threshold endpoint.failure_count
      && not (is_open endpoint.circuit_state)

  abbrev pub trip_if : Bool → String → ℕ → M Webhooks (Unit {0})
  trip_if false endpoint_id now = pure tt
  trip_if true endpoint_id now = update_endpoint_row endpoint_id (trip now) >>= λ _. pure tt

  unfoldable pub record_failure : String → ℕ → M Webhooks (Unit {0})
  record_failure endpoint_id now = do
    endpoint ← update_endpoint_row endpoint_id (count_failure now)
    trip_if (should_trip endpoint) endpoint_id now

  unfoldable pub record_half_open_failure : String → ℕ → M Webhooks (Unit {0})
  record_half_open_failure endpoint_id now =
      update_endpoint_row endpoint_id (reopen now) >>= λ _. pure tt

  -- `cutoff` is `now - reset`, compared without a subtraction that stops at 0.
  abbrev pub is_due : ℕ → WebhookEndpoint → Bool
  is_due now e =
      is_open e.circuit_state
      && opened_before (Option.map (λ t. t + config.circuit_breaker_reset_ms) e.circuit_opened_at)
          now
      && not (is_disabled e.status)

  unfoldable pub probe_open_circuits : ℕ → M Webhooks ℕ
  probe_open_circuits now s = (
    ok (db.count (is_due now) s.endpoints),
    record s { endpoints = db.update_many (is_due now) half_opened s.endpoints },
  )
