-- ===== src/Webhook/Service.antt =====
-- src/modules/webhook/webhook.service.ts: endpoints, events and deliveries. The paged listings are
-- queries with no effect and are left out; `endpoint.delete` deletes the one row of an identifier.
use all_service_api.Prisma.{Prisma, keep}
use all_service_api.Webhook.State.{
  EndpointStatus, active, closed, pending, WebhookEndpoint, WebhookEvent, WebhookDelivery, Webhooks,
  WebhookConfig,
}
use all_service_api.Webhook.CircuitBreaker.{has_id, is_open, update_endpoint_row}
use all_service_api.Common.{
  ltb, leb, all, any, webhook_not_found, webhook_event_not_found, webhook_payload_too_large,
  webhook_invalid_event_type, webhook_delivery_not_found, bad_request, not_found, record_missing,
  Result, ok, err, M, pure, ◌>>=◌, ◌>>◌, gets, modify, require, some_or, ℕ, ◌+◌, ◌*◌, String, Bool,
  true, false, not, ◌&&◌, Option, none, some, List, [], ◌∷◌, str_eq,
}

pub record CreateWebhookEndpointDto : Type 0 where
  pub url : String
  pub description : Option String
  pub event_types : List String
  pub metadata : Option String

-- Every field may be `undefined`.
pub record UpdateWebhookEndpointDto : Type 0 where
  pub url : Option String
  pub description : Option String
  pub event_types : Option (List String)
  pub status : Option EndpointStatus
  pub metadata : Option String

-- src/modules/webhook/webhook.constants.ts
abbrev pub all_webhook_event_types : List String
all_webhook_event_types =
    "career.application.submitted" ∷ "career.application.status_changed"
    ∷ "career.application.withdrawn" ∷ "career.posting.published" ∷ "career.posting.closed"
    ∷ "career.posting.archived" ∷ "user.created" ∷ "user.updated" ∷ "user.deleted" ∷ "user.locked"
    ∷ "user.unlocked" ∷ "auth.login" ∷ "auth.mfa.enabled" ∷ []

abbrev pub is_known : String → Bool
is_known t = any (λ known. str_eq known t) all_webhook_event_types

unfoldable pub validate_event_types : List String → M Webhooks (Unit {0})
validate_event_types types = require (all is_known types) (bad_request webhook_invalid_event_type)

abbrev pub validate_new_types : Option (List String) → M Webhooks (Unit {0})
validate_new_types none = pure tt
validate_new_types (some types) = validate_event_types types

abbrev pub has_event_id : String → WebhookEvent → Bool
has_event_id id e = str_eq e.id id

abbrev pub has_delivery_id : String → WebhookDelivery → Bool
has_delivery_id id d = str_eq d.id id

abbrev is_active : EndpointStatus → Bool
is_active active = true
is_active _ = false

abbrev set_or {ℓ} : {A : Type ℓ} → Option A → A → A
set_or none old = old
set_or (some new) old = new

abbrev set_if {ℓ} : {A : Type ℓ} → Option A → Option A → Option A
set_if none old = old
set_if (some new) old = some new

abbrev pub apply_changes : UpdateWebhookEndpointDto → WebhookEndpoint → WebhookEndpoint
apply_changes dto e = record e {
  url = set_or dto.url e.url;
  description = set_if dto.description e.description;
  event_types = set_or dto.event_types e.event_types;
  status = set_or dto.status e.status;
  metadata = set_if dto.metadata e.metadata;
}

abbrev store_deliveries :
    Webhooks → Option (WebhookDelivery × List WebhookDelivery) → Result WebhookDelivery × Webhooks
store_deliveries s none = (err record_missing, s)
store_deliveries s (some (delivery, rows)) = (ok delivery, record s { deliveries = rows })

abbrev pub new_delivery : String → ℕ → String → ℕ → WebhookDelivery
new_delivery event_id attempt_number id now = record {
  id = id;
  event_id = event_id;
  attempt_number = attempt_number;
  status = pending;
  http_status_code = none;
  request_headers = none;
  response_body = none;
  latency_ms = none;
  error_message = none;
  created_at = now;
}

abbrev milliseconds_of_days : ℕ → ℕ
milliseconds_of_days days = days * 24 * 60 * 60 * 1000

module _ (db : Prisma) (config : WebhookConfig) where
  unfoldable pub create_endpoint :
      CreateWebhookEndpointDto
      → String
      → (id raw_secret : String) → M Webhooks (WebhookEndpoint × String)
  unfolding validate_event_types
  create_endpoint dto created_by id raw_secret = do
    validate_event_types dto.event_types
    let endpoint : WebhookEndpoint = record {
      id = id;
      url = dto.url;
      description = dto.description;
      secret = raw_secret;
      event_types = dto.event_types;
      status = active;
      metadata = dto.metadata;
      created_by = created_by;
      failure_count = 0;
      last_failed_at = none;
      circuit_state = closed;
      circuit_opened_at = none;
    }
    modify (λ s. record s { endpoints = db.create endpoint s.endpoints })
    pure (endpoint, raw_secret)

  unfoldable pub find_endpoint_by_id : String → M Webhooks WebhookEndpoint
  find_endpoint_by_id id = do
    endpoint ← gets (λ s. db.find_first (has_id id) s.endpoints)
    some_or (not_found webhook_not_found) endpoint

  unfoldable pub update_endpoint : String → UpdateWebhookEndpointDto → M Webhooks WebhookEndpoint
  unfolding find_endpoint_by_id validate_event_types
  update_endpoint id dto = do
    _ ← find_endpoint_by_id id
    validate_new_types dto.event_types
    update_endpoint_row db config id (apply_changes dto)

  -- The endpoint's events and their deliveries go with it (`onDelete: Cascade`).
  unfoldable pub delete_endpoint : String → M Webhooks (Unit {0})
  unfolding find_endpoint_by_id
  delete_endpoint id = do
    _ ← find_endpoint_by_id id
    modify λ s.
        let events = keep (λ e. not (str_eq e.endpoint_id id)) s.events in
        record s {
          endpoints = db.delete_many (has_id id) s.endpoints;
          events = events;
          deliveries = keep (λ d. any (λ e. str_eq e.id d.event_id) events) s.deliveries;
        }

  unfoldable pub rotate_secret : String → String → M Webhooks (WebhookEndpoint × String)
  unfolding find_endpoint_by_id
  rotate_secret id raw_secret = do
    _ ← find_endpoint_by_id id
    endpoint ← update_endpoint_row db config id (λ e. record e { secret = raw_secret })
    pure (endpoint, raw_secret)

  -- `byte_length` is `Buffer.byteLength`; `id` and `key` are random.
  unfoldable pub create_event :
      (byte_length : String → ℕ) (endpoint_id event_type payload id key : String) (now : ℕ)
      → M Webhooks WebhookEvent
  create_event byte_length endpoint_id event_type payload id key now = do
    require (leb (byte_length payload) config.max_payload_bytes)
        (bad_request webhook_payload_too_large)
    let event : WebhookEvent = record {
      id = id;
      endpoint_id = endpoint_id;
      event_type = event_type;
      payload = payload;
      idempotency_key = key;
      created_at = now;
    }
    modify (λ s. record s { events = db.create event s.events })
    pure event

  unfoldable pub find_active_endpoints_for_event : String → Webhooks → List WebhookEndpoint
  find_active_endpoints_for_event event_type s =
      db.find_many
        (λ e.
          is_active e.status
          && any (λ t. str_eq t event_type) e.event_types
          && not (is_open e.circuit_state))
        s.endpoints

  unfoldable pub find_event_by_id : String → M Webhooks WebhookEvent
  find_event_by_id id = do
    event ← gets (λ s. db.find_first (has_event_id id) s.events)
    some_or (not_found webhook_event_not_found) event

  unfoldable pub find_delivery_by_id : String → M Webhooks WebhookDelivery
  find_delivery_by_id id = do
    delivery ← gets (λ s. db.find_first (has_delivery_id id) s.deliveries)
    some_or (not_found webhook_delivery_not_found) delivery

  unfoldable pub create_delivery : String → ℕ → String → ℕ → M Webhooks WebhookDelivery
  create_delivery event_id attempt_number id now s =
      let delivery = new_delivery event_id attempt_number id now in
      (ok delivery, record s { deliveries = db.create delivery s.deliveries })

  unfoldable pub update_delivery :
      String → (WebhookDelivery → WebhookDelivery) → M Webhooks WebhookDelivery
  update_delivery id data_of s =
      store_deliveries s (db.update (has_delivery_id id) data_of s.deliveries)

  unfoldable pub prune_old_deliveries : ℕ → M Webhooks ℕ
  prune_old_deliveries now s =
      let old = λ (d : WebhookDelivery).
        ltb (d.created_at + milliseconds_of_days config.retention_days) now in
      (ok (db.count old s.deliveries), record s { deliveries = db.delete_many old s.deliveries })

  -- `deliveries: { none: {} }`
  unfoldable pub prune_old_events : ℕ → M Webhooks ℕ
  prune_old_events now s =
      let old = λ (e : WebhookEvent).
        ltb (e.created_at + milliseconds_of_days config.retention_days) now
        && not (any (λ d. str_eq d.event_id e.id) s.deliveries) in
      (ok (db.count old s.events), record s { events = db.delete_many old s.events })
