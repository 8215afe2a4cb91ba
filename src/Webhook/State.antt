-- ===== src/Webhook/State.antt =====
-- What the webhook services and the processor read and write: three tables of
-- src/prisma/schema.prisma, the retry jobs of the queue, and the delivery counters.
-- Times are milliseconds; a payload is its JSON text.
use all_service_api.Common.{ℕ, String, Bool, Option, List}

pub data EndpointStatus : Type 0 where
  active paused disabled : EndpointStatus

pub data CircuitState : Type 0 where
  closed opened half_open : CircuitState

pub data DeliveryStatus : Type 0 where
  pending success failed circuit_open : DeliveryStatus

pub record WebhookEndpoint : Type 0 where
  pub id : String
  pub url : String
  pub description : Option String
  pub secret : String
  pub event_types : List String
  pub status : EndpointStatus
  pub metadata : Option String
  pub created_by : String
  pub failure_count : ℕ
  pub last_failed_at : Option ℕ
  pub circuit_state : CircuitState
  pub circuit_opened_at : Option ℕ

pub record WebhookEvent : Type 0 where
  pub id : String
  pub endpoint_id : String
  pub event_type : String
  pub payload : String
  pub idempotency_key : String
  pub created_at : ℕ

pub record WebhookDelivery : Type 0 where
  pub id : String
  pub event_id : String
  pub attempt_number : ℕ
  pub status : DeliveryStatus
  pub http_status_code : Option ℕ
  pub request_headers : Option (List (String × String))
  pub response_body : Option String
  pub latency_ms : Option ℕ
  pub error_message : Option String
  pub created_at : ℕ

-- A job of the webhook queue, with the delay that it was added with.
pub record WebhookJob : Type 0 where
  pub event_id : String
  pub endpoint_id : String
  pub attempt_number : ℕ
  pub delay : ℕ

-- `metrics` has one entry for each increment of `webhookDeliveryTotal`, `alerts` one for each
-- exception that was reported.
pub record Webhooks : Type 0 where
  pub endpoints : List WebhookEndpoint
  pub events : List WebhookEvent
  pub deliveries : List WebhookDelivery
  pub jobs : List WebhookJob
  pub metrics : List Bool
  pub alerts : ℕ

-- src/config/webhook.config.ts
pub record WebhookConfig : Type 0 where
  pub max_retries : ℕ
  pub retry_base_delay_ms : ℕ
  pub retry_max_delay_ms : ℕ
  pub circuit_breaker_threshold : ℕ
  pub circuit_breaker_reset_ms : ℕ
  pub max_payload_bytes : ℕ
  pub retention_days : ℕ
