-- ===== src/Webhook/Delivery.antt =====
-- src/modules/webhook/webhook-delivery.service.ts: one attempt to deliver an event.
pub mod Outcome
use all_service_api.Prisma.{Prisma}
use all_service_api.Webhook.State.{
  success, failed, half_open, CircuitState, WebhookEndpoint, WebhookEvent, WebhookDelivery,
  Webhooks, WebhookConfig,
}
use all_service_api.Webhook.CircuitBreaker.{
  record_success, record_failure, record_half_open_failure,
}
use all_service_api.Webhook.Service.{create_delivery, update_delivery}
use all_service_api.Webhook.Signing.{SigningEnv, sign}
use all_service_api.Common.{
  ltb, if◌then◌else◌, Failure, M, pure, throw, ◌>>=◌, ◌>>◌, catch_with, ℕ, ◌+◌, ◌-◌, ◌*◌, ◌^◌, min,
  String, Bool, true, false, Option, none, some, List, [], ◌∷◌, str_eq,
}
use all_service_api.Redis.{join}

abbrev pub response_body_max_length : ℕ
response_body_max_length = 4096

pub record DeliveryResult : Type 0 where
  pub success : Bool
  pub delivery_id : String
  pub http_status_code : Option ℕ
  pub latency_ms : ℕ
  pub error_message : Option String

-- What `fetch` answers: a response, with its body unless reading it fails, or a throw.
pub data FetchOutcome : Type 0 where
  answered : (is_ok : Bool) (status : ℕ) (body : Option String) → FetchOutcome
  threw : (message : String) (is_abort : Bool) → FetchOutcome

-- The services underneath; `slice n` is `slice(0, n)` and `message_of` an exception's message.
pub record WebhookEnv : Type 1 where
  pub db : Prisma
  pub config : WebhookConfig
  pub signing : SigningEnv
  pub slice : ℕ → String → String
  pub message_of : Failure → String

-- What an attempt draws: the row's identifier, the time, the latency, the delay's random part.
pub record Attempt : Type 0 where
  pub id : String
  pub now : ℕ
  pub latency : ℕ
  pub jitter : ℕ

abbrev pub signature_header : String
signature_header = "x-allservices-signature"

-- `delete headers[name]`
abbrev pub without : String → List (String × String) → List (String × String)
without name [] = []
without name ((key, value) ∷ rest) =
    let later = without name rest in if str_eq key name then later else (key, value) ∷ later

abbrev pub is_half_open : CircuitState → Bool
is_half_open half_open = true
is_half_open _ = false

module _ (env : WebhookEnv) where
  unfoldable pub headers_of : WebhookEndpoint → WebhookEvent → ℕ → List (String × String)
  headers_of endpoint event now =
      let signed = sign env.signing event.payload endpoint.secret now in
      ("Content-Type", "application/json")
      ∷ ("User-Agent", "AllServices-Webhook/1.0")
      ∷ (signature_header, signed.signature)
      ∷ ("x-allservices-timestamp", signed.timestamp)
      ∷ ("x-allservices-event-id", event.id)
      ∷ ("x-allservices-event-type", event.event_type)
      ∷ []

  -- `base * 2 ** (attemptNumber - 1) + jitter`, at most the maximum. Rounding a whole number with a
  -- fraction added is adding the rounded fraction, so `jitter` is the random part, rounded.
  unfoldable pub calculate_retry_delay : ℕ → ℕ → ℕ
  calculate_retry_delay attempt_number jitter =
      min (env.config.retry_base_delay_ms * 2 ^ (attempt_number - 1) + jitter)
        env.config.retry_max_delay_ms

  unfoldable pub handle_failure : WebhookEndpoint → ℕ → M Webhooks (Unit {0})
  handle_failure endpoint now =
      if is_half_open endpoint.circuit_state
      then record_half_open_failure env.db env.config endpoint.id now
      else record_failure env.db env.config endpoint.id now

  abbrev pub read_response_body : Option String → Option String
  read_response_body none = none
  read_response_body (some text) =
      if ltb response_body_max_length (env.signing.units text)
      then some (env.slice response_body_max_length text)
      else some text

  abbrev pub http_error : Bool → ℕ → Option String
  http_error is_ok status =
      if is_ok then none else some (join ("HTTP " ∷ env.signing.show status ∷ []))

  abbrev pub timeout_or : Bool → String → String
  timeout_or is_abort message = if is_abort then "Request timed out" else message

  -- What the `try` block and the `catch` block write to the delivery's row.
  abbrev pub mark_settled :
      List (String × String)
      → Attempt
      → Bool
      → ℕ
      → Option String
      → WebhookDelivery
      → WebhookDelivery
  mark_settled request_headers attempt is_ok status body d = record d {
    status = if is_ok then success else failed;
    http_status_code = some status;
    request_headers = some request_headers;
    response_body = read_response_body body;
    latency_ms = some attempt.latency;
    error_message = http_error is_ok status;
  }

  abbrev pub mark_given_up :
      List (String × String) → Attempt → String → WebhookDelivery → WebhookDelivery
  mark_given_up request_headers attempt message d = record d {
    status = failed;
    http_status_code = none;
    request_headers = some request_headers;
    response_body = none;
    latency_ms = some attempt.latency;
    error_message = some message;
  }

  unfoldable pub note_response : WebhookEndpoint → ℕ → Bool → M Webhooks (Unit {0})
  unfolding handle_failure
  note_response endpoint now is_ok =
      if is_ok then record_success env.db env.config endpoint.id else handle_failure endpoint now

  -- The `try` block after the response.
  unfoldable pub settle :
      WebhookEndpoint
      → List (String × String)
      → String
      → Attempt
      → Bool
      → ℕ
      → Option String
      → M Webhooks DeliveryResult
  unfolding note_response
  settle endpoint request_headers delivery_id attempt is_ok status body = do
    _ ←
        update_delivery env.db env.config delivery_id
          (mark_settled request_headers attempt is_ok status body)
    note_response endpoint attempt.now is_ok
    pure (record {
      success = is_ok;
      delivery_id = delivery_id;
      http_status_code = some status;
      latency_ms = attempt.latency;
      error_message = http_error is_ok status;
    })

  -- The `catch` block.
  unfoldable pub give_up :
      WebhookEndpoint
      → List (String × String)
      → String
      → Attempt
      → String
      → M Webhooks DeliveryResult
  unfolding handle_failure
  give_up endpoint request_headers delivery_id attempt message = do
    _ ←
        update_delivery env.db env.config delivery_id
          (mark_given_up request_headers attempt message)
    handle_failure endpoint attempt.now
    pure (record {
      success = false;
      delivery_id = delivery_id;
      http_status_code = none;
      latency_ms = attempt.latency;
      error_message = some message;
    })

  abbrev pub conclude :
      WebhookEndpoint
      → List (String × String)
      → String
      → Attempt
      → FetchOutcome
      → M Webhooks DeliveryResult
  conclude endpoint request_headers delivery_id attempt (threw message is_abort) =
      give_up endpoint request_headers delivery_id attempt (timeout_or is_abort message)
  conclude endpoint request_headers delivery_id attempt (answered is_ok status body) =
      catch_with (settle endpoint request_headers delivery_id attempt is_ok status body)
        λ e. give_up endpoint request_headers delivery_id attempt (env.message_of e)

  unfoldable pub deliver :
      WebhookEndpoint → WebhookEvent → ℕ → FetchOutcome → Attempt → M Webhooks DeliveryResult
  unfolding headers_of
  deliver endpoint event attempt_number outcome attempt = do
    delivery ← create_delivery env.db env.config event.id attempt_number attempt.id attempt.now
    let request_headers = without signature_header (headers_of endpoint event attempt.now)
    conclude endpoint request_headers delivery.id attempt outcome
