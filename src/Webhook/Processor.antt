-- ===== src/Webhook/Processor.antt =====
-- src/queue/processors/webhook.processor.ts: what a job of the webhook queue does.
pub mod Frame
pub mod Retries
use all_service_api.Prisma.{Prisma}
use all_service_api.Webhook.State.{
  WebhookDelivery, circuit_open, WebhookEndpoint, WebhookEvent, WebhookJob, Webhooks,
}
use all_service_api.Webhook.CircuitBreaker.{is_disabled, should_deliver}
use all_service_api.Webhook.Service.{
  find_endpoint_by_id, find_event_by_id, create_delivery, update_delivery,
}
use all_service_api.Webhook.Delivery.{
  WebhookEnv, Attempt, FetchOutcome, DeliveryResult, deliver, calculate_retry_delay,
}
use all_service_api.Common.{
  ltb, if◌then◌else◌, Failure, err, M, pure, ◌>>=◌, ◌>>◌, modify, catch_with, ◌+◌, ◌*◌, Bool, false,
  not, ◌&&◌, some, [], ◌∷◌, ◌++◌,
}

abbrev pub record_metrics : Bool → M Webhooks (Unit {0})
record_metrics success = modify (λ s. record s { metrics = s.metrics ++ success ∷ [] })

abbrev pub report : Failure → M Webhooks Bool
report e s = (err e, record s { metrics = s.metrics ++ false ∷ []; alerts = s.alerts + 1 })

-- The delivery row of a job that the circuit breaker stops.
abbrev pub mark_skipped : WebhookDelivery → WebhookDelivery
mark_skipped d = record d { status = circuit_open; error_message = some "Circuit breaker is open" }

module _ (env : WebhookEnv) where
  unfoldable pub skip_open : WebhookJob → Attempt → M Webhooks Bool
  skip_open job attempt = do
    d ← create_delivery env.db env.config job.event_id job.attempt_number attempt.id attempt.now
    _ ← update_delivery env.db env.config d.id mark_skipped
    pure false

  -- `webhookQueue.add(RETRY, …)`
  abbrev pub schedule_retry : WebhookJob → Attempt → M Webhooks (Unit {0})
  schedule_retry job attempt = modify λ s.
      let retry : WebhookJob = record {
        event_id = job.event_id;
        endpoint_id = job.endpoint_id;
        attempt_number = job.attempt_number + 1;
        delay = calculate_retry_delay env job.attempt_number attempt.jitter;
      } in
      record s { jobs = s.jobs ++ retry ∷ [] }

  unfoldable pub attempt_delivery :
      WebhookJob → FetchOutcome → Attempt → WebhookEndpoint → WebhookEvent → M Webhooks Bool
  attempt_delivery job outcome attempt endpoint event = do
    result ← deliver env endpoint event job.attempt_number outcome attempt
    record_metrics result.success
    (if not result.success && ltb job.attempt_number env.config.max_retries
        then schedule_retry job attempt
        else pure tt)
    pure result.success

  abbrev pub handle :
      WebhookJob → FetchOutcome → Attempt → WebhookEndpoint → WebhookEvent → M Webhooks Bool
  handle job outcome attempt endpoint event =
      if is_disabled endpoint.status
      then pure false
      else if not (should_deliver endpoint)
      then skip_open job attempt
      else attempt_delivery job outcome attempt endpoint event

  -- The `try` block.
  unfoldable pub run : WebhookJob → FetchOutcome → Attempt → M Webhooks Bool
  unfolding skip_open attempt_delivery
  run job outcome attempt = do
    endpoint ← find_endpoint_by_id env.db env.config job.endpoint_id
    event ← find_event_by_id env.db env.config job.event_id
    handle job outcome attempt endpoint event

  unfoldable pub process : WebhookJob → FetchOutcome → Attempt → M Webhooks Bool
  unfolding run
  process job outcome attempt = catch_with (run job outcome attempt) report
