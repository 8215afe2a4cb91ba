-- ===== src/Webhook/Listener.antt =====
-- src/modules/webhook/webhook-events.listener.ts: a domain event becomes an event and a job for each
-- active endpoint that asked for it. The identifier and the key of an endpoint's event are drawn.
use all_service_api.Common.{
  if◌then◌else◌, or_else, M, pure, ◌>>=◌, ◌>>◌, modify, catch_with, ℕ, String, ◌&&◌, Option, List,
  [], ◌∷◌, ◌++◌, str_eq,
}
use all_service_api.Prisma.{Prisma}
use all_service_api.Webhook.State.{WebhookEndpoint, WebhookJob, Webhooks, WebhookConfig}
use all_service_api.Webhook.Service.{create_event, find_active_endpoints_for_event}

module _ (db : Prisma) (config : WebhookConfig) (byte_length : String → ℕ)
    (event_id event_key : (event_type endpoint_id : String) → String) where
  abbrev add_job : String → String → Webhooks → Webhooks
  add_job event endpoint s =
      let job : WebhookJob = record {
        event_id = event;
        endpoint_id = endpoint;
        attempt_number = 1;
        delay = 0;
      } in
      record s { jobs = s.jobs ++ job ∷ [] }

  -- The loop of `fanOut`: an event that is refused ends it.
  unfoldable pub fan_out_to : List WebhookEndpoint → String → String → ℕ → M Webhooks (Unit {0})
  fan_out_to [] event_type payload now = pure tt
  fan_out_to (endpoint ∷ rest) event_type payload now = do
    event ←
        create_event db config byte_length endpoint.id event_type payload
          (event_id event_type endpoint.id) (event_key event_type endpoint.id) now
    modify (add_job event.id endpoint.id)
    fan_out_to rest event_type payload now

  -- An error is logged and goes no further.
  unfoldable pub fan_out : String → String → ℕ → M Webhooks (Unit {0})
  unfolding fan_out_to
  fan_out event_type payload now s =
      catch_with
        (fan_out_to (find_active_endpoints_for_event db config event_type s) event_type payload now)
        (λ e. pure tt) s

  -- The event is one that a handler names, `payload` its JSON text by the type that it is stamped
  -- with. A change of status to WITHDRAWN is fanned out a second time, as a withdrawal.
  unfoldable pub on_event :
      String → Option String → (payload : String → String) → ℕ → M Webhooks (Unit {0})
  unfolding fan_out
  on_event event_type to_status payload now = do
    fan_out event_type (payload event_type) now
    (if str_eq event_type "career.application.status_changed"
          && str_eq (or_else to_status "") "WITHDRAWN"
        then fan_out "career.application.withdrawn" (payload "career.application.withdrawn") now
        else pure tt)
