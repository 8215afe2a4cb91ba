-- ===== src/Webhook/Processor/Retries.antt =====
-- What a job adds to the queue, and when it sends no request.
use all_service_api.Common.{
  ltb, if◌then◌else◌, Bool-cases, Option-cases, Result, ok, err, pure, resume, ◌>>◌, recover, ◌+◌,
  ◌≤◌, ◌≡◌, refl, ap, ◌∙◌, ◌⊎◌, inl, inr, Bool, true, not, ◌&&◌, ◌||◌, some, List, [], ◌∷◌, ◌++◌,
  arith,
}
use all_service_api.Webhook.State.{WebhookEndpoint, WebhookEvent, WebhookJob, Webhooks}
use all_service_api.Webhook.CircuitBreaker.{is_open, has_id, is_disabled, should_deliver}
use all_service_api.Webhook.Service.{
  has_delivery_id, has_event_id, find_endpoint_by_id, find_event_by_id, create_delivery,
  update_delivery,
}
use all_service_api.Webhook.Delivery.{
  WebhookEnv, Attempt, FetchOutcome, DeliveryResult, deliver, calculate_retry_delay,
}
use all_service_api.Webhook.Processor.{
  handle, mark_skipped, record_metrics, skip_open, schedule_retry, attempt_delivery, run, report,
  process,
}
use all_service_api.Webhook.Processor.Frame.{
  AddsNone, resume-jobs, recover-jobs, update_delivery-AddsNone, deliver-AddsNone,
}

module _ (env : WebhookEnv) where
  -- The jobs are as they were, or one retry of the same event and endpoint was added, whose attempt
  -- is the next one and at most the last.
  abbrev pub AddsRetry : WebhookJob → Webhooks → Webhooks → Type 0
  AddsRetry job s s' =
      (s'.jobs ≡ s.jobs)
      ⊎ ((retry : WebhookJob) × (s'.jobs ≡ s.jobs ++ retry ∷ [])
          × (retry.event_id ≡ job.event_id)
          × (retry.endpoint_id ≡ job.endpoint_id)
          × (retry.attempt_number ≡ job.attempt_number + 1)
          × (retry.attempt_number ≤ env.config.max_retries)
          × (retry.delay ≤ env.config.retry_max_delay_ms))

  -- After a delivery: `result` is what it answered.
  after_delivery :
      (job : WebhookJob) (attempt : Attempt) (result : Result DeliveryResult × Webhooks)
      → AddsRetry job result.1
          (resume result λ r.
            (record_metrics r.success
              >> ((if not r.success && ltb job.attempt_number env.config.max_retries
                    then schedule_retry env job attempt
                    else pure tt)
                  >> pure r.success))).1
  unfolding calculate_retry_delay
  after_delivery job attempt (err e, s) = inl refl
  after_delivery job attempt (ok r, s) =
      elim (Bool-cases (not r.success && ltb job.attempt_number env.config.max_retries)) [
        | inr last ↦ rw last (inl refl)
        | inl retries ↦ rw retries (
            inr (
              record {
                event_id = job.event_id;
                endpoint_id = job.endpoint_id;
                attempt_number = job.attempt_number + 1;
                delay = calculate_retry_delay env job.attempt_number attempt.jitter;
              },
              refl,
              refl,
              refl,
              refl,
              ground arith,
              omega arith,
            ))
      ]

  AddsRetry-then_none :
      (job : WebhookJob) (s t u : Webhooks)
      → t.jobs ≡ s.jobs
      → AddsRetry job t u
      → AddsRetry job s u
  AddsRetry-then_none job s t u e (inl k) = inl (k ∙ e)
  AddsRetry-then_none job s t u e (inr (retry, k, a, b, c, d, f)) =
      inr (retry, k ∙ ap (λ (jobs : List WebhookJob). jobs ++ retry ∷ []) e, a, b, c, d, f)

  attempt_delivery-AddsRetry :
      (job : WebhookJob) (outcome : FetchOutcome) (attempt : Attempt) (endpoint : WebhookEndpoint)
      (event : WebhookEvent) (s : Webhooks)
      → AddsRetry job s (attempt_delivery env job outcome attempt endpoint event s).1
  unfolding attempt_delivery
  attempt_delivery-AddsRetry job outcome attempt endpoint event s =
      let result = deliver env endpoint event job.attempt_number outcome attempt s in
      AddsRetry-then_none job s result.1
        (attempt_delivery env job outcome attempt endpoint event s).1
        (deliver-AddsNone env endpoint event job.attempt_number outcome attempt s)
        (after_delivery job attempt result)

  skip_open-AddsNone : (job : WebhookJob) (attempt : Attempt) → AddsNone (skip_open env job attempt)
  unfolding skip_open create_delivery
  skip_open-AddsNone job attempt s =
      let (made, t) =
        create_delivery env.db env.config job.event_id job.attempt_number attempt.id attempt.now
          s in
      resume-jobs (update_delivery env.db env.config attempt.id mark_skipped t) _ (λ d u. refl)
      ∙ update_delivery-AddsNone env.db env.config attempt.id mark_skipped t

  recover-AddsRetry :
      (job : WebhookJob) (s : Webhooks) (r : Result Bool × Webhooks)
      → AddsRetry job s r.1
      → AddsRetry job s (recover r report).1
  recover-AddsRetry job s (ok b, t) h = h
  recover-AddsRetry job s (err e, t) h = h

  choose-AddsRetry :
      (job : WebhookJob) (outcome : FetchOutcome) (attempt : Attempt) (endpoint : WebhookEndpoint)
      (event : WebhookEvent) (s : Webhooks)
      → AddsRetry job s (handle env job outcome attempt endpoint event s).1
  choose-AddsRetry job outcome attempt endpoint event s =
      elim (Bool-cases (is_disabled endpoint.status)) [
        | inl stopped ↦ rw stopped (inl refl)
        | inr live ↦ elim (Bool-cases (should_deliver endpoint)) [
          | inr broken ↦ rw (live, broken) (inl (skip_open-AddsNone job attempt s))
          | inl passes ↦
              rw (live, passes) (attempt_delivery-AddsRetry job outcome attempt endpoint event s)
        ]
      ]

  -- Whatever becomes of a job, it leaves the queue as it was or adds one retry: of the same event and
  -- endpoint, numbered one higher and at most the configured maximum, with a delay of at most the
  -- configured one. So the attempts of an event end.
  pub process_retries :
      (job : WebhookJob) (outcome : FetchOutcome) (attempt : Attempt) (s : Webhooks)
      → AddsRetry job s (process env job outcome attempt s).1
  unfolding process run find_endpoint_by_id find_event_by_id
  process_retries job outcome attempt s =
      recover-AddsRetry job s (run env job outcome attempt s)
        (elim (Option-cases (env.db.find_first (has_id job.endpoint_id) s.endpoints)) [
          | inl e ↦ rw e (inl refl)
          | inr (endpoint, e) ↦
              elim (Option-cases (env.db.find_first (has_event_id job.event_id) s.events)) [
                | inl k ↦ rw (e, k) (inl refl)
                | inr (event, k) ↦ rw (e, k) (choose-AddsRetry job outcome attempt endpoint event s)
              ]
        ])

  skipped-jobs :
      (job : WebhookJob) (attempt : Attempt) (s : Webhooks)
      → (recover (skip_open env job attempt s) report).1.jobs ≡ s.jobs
  skipped-jobs job attempt s =
      recover-jobs (skip_open env job attempt s) report (λ e t. refl)
      ∙ skip_open-AddsNone job attempt s

  recover-endpoints : (r : Result Bool × Webhooks) → (recover r report).1.endpoints ≡ r.1.endpoints
  recover-endpoints (ok b, t) = refl
  recover-endpoints (err e, t) = refl

  skipped-endpoints :
      (job : WebhookJob) (attempt : Attempt) (s : Webhooks)
      → (recover (skip_open env job attempt s) report).1.endpoints ≡ s.endpoints
  unfolding skip_open create_delivery update_delivery
  skipped-endpoints job attempt s =
      let (made, t) =
        create_delivery env.db env.config job.event_id job.attempt_number attempt.id attempt.now
          s in
      recover-endpoints (skip_open env job attempt s)
      ∙ elim (Option-cases (env.db.update (has_delivery_id attempt.id) mark_skipped t.deliveries)) [
        | inl e ↦ rw e refl
        | inr ((x, rows), e) ↦ rw e refl
      ]

  -- A job of an endpoint that is disabled or whose circuit is open delivers nothing: what a request
  -- would answer plays no part, and the endpoints and the queue stay as they are.
  pub process_skips :
      (job : WebhookJob) (outcome other : FetchOutcome) (attempt : Attempt) (s : Webhooks)
      (endpoint : WebhookEndpoint)
      → env.db.find_first (has_id job.endpoint_id) s.endpoints ≡ some endpoint
      → (is_disabled endpoint.status || is_open endpoint.circuit_state) ≡ true
      → (process env job outcome attempt s ≡ process env job other attempt s)
        × ((process env job outcome attempt s).1.jobs ≡ s.jobs)
        × ((process env job outcome attempt s).1.endpoints ≡ s.endpoints)
  unfolding process run find_endpoint_by_id find_event_by_id should_deliver
  process_skips job outcome other attempt s endpoint e stopped =
      elim (Option-cases (env.db.find_first (has_event_id job.event_id) s.events)) [
        | inl k ↦ rw (e, k) (refl, refl, refl)
        | inr (event, k) ↦ elim (Bool-cases (is_disabled endpoint.status)) [
          | inl off ↦ rw (e, k, off) (refl, refl, refl)
          | inr on ↦
              let broken : is_open endpoint.circuit_state ≡ true = ground arith in
              rw (e, k, on, broken)
                (refl, skipped-jobs job attempt s, skipped-endpoints job attempt s)
        ]
      ]
