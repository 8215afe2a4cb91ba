-- ===== src/Webhook/Processor/Frame.antt =====
-- What leaves the queue of jobs as it is.
use all_service_api.Common.{
  if◌then◌else◌, Option-cases, Failure, Result, ok, err, M, resume, ◌>>=◌, recover, ℕ, String, ◌≡◌,
  refl, ◌∙◌, inl, inr, Bool, true, false, Option, List,
}
use all_service_api.Prisma.{Prisma}
use all_service_api.Webhook.State.{
  WebhookDelivery, WebhookConfig, WebhookEndpoint, WebhookEvent, Webhooks,
}
use all_service_api.Webhook.CircuitBreaker.{
  has_id, update_endpoint_row, trip_if, should_trip, trip, count_failure, reset, reopen,
  record_success, record_failure, record_half_open_failure,
}
use all_service_api.Webhook.Service.{has_delivery_id, create_delivery, update_delivery}
use all_service_api.Webhook.Delivery.{
  headers_of, signature_header, mark_given_up, note_response, is_half_open, mark_settled, without,
  WebhookEnv, Attempt, FetchOutcome, threw, answered, timeout_or, deliver, conclude, settle,
  give_up, handle_failure,
}

-- A handler that adds no job.
abbrev pub AddsNone : {A : Type 0} → M Webhooks A → Type 0
AddsNone m = (s : Webhooks) → (m s).1.jobs ≡ s.jobs

pub resume-jobs :
    {A B : Type 0} (r : Result A × Webhooks) (k : A → M Webhooks B)
    → ((a : A) → AddsNone (k a))
    → (resume r k).1.jobs ≡ r.1.jobs
resume-jobs (ok a, s) k none_added = none_added a s
resume-jobs (err e, s) k none_added = refl

pub recover-jobs :
    {A : Type 0} (r : Result A × Webhooks) (k : Failure → M Webhooks A)
    → ((e : Failure) → AddsNone (k e))
    → (recover r k).1.jobs ≡ r.1.jobs
recover-jobs (ok a, s) k none_added = refl
recover-jobs (err e, s) k none_added = none_added e s

-- Two steps that add none.
bind-AddsNone :
    {A B : Type 0} (m : M Webhooks A) (k : A → M Webhooks B)
    → AddsNone m
    → ((a : A) → AddsNone (k a))
    → AddsNone (m >>= k)
bind-AddsNone m k none_added none_later s = resume-jobs (m s) k none_later ∙ none_added s

if-AddsNone :
    {A : Type 0} (b : Bool) (m n : M Webhooks A)
    → AddsNone m
    → AddsNone n
    → AddsNone (if b then m else n)
if-AddsNone true m n h k = h
if-AddsNone false m n h k = k

module _ (db : Prisma) (config : WebhookConfig) where
  row-AddsNone :
      (id : String) (change : WebhookEndpoint → WebhookEndpoint)
      → AddsNone (update_endpoint_row db config id change)
  row-AddsNone id change s = elim (Option-cases (db.update (has_id id) change s.endpoints)) [
    | inl e ↦ rw e refl
    | inr ((x, rows), e) ↦ rw e refl
  ]

  pub update_delivery-AddsNone :
      (id : String) (change : WebhookDelivery → WebhookDelivery)
      → AddsNone (update_delivery db config id change)
  unfolding update_delivery
  update_delivery-AddsNone id change s =
      elim (Option-cases (db.update (has_delivery_id id) change s.deliveries)) [
        | inl e ↦ rw e refl
        | inr ((x, rows), e) ↦ rw e refl
      ]

  trip_if-AddsNone : (b : Bool) (id : String) (now : ℕ) → AddsNone (trip_if db config b id now)
  trip_if-AddsNone false id now s = refl
  trip_if-AddsNone true id now s =
      bind-AddsNone (update_endpoint_row db config id (trip now)) _ (row-AddsNone id (trip now))
        (λ a s. refl) s

  record_failure-AddsNone : (id : String) (now : ℕ) → AddsNone (record_failure db config id now)
  unfolding record_failure
  record_failure-AddsNone id now =
      bind-AddsNone (update_endpoint_row db config id (count_failure now)) _
        (row-AddsNone id (count_failure now)) λ e. trip_if-AddsNone (should_trip db config e) id now

  record_success-AddsNone : (id : String) → AddsNone (record_success db config id)
  unfolding record_success
  record_success-AddsNone id =
      bind-AddsNone (update_endpoint_row db config id reset) _ (row-AddsNone id reset) λ a s. refl

  record_half_open_failure-AddsNone :
      (id : String) (now : ℕ) → AddsNone (record_half_open_failure db config id now)
  unfolding record_half_open_failure
  record_half_open_failure-AddsNone id now =
      bind-AddsNone (update_endpoint_row db config id (reopen now)) _ (row-AddsNone id (reopen now))
        λ a s. refl

module _ (env : WebhookEnv) where
  handle_failure-AddsNone :
      (endpoint : WebhookEndpoint) (now : ℕ) → AddsNone (handle_failure env endpoint now)
  unfolding handle_failure
  handle_failure-AddsNone endpoint now =
      if-AddsNone (is_half_open endpoint.circuit_state) _ _
        (record_half_open_failure-AddsNone env.db env.config endpoint.id now)
        (record_failure-AddsNone env.db env.config endpoint.id now)

  note_response-AddsNone :
      (endpoint : WebhookEndpoint) (now : ℕ) (is_ok : Bool)
      → AddsNone (note_response env endpoint now is_ok)
  unfolding note_response
  note_response-AddsNone endpoint now true s =
      record_success-AddsNone env.db env.config endpoint.id s
  note_response-AddsNone endpoint now false s = handle_failure-AddsNone endpoint now s

  settle-AddsNone :
      (endpoint : WebhookEndpoint) (headers : List (String × String)) (id : String)
      (attempt : Attempt) (is_ok : Bool) (status : ℕ) (body : Option String)
      → AddsNone (settle env endpoint headers id attempt is_ok status body)
  unfolding settle
  settle-AddsNone endpoint headers id attempt is_ok status body s =
      let change = mark_settled env headers attempt is_ok status body in
      resume-jobs (update_delivery env.db env.config id change s) _ (λ d t.
        resume-jobs (note_response env endpoint attempt.now is_ok t) _ (λ _ u. refl)
        ∙ note_response-AddsNone endpoint attempt.now is_ok t)
      ∙ update_delivery-AddsNone env.db env.config id change s

  give_up-AddsNone :
      (endpoint : WebhookEndpoint) (headers : List (String × String)) (id : String)
      (attempt : Attempt) (message : String)
      → AddsNone (give_up env endpoint headers id attempt message)
  unfolding give_up
  give_up-AddsNone endpoint headers id attempt message s =
      let change = mark_given_up env headers attempt message in
      resume-jobs (update_delivery env.db env.config id change s) _ (λ d t.
        resume-jobs (handle_failure env endpoint attempt.now t) _ (λ _ u. refl)
        ∙ handle_failure-AddsNone endpoint attempt.now t)
      ∙ update_delivery-AddsNone env.db env.config id change s

  conclude-AddsNone :
      (endpoint : WebhookEndpoint) (headers : List (String × String)) (id : String)
      (attempt : Attempt) (outcome : FetchOutcome)
      → AddsNone (conclude env endpoint headers id attempt outcome)
  conclude-AddsNone endpoint headers id attempt (threw message is_abort) s =
      give_up-AddsNone endpoint headers id attempt (timeout_or env is_abort message) s
  conclude-AddsNone endpoint headers id attempt (answered is_ok status body) s =
      recover-jobs (settle env endpoint headers id attempt is_ok status body s) _
        (λ e. give_up-AddsNone endpoint headers id attempt (env.message_of e))
      ∙ settle-AddsNone endpoint headers id attempt is_ok status body s

  pub deliver-AddsNone :
      (endpoint : WebhookEndpoint) (event : WebhookEvent) (n : ℕ) (outcome : FetchOutcome)
      (attempt : Attempt)
      → AddsNone (deliver env endpoint event n outcome attempt)
  unfolding deliver create_delivery
  deliver-AddsNone endpoint event n outcome attempt s =
      let (made, t) = create_delivery env.db env.config event.id n attempt.id attempt.now s in
      conclude-AddsNone endpoint
        (without signature_header (headers_of env endpoint event attempt.now)) attempt.id attempt
        outcome t
