-- ===== src/Webhook/CircuitBreaker/Soundness.antt =====
-- The circuit of an endpoint over any sequence of the operations on it.
use all_service_api.Common.{
  Option-cases, is_some, all, All, All-lookup, All-append, webhook_not_found,
  webhook_invalid_event_type, Failure, bad_request, not_found, Result, ok, err, M, pure, resume,
  require, some_or, ℕ, String, ◌≡◌, refl, inl, inr, Bool, true, false, not, Option, none, some,
  List, arith,
}
use all_service_api.Prisma.{Prisma}
use all_service_api.Prisma.Keys.{All-reject, All-update}
use all_service_api.Webhook.State.{CircuitState, closed, WebhookEndpoint, Webhooks, WebhookConfig}
use all_service_api.Webhook.CircuitBreaker.{
  trip, reopen, should_trip, half_opened, trip_if, is_due, count_failure, reset, has_id,
  update_endpoint_row, record_success, record_failure, record_half_open_failure,
  probe_open_circuits,
}
use all_service_api.Webhook.Service.{
  apply_changes, validate_new_types, is_known, validate_event_types, find_endpoint_by_id,
  CreateWebhookEndpointDto, UpdateWebhookEndpointDto, create_endpoint, update_endpoint,
  rotate_secret, delete_endpoint,
}

abbrev pub is_closed : CircuitState → Bool
is_closed closed = true
is_closed _ = false

-- A closed circuit has no opening time, and one that is open or half open has one.
abbrev pub IsSound : WebhookEndpoint → Type 0
IsSound e = is_some e.circuit_opened_at ≡ not (is_closed e.circuit_state)

-- One operation on the endpoints, by a worker or an administrator, in any order.
pub data Step (db : Prisma) (config : WebhookConfig) (s s' : Webhooks) : Type 0 where
  success : (id : String) → s' ≡ (record_success db config id s).1 → Step db config s s'
  failure :
      (id : String) (now : ℕ) → s' ≡ (record_failure db config id now s).1 → Step db config s s'
  half_open_failure :
      (id : String) (now : ℕ)
      → s' ≡ (record_half_open_failure db config id now s).1
      → Step db config s s'
  probe : (now : ℕ) → s' ≡ (probe_open_circuits db config now s).1 → Step db config s s'
  creation :
      (dto : CreateWebhookEndpointDto) (by id secret : String)
      → s' ≡ (create_endpoint db config dto by id secret s).1
      → Step db config s s'
  edit :
      (id : String) (dto : UpdateWebhookEndpointDto)
      → s' ≡ (update_endpoint db config id dto s).1
      → Step db config s s'
  rotation :
      (id secret : String) → s' ≡ (rotate_secret db config id secret s).1 → Step db config s s'
  deletion : (id : String) → s' ≡ (delete_endpoint db config id s).1 → Step db config s s'
  -- Whatever leaves the endpoints alone: events, deliveries, jobs.
  elsewhere : s'.endpoints ≡ s.endpoints → Step db config s s'

pub data Reach (db : Prisma) (config : WebhookConfig) (s : Webhooks) : Webhooks → Type 0 where
  here : Reach db config s s
  next : {t u : Webhooks} → Reach db config s t → Step db config t u → Reach db config s u

module _ (db : Prisma) (config : WebhookConfig) where
  update_endpoint_row-IsSound :
      (id : String) (change : WebhookEndpoint → WebhookEndpoint) (s : Webhooks)
      → ((e : WebhookEndpoint) → IsSound e → IsSound (change e))
      → All IsSound s.endpoints
      → All IsSound (update_endpoint_row db config id change s).1.endpoints
  update_endpoint_row-IsSound id change s keeps h =
      elim (Option-cases (db.find_first (has_id id) s.endpoints)) [
        | inl k ↦ rw (db.update_missing (has_id id) change s.endpoints k) h
        | inr (e, k) ↦ rw (db.update_found (has_id id) change s.endpoints e k) (
            All-update IsSound (has_id id) change s.endpoints
              (λ x m p. keeps x (All-lookup IsSound s.endpoints h m))
              λ x m p. All-lookup IsSound s.endpoints h m)
      ]

  -- A handler that keeps the circuits sound.
  abbrev Keeps : {A : Type 0} → M Webhooks A → Type 0
  Keeps m = (s : Webhooks) → All IsSound s.endpoints → All IsSound (m s).1.endpoints

  resume-IsSound :
      {A B : Type 0} (r : Result A × Webhooks) (k : A → M Webhooks B)
      → All IsSound r.1.endpoints
      → ((a : A) → Keeps (k a))
      → All IsSound (resume r k).1.endpoints
  resume-IsSound (ok a, s) k h keeps = keeps a s h
  resume-IsSound (err e, s) k h keeps = h

  require-Keeps : (b : Bool) (e : Failure) → Keeps (require b e)
  require-Keeps true e s h = h
  require-Keeps false e s h = h

  some_or-Keeps : {A : Type 0} (e : Failure) (o : Option A) → Keeps (some_or e o)
  some_or-Keeps e none s h = h
  some_or-Keeps e (some a) s h = h

  row-Keeps :
      (id : String) (change : WebhookEndpoint → WebhookEndpoint)
      → ((e : WebhookEndpoint) → IsSound e → IsSound (change e))
      → Keeps (update_endpoint_row db config id change)
  row-Keeps id change keeps s h = update_endpoint_row-IsSound id change s keeps h

  trip_if-Keeps : (b : Bool) (id : String) (now : ℕ) → Keeps (trip_if db config b id now)
  trip_if-Keeps false id now s h = h
  trip_if-Keeps true id now s h =
      resume-IsSound (update_endpoint_row db config id (trip now) s) (λ _. pure tt)
        (row-Keeps id (trip now) (λ e k. refl) s h) λ a t k. k

  record_failure-Keeps : (id : String) (now : ℕ) → Keeps (record_failure db config id now)
  unfolding record_failure
  record_failure-Keeps id now s h =
      resume-IsSound (update_endpoint_row db config id (count_failure now) s)
        (λ endpoint. trip_if db config (should_trip db config endpoint) id now)
        (row-Keeps id (count_failure now) (λ e k. k) s h)
        λ endpoint. trip_if-Keeps (should_trip db config endpoint) id now

  find-Keeps : (id : String) → Keeps (find_endpoint_by_id db config id)
  unfolding find_endpoint_by_id
  find-Keeps id s h =
      some_or-Keeps (not_found webhook_not_found) (db.find_first (has_id id) s.endpoints) s h

  validate_new_types-Keeps : (types : Option (List String)) → Keeps (validate_new_types types)
  unfolding validate_event_types
  validate_new_types-Keeps none s h = h
  validate_new_types-Keeps (some types) s h =
      require-Keeps (all is_known types) (bad_request webhook_invalid_event_type) s h

  update_endpoint-Keeps :
      (id : String) (dto : UpdateWebhookEndpointDto) → Keeps (update_endpoint db config id dto)
  unfolding update_endpoint
  update_endpoint-Keeps id dto s h =
      resume-IsSound (find_endpoint_by_id db config id s) _ (find-Keeps id s h) λ e t k.
        resume-IsSound (validate_new_types dto.event_types t) _
          (validate_new_types-Keeps dto.event_types t k)
          λ _ u l. row-Keeps id (apply_changes dto) (λ x m. m) u l

  rotate_secret-Keeps : (id secret : String) → Keeps (rotate_secret db config id secret)
  unfolding rotate_secret
  rotate_secret-Keeps id secret s h =
      resume-IsSound (find_endpoint_by_id db config id s) _ (find-Keeps id s h) λ e t k.
        resume-IsSound (update_endpoint_row db config id (λ x. record x { secret = secret }) t) _
          (row-Keeps id (λ x. record x { secret = secret }) (λ x m. m) t k) λ x u l. l

  delete_endpoint-Keeps : (id : String) → Keeps (delete_endpoint db config id)
  unfolding delete_endpoint
  delete_endpoint-Keeps id s h =
      resume-IsSound (find_endpoint_by_id db config id s) _ (find-Keeps id s h) λ e t k.
        rw (db.delete_many_lem (has_id id) t.endpoints)
          (All-reject IsSound (has_id id) t.endpoints k)

  create_endpoint-Keeps :
      (dto : CreateWebhookEndpointDto) (by id secret : String)
      → Keeps (create_endpoint db config dto by id secret)
  unfolding create_endpoint validate_event_types
  create_endpoint-Keeps dto by id secret s h =
      resume-IsSound
        (require (all is_known dto.event_types) (bad_request webhook_invalid_event_type) s) _
        (require-Keeps (all is_known dto.event_types) (bad_request webhook_invalid_event_type) s h)
        λ _ t k. rw (db.create_lem _ t.endpoints) (All-append IsSound t.endpoints _ k (refl, tt))

  probe-Keeps : (now : ℕ) → Keeps (probe_open_circuits db config now)
  unfolding probe_open_circuits
  probe-Keeps now s h = rw (db.update_many_lem (is_due db config now) half_opened s.endpoints) (
      All-update IsSound (is_due db config now) half_opened s.endpoints (λ x m p. ground arith)
        λ x m p. All-lookup IsSound s.endpoints h m)

  Step-IsSound :
      {s s' : Webhooks} → Step db config s s' → All IsSound s.endpoints → All IsSound s'.endpoints
  unfolding record_success record_half_open_failure
  Step-IsSound {s} (success id e) h = rw e (
      resume-IsSound (update_endpoint_row db config id reset s) (λ _. pure tt)
        (row-Keeps id reset (λ x k. refl) s h) λ a t k. k)
  Step-IsSound {s} (failure id now e) h = rw e (record_failure-Keeps id now s h)
  Step-IsSound {s} (half_open_failure id now e) h = rw e (
      resume-IsSound (update_endpoint_row db config id (reopen now) s) (λ _. pure tt)
        (row-Keeps id (reopen now) (λ x k. refl) s h) λ a t k. k)
  Step-IsSound {s} (probe now e) h = rw e (probe-Keeps now s h)
  Step-IsSound {s} (creation dto by id secret e) h =
      rw e (create_endpoint-Keeps dto by id secret s h)
  Step-IsSound {s} (edit id dto e) h = rw e (update_endpoint-Keeps id dto s h)
  Step-IsSound {s} (rotation id secret e) h = rw e (rotate_secret-Keeps id secret s h)
  Step-IsSound {s} (deletion id e) h = rw e (delete_endpoint-Keeps id s h)
  Step-IsSound (elsewhere e) h = rw e h

  -- Over any sequence of deliveries' outcomes, probes and edits, in any order, the circuit of every
  -- endpoint has an opening time exactly while it is not closed, if that holds at the start: so an
  -- open circuit always has the time that the probe goes by.
  pub Reach-IsSound :
      {s s' : Webhooks} → Reach db config s s' → All IsSound s.endpoints → All IsSound s'.endpoints
  Reach-IsSound here h = h
  Reach-IsSound (next r st) h = Step-IsSound st (Reach-IsSound r h)
