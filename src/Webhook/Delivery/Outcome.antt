-- ===== src/Webhook/Delivery/Outcome.antt =====
-- What an attempt to deliver leaves behind.
use all_service_api.Common.{
  if◌then◌else◌, Bool-cases, All, Result, ok, M, pure, ◌>>=◌, recover, ℕ, String, ◌≡◌, refl, sym,
  ap, ◌∙◌, subst, inl, inr, Bool, true, false, Option, some, List, [], ◌∷◌, ◌++◌, map, str_eq,
  eq_refl,
}
use all_service_api.Prisma.{Prisma, update_if}
use all_service_api.Prisma.Keys.{
  IsOnly, find_first-IsOnly, update-IsOnly, mem_last, only-append, find_first_of_mem, mem-update,
}
use all_service_api.Webhook.State.{
  failed, WebhookEvent, WebhookDelivery, WebhookConfig, WebhookEndpoint, Webhooks,
}
use all_service_api.Webhook.CircuitBreaker.{
  has_id, update_endpoint_row, trip_if, should_trip, trip, count_failure, reset, reopen,
  record_success, record_failure, record_half_open_failure,
}
use all_service_api.Webhook.Delivery.{
  without, signature_header, success, timeout_or, headers_of, conclude, mark_given_up, mark_settled,
  threw, answered, DeliveryResult, deliver, Attempt, FetchOutcome, give_up, settle, WebhookEnv,
  handle_failure, note_response, is_half_open,
}
use all_service_api.Webhook.Service.{
  new_delivery, has_delivery_id, create_delivery, update_delivery,
}

-- A handler that returns, and leaves the deliveries alone.
abbrev Returns : M Webhooks (Unit {0}) → Webhooks → Type 0
Returns m s = (t : Webhooks) × (m s ≡ (ok tt, t)) × (t.deliveries ≡ s.deliveries)

module _ (db : Prisma) (config : WebhookConfig) (id : String) where
  abbrev IsThere : Webhooks → Type 0
  IsThere s = (e : WebhookEndpoint) × (db.find_first (has_id id) s.endpoints ≡ some e)

  row_found :
      (change : WebhookEndpoint → WebhookEndpoint) (s : Webhooks)
      → ((e : WebhookEndpoint) → (change e).id ≡ e.id)
      → IsThere s
      → (e : WebhookEndpoint) × (t : Webhooks) × (update_endpoint_row db config id change s
          ≡ (ok e, t))
        × (t.deliveries ≡ s.deliveries)
        × IsThere t
  row_found change s same (e, k) =
      let rows = map (update_if (has_id id) change) s.endpoints in
      let (m, p) = db.found (has_id id) s.endpoints e k in
      let passes : has_id id (update_if (has_id id) change e) ≡ true = rw (p, same e) p in
      (
        change e,
        record s { endpoints = rows },
        rw (db.update_found (has_id id) change s.endpoints e k),
        refl,
        find_first_of_mem db (has_id id) rows (update_if (has_id id) change e)
            (mem-update (has_id id) change s.endpoints e m) passes,
      )

  done :
      (change : WebhookEndpoint → WebhookEndpoint) (s : Webhooks)
      → ((e : WebhookEndpoint) → (change e).id ≡ e.id)
      → IsThere s
      → Returns (update_endpoint_row db config id change >>= λ _. pure tt) s
  done change s same h = let (e, t, k, d, _) = row_found change s same h in (t, rw k refl, d)

  trip_if-Returns :
      (b : Bool) (now : ℕ) (s : Webhooks) → IsThere s → Returns (trip_if db config b id now) s
  trip_if-Returns false now s h = (s, refl, refl)
  trip_if-Returns true now s h = done (trip now) s (λ e. refl) h

  record_failure-Returns :
      (now : ℕ) (s : Webhooks) → IsThere s → Returns (record_failure db config id now) s
  unfolding record_failure
  record_failure-Returns now s h =
      let (e, t, k, d, h') = row_found (count_failure now) s (λ x. refl) h in
      let (u, k', d') = trip_if-Returns (should_trip db config e) now t h' in
      (u, rw (k, k') refl, d' ∙ d)

module _ (env : WebhookEnv) where
  handle_failure-Returns :
      (endpoint : WebhookEndpoint) (now : ℕ) (s : Webhooks)
      → IsThere env.db env.config endpoint.id s
      → Returns (handle_failure env endpoint now) s
  unfolding handle_failure record_half_open_failure
  handle_failure-Returns endpoint now s h =
      elim (Bool-cases (is_half_open endpoint.circuit_state)) [
        | inl half ↦ rw half (done env.db env.config endpoint.id (reopen now) s (λ e. refl) h)
        | inr whole ↦ rw whole (record_failure-Returns env.db env.config endpoint.id now s h)
      ]

  note_response-Returns :
      (endpoint : WebhookEndpoint) (now : ℕ) (is_ok : Bool) (s : Webhooks)
      → IsThere env.db env.config endpoint.id s
      → Returns (note_response env endpoint now is_ok) s
  unfolding note_response record_success
  note_response-Returns endpoint now true s h =
      done env.db env.config endpoint.id reset s (λ e. refl) h
  note_response-Returns endpoint now false s h = handle_failure-Returns endpoint now s h

  -- The row of the attempt, alone with its identifier, and the endpoint's row.
  abbrev IsReady : WebhookEndpoint → Attempt → WebhookDelivery → Webhooks → Type 0
  IsReady endpoint attempt row s =
      IsThere env.db env.config endpoint.id s × IsOnly (has_delivery_id attempt.id) s.deliveries row

  -- The row of the attempt after an update of it.
  marked :
      (endpoint : WebhookEndpoint) (attempt : Attempt) (row : WebhookDelivery) (s : Webhooks)
      (change : WebhookDelivery → WebhookDelivery)
      → IsReady endpoint attempt row s
      → has_delivery_id attempt.id (change row) ≡ true
      → (t : Webhooks) × (update_delivery env.db env.config attempt.id change s
          ≡ (ok (change row), t))
        × (t.endpoints ≡ s.endpoints)
        × (env.db.find_first (has_delivery_id attempt.id) t.deliveries ≡ some (change row))
  unfolding update_delivery
  marked endpoint attempt row s change (h, only) q =
      let test = has_delivery_id attempt.id in
      let rows = map (update_if test change) s.deliveries in
      (
        record s { deliveries = rows },
        rw (
            env.db.update_found test change s.deliveries row
              (find_first-IsOnly env.db test s.deliveries row only)),
        refl,
        find_first-IsOnly env.db test rows (change row)
            (update-IsOnly test change s.deliveries row only q),
      )

  -- What holds after an attempt: it returned, and its row says how it went.
  abbrev pub IsRecorded :
      List (String × String) → Attempt → Bool → Result DeliveryResult × Webhooks → Type 0
  IsRecorded headers attempt accepted (result, s) =
      (r : DeliveryResult) × (d : WebhookDelivery) × (result ≡ ok r)
      × (env.db.find_first (has_delivery_id attempt.id) s.deliveries ≡ some d)
      × (d.status ≡ (if accepted then success else failed))
      × (r.success ≡ accepted)
      × (d.request_headers ≡ some headers)

  settle-IsRecorded :
      (endpoint : WebhookEndpoint) (headers : List (String × String)) (attempt : Attempt)
      (is_ok : Bool) (status : ℕ) (body : Option String) (row : WebhookDelivery) (s : Webhooks)
      → IsReady endpoint attempt row s
      → IsRecorded headers attempt is_ok (
          recover
            (settle env endpoint headers attempt.id attempt is_ok status body s)
            λ e. give_up env endpoint headers attempt.id attempt (env.message_of e))
  unfolding settle
  settle-IsRecorded endpoint headers attempt is_ok status body row s (h, only) =
      let change = mark_settled env headers attempt is_ok status body in
      let (t, e, same, found) = marked endpoint attempt row s change (h, only) only.1 in
      let there : IsThere env.db env.config endpoint.id t =
        (h.0, ap (env.db.find_first (has_id endpoint.id)) same ∙ h.1) in
      let (u, k, d) = note_response-Returns endpoint attempt.now is_ok t there in
      rw (e, k)
        (
          _,
          change row,
          refl,
          ap (env.db.find_first (has_delivery_id attempt.id)) d ∙ found,
          refl,
          refl,
          refl,
        )

  give_up-IsRecorded :
      (endpoint : WebhookEndpoint) (headers : List (String × String)) (attempt : Attempt)
      (message : String) (row : WebhookDelivery) (s : Webhooks)
      → IsReady endpoint attempt row s
      → IsRecorded headers attempt false (give_up env endpoint headers attempt.id attempt message s)
  unfolding give_up
  give_up-IsRecorded endpoint headers attempt message row s (h, only) =
      let change = mark_given_up env headers attempt message in
      let (t, e, same, found) = marked endpoint attempt row s change (h, only) only.1 in
      let there : IsThere env.db env.config endpoint.id t =
        (h.0, ap (env.db.find_first (has_id endpoint.id)) same ∙ h.1) in
      let (u, k, d) = handle_failure-Returns endpoint attempt.now t there in
      rw (e, k)
        (
          _,
          change row,
          refl,
          ap (env.db.find_first (has_delivery_id attempt.id)) d ∙ found,
          refl,
          refl,
          refl,
        )

  -- Whether the endpoint accepted the event.
  abbrev pub accepted : FetchOutcome → Bool
  accepted (answered is_ok status body) = is_ok
  accepted (threw message is_abort) = false

  conclude-IsRecorded :
      (endpoint : WebhookEndpoint) (headers : List (String × String)) (attempt : Attempt)
      (outcome : FetchOutcome) (row : WebhookDelivery) (s : Webhooks)
      → IsReady endpoint attempt row s
      → IsRecorded headers attempt
          (accepted outcome)
          (conclude env endpoint headers attempt.id attempt outcome s)
  conclude-IsRecorded endpoint headers attempt (answered is_ok status body) row s h =
      settle-IsRecorded endpoint headers attempt is_ok status body row s h
  conclude-IsRecorded endpoint headers attempt (threw message is_abort) row s h =
      give_up-IsRecorded endpoint headers attempt (timeout_or env is_abort message) row s h

  -- An attempt to deliver to an endpoint that is there returns, whatever the request does. Its row,
  -- whose identifier is new, is never left pending: it says success exactly when the endpoint
  -- accepted, as the result does, and the headers that it keeps have no signature.
  pub deliver-IsRecorded :
      (endpoint : WebhookEndpoint) (event : WebhookEvent) (n : ℕ) (outcome : FetchOutcome)
      (attempt : Attempt) (s : Webhooks) (e : WebhookEndpoint)
      → env.db.find_first (has_id endpoint.id) s.endpoints ≡ some e
      → All (λ d. has_delivery_id attempt.id d ≡ false) s.deliveries
      → (headers : List (String × String)) × IsRecorded headers attempt
          (accepted outcome)
          (deliver env endpoint event n outcome attempt s)
        × All (λ h. str_eq h.0 signature_header ≡ false) headers
  unfolding deliver create_delivery headers_of
  deliver-IsRecorded endpoint event n outcome attempt s e there fresh =
      let (made, t) = create_delivery env.db env.config event.id n attempt.id attempt.now s in
      let row = new_delivery event.id n attempt.id attempt.now in
      let headers = without signature_header (headers_of env endpoint event attempt.now) in
      let rows : t.deliveries ≡ s.deliveries ++ row ∷ [] = env.db.create_lem row s.deliveries in
      let test = has_delivery_id attempt.id in
      let ready : IsReady endpoint attempt row t = (
        (e, there),
        subst (λ (ds : List WebhookDelivery). IsOnly test ds row) (sym rows)
            (
              mem_last s.deliveries row,
              eq_refl attempt.id,
              only-append test s.deliveries row fresh,
            ),
      ) in
      (
        headers,
        conclude-IsRecorded endpoint headers attempt outcome row t ready,
        (refl, (refl, (refl, (refl, (refl, tt))))),
      )
