-- ===== src/Webhook/CircuitBreaker/Recovery.antt =====
-- What a success does to an endpoint whose circuit a failure has just opened.
use all_service_api.Prisma.{Prisma, update_if}
use all_service_api.Prisma.Keys.{
  HasUniqueKeys, only_row, IsOnly, find_first-IsOnly, find_first_of_mem, update-IsOnly,
}
use all_service_api.Webhook.State.{paused, closed, WebhookConfig, WebhookEndpoint, Webhooks}
use all_service_api.Webhook.CircuitBreaker.{
  has_id, is_open, update_endpoint_row, should_trip, trip, count_failure, reset, record_success,
  record_failure,
}
use all_service_api.Common.{
  All, All-lookup, All-tabulate, ok, ℕ, ◌+◌, ◌≤◌, ◌<◌, String, ◌≡◌, refl, true, false, some, map,
  Memᴰ, arith, str_eq, eq_iff, eq_refl,
}
use all_service_api.Webhook.CircuitBreaker.Stranded.{Calm, IsQuiet, IsStranded, Calm-IsStranded}

module _ (db : Prisma) (config : WebhookConfig) where
  -- An update of the one endpoint of an identifier.
  row_changed :
      (id : String) (change : WebhookEndpoint → WebhookEndpoint) (s : Webhooks)
      (e : WebhookEndpoint)
      → IsOnly (has_id id) s.endpoints e
      → update_endpoint_row db config id change s
        ≡ (ok (change e), record s { endpoints = map (update_if (has_id id) change) s.endpoints })
  row_changed id change s e only = rw (
      db.update_found (has_id id) change s.endpoints e
        (find_first-IsOnly db (has_id id) s.endpoints e only))

  -- A failure that opens the circuit, then a success.
  record_success-IsStranded :
      (s : Webhooks) (e : WebhookEndpoint) (now : ℕ)
      → HasUniqueKeys (λ (x : WebhookEndpoint). x.id) s.endpoints
      → Memᴰ e s.endpoints
      → is_open e.circuit_state ≡ false
      → config.circuit_breaker_threshold ≤ e.failure_count + 1
      → IsStranded e.id 0 (record_success db config e.id (record_failure db config e.id now s).1).1
  unfolding record_failure record_success
  record_success-IsStranded s e now unique m whole enough =
      let test = has_id e.id in
      let own : str_eq e.id e.id ≡ true = eq_refl e.id in
      let only0 : IsOnly test s.endpoints e = (
        m,
        own,
        λ x n p.
            only_row (λ (y : WebhookEndpoint). y.id) s.endpoints e x unique m n
              ((eq_iff x.id e.id).0 p),
      ) in
      let e1 = count_failure now e in
      let rows1 = map (update_if test (count_failure now)) s.endpoints in
      let only1 = update-IsOnly test (count_failure now) s.endpoints e only0 own in
      let t1 : Webhooks = record s { endpoints = rows1 } in
      let rows2 = map (update_if test (trip now)) rows1 in
      let only2 = update-IsOnly test (trip now) rows1 e1 only1 own in
      let t2 : Webhooks = record s { endpoints = rows2 } in
      let trips : should_trip db config e1 ≡ true = ground arith in
      let only3 = update-IsOnly test reset rows2 (trip now e1) only2 own in
      let failed : (record_failure db config e.id now s).1 ≡ t2 = rw (
        row_changed e.id (count_failure now) s e only0,
        trips,
        row_changed e.id (trip now) t1 e1 only1,
      ) in
      let e2 = reset (trip now e1) in
      let (m3, own3, alone) = only3 in
      let quiet : All (IsQuiet e.id 0) (map (update_if test reset) rows2) =
        All-tabulate (IsQuiet e.id 0) (map (update_if test reset) rows2) (λ x k mine.
          let same = alone x k ((eq_iff x.id e.id).1 mine) in rw same (refl, refl, omega arith)) in
      rw (failed, row_changed e.id reset t2 (trip now e1) only2) ((e2, m3, refl), quiet)

  -- A delivery that was under way when a failure opened the circuit, and then succeeds, closes the
  -- circuit but leaves the endpoint paused. So it stays through any further recorded successes and
  -- failures and any probes, while fewer failures of it are recorded than the threshold, none of
  -- them as that of a half-open circuit. The endpoints' identifiers are unique.
  pub success_after_trip :
      (s s3 : Webhooks) (e : WebhookEndpoint) (now n : ℕ)
      → HasUniqueKeys (λ (x : WebhookEndpoint). x.id) s.endpoints
      → Memᴰ e s.endpoints
      → is_open e.circuit_state ≡ false
      → config.circuit_breaker_threshold ≤ e.failure_count + 1
      → n < config.circuit_breaker_threshold
      → Calm db config e.id
          (record_success db config e.id (record_failure db config e.id now s).1).1
          n
          s3
      → (e3 : WebhookEndpoint) × (db.find_first (has_id e.id) s3.endpoints ≡ some e3)
        × (e3.status ≡ paused)
        × (e3.circuit_state ≡ closed)
  success_after_trip s s3 e now n unique m whole enough few calm =
      let (found, others) =
        Calm-IsStranded db config e.id calm few
          (record_success-IsStranded s e now unique m whole enough) in
      let (x, k, own) = found in
      let (e3, hit) =
        find_first_of_mem db (has_id e.id) s3.endpoints x k ((eq_iff x.id e.id).1 own) in
      let (k3, own3) = db.found (has_id e.id) s3.endpoints e3 hit in
      let (p, c, _) =
        All-lookup (IsQuiet e.id n) s3.endpoints others k3 ((eq_iff e3.id e.id).0 own3) in
      (e3, hit, p, c)
