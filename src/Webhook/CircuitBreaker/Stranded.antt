-- ===== src/Webhook/CircuitBreaker/Stranded.antt =====
-- An endpoint that is paused while its circuit is closed, over what workers and probes do.
use all_service_api.Prisma.{Prisma, update_if}
use all_service_api.Prisma.Keys.{All-update, mem-update}
use all_service_api.Webhook.State.{paused, closed, WebhookConfig, WebhookEndpoint, Webhooks}
use all_service_api.Webhook.CircuitBreaker.{
  has_id, is_due, update_endpoint_row, should_trip, trip_if, trip, count_failure, reset, reopen,
  half_opened, record_success, record_failure, record_half_open_failure, probe_open_circuits,
}
use all_service_api.Common.{
  Bool-cases, Option-cases, All, All-lookup, All-tabulate, Result, ok, err, M, pure, resume, ℕ, ◌+◌,
  ◌≤◌, ◌<◌, String, ◌≡◌, refl, sym, ◌∙◌, ◌≢◌, inl, inr, Bool, true, false, map, Memᴰ, arith, eq_iff,
}

-- A sequence of recorded outcomes and probes, with so many failures of the endpoint, none of them
-- recorded as that of a half-open circuit.
pub data Calm (db : Prisma) (config : WebhookConfig) (id : String) (s : Webhooks)
    : ℕ → Webhooks → Type 0 where
  start : Calm db config id s 0 s
  success :
      {n : ℕ} {t u : Webhooks} (other : String)
      → Calm db config id s n t
      → u ≡ (record_success db config other t).1
      → Calm db config id s n u
  failure :
      {n : ℕ} {t u : Webhooks} (now : ℕ)
      → Calm db config id s n t
      → u ≡ (record_failure db config id now t).1
      → Calm db config id s (n + 1) u
  other_failure :
      {n : ℕ} {t u : Webhooks} (other : String) (now : ℕ)
      → other ≢ id
      → Calm db config id s n t
      → u ≡ (record_failure db config other now t).1
      → Calm db config id s n u
  half_open_failure :
      {n : ℕ} {t u : Webhooks} (other : String) (now : ℕ)
      → other ≢ id
      → Calm db config id s n t
      → u ≡ (record_half_open_failure db config other now t).1
      → Calm db config id s n u
  probe :
      {n : ℕ} {t u : Webhooks} (now : ℕ)
      → Calm db config id s n t
      → u ≡ (probe_open_circuits db config now t).1
      → Calm db config id s n u

-- If the row has the identifier, it is paused with a closed circuit and has counted at most so many
-- failures.
abbrev pub IsQuiet : String → ℕ → WebhookEndpoint → Type 0
IsQuiet id n e =
    e.id ≡ id → (e.status ≡ paused) × (e.circuit_state ≡ closed) × (e.failure_count ≤ n)

-- A row has the identifier, and every row is quiet.
abbrev pub IsStranded : String → ℕ → Webhooks → Type 0
IsStranded id n s =
    ((e : WebhookEndpoint) × Memᴰ e s.endpoints × (e.id ≡ id)) × All (IsQuiet id n) s.endpoints

IsQuiet-later :
    (id : String) (n k : ℕ) (e : WebhookEndpoint) → n ≤ k → IsQuiet id n e → IsQuiet id k e
IsQuiet-later id n k e le q own = let (p, c, few) = q own in (p, c, omega arith)

IsStranded-map :
    (id : String) (n k : ℕ) (test : WebhookEndpoint → Bool)
    (change : WebhookEndpoint → WebhookEndpoint) (s : Webhooks)
    → n ≤ k
    → ((e : WebhookEndpoint) → (change e).id ≡ e.id)
    → ((e : WebhookEndpoint) → test e ≡ true → IsQuiet id n e → IsQuiet id k (change e))
    → IsStranded id n s
    → IsStranded id k (record s { endpoints = map (update_if test change) s.endpoints })
IsStranded-map id n k test change s le same hit ((e, m, own), h) = (
  (
    update_if test change e,
    mem-update test change s.endpoints e m,
    elim (Bool-cases (test e)) [ inl p ↦ rw p (same e ∙ own) | inr p ↦ rw p own ],
  ),
  All-update (IsQuiet id k) test change s.endpoints
      (λ x m p. hit x p (All-lookup (IsQuiet id n) s.endpoints h m))
      λ x m p. IsQuiet-later id n k x le (All-lookup (IsQuiet id n) s.endpoints h m),
)

module _ (db : Prisma) (config : WebhookConfig) (id : String) where
  row-IsStranded :
      (n : ℕ) (other : String) (change : WebhookEndpoint → WebhookEndpoint) (s : Webhooks)
      → ((e : WebhookEndpoint) → (change e).id ≡ e.id)
      → ((e : WebhookEndpoint) → e.id ≡ other → IsQuiet id n e → IsQuiet id n (change e))
      → IsStranded id n s
      → IsStranded id n (update_endpoint_row db config other change s).1
  row-IsStranded n other change s same hit h =
      elim (Option-cases (db.find_first (has_id other) s.endpoints)) [
        | inl k ↦ rw (db.update_missing (has_id other) change s.endpoints k) h
        | inr (e, k) ↦ rw (db.update_found (has_id other) change s.endpoints e k) (
            IsStranded-map id n n (has_id other) change s (omega arith) same
              (λ x p. hit x ((eq_iff x.id other).0 p)) h)
      ]

  -- What touches only the rows of another identifier.
  other-IsStranded :
      (n : ℕ) (other : String) (change : WebhookEndpoint → WebhookEndpoint) (s : Webhooks)
      → other ≢ id
      → ((e : WebhookEndpoint) → (change e).id ≡ e.id)
      → IsStranded id n s
      → IsStranded id n (update_endpoint_row db config other change s).1
  other-IsStranded n other change s ne same h =
      row-IsStranded n other change s same
        (λ e is_other q own. absurd (ne (sym is_other ∙ sym (same e) ∙ own))) h

  failure-IsStranded :
      (n now : ℕ) (s : Webhooks)
      → n + 1 < config.circuit_breaker_threshold
      → IsStranded id n s
      → IsStranded id (n + 1) (record_failure db config id now s).1
  unfolding record_failure
  failure-IsStranded n now s few h = elim (Option-cases (db.find_first (has_id id) s.endpoints)) [
    | inl k ↦
        let later : IsStranded id (n + 1) s = (
          h.0,
          All-tabulate (IsQuiet id (n + 1)) s.endpoints (λ x m.
              IsQuiet-later id n (n + 1) x (omega arith)
                (All-lookup (IsQuiet id n) s.endpoints h.1 m)),
        ) in
        rw (db.update_missing (has_id id) (count_failure now) s.endpoints k) later
    | inr (e, k) ↦
        let (m, p) = db.found (has_id id) s.endpoints e k in
        let (_, whole, low) = All-lookup (IsQuiet id n) s.endpoints h.1 m ((eq_iff e.id id).0 p) in
        let stays : should_trip db config (count_failure now e) ≡ false = ground arith in
        rw (db.update_found (has_id id) (count_failure now) s.endpoints e k, stays)
          (IsStranded-map id n (n + 1) (has_id id) (count_failure now) s (omega arith) (λ x. refl)
            (λ x hit q own. let (o, c, l) = q own in (o, c, omega arith)) h)
  ]

  resume-IsStranded :
      {A B : Type 0} (n : ℕ) (r : Result A × Webhooks) (k : A → M Webhooks B)
      → IsStranded id n r.1
      → ((a : A) (t : Webhooks) → IsStranded id n t → IsStranded id n (k a t).1)
      → IsStranded id n (resume r k).1
  resume-IsStranded n (ok a, s) k h keeps = keeps a s h
  resume-IsStranded n (err e, s) k h keeps = h

  trip_if-IsStranded :
      (n : ℕ) (b : Bool) (other : String) (now : ℕ) (s : Webhooks)
      → other ≢ id
      → IsStranded id n s
      → IsStranded id n (trip_if db config b other now s).1
  trip_if-IsStranded n false other now s ne h = h
  trip_if-IsStranded n true other now s ne h =
      resume-IsStranded n (update_endpoint_row db config other (trip now) s) (λ _. pure tt)
        (other-IsStranded n other (trip now) s ne (λ e. refl) h) λ a t k. k

  other_failure-IsStranded :
      (n : ℕ) (other : String) (now : ℕ) (s : Webhooks)
      → other ≢ id
      → IsStranded id n s
      → IsStranded id n (record_failure db config other now s).1
  unfolding record_failure
  other_failure-IsStranded n other now s ne h =
      resume-IsStranded n (update_endpoint_row db config other (count_failure now) s)
        (λ endpoint. trip_if db config (should_trip db config endpoint) other now)
        (other-IsStranded n other (count_failure now) s ne (λ e. refl) h)
        λ endpoint t k. trip_if-IsStranded n (should_trip db config endpoint) other now t ne k

  probe-IsStranded :
      (n now : ℕ) (s : Webhooks)
      → IsStranded id n s
      → IsStranded id n (probe_open_circuits db config now s).1
  unfolding probe_open_circuits
  probe-IsStranded n now s h =
      rw (db.update_many_lem (is_due db config now) half_opened s.endpoints) (
        IsStranded-map id n n (is_due db config now) half_opened s (omega arith) (λ e. refl)
          (λ x due q own. let (_, whole, _) = q own in cc (rw whole at due)) h)

  -- With fewer failures of the endpoint than the threshold, it stays as it is.
  pub Calm-IsStranded :
      {s t : Webhooks} {n : ℕ}
      → Calm db config id s n t
      → n < config.circuit_breaker_threshold
      → IsStranded id 0 s
      → IsStranded id n t
  unfolding record_success record_half_open_failure
  Calm-IsStranded start few h = h
  Calm-IsStranded {n = n} (success {t = t} other c e) few h = rw e (
      resume-IsStranded n (update_endpoint_row db config other reset t) (λ _. pure tt)
        (row-IsStranded n other reset t (λ x. refl)
          (λ x is_other q own. let (p, _, _) = q own in (p, refl, omega arith))
          (Calm-IsStranded c few h))
        λ a u k. k)
  Calm-IsStranded (failure {n} {t} now c e) few h =
      rw e (failure-IsStranded n now t few (Calm-IsStranded c (omega arith) h))
  Calm-IsStranded {n = n} (other_failure {t = t} other now ne c e) few h =
      rw e (other_failure-IsStranded n other now t ne (Calm-IsStranded c few h))
  Calm-IsStranded {n = n} (half_open_failure {t = t} other now ne c e) few h = rw e (
      resume-IsStranded n (update_endpoint_row db config other (reopen now) t) (λ _. pure tt)
        (other-IsStranded n other (reopen now) t ne (λ x. refl) (Calm-IsStranded c few h))
        λ a u k. k)
  Calm-IsStranded {n = n} (probe {t = t} now c e) few h =
      rw e (probe-IsStranded n now t (Calm-IsStranded c few h))
