-- ===== src/Webhook/Signing/Laws.antt =====
-- What the check of a signature accepts.
use Prim.Native.String.{◌++◌ as str_append}
use text.Mathlib.TextPositions.{starts_with-append}
use all_service_api.Redis.{join}
use all_service_api.Webhook.Signing.{
  SigningEnv, non_negative, is_recent, prefixed, expected_signature, sign, verify,
}
use all_service_api.Common.{
  ◌==◌, Bool-cases, eqb_refl, ℕ, ◌+◌, ◌/◌, ◌≤◌, String, ◌≡◌, sym, ◌↔◌, inl, inr, true, some, [],
  ◌∷◌, arith, eq_iff, eq_refl,
}

module _ (env : SigningEnv) where
  -- A signature is accepted exactly when its timestamp is at most 300 seconds away from the clock and
  -- it is, up to the leading `v1=`, the HMAC of the timestamp and the payload under the secret.
  pub verify_iff :
      (payload secret signature timestamp : String) (now : ℕ)
      → (verify env payload secret signature timestamp now ≡ some true) ↔ (
          (is_recent (now / 1000) (env.parse_int timestamp) ≡ true)
          × (prefixed signature ≡ expected_signature env payload secret timestamp))
  unfolding verify
  verify_iff payload secret signature timestamp now = (to, from)
    where
      expected : String
      expected = expected_signature env payload secret timestamp

      clean : String
      clean = prefixed signature

      to :
          verify env payload secret signature timestamp now ≡ some true
          → (is_recent (now / 1000) (env.parse_int timestamp) ≡ true) × (clean ≡ expected)
      to h = elim (Bool-cases (is_recent (now / 1000) (env.parse_int timestamp))) [
        | inr r ↦ absurd (ground arith)
        | inl r ↦ elim (Bool-cases (env.units expected == env.units clean)) [
          | inr u ↦ absurd (ground arith)
          | inl u ↦ elim (Bool-cases (env.bytes expected == env.bytes clean)) [
            | inr b ↦ absurd (ground arith)
            | inl b ↦ (r, sym ((eq_iff expected clean).0 (ground arith)))
          ]
        ]
      ]

      from :
          (is_recent (now / 1000) (env.parse_int timestamp) ≡ true) × (clean ≡ expected)
          → verify env payload secret signature timestamp now ≡ some true
      from (r, e) =
          rw (r, e, eqb_refl (env.units expected), eqb_refl (env.bytes expected), eq_refl expected)

  -- What `sign` signs, `verify` accepts, so long as the clocks are at most 300 seconds apart, where
  -- parseInt reads back what toString writes.
  pub verify-sign :
      (payload secret : String) (signed now : ℕ)
      → ((n : ℕ) → env.parse_int (env.show n) ≡ non_negative n)
      → let headers = sign env payload secret signed in
        (verify env payload secret headers.signature headers.timestamp now ≡ some true)
        ↔ ((now / 1000 ≤ signed / 1000 + 300) × (signed / 1000 ≤ now / 1000 + 300))
  unfolding sign
  verify-sign payload secret signed now reads =
      let timestamp = env.show (signed / 1000) in
      let signature = expected_signature env payload secret timestamp in
      let (to, from) = verify_iff payload secret signature timestamp now in
      let rest = str_append (env.hmac secret (join (timestamp ∷ "." ∷ payload ∷ []))) "" in
      let kept : prefixed signature ≡ signature = rw (starts_with-append "v1=" rest) in
      (
        λ h. let (r, _) = to h in ground (arith, reads (signed / 1000)),
        λ k. from (ground (arith, reads (signed / 1000)), kept),
      )
