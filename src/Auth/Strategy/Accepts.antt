-- ===== src/Auth/Strategy/Accepts.antt =====
-- When src/modules/auth/strategies/jwt.strategy.ts accepts a payload.
use all_service_api.Common.{
  Bool-cases, Option-cases, account_locked, account_disabled, token_invalid, token_revoked, Failure,
  unauthorized, ok, err, ℕ, ◌≡◌, refl, ◌↔◌, inl, inr, true, false, ◌&&◌, Option, none, some, str_eq,
}
use all_service_api.Prisma.Keys.{IsOnly, find_first-IsOnly}
use all_service_api.Redis.{get, session_key}
use all_service_api.Auth.State.{User, Accounts, SessionMetadata, as_session}
use all_service_api.Auth.Session.{get_current_refresh_token_hash}
use all_service_api.Auth.Credentials.{SignInEnv, JwtPayload}
use all_service_api.Auth.Strategy.{AuthenticatedUser, validate, locked_past, changed_after}
use all_service_api.Users.State.{to_with_secrets, is_account, find_by_id_with_secrets}

module _ (env : SignInEnv) (payload : JwtPayload) (now : ℕ) (s : Accounts) where
  abbrev pub stored_session : Option SessionMetadata
  stored_session =
      as_session (get (session_key env.users.auth.region payload.sub payload.jti) s.redis)

  abbrev pub IsAccepted : Type 0
  IsAccepted = (u : AuthenticatedUser) × (validate env payload now s ≡ (ok u, s))

  abbrev pub IsRefused : Type 0
  IsRefused = (e : Failure) × (validate env payload now s ≡ (err e, s))

  -- The session of the payload is in Redis, with the digest of a refresh token.
  abbrev pub HasSession : Type 0
  HasSession =
      (m : SessionMetadata) × (stored_session ≡ some m) × (str_eq m.refresh_token_hash "" ≡ false)

  pub validate-ended : stored_session ≡ none → IsRefused
  unfolding validate get_current_refresh_token_hash
  validate-ended absent = elim (Option-cases (find_by_id_with_secrets env.users payload.sub s)) [
    | inl e ↦ (unauthorized token_invalid, rw e refl)
    | inr (user, e) ↦ elim (Bool-cases user.safe.is_active) [
      | inr a ↦ (unauthorized account_disabled, rw e (rw a refl))
      | inl a ↦ elim (Bool-cases (user.safe.is_locked && locked_past user.safe.locked_until now)) [
        | inl l ↦ (unauthorized account_locked, rw e (rw a (rw l refl)))
        | inr l ↦ elim (Bool-cases (changed_after user.password_changed_at payload.iat)) [
          | inl c ↦ (unauthorized token_revoked, rw e (rw a (rw l (rw c refl))))
          | inr c ↦ (unauthorized token_revoked, rw e (rw a (rw l (rw c (rw absent refl)))))
        ]
      ]
    ]
  ]

  module _ (row : User) (only : IsOnly (is_account payload.sub) s.users row) where
    found-account : find_by_id_with_secrets env.users payload.sub s ≡ some (to_with_secrets row)
    unfolding find_by_id_with_secrets
    found-account =
        rw (find_first-IsOnly env.users.auth.db (is_account payload.sub) s.users row only) refl

    -- What the token of a usable account needs.
    abbrev pub IsUsable : Type 0
    IsUsable =
        (row.is_active ≡ true)
        × ((row.is_locked && locked_past row.locked_until now) ≡ false)
        × (changed_after row.password_changed_at payload.iat ≡ false)
        × HasSession

    accepts : IsUsable → IsAccepted
    unfolding validate get_current_refresh_token_hash
    accepts (a, l, c, (m, e, h)) = (
      record {
        id = row.id;
        email = row.email;
        roles = payload.roles;
        permissions = payload.permissions;
        tenant_id = payload.tenant_id;
        session_id = payload.jti;
      },
      rw found-account (rw a (rw l (rw c (rw e (rw h refl))))),
    )

    session_of :
        IsAccepted
        → row.is_active ≡ true
        → (row.is_locked && locked_past row.locked_until now) ≡ false
        → changed_after row.password_changed_at payload.iat ≡ false
        → HasSession
    unfolding validate get_current_refresh_token_hash
    session_of (u, e) a l c =
        let f = rw found-account at e in
        let g = rw a at f in
        let h = rw l at g in
        let i = rw c at h in
        elim (Option-cases stored_session) [
          | inl absent ↦ let j = rw absent at i in cc
          | inr (m, there) ↦
              let j = rw there at i in
              elim (Bool-cases (str_eq m.refresh_token_hash "")) [
                | inl empty ↦ let k = rw empty at j in cc
                | inr full ↦ (m, there, full)
              ]
        ]

    is_usable : IsAccepted → IsUsable
    unfolding validate get_current_refresh_token_hash
    is_usable (u, e) = elim (Bool-cases row.is_active) [
      | inr a ↦ (let f = rw found-account at e in let g = rw a at f in cc)
      | inl a ↦ elim (Bool-cases (row.is_locked && locked_past row.locked_until now)) [
        | inl l ↦ (let f = rw found-account at e in let g = rw a at f in let h = rw l at g in cc)
        | inr l ↦ elim (Bool-cases (changed_after row.password_changed_at payload.iat)) [
          | inl c ↦
              (let f = rw found-account at e in
                let g = rw a at f in let h = rw l at g in let i = rw c at h in cc)
          | inr c ↦ (a, l, c, session_of (u, e) a l c)
        ]
      ]
    ]

    -- An access token of an account that is not deleted is accepted exactly if the account is active,
    -- no lock of it is pending, its password was not changed after the start of the second in which
    -- the token was issued, and the token's session is in Redis with the digest of a refresh token.
    pub accepts_iff : IsAccepted ↔ IsUsable
    accepts_iff = (is_usable, accepts)
