-- ===== src/Auth/Mfa/RecoveryCodes.antt =====
-- Recovery codes in verifyCode of src/modules/auth/mfa.service.ts and consumeRecoveryCode of
-- src/modules/user/user.service.ts.
use all_service_api.Common.{
  Bool-cases, ok, ℕ, suc, String, ◌≡◌, refl, ap, ◌∙◌, inl, inr, true, false, some, List, [], ◌∷◌,
  arith, str_eq, eq_iff,
}
use all_service_api.Users.RoleList.Sorting.{copies}
use all_service_api.Prisma.Keys.{IsOnly, find_first-IsOnly, update-IsOnly, update-IsOnly_other}
use all_service_api.Auth.State.{User, Accounts}
use all_service_api.Auth.Credentials.{truthy, SignInEnv}
use all_service_api.Users.Rows.{with_row, write_row-row}
use all_service_api.Users.State.{
  has_user_id, is_account, to_with_secrets, find_by_id_with_secrets, UserWithSecrets,
}
use all_service_api.Users.Account.{consume_recovery_code, set_recovery_codes, remove_first}
use all_service_api.Auth.Mfa.{
  verify_code, verify_user, verify_secret, totp_matches, consume_recovery_code_if_matches, use_code,
}

-- Taking out a code that is stored leaves one copy less.
remove_first-some :
    (code : String) (codes : List String) (n : ℕ)
    → copies code codes ≡ suc n
    → (rest : List String) × (remove_first code codes ≡ some rest) × (copies code rest ≡ n)
unfolding remove_first
remove_first-some code [] n e = absurd (omega arith)
remove_first-some code (c ∷ codes) n e = elim (Bool-cases (str_eq c code)) [
  | inl hit ↦ let f = rw hit at e in (codes, rw hit refl, omega arith)
  | inr miss ↦
      let f = rw miss at e in
      let (rest, taken, left) = remove_first-some code codes n f in
      (c ∷ rest, rw miss (rw taken refl), rw miss left)
]

module _ (env : SignInEnv) (id code : String) where
  abbrev digest : String
  digest = env.users.auth.hash code

  -- The loop over the stored codes finds the first that matches.
  loop-none :
      (user : UserWithSecrets) (codes : List String) (s : Accounts)
      → copies digest codes ≡ 0
      → consume_recovery_code_if_matches env user code codes s ≡ (ok false, s)
  unfolding consume_recovery_code_if_matches
  loop-none user [] s e = refl
  loop-none user (c ∷ codes) s e = elim (Bool-cases (str_eq c digest)) [
    | inl hit ↦ let f = rw hit at e in absurd (omega arith)
    | inr miss ↦ let f = rw miss at e in rw miss (loop-none user codes s f)
  ]

  loop-some :
      (user : UserWithSecrets) (codes : List String) (s : Accounts) (n : ℕ)
      → copies digest codes ≡ suc n
      → consume_recovery_code_if_matches env user code codes s ≡ use_code env user.safe.id digest s
  unfolding consume_recovery_code_if_matches
  loop-some user [] s n e = absurd (omega arith)
  loop-some user (c ∷ codes) s n e = elim (Bool-cases (str_eq c digest)) [
    | inl hit ↦ rw hit (ap (λ stored. use_code env user.safe.id stored s) ((eq_iff c digest).0 hit))
    | inr miss ↦ let f = rw miss at e in rw miss (loop-some user codes s n f)
  ]

  -- The account is the only one with its identifier, and a second factor is set up.
  abbrev pub HasMfa : Accounts → User → String → Type 0
  HasMfa s row ciphertext =
      IsOnly (has_user_id id) s.users row
      × IsOnly (is_account id) s.users row
      × (row.id ≡ id)
      × (row.mfa_enabled ≡ true)
      × (truthy row.mfa_secret ≡ some ciphertext)

  module _ (ciphertext : String) (now : ℕ)
      (no_totp : totp_matches env (env.decrypt_at_rest ciphertext) code now ≡ false) where
    -- A code that is no time-based one goes to the loop.
    verify_code-loop :
        (s : Accounts) (row : User)
        → HasMfa s row ciphertext
        → verify_code env id code now s
          ≡ consume_recovery_code_if_matches env (to_with_secrets row) code row.mfa_recovery_codes s
    unfolding verify_code verify_user verify_secret find_by_id_with_secrets
    verify_code-loop s row (by_id, account, e, on, secret) =
        rw (find_first-IsOnly env.users.auth.db (is_account id) s.users row account)
          (rw on (rw secret (rw no_totp refl)))

    use_code-row :
        (s : Accounts) (row : User) (rest : List String)
        → HasMfa s row ciphertext
        → remove_first digest row.mfa_recovery_codes ≡ some rest
        → use_code env id digest s ≡ (ok true, with_row id (set_recovery_codes rest) s)
    unfolding use_code consume_recovery_code
    use_code-row s row rest (by_id, account, e, on, secret) taken =
        rw (find_first-IsOnly env.users.auth.db (is_account id) s.users row account) (
          rw taken (
            rw (write_row-row env.users id s (set_recovery_codes rest) (λ x. x) (λ x. x) row by_id)
              refl))

    set_recovery_codes-HasMfa :
        (s : Accounts) (row : User) (rest : List String)
        → HasMfa s row ciphertext
        → HasMfa (with_row id (set_recovery_codes rest) s) (set_recovery_codes rest row) ciphertext
    set_recovery_codes-HasMfa s row rest (by_id, account, e, on, secret) = (
      update-IsOnly (has_user_id id) (set_recovery_codes rest) s.users row by_id by_id.1,
      update-IsOnly_other (has_user_id id) (is_account id) (set_recovery_codes rest) s.users row
          by_id account account.1,
      e,
      on,
      secret,
    )

    -- A recovery code, which is not a time-based one at that moment, is accepted exactly if a copy of
    -- its digest is stored with the account. Where none is, nothing changes. Where there are, the
    -- account and only it is changed, keeps its second factor, and has one copy less: so a code stored
    -- once serves once.
    pub verify_code-copies :
        (s : Accounts) (row : User)
        → HasMfa s row ciphertext
        → (copies digest row.mfa_recovery_codes ≡ 0 → verify_code env id code now s ≡ (ok false, s))
          × ((n : ℕ)
              → copies digest row.mfa_recovery_codes ≡ suc n
              → (rest : List String) × (verify_code env id code now s
                  ≡ (ok true, with_row id (set_recovery_codes rest) s))
                × HasMfa
                    (with_row id (set_recovery_codes rest) s)
                    (set_recovery_codes rest row)
                    ciphertext
                × (copies digest rest ≡ n))
    verify_code-copies s row has = (
      λ e. verify_code-loop s row has ∙ loop-none (to_with_secrets row) row.mfa_recovery_codes s e,
      λ n e.
          let (rest, taken, left) = remove_first-some digest row.mfa_recovery_codes n e in
          (
            rest,
            verify_code-loop s row has
                ∙ loop-some (to_with_secrets row) row.mfa_recovery_codes s n e
                ∙ ap (λ i. use_code env i digest s) has.2
                ∙ use_code-row s row rest has taken,
            set_recovery_codes-HasMfa s row rest has,
            left,
          ),
    )
