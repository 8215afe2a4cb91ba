-- ===== src/Auth/SignIn/Guessing.antt =====
-- Sequences of sign-ins to one account with wrong passwords, against the machine of Lockout.
use all_service_api.Common.{
  leb, if◌then◌else◌, Bool-cases, All, invalid_credentials, account_locked, unauthorized, Result,
  err, M, ℕ, ◌+◌, String, ◌≡◌, refl, ap, ◌∙◌, inl, inr, Bool, true, false, not, Option, some, List,
  [], ◌∷◌, map,
}
use all_service_api.Auth.State.{User, Accounts}
use all_service_api.Auth.Credentials.{SignInEnv, LoginContext}
use all_service_api.Auth.Password.{verify}
use all_service_api.Auth.SignIn.{login}
use all_service_api.Auth.Response.{Draws, LoginResponse}
use all_service_api.Users.Rows.{with_row}
use all_service_api.Users.Account.{add_failed_attempt, set_lock}
use all_service_api.Auth.SignIn.Lockout.{
  Lockout, is_closed, fail, guess, lockout, IsTarget, add_failed_attempt-IsTarget,
  set_lock-IsTarget, login-closed, login-open, locked, counted,
}

pub record Guess : Type 0 where
  pub password : String
  pub code : Option String
  pub context : LoginContext
  pub draws : Draws
  pub now : ℕ

abbrev pub times : List Guess → List ℕ
times gs = map (λ (g : Guess). g.now) gs

-- The machine over a list of times, and which of the guesses it looks at.
abbrev pub machine : List ℕ → Lockout → Lockout
machine [] l = l
machine (t ∷ ts) l = machine ts (guess t l)

abbrev pub examined : List ℕ → Lockout → List Bool
examined [] l = []
examined (t ∷ ts) l = not (is_closed l t) ∷ examined ts (guess t l)

abbrev pub answer : Bool → Result LoginResponse
answer true = err (unauthorized invalid_credentials)
answer false = err (unauthorized account_locked)

-- The sign-ins one after the other, and their answers.
module _ (env : SignInEnv) (email : String) where
  abbrev pub sign_in : Guess → M Accounts LoginResponse
  sign_in g =
      login env (record { email = email; password = g.password; mfa_code = g.code }) g.context
        g.draws g.now

  abbrev pub after_all : List Guess → Accounts → Accounts
  after_all [] s = s
  after_all (g ∷ gs) s = after_all gs (sign_in g s).1

  abbrev pub answers : List Guess → Accounts → List (Result LoginResponse)
  answers [] s = []
  answers (g ∷ gs) s = (sign_in g s).0 ∷ answers gs (sign_in g s).1

  module _ (id password_hash : String) where
    abbrev pub IsWrong : Guess → Type 0
    IsWrong g = verify env g.password password_hash ≡ false

    abbrev Tracks : Guess → Accounts → User → Type 0
    Tracks g s row =
        ((row' : User) × IsTarget env email id password_hash (sign_in g s).1 row'
          × (lockout row' ≡ guess g.now (lockout row)))
        × ((sign_in g s).0 ≡ answer (not (is_closed (lockout row) g.now)))

    -- The rows after a guess that was looked at.
    after_open :
        (g : Guess) (s : Accounts) (row : User)
        → IsTarget env email id password_hash s row
        → (row' : User) × IsTarget env email id password_hash
            (if leb 5 (row.failed_login_attempts + 1)
              then locked env email id password_hash g.context g.draws g.now row.email s
              else counted env email id password_hash g.context g.draws g.now s)
            row'
          × (lockout row' ≡ fail g.now (lockout row))
    after_open g s row t =
        let one = add_failed_attempt-IsTarget env email id password_hash s row t in
        elim (Bool-cases (leb 5 (row.failed_login_attempts + 1))) [
          | inl e ↦ rw e (
            set_lock "too_many_failed_attempts" (some (g.now + 900000)) (add_failed_attempt row),
            set_lock-IsTarget env email id password_hash "too_many_failed_attempts"
                (some (g.now + 900000)) (with_row id add_failed_attempt s) (add_failed_attempt row)
                one,
            refl,
          )
          | inr e ↦ rw e (add_failed_attempt row, one, refl)
        ]

    sign_in-Tracks :
        (g : Guess) (s : Accounts) (row : User)
        → IsTarget env email id password_hash s row
        → IsWrong g
        → Tracks g s row
    sign_in-Tracks g s row t wrong = elim (Bool-cases (is_closed (lockout row) g.now)) [
      | inl closed ↦
          rw
            (login-closed env email id password_hash g.context g.draws g.now g.password g.code wrong
              s row t closed)
            (rw closed ((row, t, refl), refl))
      | inr opened ↦
          rw
            (login-open env email id password_hash g.context g.draws g.now g.password g.code wrong s
              row t opened)
            (rw opened (after_open g s row t, refl))
    ]

    -- Any sequence of sign-ins to an account with wrong passwords runs as the counting machine does:
    -- the account stays the one of the address, with its password; its failed attempts, its lock and
    -- the lock's end are the machine's after the same times; and each sign-in is answered that the
    -- credentials are invalid where the machine looks at the guess, and that the account is locked
    -- where it does not.
    pub guessing_refines :
        (gs : List Guess) (s : Accounts) (row : User)
        → IsTarget env email id password_hash s row
        → All IsWrong gs
        → ((row' : User) × IsTarget env email id password_hash (after_all gs s) row'
            × (lockout row' ≡ machine (times gs) (lockout row)))
          × (answers gs s ≡ map answer (examined (times gs) (lockout row)))
    guessing_refines [] s row t wrong = ((row, t, refl), refl)
    guessing_refines (g ∷ gs) s row t (w, wrong) =
        let ((row1, t1, e1), a1) = sign_in-Tracks g s row t w in
        let ((row2, t2, e2), a2) = guessing_refines gs (sign_in g s).1 row1 t1 wrong in
        (
          (row2, t2, e2 ∙ ap (machine (times gs)) e1),
          ap (λ a. a ∷ answers gs (sign_in g s).1) a1
              ∙ ap (λ later. answer (not (is_closed (lockout row) g.now)) ∷ later)
                  (a2 ∙ ap (λ l. map answer (examined (times gs) l)) e1),
        )
