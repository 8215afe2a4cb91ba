-- ===== src/Auth/SignIn/GuessBound.antt =====
-- How many wrong passwords src/modules/auth/auth.service.ts looks at in a span of time.
use all_service_api.Common.{
  ltb, leb, if◌then◌else◌, Bool-cases, All, invalid_credentials, unauthorized, Result, err, ℕ, suc,
  ◌+◌, ◌-◌, ◌*◌, ◌≤◌, ◌<◌, String, ◌≡◌, refl, ap, inl, inr, Bool, true, false, Option, some, List,
  [], ◌∷◌, map, arith,
}
use all_service_api.Auth.SignIn.Guessing.{
  answers, IsWrong, guessing_refines, times, Guess, answer, examined,
}
use all_service_api.Auth.Response.{LoginResponse}
use all_service_api.Auth.Credentials.{SignInEnv}
use all_service_api.Auth.State.{User, Accounts}
use all_service_api.Auth.SignIn.Lockout.{lockout, IsTarget}

-- Times that do not go back, from `start` to `end`.
abbrev pub IsWithin : ℕ → ℕ → List ℕ → Type 0
IsWithin start end [] = Unit
IsWithin start end (t ∷ ts) = (start ≤ t) × (t ≤ end) × IsWithin t end ts

abbrev pub count_true : List Bool → ℕ
count_true [] = 0
count_true (b ∷ bs) = let rest = count_true bs in if b then suc rest else rest

-- A closed machine looks at one guess per quarter of an hour, from the end of its lock.
closed_bound :
    (ts : List ℕ) (start end n u : ℕ)
    → 5 ≤ n
    → IsWithin start end ts
    → count_true (examined ts (record { attempts = n; is_locked = true; until = some u })) * 900000
      ≤ end + 900000 - u
closed_bound [] start end n u h w = omega arith
closed_bound (t ∷ ts) start end n u h (a, b, w) = elim (Bool-cases (ltb t u)) [
  | inl closed ↦ rw closed (closed_bound ts t end n u h w)
  | inr opened ↦
      let more : leb 5 (n + 1) ≡ true = ground arith in
      let rest = closed_bound ts t end (n + 1) (t + 900000) (omega arith) w in
      rw opened (rw more (ground arith))
]

open_bound :
    (ts : List ℕ) (start end n : ℕ) (until : Option ℕ)
    → n < 5
    → IsWithin start end ts
    → count_true (examined ts (record { attempts = n; is_locked = false; until = until })) * 900000
      ≤ (5 - n) * 900000 + (end - start)
open_bound [] start end n until h w = omega arith
open_bound (t ∷ ts) start end n until h (a, b, w) = elim (Bool-cases (leb 5 (n + 1))) [
  | inl more ↦
      let rest = closed_bound ts t end (n + 1) (t + 900000) (ground arith) w in
      rw more (ground arith)
  | inr few ↦ let rest = open_bound ts t end (n + 1) until (ground arith) w in rw few (ground arith)
]

abbrev pub is_examined : Result LoginResponse → Bool
is_examined (err (unauthorized invalid_credentials)) = true
is_examined _ = false

examined-answer : (bs : List Bool) → count_true (map is_examined (map answer bs)) ≡ count_true bs
examined-answer [] = refl
examined-answer (b ∷ bs) = elim (Bool-cases b) [
  | inl e ↦ rw e (ap suc (examined-answer bs))
  | inr e ↦ rw e (examined-answer bs)
]

-- In any sequence of sign-ins with wrong passwords to an account without failed attempts and without
-- a lock, at times that do not go back, the passwords that were looked at are at most five and one
-- more for each full quarter of an hour between the start and the end.
pub guesses_bounded :
    (env : SignInEnv) (email id password_hash : String) (gs : List Guess) (s : Accounts)
    (row : User) (start end : ℕ)
    → IsTarget env email id password_hash s row
    → row.failed_login_attempts ≡ 0
    → row.is_locked ≡ false
    → All (IsWrong env email id password_hash) gs
    → IsWithin start end (times gs)
    → count_true (map is_examined (answers env email gs s)) * 900000 ≤ 5 * 900000 + (end - start)
guesses_bounded env email id password_hash gs s row start end t none_yet unlocked wrong within =
    let l = lockout row in
    let fresh : l ≡ record { attempts = 0; is_locked = false; until = row.locked_until } =
      rw none_yet (rw unlocked refl) in
    let (_, e) = guessing_refines env email id password_hash gs s row t wrong in
    rw e (
      rw (examined-answer (examined (times gs) l))
        (rw fresh (open_bound (times gs) start end 0 row.locked_until (omega arith) within)))
