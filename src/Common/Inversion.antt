-- ===== src/Common/Inversion.antt =====
-- What must have happened when a handler returned a value.
use mathlib.Core.Path.{◌≡◌, refl, ap}
use mathlib.Core.Bool.{Bool, true, false}
use mathlib.Core.Option.{Option, none, some}
use all_service_api.Common.Tests.{if◌then◌else◌}
use all_service_api.Common.Effects.{Failure, Result, ok, err, M, resume, require, some_or}

pub resume-ok :
    {S A B : Type 0} (r : Result A × S) (k : A → M S B) (b : B) (s' : S)
    → resume r k ≡ (ok b, s')
    → (a : A) × ((s1 : S) × (r ≡ (ok a, s1)) × (k a s1 ≡ (ok b, s')))
resume-ok (ok a, s) k b s' e = (a, (s, refl, e))
resume-ok (err f, s) k b s' e = cc

pub require-ok :
    {S : Type 0} (b : Bool) (e : Failure) (s s' : S) (u : Unit {0})
    → require b e s ≡ (ok u, s')
    → (b ≡ true) × (s ≡ s')
require-ok {S} true e s s' u h = (refl, ap (λ (r : Result (Unit {0}) × S). r.1) h)
require-ok false e s s' u h = cc

pub some_or-ok :
    {S A : Type 0} (e : Failure) (o : Option A) (a : A) (s s' : S)
    → some_or e o s ≡ (ok a, s')
    → (o ≡ some a) × (s ≡ s')
some_or-ok e none a s s' h = cc
some_or-ok e (some b) a s s' h = (cc, cc)

-- A conditional whose test is decided.
pub run_if-true :
    {S A : Type 0} (b : Bool) (m n : M S A) (s : S) → b ≡ true → (if b then m else n) s ≡ m s
run_if-true b m n s e = rw e refl

pub run_if-false :
    {S A : Type 0} (b : Bool) (m n : M S A) (s : S) → b ≡ false → (if b then m else n) s ≡ n s
run_if-false b m n s e = rw e refl
