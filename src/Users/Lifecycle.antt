-- ===== src/Users/Lifecycle.antt =====
-- What every operation of src/modules/user/user.service.ts keeps of the table of users.
use all_service_api.Common.{
  if◌then◌else◌, Bool-cases, Option-cases, is_some, All, All-lookup, Failure, bad_request,
  unauthorized, forbidden, not_found, conflict, gone, internal, record_missing, unique_violation,
  Result, ok, err, M, pure, resume, ◌>>=◌, ◌>>◌, gets, modify, require, some_or, recover,
  catch_with, String, ◌≡◌, refl, inl, inr, Bool, true, false, Option, none, some, List, map, Memᴰ,
}
use all_service_api.Prisma.{Prisma, update_if}
use all_service_api.Prisma.Columns.{keys-map}
use all_service_api.Prisma.Keys.{HasUniqueKeys, All-update}
use all_service_api.Auth.State.{
  RequestContext, AuditValue, UserEvent, emit, write_audit, User, Accounts,
}
use all_service_api.Users.State.{has_user_id, update_user, rethrow_prisma}

-- A deleted account is not active.
abbrev pub IsConsistent : User → Type 0
IsConsistent u = is_some u.deleted_at ≡ true → u.is_active ≡ false

-- No two accounts share an identifier or an address, deleted ones included, and no deleted account
-- is active.
abbrev pub IsWellFormed : List User → Type 0
IsWellFormed users =
    HasUniqueKeys (λ (u : User). u.id) users
    × HasUniqueKeys (λ (u : User). u.email) users
    × All IsConsistent users

-- `m` keeps the table of users sound, whether it returns or throws.
pub record Keeps {A : Type 0} (m : M Accounts A) : Type 0 where
  pub at : (s : Accounts) → IsWellFormed s.users → IsWellFormed (m s).1.users

-- A change that keeps a row's keys and its consistency.
abbrev pub IsQuiet : (User → User) → Type 0
IsQuiet change =
    (u : User)
    → ((change u).id ≡ u.id)
      × ((change u).email ≡ u.email)
      × (IsConsistent u → IsConsistent (change u))

-- The rules by which an operation keeps the table sound.
pub Keeps-resume :
    {A B : Type 0} (r : Result A × Accounts) (k : A → M Accounts B)
    → IsWellFormed r.1.users
    → ((a : A) → Keeps (k a))
    → IsWellFormed (resume r k).1.users
Keeps-resume (ok a, s) k h rest = (rest a).at s h
Keeps-resume (err e, s) k h rest = h

pub Keeps-bind :
    {A B : Type 0} (m : M Accounts A) (k : A → M Accounts B)
    → Keeps m
    → ((a : A) → Keeps (k a))
    → Keeps (m >>= k)
Keeps-bind m k first rest = record { at = λ s h. Keeps-resume (m s) k (first.at s h) rest }

pub Keeps-modify :
    (f : Accounts → Accounts) → ((s : Accounts) → (f s).users ≡ s.users) → Keeps (modify f)
Keeps-modify f same = record { at = λ s h. rw (same s) h }

pub Keeps-skip : Keeps (modify (λ s. s))
Keeps-skip = record { at = λ s h. h }

pub Keeps-emit : (event : UserEvent) → Keeps (modify (emit event))
Keeps-emit event = record { at = λ s h. h }

pub Keeps-write_audit :
    (action : String) (user_id : Option String) (context : RequestContext)
    (detail : List (String × AuditValue))
    → Keeps (modify (write_audit action user_id context detail))
Keeps-write_audit action user_id context detail = record { at = λ s h. h }

require-users : (b : Bool) (e : Failure) (s : Accounts) → (require b e s).1.users ≡ s.users
require-users true e s = refl
require-users false e s = refl

pub Keeps-require : (b : Bool) (e : Failure) → Keeps (require b e)
Keeps-require b e = record { at = λ s h. rw (require-users b e s) h }

some_or-users :
    {A : Type 0} (e : Failure) (o : Option A) (s : Accounts) → (some_or e o s).1.users ≡ s.users
some_or-users e none s = refl
some_or-users e (some a) s = refl

pub Keeps-some_or : {A : Type 0} (e : Failure) (o : Option A) → Keeps (some_or {A = A} e o)
Keeps-some_or e o = record { at = λ s h. rw (some_or-users e o s) h }

pub Keeps-if :
    {A : Type 0} (b : Bool) (m n : M Accounts A) → Keeps m → Keeps n → Keeps (if b then m else n)
Keeps-if true m n first second = first
Keeps-if false m n first second = second

pub Keeps-gets : {A : Type 0} (f : Accounts → A) → Keeps (gets f)
Keeps-gets f = record { at = λ s h. h }

pub Keeps-pure : {A : Type 0} (a : A) → Keeps (pure {A = A} a)
Keeps-pure a = record { at = λ s h. h }

rethrow-users :
    (A : Type 0) (e : Failure) (s : Accounts) → (rethrow_prisma {A = A} e s).1.users ≡ s.users
rethrow-users A unique_violation s = refl
rethrow-users A record_missing s = refl
rethrow-users A (bad_request c) s = refl
rethrow-users A (unauthorized c) s = refl
rethrow-users A (forbidden c) s = refl
rethrow-users A (not_found c) s = refl
rethrow-users A (conflict c) s = refl
rethrow-users A (gone c) s = refl
rethrow-users A (internal c) s = refl

pub Keeps-recover :
    {A : Type 0} (r : Result A × Accounts)
    → IsWellFormed r.1.users
    → IsWellFormed (recover r rethrow_prisma).1.users
Keeps-recover (ok a, s) h = h
Keeps-recover {A} (err e, s) h = rw (rethrow-users A e s) h

pub Keeps-catch : {A : Type 0} (m : M Accounts A) → Keeps m → Keeps (catch_with m rethrow_prisma)
Keeps-catch m first = record { at = λ s h. Keeps-recover (m s) (first.at s h) }

pub ruleset keeps_rules = (
  Keeps-bind, Keeps-skip, Keeps-emit, Keeps-write_audit, Keeps-require, Keeps-some_or, Keeps-gets,
  Keeps-pure, Keeps-catch,
)

-- The rules where what follows may use that it was reached.
pub IsWellFormed-require :
    {B : Type 0} (b : Bool) (e : Failure) (k : M Accounts B) (s : Accounts)
    → IsWellFormed s.users
    → IsWellFormed (k s).1.users
    → IsWellFormed ((require b e >> k) s).1.users
IsWellFormed-require true e k s h rest = rest
IsWellFormed-require false e k s h rest = h

pub IsWellFormed-some_or :
    {A B : Type 0} (e : Failure) (o : Option A) (k : A → M Accounts B) (s : Accounts)
    → IsWellFormed s.users
    → ((a : A) → o ≡ some a → IsWellFormed (k a s).1.users)
    → IsWellFormed ((some_or e o >>= k) s).1.users
IsWellFormed-some_or e none k s h rest = h
IsWellFormed-some_or e (some a) k s h rest = rest a refl

module _ (change : User → User) (same_id : (u : User) → (change u).id ≡ u.id)
    (same_email : (u : User) → (change u).email ≡ u.email) where
  same_column :
      (key : User → String) (id : String)
      → ((u : User) → key (change u) ≡ key u)
      → (u : User) → key (update_if (has_user_id id) change u) ≡ key u
  same_column key id same u = elim (Bool-cases (has_user_id id u)) [
    | inl e ↦ rw e (same u)
    | inr e ↦ rw e refl
  ]

  IsWellFormed-update :
      (id : String) (users : List User)
      → IsWellFormed users
      → ((u : User) → Memᴰ u users → has_user_id id u ≡ true → IsConsistent (change u))
      → IsWellFormed (map (update_if (has_user_id id) change) users)
  IsWellFormed-update id users (ids, emails, consistent) kept = (
    keys-map (λ (u : User). u.id) (update_if (has_user_id id) change) users
        (same_column (λ u. u.id) id same_id) ids,
    keys-map (λ (u : User). u.email) (update_if (has_user_id id) change) users
        (same_column (λ u. u.email) id same_email) emails,
    All-update IsConsistent (has_user_id id) change users kept
        (λ u m e. All-lookup IsConsistent users consistent m),
  )

  pub IsWellFormed-update_user :
      (db : Prisma) (id : String) (s : Accounts)
      → IsWellFormed s.users
      → ((u : User) → Memᴰ u s.users → has_user_id id u ≡ true → IsConsistent (change u))
      → IsWellFormed (update_user db id change s).1.users
  unfolding update_user
  IsWellFormed-update_user db id s h kept =
      elim (Option-cases (db.find_first (has_user_id id) s.users)) [
        | inl e ↦ rw (db.update_missing (has_user_id id) change s.users e) h
        | inr (row, e) ↦
            rw (db.update_found (has_user_id id) change s.users row e)
              (IsWellFormed-update id s.users h kept)
      ]

pub Keeps-update_user :
    (db : Prisma) (id : String) (change : User → User)
    → IsQuiet change
    → Keeps (update_user db id change)
Keeps-update_user db id change quiet = record {
  at = λ s h.
      IsWellFormed-update_user change (λ u. (quiet u).0) (λ u. (quiet u).1) db id s h
        λ u m e. (quiet u).2 (All-lookup IsConsistent s.users h.2 m);
}
