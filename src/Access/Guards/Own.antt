-- ===== src/Access/Guards/Own.antt =====
-- Which requests the permissions guard takes to be on the actor's own things.
use Prim.Native.String.append
use text.Mathlib.TextBridge.{IsSuffix}
use text.Mathlib.TextLemmas.{tail-eq_of_cons-eq, append-eq-nil_iff, suffix-cons, IsSuffix-trans}
use Prim.Native.Char.{Char}
use all_service_api.Common.{
  Bool-cases, ne-of-str_eq, String, ◌≡◌, sym, ◌∙◌, ◌≢◌, ◌↔◌, ◌⊎◌, inl, inr, true, Option, none,
  some, List, [], ◌∷◌, arith, str_eq, eq_iff,
}
use all_service_api.Access.Guards.{Request, Actor, is_self_request, ends_with, param, equals}

-- The name's first entry has the value.
abbrev pub Carries : String → String → List (String × String) → Type 0
Carries name value [] = ⊥
Carries name value ((key, v) ∷ rest) =
    ((key ≡ name) × (v ≡ value)) ⊎ ((key ≢ name) × Carries name value rest)

-- The path ends with `/me`, or the route's parameter of the given name or `body.userId` is the
-- actor's identifier.
abbrev pub IsOwn : Request → Actor → String → Type 0
IsOwn request actor name =
    IsSuffix "/me" request.path
    ⊎ (Carries name actor.id request.params ⊎ (request.body_user_id ≡ some actor.id))

suffix-cons_inv :
    (suffix rest : String) (c : Char)
    → IsSuffix suffix (String.◌∷◌ c rest)
    → (suffix ≡ String.◌∷◌ c rest) ⊎ IsSuffix suffix rest
suffix-cons_inv suffix rest c (String.[], e) = inl (sym (append.nil suffix) ∙ e)
suffix-cons_inv suffix rest c (String.◌∷◌ d front, e) =
    inr (front, tail-eq_of_cons-eq (sym (append.cons d front suffix) ∙ e))

pub ends_with_iff : (suffix text : String) → (ends_with suffix text ≡ true) ↔ IsSuffix suffix text
unfolding ends_with
ends_with_iff suffix String.[] = (
  λ h. (String.[], append.nil suffix ∙ (eq_iff suffix String.[]).0 h),
  λ (front, e). (eq_iff suffix String.[]).1 ((append-eq-nil_iff.0 e).1),
)
ends_with_iff suffix (String.◌∷◌ c rest) =
    let (to, from) = ends_with_iff suffix rest in
    let whole = eq_iff suffix (String.◌∷◌ c rest) in
    (
      λ h. elim (Bool-cases (str_eq suffix (String.◌∷◌ c rest))) [
        | inl same ↦ (String.[], append.nil suffix ∙ whole.0 same)
        | inr other ↦ IsSuffix-trans suffix (to (ground arith)) (suffix-cons c rest)
      ],
      λ h. elim (suffix-cons_inv suffix rest c h) [
        | inl same ↦ ground (arith, whole.1 same)
        | inr later ↦ ground (arith, from later)
      ],
    )

equals_iff : (found : Option String) (id : String) → (equals found id ≡ true) ↔ (found ≡ some id)
equals_iff none id = (λ h. cc, λ h. cc)
equals_iff (some value) id = ground (arith, eq_iff value id)

param_iff :
    (name id : String) (params : List (String × String))
    → (equals (param name params) id ≡ true) ↔ Carries name id params
unfolding param
param_iff name id [] = (λ h. cc, λ h. absurd h)
param_iff name id ((key, v) ∷ rest) =
    let (to, from) = param_iff name id rest in
    elim (Bool-cases (str_eq key name)) [
      | inl same ↦
          let e = (eq_iff key name).0 same in
          rw same (
            λ h. inl (e, (eq_iff v id).0 h),
            λ h. elim h [ inl (_, k) ↦ (eq_iff v id).1 k | inr (ne, _) ↦ absurd (ne e) ],
          )
      | inr other ↦
          let ne = ne-of-str_eq key name other in
          rw other (
            λ h. inr (ne, to h),
            λ h. elim h [ inl (e, _) ↦ absurd (ne e) | inr (_, later) ↦ from later ],
          )
    ]

pub is_self_request_iff :
    (request : Request) (actor : Actor) (name : String)
    → (is_self_request request actor name ≡ true) ↔ IsOwn request actor name
unfolding is_self_request
is_self_request_iff request actor name =
    let (path_to, path_from) = ends_with_iff "/me" request.path in
    let (param_to, param_from) = param_iff name actor.id request.params in
    let (body_to, body_from) = equals_iff request.body_user_id actor.id in
    (
      λ h. elim (Bool-cases (ends_with "/me" request.path)) [
        | inl p ↦ inl (path_to p)
        | inr n ↦ elim (Bool-cases (equals (param name request.params) actor.id)) [
          | inl p ↦ inr (inl (param_to p))
          | inr m ↦ inr (inr (body_to (ground arith)))
        ]
      ],
      λ h. elim h [
        | inl p ↦ let q = path_from p in ground arith
        | inr (inl p) ↦ let q = param_from p in ground arith
        | inr (inr p) ↦ let q = body_from p in ground arith
      ],
    )
