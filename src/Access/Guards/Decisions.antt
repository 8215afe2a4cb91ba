-- ===== src/Access/Guards/Decisions.antt =====
-- Which requests the guards let through.
use text.Mathlib.TextBridge.{IsSuffix}
use all_service_api.Access.Guards.Own.{IsOwn, ends_with_iff, is_self_request_iff}
use mathlib.Core.Bool.{false≢true}
use all_service_api.Common.{
  Bool-cases, str_eq-of-ne, ne-of-str_eq, or_else, all, any, All, String, ◌≡◌, refl, sym, ap, ◌∙◌,
  ◌≢◌, ◌↔◌, ◌⊎◌, inl, inr, Bool, true, Option, none, some, List, [], ◌∷◌, Memᴰ, arith, eq_iff,
}
use all_service_api.Access.Roles.{includes, flatten_roles}
use all_service_api.Access.Roles.Laws.{IsGranted, flatten_roles_iff}
use all_service_api.Access.Guards.{
  passes, PermissionMode, is_empty, Request, Actor, PermissionMetadata, all_of, any_of, satisfies,
  ends_with, check_permissions, check_roles, check_internal,
}

-- The permission is granted by a role of the actor, and where its code ends with `:self` the request
-- is on the actor's own things.
abbrev pub MayUse : Request → Actor → Option String → String → Type 0
MayUse request actor self_param perm =
    IsGranted actor.roles perm
    × (¬ IsSuffix ":self" perm ⊎ IsOwn request actor (or_else self_param "id"))

satisfies_iff :
    (request : Request) (actor : Actor) (self_param : Option String) (perm : String)
    → actor.permissions ≡ flatten_roles actor.roles
    → (satisfies request actor self_param perm ≡ true) ↔ MayUse request actor self_param perm
unfolding satisfies
satisfies_iff request actor self_param perm e =
    let ((granted, held_if), _) = flatten_roles_iff actor.roles perm in
    let (own, own_if) = is_self_request_iff request actor (or_else self_param "id") in
    let (scoped, scoped_if) = ends_with_iff ":self" perm in
    let same : includes actor.permissions perm ≡ includes (flatten_roles actor.roles) perm =
      ap (λ (codes : List String). includes codes perm) e in
    (
      λ h. (
        granted (sym same ∙ ground arith),
        elim (Bool-cases (ends_with ":self" perm)) [
          | inl p ↦ inr (own (ground arith))
          | inr n ↦ inl (λ suffix. false≢true (sym n ∙ scoped_if suffix))
        ],
      ),
      λ (g, w).
          let held : includes actor.permissions perm ≡ true = same ∙ held_if g in
          elim w [
            | inl unscoped ↦ elim (Bool-cases (ends_with ":self" perm)) [
              | inl p ↦ absurd (unscoped (scoped p))
              | inr n ↦ ground arith
            ]
            | inr mine ↦ let q = own_if mine in ground arith
          ],
    )

all_iff :
    {P : String → Type 0} (test : String → Bool) (codes : List String)
    → ((code : String) → (test code ≡ true) ↔ P code)
    → (all test codes ≡ true) ↔ All P codes
all_iff test [] each = (λ h. tt, λ h. refl)
all_iff test (c ∷ codes) each =
    let (to, from) = each c in
    let (rest_to, rest_from) = all_iff test codes each in
    (
      λ h. (to (ground arith), rest_to (ground arith)),
      λ (p, ps). let q = from p in let r = rest_from ps in ground arith,
    )

mem-of-any :
    (test : String → Bool) (codes : List String)
    → any test codes ≡ true
    → (code : String) × Memᴰ code codes × (test code ≡ true)
mem-of-any test [] h = cc
mem-of-any test (c ∷ codes) h = elim (Bool-cases (test c)) [
  | inl p ↦ (c, Memᴰ.head refl, p)
  | inr p ↦ let (code, m, q) = mem-of-any test codes (ground arith) in (code, Memᴰ.tail m, q)
]

any-of-mem :
    (test : String → Bool) (codes : List String) (code : String)
    → Memᴰ code codes
    → test code ≡ true
    → any test codes ≡ true
any-of-mem test [] code m p = elim m [ ]
any-of-mem test (c ∷ codes) code (Memᴰ.head e) p = let q : test c ≡ true = rw e at p in rw q
any-of-mem test (c ∷ codes) code (Memᴰ.tail m) p = ground (arith, any-of-mem test codes code m p)

nil-of-is_empty : (codes : List String) → is_empty codes ≡ true → codes ≡ []
nil-of-is_empty [] h = refl
nil-of-is_empty (c ∷ codes) h = cc

passes_iff :
    {P : String → Type 0} (codes : List String) (mode : PermissionMode) (test : String → Bool)
    → ((code : String) → (test code ≡ true) ↔ P code)
    → (passes (record { permissions = codes; mode = mode }) test ≡ true) ↔ (
        ((mode ≡ all_of) × All P codes)
        ⊎ ((mode ≡ any_of) × ((code : String) × Memᴰ code codes × P code)))
passes_iff codes all_of test each =
    let (to, from) = all_iff test codes each in
    (λ h. inl (refl, to h), λ h. elim h [ inl (_, ps) ↦ from ps | inr (e, _) ↦ cc ])
passes_iff codes any_of test each = (
  λ h. let (code, m, p) = mem-of-any test codes h in inr (refl, (code, m, (each code).0 p)),
  λ h. elim h [
    | inl (e, _) ↦ cc
    | inr (_, (code, m, p)) ↦ any-of-mem test codes code m ((each code).1 p)
  ],
)

-- With an access token that carries the permissions of its roles, the permissions guard lets a
-- request through exactly where the handler asks for nothing, or the caller may use each permission
-- that it asks for, or one of them where it asks for any. A caller may use a permission that one of
-- their roles grants; one whose code ends with `:self` only where the path ends with `/me`, or
-- their identifier is `body.userId` or the route's parameter that the handler names, `id` by default.
pub check_permissions_iff :
    (metadata : PermissionMetadata) (self_param : Option String) (request : Request) (actor : Actor)
    → request.user ≡ some actor
    → actor.permissions ≡ flatten_roles actor.roles
    → (check_permissions (some metadata) self_param request ≡ none) ↔ (
        (metadata.permissions ≡ [])
        ⊎ (((metadata.mode ≡ all_of) × All (MayUse request actor self_param) metadata.permissions)
            ⊎ ((metadata.mode ≡ any_of)
                × ((code : String) × Memᴰ code metadata.permissions
                    × MayUse request actor self_param code))))
unfolding check_permissions
check_permissions_iff metadata self_param request actor u e =
    let test = satisfies request actor self_param in
    let (to, from) =
      passes_iff metadata.permissions metadata.mode test
        (λ code. satisfies_iff request actor self_param code e) in
    elim (Bool-cases (is_empty metadata.permissions)) [
      | inl bare ↦ rw bare (λ h. inl (nil-of-is_empty metadata.permissions bare), λ h. refl)
      | inr asked ↦ elim (Bool-cases (passes metadata test)) [
        | inl p ↦ rw (asked, u, p) (λ h. inr (to p), λ h. refl)
        | inr p ↦
            rw (asked, u, p)
              (
                λ h. cc,
                λ h. elim h [
                  | inl none_asked ↦ absurd (false≢true (sym asked ∙ ap is_empty none_asked))
                  | inr q ↦ absurd (false≢true (sym p ∙ from q))
                ],
              )
      ]
    ]

-- The roles guard lets a request through exactly when no role is asked for or the caller has one of
-- them.
pub check_roles_iff :
    (required : List String) (request : Request) (actor : Actor)
    → request.user ≡ some actor
    → (check_roles (some required) request ≡ none) ↔ (
        (required ≡ [])
        ⊎ ((role : String) × Memᴰ role required × (includes actor.roles role ≡ true)))
unfolding check_roles
check_roles_iff [] request actor u = (λ h. inl refl, λ h. refl)
check_roles_iff (r ∷ required) request actor u =
    let test = includes actor.roles in
    elim (Bool-cases (any test (r ∷ required))) [
      | inl p ↦ rw (u, p) (λ h. inr (mem-of-any test (r ∷ required) p), λ h. refl)
      | inr p ↦
          rw (u, p)
            (
              λ h. cc,
              λ h. elim h [
                | inl e ↦ cc
                | inr (role, m, q) ↦
                    absurd (false≢true (sym p ∙ any-of-mem test (r ∷ required) role m q))
              ],
            )
    ]

-- The internal guard lets a request through exactly when it carries the configured secret and that
-- is not empty.
pub check_internal_iff :
    (expected : String) (incoming : Option String)
    → (check_internal expected incoming ≡ none) ↔ ((incoming ≡ some expected) × (expected ≢ ""))
unfolding check_internal
check_internal_iff expected none = (λ h. cc, λ (e, _). cc)
check_internal_iff expected (some incoming) = (
  λ h. (
    ap some ((eq_iff incoming expected).0 (ground arith)),
    ne-of-str_eq expected "" (ground arith),
  ),
  λ (e, ne). ground (arith, eq_iff incoming expected, str_eq-of-ne expected "" ne),
)
