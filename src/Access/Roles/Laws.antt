-- ===== src/Access/Roles/Laws.antt =====
-- Which permissions a list of roles comes to.
use all_service_api.Access.Roles.{
  ◌∷◌, role_permissions, includes, add, add_all, flatten_from, flatten_roles,
}
use all_service_api.Common.{
  Bool-cases, Option-cases, String, ◌≡◌, refl, sym, ◌∙◌, subst, ◌↔◌, ◌⊎◌, inl, inr, true, false,
  ◌||◌, some, List, [], ◌∷◌, ◌++◌, Memᴰ, arith, str_eq, eq_iff,
}

-- Some role of the list is known and has the permission.
abbrev pub IsGranted : List String → String → Type 0
IsGranted roles code =
    (role : String) × Memᴰ role roles
    × ((codes : List String) × (role_permissions role ≡ some codes) × (includes codes code ≡ true))

-- No code occurs twice.
abbrev pub HasNoRepeat : List String → Type 0
HasNoRepeat [] = Unit
HasNoRepeat (code ∷ codes) = (includes codes code ≡ false) × HasNoRepeat codes

includes-append :
    (set : List String) (last code : String)
    → includes (set ++ last ∷ []) code ≡ (includes set code || str_eq last code)
includes-append [] last code = ground arith
includes-append (c ∷ set) last code = ground (arith, includes-append set last code)

includes-add :
    (set : List String) (new code : String)
    → includes (add set new) code ≡ (includes set code || str_eq new code)
includes-add set new code = elim (Bool-cases (includes set new)) [
  | inr fresh ↦ rw fresh (includes-append set new code)
  | inl known ↦ rw known (elim (Bool-cases (str_eq new code)) [
    | inl same ↦
        let here : includes set code ≡ true = rw ((eq_iff new code).0 same) at known in
        ground (arith, here)
    | inr other ↦ ground arith
  ])
]

includes-add_all :
    (set codes : List String) (code : String)
    → includes (add_all set codes) code ≡ (includes set code || includes codes code)
unfolding add_all
includes-add_all set [] code = ground arith
includes-add_all set (new ∷ codes) code =
    includes-add_all (add set new) codes code ∙ ground (arith, includes-add set new code)

HasNoRepeat-append :
    (set : List String) (new : String)
    → HasNoRepeat set
    → includes set new ≡ false
    → HasNoRepeat (set ++ new ∷ [])
HasNoRepeat-append [] new h fresh = (refl, tt)
HasNoRepeat-append (c ∷ set) new (first, h) fresh = (
  includes-append set new c ∙ ground (arith, eq_iff c new, eq_iff new c),
  HasNoRepeat-append set new h (ground arith),
)

HasNoRepeat-add_all : (set codes : List String) → HasNoRepeat set → HasNoRepeat (add_all set codes)
unfolding add_all
HasNoRepeat-add_all set [] h = h
HasNoRepeat-add_all set (new ∷ codes) h = elim (Bool-cases (includes set new)) [
  | inl known ↦ rw known (HasNoRepeat-add_all set codes h)
  | inr fresh ↦
      rw fresh (HasNoRepeat-add_all (set ++ new ∷ []) codes (HasNoRepeat-append set new h fresh))
]

HasNoRepeat-flatten_from :
    (set roles : List String) → HasNoRepeat set → HasNoRepeat (flatten_from set roles)
unfolding flatten_from
HasNoRepeat-flatten_from set [] h = h
HasNoRepeat-flatten_from set (role ∷ roles) h = elim (Option-cases (role_permissions role)) [
  | inl e ↦ rw e (HasNoRepeat-flatten_from set roles h)
  | inr (codes, e) ↦
      rw e (HasNoRepeat-flatten_from (add_all set codes) roles (HasNoRepeat-add_all set codes h))
]

abbrev HasPermission : String → String → Type 0
HasPermission role code =
    (codes : List String) × (role_permissions role ≡ some codes) × (includes codes code ≡ true)

IsGranted-cons :
    (role : String) (roles : List String) (code : String)
    → IsGranted (role ∷ roles) code
    → HasPermission role code ⊎ IsGranted roles code
IsGranted-cons role roles code (r, Memᴰ.head e, h) =
    inl (subst (λ (x : String). HasPermission x code) e h)
IsGranted-cons role roles code (r, Memᴰ.tail m, h) = inr (r, m, h)

IsGranted-tail :
    (role : String) (roles : List String) (code : String)
    → IsGranted roles code
    → IsGranted (role ∷ roles) code
IsGranted-tail role roles code (r, m, h) = (r, Memᴰ.tail m, h)

includes-cases :
    (set codes : List String) (code : String)
    → includes (add_all set codes) code ≡ true
    → (includes set code ≡ true) ⊎ (includes codes code ≡ true)
includes-cases set codes code h = ground (arith, includes-add_all set codes code)

flatten_from_iff :
    (set roles : List String) (code : String)
    → (includes (flatten_from set roles) code ≡ true)
      ↔ ((includes set code ≡ true) ⊎ IsGranted roles code)
unfolding flatten_from
flatten_from_iff set [] code = (inl, λ h. elim h [ inl k ↦ k | inr (role, m, _) ↦ elim m [ ] ])
flatten_from_iff set (role ∷ roles) code = elim (Option-cases (role_permissions role)) [
  | inl e ↦
      let (to, from) = flatten_from_iff set roles code in
      rw e (
        λ h. elim (to h) [ inl k ↦ inl k | inr g ↦ inr (IsGranted-tail role roles code g) ],
        λ h. elim h [
          | inl k ↦ from (inl k)
          | inr g ↦ elim (IsGranted-cons role roles code g) [
            | inl (codes, k, p) ↦ absurd (cc (e, k))
            | inr later ↦ from (inr later)
          ]
        ],
      )
  | inr (codes, e) ↦
      let (to, from) = flatten_from_iff (add_all set codes) roles code in
      rw e (
        λ h. elim (to h) [
          | inl k ↦ elim (includes-cases set codes code k) [
            | inl known ↦ inl known
            | inr new ↦ inr (role, Memᴰ.head refl, (codes, e, new))
          ]
          | inr g ↦ inr (IsGranted-tail role roles code g)
        ],
        λ h. elim h [
          | inl k ↦ from (inl (ground (arith, includes-add_all set codes code)))
          | inr g ↦ elim (IsGranted-cons role roles code g) [
            | inl (others, k, p) ↦
                let same : codes ≡ others = ground arith in
                from (inl (ground (arith, includes-add_all set codes code, rw (sym same) at p)))
            | inr later ↦ from (inr later)
          ]
        ],
      )
]

-- The permissions of a list of roles are those that some known role of it has, each once.
pub flatten_roles_iff :
    (roles : List String) (code : String)
    → ((includes (flatten_roles roles) code ≡ true) ↔ IsGranted roles code)
      × HasNoRepeat (flatten_roles roles)
unfolding flatten_roles
flatten_roles_iff roles code =
    let (to, from) = flatten_from_iff [] roles code in
    (
      (λ h. elim (to h) [ inl k ↦ cc | inr g ↦ g ], λ g. from (inr g)),
      HasNoRepeat-flatten_from [] roles tt,
    )
