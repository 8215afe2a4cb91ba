-- ===== src/Careers/Application/Moves.antt =====
-- What a status update with its history row does to the tables.
use all_service_api.Common.{
  Bool-cases, ne-of-str_eq, any, All, All-lookup, All-append, String, ◌≡◌, refl, sym, subst,
  fun_ext, inl, inr, Bool, true, List, [], ◌∷◌, ◌++◌, map, Memᴰ, str_eq, eq_iff,
}
use all_service_api.Prisma.{update_if}
use all_service_api.Prisma.Keys.{All-update}
use all_service_api.Careers.Status.{draft}
use all_service_api.Careers.State.{Application, StatusChange}
use all_service_api.Careers.Application.{has_id}
use all_service_api.Careers.Application.Trail.{
  any_of_mem, IsMove, trail_of, IsTrail, AreConsistent, IsTrail-append_own, IsTrail-append_other,
}

-- An update that keeps the identifiers keeps the answer to "is there an application of this id".
any-update :
    (id : String) (change : Application → Application) (rows : List Application) (k : String)
    → ((x : Application) → (change x).id ≡ x.id)
    → any (λ a. str_eq a.id k) (map (update_if (has_id id) change) rows)
      ≡ any (λ a. str_eq a.id k) rows
any-update id change [] k same = refl
any-update id change (r ∷ rows) k same = elim (Bool-cases (has_id id r)) [
  | inl p ↦ rw (p, same r, any-update id change rows k same)
  | inr p ↦ rw (p, any-update id change rows k same)
]

-- An application moves: its row is changed, and the move is appended to the history.
pub moved-AreConsistent :
    (apps : List Application) (hist : List StatusChange) (a : Application) (h : StatusChange)
    (change : Application → Application)
    → AreConsistent apps hist
    → Memᴰ a apps
    → a.id ≡ h.application_id
    → h.from_status ≡ a.status
    → IsMove a.status h.to_status
    → ((x : Application) → (change x).id ≡ x.id)
    → ((x : Application) → (change x).status ≡ h.to_status)
    → AreConsistent (map (update_if (has_id h.application_id) change) apps) (hist ++ h ∷ [])
moved-AreConsistent apps hist a h change c m e from move same_id new_status = record {
  recorded =
      All-update (λ x. IsTrail draft (trail_of x.id (hist ++ h ∷ [])) x.status)
        (has_id h.application_id) change apps
        (λ x mx p.
          let k : x.id ≡ h.application_id = (eq_iff x.id h.application_id).0 p in
          rw (same_id x, new_status x, k)
            (IsTrail-append_own hist a.status h
              (rw e at
                (All-lookup (λ y. IsTrail draft (trail_of y.id hist) y.status) apps c.recorded m))
              from move))
        (λ x mx p.
          IsTrail-append_other hist x.id x.status h
            (λ k. ne-of-str_eq x.id h.application_id p (sym k))
            (All-lookup (λ y. IsTrail draft (trail_of y.id hist) y.status) apps c.recorded mx));
  owned =
      subst (λ (f : String → Bool). All (λ r. f r.application_id ≡ true) (hist ++ h ∷ []))
        (sym (fun_ext (λ k. any-update h.application_id change apps k same_id)))
        (All-append _ hist (h ∷ []) c.owned (any_of_mem apps a h.application_id m e, tt));
}
