-- ===== src/Prisma/Columns.antt =====
-- Columns of unique values under the changes of a table.
use all_service_api.Common.{All, All-append, String, ◌≡◌, sym, ◌∙◌, ◌≢◌, List, [], ◌∷◌, ◌++◌, map}
use all_service_api.Prisma.Keys.{HasUniqueKeys}

module _ {Row : Type 0} where
  pub All-map :
      (P Q : Row → Type 0) (f : Row → Row) (rows : List Row)
      → ((row : Row) → P row → Q (f row))
      → All P rows
      → All Q (map f rows)
  All-map P Q f [] h every = tt
  All-map P Q f (row ∷ rows) h (p, every) = (h row p, All-map P Q f rows h every)

  -- A change that keeps the values of a unique column keeps it unique.
  pub keys-map :
      (key : Row → String) (f : Row → Row) (rows : List Row)
      → ((row : Row) → key (f row) ≡ key row)
      → HasUniqueKeys key rows
      → HasUniqueKeys key (map f rows)
  keys-map key f [] same u = tt
  keys-map key f (row ∷ rows) same (ne, u) = (
    All-map (λ other. key other ≢ key row) (λ other. key other ≢ key (f row)) f rows
        (λ other p e. p (sym (same other) ∙ e ∙ same row)) ne,
    keys-map key f rows same u,
  )

  -- A new row whose value is new to the column keeps it unique.
  pub keys-append :
      (key : Row → String) (rows : List Row) (last : Row)
      → HasUniqueKeys key rows
      → All (λ other. key other ≢ key last) rows
      → HasUniqueKeys key (rows ++ last ∷ [])
  keys-append key [] last u new_value = (tt, tt)
  keys-append key (row ∷ rows) last (ne, u) (n, new_value) = (
    All-append (λ other. key other ≢ key row) rows (last ∷ []) ne (λ e. n (sym e), tt),
    keys-append key rows last u new_value,
  )
