-- ===== src/Store/Sql/Lookup.antt =====
-- A query by a column whose values do not repeat, in whatever order the server visits the rows:
-- for the lookups of backend/internal/repository/postgres.go.
use wi_fi_man.Common.{
  Bool, true, false, List, [], ◌∷◌, ◌++◌, ◌≡◌, refl, filter, Bool-cases, inl, inr, arith, OneOf,
}
use wi_fi_man.Store.Sql.{Select}
use wi_fi_man.Store.Sql.Answer.{Row, answer, meets, order_rows, insert_row, project}
use mathlib.Core.List.{Permᴰ}
use mathlib.Core.List.Permᴰ.{nil, cons, swap, trans}

module _ {A : Type 0} (p : A → Bool) where
  filter-none_perm : {xs ys : List A} → Permᴰ xs ys → filter p xs ≡ [] → filter p ys ≡ []
  filter-none_perm nil h = h
  filter-none_perm (cons {a = a} {b = b} {l₁ = l₁} {l₂ = l₂} e π) h =
      ground (arith, filter-none_perm π)
  filter-none_perm (swap {a = a} {b = b} {a' = a'} {b' = b'} {l = l} e₁ e₂) h = ground arith
  filter-none_perm (trans π ρ) h = filter-none_perm ρ (filter-none_perm π h)

  pub filter-one_perm :
      {xs ys : List A} (r : A) → Permᴰ xs ys → filter p xs ≡ r ∷ [] → filter p ys ≡ r ∷ []
  filter-one_perm r nil h = h
  filter-one_perm r (cons {a = a} {b = b} {l₁ = l₁} {l₂ = l₂} e π) h =
      ground (arith, filter-none_perm π, filter-one_perm r π)
  filter-one_perm r (swap {a = a} {b = b} {a' = a'} {b' = b'} {l = l} e₁ e₂) h = ground arith
  filter-one_perm r (trans π ρ) h = filter-one_perm r ρ (filter-one_perm r π h)

  -- The last row is the only one that passes.
  pub filter-last :
      (xs : List A) (r : A)
      → ((x : A) → OneOf x xs → p x ≡ false)
      → p r ≡ true
      → filter p (xs ++ r ∷ []) ≡ r ∷ []
  filter-last [] r h pr = rw pr
  filter-last (x ∷ xs) r h pr = rw (h x (inl refl)) (filter-last xs r (λ y m. h y (inr m)) pr)

-- The answer to a query that one row meets, and to one that none does.
pub answer-one :
    (s : Select) (rs : List Row) (r : Row)
    → filter (meets s.conditions) rs ≡ r ∷ []
    → answer s rs ≡ project s.columns r ∷ []
unfolding answer order_rows insert_row
answer-one s rs r h = elim (Bool-cases s.first_only) [ inl e ↦ rw (h, e) | inr e ↦ rw (h, e) ]

pub answer-none :
    (s : Select) (rs : List Row) → filter (meets s.conditions) rs ≡ [] → answer s rs ≡ []
unfolding answer order_rows
answer-none s rs h = elim (Bool-cases s.first_only) [ inl e ↦ rw (h, e) | inr e ↦ rw (h, e) ]
