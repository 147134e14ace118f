-- ===== src/Store/Memory/Plans.antt =====
-- The listing of plans is in order of creation and lists each plan once.
use wi_fi_man.Common.{◌≡◌, refl, List, [], ◌∷◌, arith, All, Bool-cases, inl, inr}
use wi_fi_man.Common.Int.{◌≤ℤ◌, ltb_ℤ}
use mathlib.Core.List.{Perm}
use mathlib.Core.List.Perm
use wi_fi_man.Common.Dict
use wi_fi_man.Domain.{Plan}
use wi_fi_man.Common.Exec.{ok}
use wi_fi_man.Store.Memory.{MemoryStore, insert_plan, sort_plans, list_plans}

-- Every plan was created no later than those behind it.
abbrev pub IsSorted : List Plan → Type 0
IsSorted [] = Unit
IsSorted (p ∷ ps) = All (λ q. p.created_at ≤ℤ q.created_at) ps × IsSorted ps

All-weaken :
    (p q : Plan) (ps : List Plan)
    → p.created_at ≤ℤ q.created_at
    → All (λ r. q.created_at ≤ℤ r.created_at) ps
    → All (λ r. p.created_at ≤ℤ r.created_at) ps
All-weaken p q [] h a = tt
All-weaken p q (r ∷ ps) h a = (omega arith, All-weaken p q ps h a.1)

All-insert_plan :
    (b p : Plan) (ps : List Plan)
    → b.created_at ≤ℤ p.created_at
    → All (λ r. b.created_at ≤ℤ r.created_at) ps
    → All (λ r. b.created_at ≤ℤ r.created_at) (insert_plan p ps)
unfolding insert_plan
All-insert_plan b p [] h a = (h, tt)
All-insert_plan b p (q ∷ ps) h a = ground (arith, All-insert_plan b p ps h a.1)

insert_plan-IsSorted : (p : Plan) (ps : List Plan) → IsSorted ps → IsSorted (insert_plan p ps)
unfolding insert_plan
insert_plan-IsSorted p [] s = (tt, tt)
insert_plan-IsSorted p (q ∷ ps) s = elim (Bool-cases (ltb_ℤ q.created_at p.created_at)) [
  | inl less ↦ rw less (All-insert_plan q p ps (ground arith) s.0, insert_plan-IsSorted p ps s.1)
  | inr not_less ↦
      let le : p.created_at ≤ℤ q.created_at = ground arith in
      rw not_less ((le, All-weaken p q ps le s.0), s)
]

sort_plans-IsSorted : (ps : List Plan) → IsSorted (sort_plans ps)
unfolding sort_plans
sort_plans-IsSorted [] = tt
sort_plans-IsSorted (p ∷ ps) = insert_plan-IsSorted p (sort_plans ps) (sort_plans-IsSorted ps)

insert_plan-perm : (p : Plan) (ps : List Plan) → Perm (insert_plan p ps) (p ∷ ps)
unfolding insert_plan
insert_plan-perm p [] = Perm.refl (p ∷ [])
insert_plan-perm p (q ∷ ps) = elim (Bool-cases (ltb_ℤ q.created_at p.created_at)) [
  | inl less ↦ rw less (Perm.trans (Perm.cons q (insert_plan-perm p ps)) (Perm.swap p q ps))
  | inr not_less ↦ rw not_less (Perm.refl (p ∷ q ∷ ps))
]

sort_plans-perm : (ps : List Plan) → Perm (sort_plans ps) ps
unfolding sort_plans
sort_plans-perm [] = Perm.refl []
sort_plans-perm (p ∷ ps) =
    Perm.trans (insert_plan-perm p (sort_plans ps)) (Perm.cons p (sort_plans-perm ps))

-- The listing returns exactly the stored plans, the oldest first, and changes nothing.
pub list_plans-IsSorted :
    (m : MemoryStore)
    → (ps : List Plan) × (list_plans m ≡ (ok ps, m)) × Perm ps (Dict.values m.plans) × IsSorted ps
unfolding list_plans
list_plans-IsSorted m =
    (sort_plans (Dict.values m.plans), refl, sort_plans-perm _, sort_plans-IsSorted _)
