-- ===== src/Service/Token/Generate/Found.antt =====
-- What a generation returns, against the store that it leaves: `GenerateTokens` of
-- backend/internal/service/token_service.go.
use wi_fi_man.Common.{
  ℕ, ◌≡◌, sym, List, [], ◌∷◌, some, arith, inl, inr, Option-cases, Bool-cases, All,
}
use wi_fi_man.Common.Dict
use wi_fi_man.Common.Int.{pos_part}
use wi_fi_man.Common.Exec.{ok, err}
use wi_fi_man.Domain.{Time}
use wi_fi_man.Store.Memory.{MemoryStore, get_plan}
use wi_fi_man.World.{Env, World, now_utc}
use wi_fi_man.Service.Audit.{log_audit}
use wi_fi_man.Service.Token.Generate.{
  GenerateTokensInput, GeneratedToken, generate_loop, audit_generation, is_bad_count, generate_for,
  generate_tokens,
}
use wi_fi_man.Service.Token.Generate.Sold.{IsSold, generate_loop-IsSold}

module _ (env : Env) (i : GenerateTokensInput) where
  audit_generation-maps :
      (w : World)
      → ((audit_generation env i w).1.store.tokens ≡ w.store.tokens)
        × ((audit_generation env i w).1.store.token_by_hash ≡ w.store.token_by_hash)
  unfolding audit_generation log_audit
  audit_generation-maps w = (ground arith, ground arith)

  All-IsSold-same :
      (now : Time) (m n : MemoryStore) (ts : List GeneratedToken)
      → n.tokens ≡ m.tokens
      → n.token_by_hash ≡ m.token_by_hash
      → All (IsSold env i now m) ts
      → All (IsSold env i now n) ts
  All-IsSold-same now m n [] h k sold = tt
  All-IsSold-same now m n (t ∷ ts) h k ((indexed, stored), sold) =
      ((rw k indexed, rw h stored), All-IsSold-same now m n ts h k sold)

  generate_for-IsSold :
      (fuel : ℕ) (w w' : World) (ts : List GeneratedToken)
      → generate_for env fuel i w ≡ some (ok ts, w')
      → All (IsSold env i (env.now w.clock) w'.store) ts
  unfolding generate_for
  generate_for-IsSold fuel w w' ts h =
      let now = env.now w.clock in
      elim (Option-cases (generate_loop env fuel i now (pos_part i.count) (now_utc env w).1)) [
        | inl e ↦ absurd (ground arith)
        | inr ((err x, w1), e) ↦ absurd (ground arith)
        | inr ((ok us, w1), e) ↦
            let (size, sold, kept) =
              generate_loop-IsSold env i now fuel (pos_part i.count) (now_utc env w).1 w1 us e in
            let us_eq : us ≡ ts = ground arith in
            let w_eq : (audit_generation env i w1).1 ≡ w' = ground arith in
            let (same, same_index) = audit_generation-maps w1 in
            let all =
              All-IsSold-same now w1.store (audit_generation env i w1).1.store us same same_index
                sold in
            rw (sym us_eq, sym w_eq) all
      ]

  -- Each voucher of a generation that succeeds is found by its code, unused and of the plan.
  pub generate_tokens-IsSold :
      (fuel : ℕ) (w w' : World) (ts : List GeneratedToken)
      → generate_tokens env fuel i w ≡ some (ok ts, w')
      → All (IsSold env i (env.now w.clock) w'.store) ts
  unfolding generate_tokens get_plan
  generate_tokens-IsSold fuel w w' ts h = elim (Bool-cases (is_bad_count i.count)) [
    | inl e ↦ absurd (ground arith)
    | inr e ↦ elim (Option-cases (Dict.get w.store.plans i.plan_id)) [
      | inl n ↦ absurd (ground arith)
      | inr (plan, n) ↦ elim (Bool-cases plan.active) [
        | inl on ↦ generate_for-IsSold fuel w w' ts (ground arith)
        | inr off ↦ absurd (ground arith)
      ]
    ]
  ]
