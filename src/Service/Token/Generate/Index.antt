-- ===== src/Service/Token/Generate/Index.antt =====
-- The index of the store after the loop of token_service.go in backend/internal/service that generates vouchers.
use wi_fi_man.Common.{
  ℕ, suc, zero, ◌≡◌, ◌≢◌, refl, sym, ap, ◌∙◌, Option, none, some, arith, inl, inr, List, ◌⊎◌,
  Option-cases, Bool-cases,
}
use wi_fi_man.Common.Dict
use wi_fi_man.Common.Int.{pos_part}
use wi_fi_man.Common.Exec.{Result, ok, err, outcome, Result-cases}
use wi_fi_man.Domain.{Token, Error, Time}
use mathlib.Core.Path.{subst}
use wi_fi_man.Util.TokenCode.{generate_token_code, hash_token_code}
use wi_fi_man.Store.Memory.{MemoryStore, create_token, get_plan}
use wi_fi_man.Store.Memory.Index.{IsIndexed, create_token-IsIndexed}
use wi_fi_man.Store.Memory.Frame.{same_tokens-IsIndexed}
use wi_fi_man.World.{Env, World, now_utc}
use wi_fi_man.Service.Audit.{log_audit}
use wi_fi_man.Service.Token.Generate.{
  unused_token, prepend, GenerateTokensInput, GeneratedToken, draw_code, draw, generate_loop,
  audit_generation, audited, is_bad_count, generate_for, generate_tokens,
}

module _ (env : Env) where
  -- A pass of the loop leaves the store alone, or creates a token.
  draw-store :
      (i : GenerateTokensInput) (now : Time) (w : World)
      → ((draw env i now w).1.store ≡ w.store)
        ⊎ ((t : Token) × ((draw env i now w).1.store ≡ (create_token t w.store).1))
  unfolding draw draw_code
  draw-store i now w =
      elim (Result-cases (
        generate_token_code (env.rand_read w.reads 4) (env.rand_read (suc w.reads) 4)
          (env.rand_read (suc (suc w.reads)) 4))) [
            | inr (e, failed) ↦ inl (ground (arith, failed))
            | inl (code, drawn) ↦
                let t =
                  unused_token (env.new_uuid w.uuids) (hash_token_code env.sha256_hex code) i now in
                elim (outcome (create_token t w.store)) [
                  | inl (u, m, e) ↦ inr (t, ground (arith, drawn, e))
                  | inr (x, m, e) ↦ inr (t, ground (arith, drawn, e))
                ]
          ]

  loop-done :
      (fuel : ℕ) (i : GenerateTokensInput) (now : Time) (w w' : World)
      (r : Result Error (List GeneratedToken))
      → generate_loop env fuel i now zero w ≡ some (r, w')
      → w ≡ w'
  unfolding generate_loop
  loop-done fuel i now w w' r h = ground arith

  loop-out :
      (i : GenerateTokensInput) (now : Time) (n : ℕ) (w w' : World)
      (r : Result Error (List GeneratedToken))
      → generate_loop env zero i now (suc n) w ≢ some (r, w')
  unfolding generate_loop
  loop-out i now n w w' r h = absurd (ground arith)

  module _ (fuel : ℕ) (i : GenerateTokensInput) (now : Time) (n : ℕ) (w w1 : World) where
    loop-again :
        draw env i now w ≡ (ok none, w1)
        → generate_loop env (suc fuel) i now (suc n) w ≡ generate_loop env fuel i now (suc n) w1
    unfolding generate_loop
    loop-again e =
        rw (generate_loop, e, ap (λ (x : Result Error (Option GeneratedToken) × World). x.1) e) refl

    loop-next :
        (t : GeneratedToken)
        → draw env i now w ≡ (ok (some t), w1)
        → generate_loop env (suc fuel) i now (suc n) w
          ≡ prepend t (generate_loop env fuel i now n w1)
    unfolding generate_loop
    loop-next t e =
        rw (generate_loop, e, ap (λ (x : Result Error (Option GeneratedToken) × World). x.1) e) refl

    loop-error :
        (x : Error)
        → draw env i now w ≡ (err x, w1)
        → generate_loop env (suc fuel) i now (suc n) w ≡ some (err x, w1)
    unfolding generate_loop
    loop-error x e =
        rw (generate_loop, e, ap (λ (x : Result Error (Option GeneratedToken) × World). x.1) e) refl

  prepend-some :
      (t : GeneratedToken) (x : Option (Result Error (List GeneratedToken) × World))
      (r : Result Error (List GeneratedToken)) (w : World)
      → prepend t x ≡ some (r, w)
      → (q : Result Error (List GeneratedToken)) × (x ≡ some (q, w))
  prepend-some t none r w h = absurd (cc)
  prepend-some t (some (ok ts, w1)) r w h = (ok ts, ground arith)
  prepend-some t (some (err e, w1)) r w h = (err e, ground arith)

-- What holds of a store after every creation of a token, and stands on tokens and index alone, holds
-- after a generation, whatever it returns.
module _ (env : Env) (Q : MemoryStore → Type 0)
    (made : (t : Token) (m : MemoryStore) → Q m → Q (create_token t m).1)
    (same_tokens : (m n : MemoryStore)
      → n.tokens ≡ m.tokens
      → n.token_by_hash ≡ m.token_by_hash
      → Q m
      → Q n) where
  draw-Kept :
      (i : GenerateTokensInput) (now : Time) (w : World) → Q w.store → Q (draw env i now w).1.store
  draw-Kept i now w v = elim (draw-store env i now w) [
    | inl same ↦ subst Q (sym same) v
    | inr (t, same) ↦ subst Q (sym same) (made t w.store v)
  ]

  next_Kept :
      (i : GenerateTokensInput) (now : Time) (w w1 : World)
      (r : Result Error (Option GeneratedToken))
      → draw env i now w ≡ (r, w1)
      → Q w.store
      → Q w1.store
  next_Kept i now w w1 r e v =
      subst (λ (x : Result Error (Option GeneratedToken) × World). Q x.1.store) e
        (draw-Kept i now w v)

  generate_loop-Kept :
      (fuel : ℕ) (i : GenerateTokensInput) (now : Time) (n : ℕ) (w w' : World)
      (r : Result Error (List GeneratedToken))
      → Q w.store
      → generate_loop env fuel i now n w ≡ some (r, w')
      → Q w'.store
  generate_loop-Kept fuel i now zero w w' r v h =
      subst (λ (x : World). Q x.store) (loop-done env fuel i now w w' r h) v
  generate_loop-Kept zero i now (suc n) w w' r v h = absurd (loop-out env i now n w w' r h)
  generate_loop-Kept (suc fuel) i now (suc n) w w' r v h = elim (outcome (draw env i now w)) [
    | inr (x, w1, e) ↦
        let still = next_Kept i now w w1 (err x) e v in
        let ended = sym (loop-error env fuel i now n w w1 x e) ∙ h in
        let is_w : w1 ≡ w' = ground arith in subst (λ (x : World). Q x.store) is_w still
    | inl (found, w1, e) ↦
        let still = next_Kept i now w w1 (ok found) e v in
        elim (Option-cases found) [
          | inl n1 ↦
              generate_loop-Kept fuel i now (suc n) w1 w' r still
                (sym (loop-again env fuel i now n w w1 (e ∙ rw n1 refl)) ∙ h)
          | inr (t, n1) ↦
              let (q, rest) =
                prepend-some env t (generate_loop env fuel i now n w1) r w'
                  (sym (loop-next env fuel i now n w w1 t (e ∙ rw n1 refl)) ∙ h) in
              generate_loop-Kept fuel i now n w1 w' q still rest
        ]
  ]

  audit_generation-Kept :
      (i : GenerateTokensInput) (w : World) → Q w.store → Q (audit_generation env i w).1.store
  unfolding audit_generation log_audit
  audit_generation-Kept i w v =
      same_tokens w.store (audit_generation env i w).1.store (ground arith) (ground arith) v

  audited-Kept :
      (i : GenerateTokensInput) (r : Result Error (List GeneratedToken)) (w : World)
      → Q w.store
      → Q (audited env i (r, w)).1.store
  audited-Kept i (err e) w v = v
  audited-Kept i (ok out) w v = audit_generation-Kept i w v

  generate_for-Kept :
      (fuel : ℕ) (i : GenerateTokensInput) (w w' : World) (r : Result Error (List GeneratedToken))
      → Q w.store
      → generate_for env fuel i w ≡ some (r, w')
      → Q w'.store
  unfolding generate_for
  generate_for-Kept fuel i w w' r v h =
      elim (Option-cases
        (generate_loop env fuel i (env.now w.clock) (pos_part i.count) (now_utc env w).1)) [
          | inl e ↦ absurd (ground arith)
          | inr ((q, w1), e) ↦
              let still =
                generate_loop-Kept fuel i (env.now w.clock) (pos_part i.count) (now_utc env w).1 w1
                  q v e in
              let run : audited env i (q, w1) ≡ (r, w') = ground arith in
              subst (λ (x : Result Error (List GeneratedToken) × World). Q x.1.store) run
                (audited-Kept i q w1 still)
        ]

  pub generate_tokens-Kept :
      (fuel : ℕ) (i : GenerateTokensInput) (w w' : World) (r : Result Error (List GeneratedToken))
      → Q w.store
      → generate_tokens env fuel i w ≡ some (r, w')
      → Q w'.store
  unfolding generate_tokens get_plan
  generate_tokens-Kept fuel i w w' r v h = elim (Bool-cases (is_bad_count i.count)) [
    | inl e ↦ let is_w : w ≡ w' = ground arith in subst (λ (x : World). Q x.store) is_w v
    | inr e ↦ elim (Option-cases (Dict.get w.store.plans i.plan_id)) [
      | inl n ↦ let is_w : w ≡ w' = ground arith in subst (λ (x : World). Q x.store) is_w v
      | inr (plan, n) ↦ elim (Bool-cases plan.active) [
        | inl on ↦ generate_for-Kept fuel i w w' r v (ground arith)
        | inr off ↦ let is_w : w ≡ w' = ground arith in subst (λ (x : World). Q x.store) is_w v
      ]
    ]
  ]

pub generate_tokens-IsIndexed :
    (env : Env) (fuel : ℕ) (i : GenerateTokensInput) (w w' : World)
    (r : Result Error (List GeneratedToken))
    → IsIndexed w.store
    → generate_tokens env fuel i w ≡ some (r, w')
    → IsIndexed w'.store
generate_tokens-IsIndexed env =
    generate_tokens-Kept env IsIndexed create_token-IsIndexed same_tokens-IsIndexed
