-- ===== src/Program/Vouchers.antt =====
-- What the sale and the revocation of vouchers, the payments and the plans do to a voucher that lets a
-- device in no more.
use wi_fi_man.Common.{
  ℕ, ◌≡◌, refl, ap, ◌∙◌, inl, inr, some, List, [], ◌∷◌, Text, bytes, arith, eq_iff, Option-cases,
  Bool-cases,
}
use mathlib.Core.Path.{subst}
use wi_fi_man.Common.Dict
use wi_fi_man.Common.Dict.{get-put}
use wi_fi_man.Common.Exec.{Result, ok, err, Keeps, bind-Keeps, bind_at, ◌>>=◌, Result-cases}
use wi_fi_man.Domain.{Plan, Token, Payment, Error}
use wi_fi_man.Util.Mac.{normalize_mac}
use wi_fi_man.Store.Memory.{
  MemoryStore, create_token, get_token_by_id, update_token, create_payment_if_absent, create_plan,
  get_plan,
}
use wi_fi_man.Store.Memory.Index.{create_token-IsIndexed}
use wi_fi_man.World.{Env, World, db, now_utc, new_uuid}
use wi_fi_man.Service.Audit.{log_audit}
use wi_fi_man.Service.Plan.{CreatePlanInput, create_checked_plan, plan_by_id}
use wi_fi_man.Service.Payment.{
  ManualPaymentInput, MobileMoneyWebhookInput, record_manual_payment, process_mobile_money_webhook,
}
use wi_fi_man.Service.Token.Generate.{GenerateTokensInput, GeneratedToken, generate_tokens}
use wi_fi_man.Service.Token.Generate.Index.{generate_tokens-Kept}
use wi_fi_man.Service.Token.Expiry.{end_active_session}
use wi_fi_man.Service.Token.Redeem.{given_or, redeem_token}
use wi_fi_man.Service.Token.Redeem.Blocked.{
  is_spent, Blocks, IsBlocked, same_tokens-Blocks, update_token-Blocks,
  end_active_session-IsBlocked,
}
use wi_fi_man.Service.Token.Revoke.{revoked, audit_revocation, revoke_token}
use wi_fi_man.Http.Context.{Context, resolve_device_mac}
use wi_fi_man.Http.Portal.{
  PurchaseInput, PurchaseResult, portal_payment, portal_generation, portal_redemption,
  redeem_purchase, use_generated, purchase_plan, purchase,
}
use wi_fi_man.Program.Gateway.{redeem_token-IsBlocked}

-- A new token takes neither the place nor the hash of another.
create_token-Blocks :
    (hash m : Text) (u : Token) (store : MemoryStore)
    → Blocks hash m store
    → Blocks hash m (create_token u store).1
unfolding create_token
create_token-Blocks hash m u store (v, (t, stored, own, x)) =
    (create_token-IsIndexed u store v, (t, still u store t stored, own, x))
  where
    still :
        (u : Token) (store : MemoryStore) (t : Token)
        → Dict.get store.tokens t.id ≡ some t
        → Dict.get (create_token u store).1.tokens t.id ≡ some t
    still u store t stored = ground (arith, get-put store.tokens u.id t.id u, eq_iff u.id t.id)

module _ (env : Env) (hash m : Text) where
  pub generate_tokens-IsBlocked :
      (fuel : ℕ) (i : GenerateTokensInput) (w w' : World) (r : Result Error (List GeneratedToken))
      → IsBlocked hash m w
      → generate_tokens env fuel i w ≡ some (r, w')
      → IsBlocked hash m w'
  generate_tokens-IsBlocked =
      generate_tokens-Kept env (Blocks hash m) (create_token-Blocks hash m)
        (same_tokens-Blocks hash m)

  pub record_manual_payment-IsBlocked :
      (i : ManualPaymentInput) → Keeps (IsBlocked hash m) (record_manual_payment env i)
  unfolding record_manual_payment create_payment_if_absent log_audit
  record_manual_payment-IsBlocked i w v =
      same_tokens-Blocks hash m w.store _ (ground arith) (ground arith) v

  pub process_mobile_money_webhook-IsBlocked :
      (key : Text) (i : MobileMoneyWebhookInput)
      → Keeps (IsBlocked hash m) (process_mobile_money_webhook env key i)
  unfolding process_mobile_money_webhook create_payment_if_absent
  process_mobile_money_webhook-IsBlocked key i w v =
      same_tokens-Blocks hash m w.store _ (ground arith) (ground arith) v

  pub create_checked_plan-IsBlocked :
      (i : CreatePlanInput) → Keeps (IsBlocked hash m) (create_checked_plan env i)
  unfolding create_checked_plan create_plan
  create_checked_plan-IsBlocked i w v =
      same_tokens-Blocks hash m w.store _ (ground arith) (ground arith) v

  audit_revocation-IsBlocked :
      (id admin reason : Text) → Keeps (IsBlocked hash m) (audit_revocation env id admin reason)
  unfolding audit_revocation log_audit
  audit_revocation-IsBlocked id admin reason w v =
      same_tokens-Blocks hash m w.store _ (ground arith) (ground arith) v

  pub revoke_token-IsBlocked :
      (id admin given : Text) → Keeps (IsBlocked hash m) (revoke_token env id admin given)
  unfolding revoke_token get_token_by_id is_spent
  revoke_token-IsBlocked id admin given w v =
      let reason = given_or given (bytes "revoked by admin") in
      let now = env.now w.clock in
      let timed = (now_utc env w).1 in
      elim (Option-cases (Dict.get w.store.tokens id)) [
        | inl n ↦ rw (revoke_token, get_token_by_id, n) v
        | inr (t, n) ↦
            let own : t.id ≡ id = v.0.own_id id t n in
            let rest = λ (u : Unit {0}). audit_revocation env id admin reason in
            rw (revoke_token, get_token_by_id, n)
              (bind_at (IsBlocked hash m) (db (update_token (revoked t reason now)))
                (λ (u : Unit {0}). end_active_session env id (bytes "revoked") now >>= rest) timed
                (update_token-Blocks hash m w.store t (revoked t reason now)
                  (ap (Dict.get w.store.tokens) own ∙ n) refl refl (λ x. inr refl) v)
                (λ u w' e v'.
                  bind-Keeps (IsBlocked hash m) (end_active_session env id (bytes "revoked") now)
                    rest (λ w2. end_active_session-IsBlocked env hash m id (bytes "revoked") now w2)
                    (λ u'. audit_revocation-IsBlocked id admin reason) w' v'))
      ]

  redeem_purchase-IsBlocked :
      (c : Context) (req : PurchaseInput) (plan : Plan) (mac : Text) (p : Payment)
      (t : GeneratedToken)
      → Keeps (IsBlocked hash m) (redeem_purchase env c req plan mac p t)
  unfolding redeem_purchase
  redeem_purchase-IsBlocked c req plan mac p t w v =
      let kept = redeem_token-IsBlocked env hash m (portal_redemption env c req mac t.code) w v in
      elim (Result-cases (redeem_token env (portal_redemption env c req mac t.code) w).0) [
        | inl (r, e) ↦ rw (redeem_purchase, e) kept
        | inr (x, e) ↦ rw (redeem_purchase, e) kept
      ]

  use_generated-IsBlocked :
      (c : Context) (req : PurchaseInput) (plan : Plan) (mac : Text) (p : Payment)
      (x : Result Error (List GeneratedToken)) (w w' : World) (r : Result Error PurchaseResult)
      → IsBlocked hash m w
      → use_generated env c req plan mac p (x, w) ≡ some (r, w')
      → IsBlocked hash m w'
  unfolding use_generated
  use_generated-IsBlocked c req plan mac p (err e) w w' r v h =
      let is_w : w ≡ w' = ground arith in subst (IsBlocked hash m) is_w v
  use_generated-IsBlocked c req plan mac p (ok []) w w' r v h = absurd (ground arith)
  use_generated-IsBlocked c req plan mac p (ok (t ∷ ts)) w w' r v h =
      let run : redeem_purchase env c req plan mac p t w ≡ (r, w') = ground arith in
      subst (λ (x : Result Error PurchaseResult × World). IsBlocked hash m x.1) run
        (redeem_purchase-IsBlocked c req plan mac p t w v)

  purchase_plan-IsBlocked :
      (fuel : ℕ) (c : Context) (req : PurchaseInput) (plan : Plan) (mac : Text) (w w' : World)
      (r : Result Error PurchaseResult)
      → IsBlocked hash m w
      → purchase_plan env fuel c req plan mac w ≡ some (r, w')
      → IsBlocked hash m w'
  unfolding purchase_plan
  purchase_plan-IsBlocked fuel c req plan mac w w' r v h =
      let payment = portal_payment env req plan mac (env.new_uuid w.uuids) in
      let w1 = (record_manual_payment env payment (new_uuid env w).1).1 in
      let paid : IsBlocked hash m w1 =
        record_manual_payment-IsBlocked payment (new_uuid env w).1 v in
      elim (Result-cases (record_manual_payment env payment (new_uuid env w).1).0) [
        | inr (x, e) ↦ let is_w : w1 ≡ w' = ground (arith, e) in subst (IsBlocked hash m) is_w paid
        | inl ((p, existed), e) ↦
            elim (Option-cases (generate_tokens env fuel (portal_generation env plan) w1)) [
              | inl n ↦ absurd (ground (arith, e, n))
              | inr ((x, w2), n) ↦
                  let made =
                    generate_tokens-IsBlocked fuel (portal_generation env plan) w1 w2 x paid n in
                  use_generated-IsBlocked c req plan mac p x w2 w' r made (ground (arith, e, n))
            ]
      ]

  pub purchase-IsBlocked :
      (fuel : ℕ) (c : Context) (req : PurchaseInput) (w w' : World)
      (r : Result Error PurchaseResult)
      → IsBlocked hash m w
      → purchase env fuel c req w ≡ some (r, w')
      → IsBlocked hash m w'
  unfolding purchase plan_by_id get_plan
  purchase-IsBlocked fuel c req w w' r v h =
      elim (Result-cases (normalize_mac (given_or req.device_mac (resolve_device_mac c)))) [
        | inr (x, e) ↦ let is_w : w ≡ w' = ground arith in subst (IsBlocked hash m) is_w v
        | inl (mac, e) ↦ elim (Option-cases (Dict.get w.store.plans req.plan_id)) [
          | inl n ↦ let is_w : w ≡ w' = ground arith in subst (IsBlocked hash m) is_w v
          | inr (plan, n) ↦ elim (Bool-cases plan.active) [
            | inr off ↦ let is_w : w ≡ w' = ground arith in subst (IsBlocked hash m) is_w v
            | inl on ↦ purchase_plan-IsBlocked fuel c req plan mac w w' r v (ground arith)
          ]
        ]
      ]
