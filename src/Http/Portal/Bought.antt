-- ===== src/Http/Portal/Bought.antt =====
-- A purchase at the portal that succeeds: `purchase` of backend/internal/http/handlers/portal_handler.go, through
-- the payment, the generation of a voucher and its redemption.
use wi_fi_man.Common.{
  ℕ, ◌≡◌, refl, sym, ap, ◌∙◌, true, false, Bool, some, Text, arith, inl, inr, List, [], ◌∷◌,
  Option-cases, Bool-cases, All,
}
use wi_fi_man.Common.Dict
use wi_fi_man.Common.Exec.{Result, ok, err, outcome, Result-cases}
use wi_fi_man.Domain.{Plan, Token, Time, Payment, Error}
use wi_fi_man.Util.Mac.{normalize_mac}
use wi_fi_man.Util.Mac.Spelling.{normalize_mac_idem}
use mathlib.Core.Path.{subst}
use wi_fi_man.Util.TokenCode.{hash_token_code}
use wi_fi_man.Store.Memory.{MemoryStore, with_tx, create_payment_if_absent, get_plan}
use wi_fi_man.Store.Memory.Index.{IsIndexed}
use wi_fi_man.Store.Memory.Frame.{same_tokens-IsIndexed}
use wi_fi_man.World.{Env, World, new_uuid}
use wi_fi_man.Service.Audit.{log_audit}
use wi_fi_man.Service.Plan.{plan_by_id}
use wi_fi_man.Service.Payment.{ManualPaymentInput, record_manual_payment}
use wi_fi_man.Service.Token.Generate.{GeneratedToken, generate_tokens}
use wi_fi_man.Service.Token.Generate.Index.{generate_tokens-IsIndexed}
use wi_fi_man.Service.Token.Redeem.{given_or, redeem_token}
use wi_fi_man.Service.Token.Redeem.Binding.{IsGranted, redeem_unsafe-IsGranted, redeem_unsafe-plan}
use wi_fi_man.Service.Token.Redeem.Cases.{find_token}
use wi_fi_man.Service.Token.Generate.Sold.{IsSold}
use wi_fi_man.Service.Token.Generate.Found.{generate_tokens-IsSold}
use wi_fi_man.Http.Context.{Context, resolve_device_mac}
use wi_fi_man.Http.Portal.{
  PurchaseInput, PurchaseResult, portal_payment, portal_generation, portal_redemption,
  redeem_purchase, use_generated, purchase_plan, purchase,
}

module _ (env : Env) where
  record_manual_payment-IsIndexed :
      (i : ManualPaymentInput) (w : World)
      → IsIndexed w.store
      → IsIndexed (record_manual_payment env i w).1.store
  unfolding record_manual_payment create_payment_if_absent log_audit
  record_manual_payment-IsIndexed i w v =
      same_tokens-IsIndexed w.store (record_manual_payment env i w).1.store (ground arith)
        (ground arith) v

  redeem_purchase-ok :
      (c : Context) (req : PurchaseInput) (plan : Plan) (mac : Text) (p : Payment)
      (t : GeneratedToken) (w w' : World) (r : PurchaseResult)
      → redeem_purchase env c req plan mac p t w ≡ (ok r, w')
      → (redeem_token env (portal_redemption env c req mac t.code) w ≡ (ok r.redeem, w'))
        × (r.plan ≡ plan)
        × (r.payment ≡ p)
        × (r.token_code ≡ t.code)
  unfolding redeem_purchase
  redeem_purchase-ok c req plan mac p t w w' r h =
      elim (outcome (redeem_token env (portal_redemption env c req mac t.code) w)) [
        | inr (x, w1, e) ↦ absurd (ground arith)
        | inl (x, w1, e) ↦ (ground arith, ground arith, ground arith, ground arith)
      ]

  -- The customer `mac` holds what the result says: a redeemed voucher whose token is of the plan,
  -- with the code shown.
  pub record IsBought (mac : Text) (plan : Plan) (r : PurchaseResult) (w : World) : Type 0 where
    pub plan_sold : r.plan ≡ plan
    pub of_plan : r.redeem.token.plan_id ≡ plan.id
    pub granted : IsGranted mac r.redeem w
    pub code_shown : r.redeem.token.code_hash ≡ hash_token_code env.sha256_hex r.token_code

  -- The code of the voucher leads to a stored token of the plan.
  abbrev IsOf : Plan → MemoryStore → GeneratedToken → Type 0
  IsOf plan m t =
      (Dict.get m.token_by_hash (hash_token_code env.sha256_hex t.code) ≡ some t.token_id)
      × (u : Token) × (Dict.get m.tokens t.token_id ≡ some u)
      × (u.plan_id ≡ plan.id)

  voucher-found :
      (c : Context) (req : PurchaseInput) (mac : Text) (t : GeneratedToken) (w : World) (u : Token)
      → Dict.get w.store.token_by_hash (hash_token_code env.sha256_hex t.code) ≡ some t.token_id
      → Dict.get w.store.tokens t.token_id ≡ some u
      → find_token env (portal_redemption env c req mac t.code) w ≡ some u
  unfolding portal_redemption
  voucher-found c req mac t w u indexed stored = rw (find_token, indexed) stored

  redeemed-IsBought :
      (c : Context) (req : PurchaseInput) (plan : Plan) (mac : Text) (p : Payment)
      (t : GeneratedToken) (w w' : World) (r : PurchaseResult)
      → normalize_mac mac ≡ ok mac
      → IsIndexed w.store
      → IsOf plan w.store t
      → redeem_purchase env c req plan mac p t w ≡ (ok r, w')
      → IsBought mac plan r w' × (r.payment ≡ p)
  unfolding redeem_token with_tx portal_redemption
  redeemed-IsBought c req plan mac p t w w' r normal v (indexed, u, stored, of_plan) h =
      let (redeemed, is_plan, is_payment, is_code) =
        redeem_purchase-ok c req plan mac p t w w' r h in
      let granted =
        redeem_unsafe-IsGranted env (portal_redemption env c req mac t.code) false w r.redeem w' v
          redeemed in
      let same : granted.0 ≡ mac = ground (arith, granted.1) in
      let found = voucher-found c req mac t w u indexed stored in
      let same_plan =
        redeem_unsafe-plan env (portal_redemption env c req mac t.code) false w r.redeem w' u
          redeemed found in
      (
        record {
          plan_sold = is_plan;
          of_plan = same_plan ∙ of_plan;
          granted = subst (λ (m : Text). IsGranted m r.redeem w') same granted.2;
          code_shown = granted.3 ∙ ap (hash_token_code env.sha256_hex) (sym is_code);
        },
        is_payment,
      )

  sold-IsOf :
      (plan : Plan) (now : Time) (m : MemoryStore) (ts : List GeneratedToken)
      → All (IsSold env (portal_generation env plan) now m) ts
      → All (IsOf plan m) ts
  sold-IsOf plan now m [] sold = tt
  sold-IsOf plan now m (t ∷ ts) ((indexed, stored), sold) =
      ((indexed, _, stored, refl), sold-IsOf plan now m ts sold)

  generated-IsBought :
      (c : Context) (req : PurchaseInput) (plan : Plan) (mac : Text) (p : Payment)
      (x : Result Error (List GeneratedToken)) (w w' : World) (r : PurchaseResult)
      → normalize_mac mac ≡ ok mac
      → ((ts : List GeneratedToken) → x ≡ ok ts → IsIndexed w.store × All (IsOf plan w.store) ts)
      → use_generated env c req plan mac p (x, w) ≡ some (ok r, w')
      → IsBought mac plan r w' × (r.payment ≡ p)
  unfolding use_generated
  generated-IsBought c req plan mac p (err e) w w' r normal v h = absurd (ground arith)
  generated-IsBought c req plan mac p (ok []) w w' r normal v h = absurd (ground arith)
  generated-IsBought c req plan mac p (ok (t ∷ ts)) w w' r normal v h =
      let (indexed, of_plan) = v (t ∷ ts) refl in
      redeemed-IsBought c req plan mac p t w w' r normal indexed of_plan.0 (ground arith)

  generated-IsOf :
      (fuel : ℕ) (plan : Plan) (w w' : World) (ts : List GeneratedToken)
      → generate_tokens env fuel (portal_generation env plan) w ≡ some (ok ts, w')
      → All (IsOf plan w'.store) ts
  generated-IsOf fuel plan w w' ts h =
      sold-IsOf plan (env.now w.clock) w'.store ts
        (generate_tokens-IsSold env (portal_generation env plan) fuel w w' ts h)

  -- From the payment on.
  abbrev pub paid_by : PurchaseInput → Plan → Text → World → Result Error (Payment × Bool) × World
  paid_by req plan mac w =
      record_manual_payment env (portal_payment env req plan mac (env.new_uuid w.uuids))
        (new_uuid env w).1

  plan_run :
      (fuel : ℕ) (c : Context) (req : PurchaseInput) (plan : Plan) (mac : Text) (p : Payment)
      (existed : Bool) (w w1 w2 : World) (x : Result Error (List GeneratedToken))
      → paid_by req plan mac w ≡ (ok (p, existed), w1)
      → generate_tokens env fuel (portal_generation env plan) w1 ≡ some (x, w2)
      → purchase_plan env fuel c req plan mac w ≡ use_generated env c req plan mac p (x, w2)
  unfolding purchase_plan
  plan_run fuel c req plan mac p existed w w1 w2 x e n = ground (arith, e, n)

  purchase_plan-IsBought :
      (fuel : ℕ) (c : Context) (req : PurchaseInput) (plan : Plan) (mac : Text) (w w' : World)
      (r : PurchaseResult)
      → normalize_mac mac ≡ ok mac
      → IsIndexed w.store
      → purchase_plan env fuel c req plan mac w ≡ some (ok r, w')
      → IsBought mac plan r w'
        × (existed : Bool) × ((paid_by req plan mac w).0 ≡ ok (r.payment, existed))
  unfolding purchase_plan
  purchase_plan-IsBought fuel c req plan mac w w' r normal v h =
      elim (outcome (paid_by req plan mac w)) [
        | inr (x, w1, e) ↦ absurd (ground arith)
        | inl ((p, existed), w1, e) ↦
            elim (Option-cases (generate_tokens env fuel (portal_generation env plan) w1)) [
              | inl n ↦ absurd (ground arith)
              | inr ((x, w2), n) ↦
                  let paid_IsIndexed : IsIndexed w1.store =
                    subst (λ (y : Result Error (Payment × Bool) × World). IsIndexed y.1.store) e
                      (record_manual_payment-IsIndexed
                        (portal_payment env req plan mac (env.new_uuid w.uuids)) (new_uuid env w).1
                        v) in
                  let (bought, is_payment) =
                    generated-IsBought c req plan mac p x w2 w' r normal
                      (λ ts is_ok.
                        let made =
                          n ∙ ap (λ (y : Result Error (List GeneratedToken)). some (y, w2)) is_ok in
                        (
                          generate_tokens-IsIndexed env fuel (portal_generation env plan) w1 w2
                              (ok ts) paid_IsIndexed made,
                          generated-IsOf fuel plan w1 w2 ts made,
                        ))
                      (sym (plan_run fuel c req plan mac p existed w w1 w2 x e n) ∙ h) in
                  (
                    bought,
                    existed,
                    ap (λ (y : Result Error (Payment × Bool) × World). y.0) e
                        ∙ ap (λ (q : Payment). ok (q, existed)) (sym is_payment),
                  )
            ]
      ]

  -- A purchase that succeeds, with the index of tokens intact, has found an active plan under the
  -- identifier asked for and recorded the payment shown, and the customer's device, under its
  -- normalised address, holds a redeemed voucher whose token is of that plan and has the hash of
  -- the code shown.
  pub purchase-IsBought :
      (fuel : ℕ) (c : Context) (req : PurchaseInput) (w w' : World) (r : PurchaseResult)
      → IsIndexed w.store
      → purchase env fuel c req w ≡ some (ok r, w')
      → (mac : Text) × (plan : Plan) × (existed : Bool) × (normalize_mac
            (given_or req.device_mac (resolve_device_mac c))
          ≡ ok mac)
        × (Dict.get w.store.plans req.plan_id ≡ some plan)
        × (plan.active ≡ true)
        × ((paid_by req plan mac w).0 ≡ ok (r.payment, existed))
        × IsBought mac plan r w'
  unfolding purchase plan_by_id get_plan
  purchase-IsBought fuel c req w w' r v h =
      elim (Result-cases (normalize_mac (given_or req.device_mac (resolve_device_mac c)))) [
        | inr (x, e) ↦ absurd (ground arith)
        | inl (mac, e) ↦ elim (Option-cases (Dict.get w.store.plans req.plan_id)) [
          | inl n ↦ absurd (ground arith)
          | inr (plan, n) ↦ elim (Bool-cases plan.active) [
            | inr off ↦ absurd (ground arith)
            | inl on ↦
                let normal =
                  (normalize_mac_idem (given_or req.device_mac (resolve_device_mac c)) mac e).2 in
                let (bought, existed, paid) =
                  purchase_plan-IsBought fuel c req plan mac w w' r normal v (ground arith) in
                (mac, plan, existed, e, n, on, paid, bought)
          ]
        ]
      ]
