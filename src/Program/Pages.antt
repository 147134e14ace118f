-- ===== src/Program/Pages.antt =====
-- What the pages and fragments of the portal do to a voucher that lets a device in no more.
use wi_fi_man.Common.{
  ℕ, ◌≡◌, refl, inl, inr, some, Text, bytes, is_empty, arith, Option-cases, Bool-cases,
}
use mathlib.Core.Path.{subst}
use wi_fi_man.Common.Exec.{Result, ok, err, Result-cases}
use wi_fi_man.Domain.{Error}
use wi_fi_man.Util.Mac.{normalize_mac}
use wi_fi_man.Store.Memory.{list_plans}
use wi_fi_man.World.{Env, World}
use wi_fi_man.Service.Token.Redeem.{RedeemResult, given_or, redeem_token}
use wi_fi_man.Service.Token.Redeem.Blocked.{IsBlocked}
use wi_fi_man.Http.Context.{Context, resolve_device_mac}
use wi_fi_man.Http.Html.{
  portal_page, plan_cards, fragment_redemption, redeem_answer, redeem_fragment, form_purchase,
  purchase_answer, purchase_fragment,
}
use wi_fi_man.Http.Portal.{PurchaseInput, PurchaseResult, purchase}
use wi_fi_man.Program.Gateway.{redeem_token-IsBlocked}
use wi_fi_man.Program.Vouchers.{purchase-IsBlocked}

pub portal_page-same : (title : Text) (c : Context) (w : World) → (portal_page title c w).1 ≡ w
unfolding portal_page list_plans
portal_page-same title c w = refl

pub plan_cards-same : (c : Context) (w : World) → (plan_cards c w).1 ≡ w
unfolding plan_cards list_plans
plan_cards-same c w = refl

module _ (env : Env) (hash m : Text) where
  redeem_answer-IsBlocked :
      (c : Context) (x : Result Error RedeemResult × World)
      → IsBlocked hash m x.1
      → IsBlocked hash m (redeem_answer env c x).1
  unfolding redeem_answer
  redeem_answer-IsBlocked c (err e, w) v = v
  redeem_answer-IsBlocked c (ok r, w) v = v

  purchase_answer-state :
      (req : PurchaseInput) (x : Result Error PurchaseResult × World)
      → (purchase_answer env req x).1 ≡ x.1
  unfolding purchase_answer
  purchase_answer-state req (err e, w) = refl
  purchase_answer-state req (ok r, w) = refl

  pub redeem_fragment-IsBlocked :
      (c : Context) (w : World) → IsBlocked hash m w → IsBlocked hash m (redeem_fragment env c w).1
  unfolding redeem_fragment
  redeem_fragment-IsBlocked c w v =
      let mac = given_or (c.post_form (bytes "device_mac")) (resolve_device_mac c) in
      elim (Bool-cases (is_empty mac)) [
        | inl unknown ↦ rw (redeem_fragment, unknown) v
        | inr known ↦ elim (Result-cases (normalize_mac mac)) [
          | inr (x, e) ↦ rw (redeem_fragment, known, e) v
          | inl (n, e) ↦
              rw (redeem_fragment, known, e)
                (redeem_answer-IsBlocked c (redeem_token env (fragment_redemption env c n) w)
                  (redeem_token-IsBlocked env hash m (fragment_redemption env c n) w v))
        ]
      ]

  pub purchase_fragment-IsBlocked :
      (fuel : ℕ) (c : Context) (w w' : World) (t : Text)
      → IsBlocked hash m w
      → purchase_fragment env fuel c w ≡ some (t, w')
      → IsBlocked hash m w'
  unfolding purchase_fragment
  purchase_fragment-IsBlocked fuel c w w' t v h =
      elim (Option-cases (purchase env fuel c (form_purchase env c) w)) [
        | inl n ↦ absurd (ground (arith, n))
        | inr ((r, w1), n) ↦
            let is_w : w1 ≡ w' =
              ground (arith, n, purchase_answer-state (form_purchase env c) (r, w1)) in
            subst (IsBlocked hash m) is_w
              (purchase-IsBlocked env hash m fuel c (form_purchase env c) w w1 r v n)
      ]
