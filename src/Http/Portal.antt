-- ===== src/Http/Portal.antt =====
-- `Redeem`, `Resume` and `purchase` of backend/internal/http/handlers/portal_handler.go, after the
-- body has been decoded.
pub mod Bought
use wi_fi_man.Common.{
  ℕ, not, List, [], ◌∷◌, ◌++◌, Option, none, some, Text, bytes, is_empty, if◌then◌else◌,
}
use wi_fi_man.Common.Int.{pos}
use wi_fi_man.Common.Exec.{Result, ok, err}
use wi_fi_man.Domain.{Plan, Payment, Error, invalid_input, plan_inactive, text, Fields, end, field}
use wi_fi_man.Util.Mac.{normalize_mac}
use wi_fi_man.World.{Env, World, M, new_uuid}
use wi_fi_man.Service.Plan.{plan_by_id}
use wi_fi_man.Service.Payment.{ManualPaymentInput, record_manual_payment}
use wi_fi_man.Service.Token.Generate.{GenerateTokensInput, GeneratedToken, generate_tokens}
use wi_fi_man.Service.Token.Redeem.{RedeemInput, RedeemResult, given_or, redeem_token, resume_token}
use wi_fi_man.Http.Errors.{write_service_error}
use wi_fi_man.Http.Context.{Context, resolve_device_mac, resolve_gateway_id}

pub record PurchaseInput : Type 0 where
  pub plan_id : Text
  pub device_mac : Text
  pub currency : Text
  pub method : Text
  pub gateway_id : Text
  pub customer_ref : Text
  pub link_login_only : Text
  pub dst : Text
  pub popup : Text

pub record PurchaseResult : Type 0 where
  pub plan : Plan
  pub payment : Payment
  pub token_code : Text
  pub redeem : RedeemResult

-- The JSON answers: allowed with a result, or a status with an error.
pub data Response : Type 0 where
  allowed : RedeemResult → Response
  denied : ℕ → Text → Response

abbrev pub normal_or_same : Text → Text
normal_or_same mac = elim (normalize_mac mac) [ ok normalized ↦ normalized | err _ ↦ mac ]

-- The request with its gaps filled from the context.
unfoldable pub completed : Context → RedeemInput → RedeemInput
unfolding resolve_device_mac resolve_gateway_id
completed c req = record req {
  device_mac = normal_or_same (given_or req.device_mac (resolve_device_mac c));
  ip = given_or req.ip c.client_ip;
  gateway_id = given_or req.gateway_id (resolve_gateway_id c);
}

unfoldable pub answer : Result Error RedeemResult × World → Response × World
unfolding write_service_error
answer (ok r, w) = (allowed r, w)
answer (err e, w) = (denied (write_service_error e).0 (write_service_error e).1, w)

-- The body of `Redeem` and `Resume`, over the service's method.
unfoldable pub handle_redeem :
    (RedeemInput → World → Result Error RedeemResult × World)
    → Context
    → RedeemInput
    → World
    → Response × World
unfolding completed
handle_redeem method c req w =
    if is_empty (completed c req).device_mac
    then (denied 400 (bytes "device MAC address is required"), w)
    else answer (method (completed c req) w)

abbrev pub purchase_metadata : Plan → Text → Text → Fields
purchase_metadata plan mac customer_ref =
    field (bytes "plan_id") (text plan.id)
      (field (bytes "device_mac") (text mac) (field (bytes "customer_ref") (text customer_ref) end))

module _ (env : Env) where
  unfoldable pub redeem_handler : Context → RedeemInput → World → Response × World
  unfolding handle_redeem redeem_token
  redeem_handler = handle_redeem (redeem_token env)

  unfoldable pub resume_handler : Context → RedeemInput → World → Response × World
  unfolding handle_redeem resume_token
  resume_handler = handle_redeem (resume_token env)

  abbrev pub portal_payment : PurchaseInput → Plan → Text → Text → ManualPaymentInput
  portal_payment req plan mac reference = record {
    amount = plan.price;
    currency = given_or req.currency (bytes "USD");
    transaction_ref = bytes "portal-" ++ reference;
    method = given_or req.method (bytes "portal_checkout");
    metadata = some (purchase_metadata plan mac req.customer_ref);
    recorded_by = bytes "portal";
  }

  abbrev pub portal_generation : Plan → GenerateTokensInput
  portal_generation plan = record {
    plan_id = plan.id;
    count = pos 1;
    created_by = bytes "portal";
    notes = bytes "auto-generated after portal purchase";
  }

  unfoldable pub portal_redemption : Context → PurchaseInput → Text → Text → RedeemInput
  unfolding resolve_gateway_id
  portal_redemption c req mac code = record {
    code = code;
    device_mac = mac;
    ip = c.client_ip;
    gateway_id = given_or (given_or req.gateway_id (resolve_gateway_id c)) (bytes "portal");
    radius_session_id = [];
    nas_ip = [];
    nas_identifier = [];
  }

  -- The redemption of the voucher that was paid for.
  unfoldable pub redeem_purchase :
      Context → PurchaseInput → Plan → Text → Payment → GeneratedToken → M PurchaseResult
  unfolding redeem_token portal_redemption
  redeem_purchase c req plan mac payment t w =
      let (redeemed, w') = redeem_token env (portal_redemption c req mac t.code) w in
      elim redeemed [
        | err e ↦ (err e, w')
        | ok r ↦
            (ok (record { plan = plan; payment = payment; token_code = t.code; redeem = r }), w')
      ]

  -- What the generated list gives: `generated[0]` exists, since one voucher was asked for.
  unfoldable pub use_generated :
      Context
      → PurchaseInput
      → Plan
      → Text
      → Payment
      → Result Error (List GeneratedToken) × World
      → Option (Result Error PurchaseResult × World)
  unfolding redeem_purchase
  use_generated c req plan mac payment (err e, w) = some (err e, w)
  use_generated c req plan mac payment (ok [], w) = none
  use_generated c req plan mac payment (ok (t ∷ ts), w) =
      some (redeem_purchase c req plan mac payment t w)

  -- From the payment on. `none` is a loop that is still running, or an index out of range.
  unfoldable pub purchase_plan :
      ℕ
      → Context
      → PurchaseInput
      → Plan
      → Text
      → World
      → Option (Result Error PurchaseResult × World)
  unfolding record_manual_payment generate_tokens use_generated
  purchase_plan fuel c req plan mac w =
      let reference = env.new_uuid w.uuids in
      let (paid, w') =
        record_manual_payment env (portal_payment req plan mac reference) (new_uuid env w).1 in
      elim paid [
        | err e ↦ some (err e, w')
        | ok (payment, existed) ↦ elim (generate_tokens env fuel (portal_generation plan) w') [
          | none ↦ none
          | some r ↦ use_generated c req plan mac payment r
        ]
      ]

  unfoldable pub purchase :
      ℕ → Context → PurchaseInput → World → Option (Result Error PurchaseResult × World)
  unfolding plan_by_id purchase_plan resolve_device_mac
  purchase fuel c req w = elim (normalize_mac (given_or req.device_mac (resolve_device_mac c))) [
    | err _ ↦ some (err invalid_input, w)
    | ok mac ↦ elim (plan_by_id req.plan_id w).0 [
      | err e ↦ some (err e, w)
      | ok plan ↦
          if not plan.active
          then some (err plan_inactive, w)
          else purchase_plan fuel c req plan mac w
    ]
  ]
