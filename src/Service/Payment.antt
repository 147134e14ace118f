-- ===== src/Service/Payment.antt =====
-- backend/internal/service/payment_service.go. Money is added by the `float64` addition of the
-- processor, which is an argument here.
pub mod Once
use wi_fi_man.Common.{
  ℕ, suc, Bool, true, false, not, ◌&&◌, ◌||◌, List, [], ◌∷◌, ◌++◌, Option, none, some, Text, bytes,
  is_empty, ◌==◌, if◌then◌else◌,
}
use wi_fi_man.Common.Exec.{Exec, ok, after, ◌>>=◌, ◌>>◌, return, fail, ignore_error}
use wi_fi_man.Domain.{Payment, PaymentStatus, Float64, Fields, Time, invalid_signature}
use wi_fi_man.Store.Memory.{create_payment_if_absent, list_payments}
use wi_fi_man.World.{Env, M, db, now_utc, new_uuid}
use wi_fi_man.Service.Audit.{log_audit}

pub record ManualPaymentInput : Type 0 where
  pub amount : Float64
  pub currency : Text
  pub transaction_ref : Text
  pub method : Text
  pub metadata : Option Fields
  pub recorded_by : Text

pub record MobileMoneyWebhookInput : Type 0 where
  pub amount : Float64
  pub currency : Text
  pub transaction_ref : Text
  pub status : Text
  pub metadata : Option Fields
  pub raw_body : Text
  pub signature : Text

pub record Summary : Type 0 where
  pub paid_count : ℕ
  pub paid_total : Float64

abbrev pub manual_payment : ManualPaymentInput → Text → Time → Payment
manual_payment in_pay id now = record {
  id = id;
  amount = in_pay.amount;
  currency = in_pay.currency;
  method = in_pay.method;
  transaction_ref = in_pay.transaction_ref;
  status = PaymentStatus.paid;
  metadata = in_pay.metadata;
  created_at = now;
  updated_at = now;
}

unfoldable pub webhook_status : Text → PaymentStatus
webhook_status status =
    if status == bytes "failed"
    then PaymentStatus.failed
    else if status == bytes "paid" || status == bytes "success"
    then PaymentStatus.paid
    else PaymentStatus.pending

abbrev pub webhook_payment : MobileMoneyWebhookInput → Text → Time → Payment
unfolding webhook_status
webhook_payment in_hook id now = record {
  id = id;
  amount = in_hook.amount;
  currency = in_hook.currency;
  method = bytes "mobile_money";
  transaction_ref = in_hook.transaction_ref;
  status = webhook_status in_hook.status;
  metadata = in_hook.metadata;
  created_at = now;
  updated_at = now;
}

abbrev pub is_paid : Payment → Bool
is_paid p = elim p.status [
  | PaymentStatus.pending ↦ false
  | PaymentStatus.paid ↦ true
  | PaymentStatus.failed ↦ false
]

-- The loop of `SalesSummary`, from the count and the total so far.
unfoldable pub add_up : (Float64 → Float64 → Float64) → List Payment → Summary → Summary
add_up plus [] s = s
add_up plus (p ∷ ps) s = add_up plus ps (
    if is_paid p
    then record { paid_count = suc s.paid_count; paid_total = plus s.paid_total p.amount }
    else s)

unfoldable pub sales_summary : (Float64 → Float64 → Float64) → M Summary
unfolding list_payments add_up
sales_summary plus = do
  payments ← db list_payments
  return (add_up plus payments (record { paid_count = 0; paid_total = 0 }))

module _ (env : Env) where
  -- `hmac.Equal` compares in constant time, but compares.
  unfoldable pub validate_hmac : Text → Text → Text → Bool
  validate_hmac payload signature secret =
      not (is_empty signature) && env.hmac_sha256_hex payload secret == signature

  unfoldable pub record_manual_payment : ManualPaymentInput → M (Payment × Bool)
  unfolding create_payment_if_absent log_audit
  record_manual_payment in_pay = do
    now ← now_utc env
    id ← new_uuid env
    saved ← db (create_payment_if_absent (manual_payment in_pay id now))
    if is_empty in_pay.recorded_by then return saved else do
      ignore_error (
          log_audit env in_pay.recorded_by (bytes "payment.manual.record") (bytes "payment")
            saved.0.id (bytes "ref=" ++ in_pay.transaction_ref))
      return saved

  -- `mobile_money_key` is the service's key, or empty where none is set.
  unfoldable pub process_mobile_money_webhook : Text → MobileMoneyWebhookInput → M (Payment × Bool)
  unfolding validate_hmac create_payment_if_absent
  process_mobile_money_webhook mobile_money_key in_hook =
      if not (is_empty mobile_money_key)
        && not (validate_hmac in_hook.raw_body in_hook.signature mobile_money_key)
      then fail invalid_signature
      else do
        now ← now_utc env
        id ← new_uuid env
        db (create_payment_if_absent (webhook_payment in_hook id now))
