-- ===== src/Tests/Money.antt =====
-- Payments and plans.
use wi_fi_man.Common.{◌≡◌, refl, true, Bool, bytes, none, arith}
use wi_fi_man.Common.Int.{pos}
use wi_fi_man.Common.Exec.{ok, err}
use wi_fi_man.Domain.{Payment, invalid_signature}
use wi_fi_man.Service.Payment.{
  ManualPaymentInput, MobileMoneyWebhookInput, record_manual_payment, process_mobile_money_webhook,
}
use wi_fi_man.Service.Payment.Once.{paid_once, process_mobile_money_webhook-forged}
use wi_fi_man.Service.Plan.{CreatePlanInput}
use wi_fi_man.Tests.Fixture.{env, world}

abbrev manual : ManualPaymentInput
manual = record {
  amount = 0;
  currency = bytes "USD";
  transaction_ref = bytes "r1";
  method = bytes "cash";
  metadata = none;
  recorded_by = bytes "ann";
}

abbrev hook : MobileMoneyWebhookInput
hook = record {
  amount = 5;
  currency = bytes "USD";
  transaction_ref = bytes "r1";
  status = bytes "failed";
  metadata = none;
  raw_body = bytes "body";
  signature = bytes "key";
}

paid_once_example :
    (p : Payment) × (b : Bool) × ((record_manual_payment env manual world).0 ≡ ok (p, b))
    × ((process_mobile_money_webhook env
          (bytes "key")
          hook
          (record_manual_payment env manual world).1).0
        ≡ ok (p, true))
    × ((process_mobile_money_webhook env
          (bytes "key")
          hook
          (record_manual_payment env manual world).1).1.store
        ≡ (record_manual_payment env manual world).1.store)
unfolding bytes
paid_once_example = paid_once env manual (bytes "key") hook world refl refl refl

process_mobile_money_webhook-forged_example :
    process_mobile_money_webhook env (bytes "other") hook world ≡ (err invalid_signature, world)
unfolding bytes
process_mobile_money_webhook-forged_example =
    process_mobile_money_webhook-forged env (bytes "other") hook world refl (λ e. ground (arith, e))

abbrev day : CreatePlanInput
day = record {
  name = bytes "Day";
  duration_minutes = pos 1440;
  data_limit_mb = pos 0;
  speed_down_kbps = pos 1000;
  speed_up_kbps = pos 1000;
  device_limit = pos 1;
  price = 0;
  active = true;
}
