-- ===== src/Service/Payment/Once.antt =====
-- A payment is kept once for each transaction reference, and a webhook needs its signature.
use wi_fi_man.Common.{
  ◌≡◌, ◌≢◌, refl, true, false, none, some, Text, is_empty, eq_iff, arith, Bool, inl, inr,
  Option-cases, Bool-cases,
}
use wi_fi_man.Common.Dict
use wi_fi_man.Common.Dict.{get-put, get-put_self}
use wi_fi_man.Common.Exec.{ok, err}
use wi_fi_man.Domain.{Payment, invalid_signature}
use wi_fi_man.Store.Memory.{MemoryStore, create_payment_if_absent}
use wi_fi_man.World.{Env, World}
use wi_fi_man.Service.Audit.{log_audit}
use wi_fi_man.Service.Payment.{
  ManualPaymentInput, MobileMoneyWebhookInput, manual_payment, webhook_payment, validate_hmac,
  record_manual_payment, process_mobile_money_webhook,
}

create_payment_if_absent-new :
    (p : Payment) (m : MemoryStore)
    → Dict.get m.payments p.transaction_ref ≡ none
    → create_payment_if_absent p m
      ≡ (ok (p, false), record m { payments = Dict.put m.payments p.transaction_ref p })
unfolding create_payment_if_absent
create_payment_if_absent-new p m e = rw (create_payment_if_absent, e)

create_payment_if_absent-old :
    (p q : Payment) (m : MemoryStore)
    → Dict.get m.payments p.transaction_ref ≡ some q
    → create_payment_if_absent p m ≡ (ok (q, true), m)
unfolding create_payment_if_absent
create_payment_if_absent-old p q m e = rw (create_payment_if_absent, e)

module _ (env : Env) where
  record_manual_payment-payments :
      (i : ManualPaymentInput) (w : World)
      → (p : Payment) × (b : Bool) × ((record_manual_payment env i w).0 ≡ ok (p, b))
        × (Dict.get (record_manual_payment env i w).1.store.payments i.transaction_ref ≡ some p)
  unfolding record_manual_payment create_payment_if_absent log_audit
  record_manual_payment-payments i w =
      let fresh = manual_payment i (env.new_uuid w.uuids) (env.now w.clock) in
      let put = get-put_self w.store.payments i.transaction_ref fresh in
      elim (Option-cases (Dict.get w.store.payments i.transaction_ref)) [
        | inl e ↦
            let stored = create_payment_if_absent-new fresh w.store e in
            elim (Bool-cases (is_empty i.recorded_by)) [
              | inl n ↦ (
                fresh,
                false,
                rw (record_manual_payment, stored, n) refl,
                rw (record_manual_payment, stored, n) put,
              )
              | inr n ↦ (
                fresh,
                false,
                rw (record_manual_payment, stored, n, log_audit) refl,
                rw (record_manual_payment, stored, n, log_audit) put,
              )
            ]
        | inr (p, e) ↦
            let stored = create_payment_if_absent-old fresh p w.store e in
            elim (Bool-cases (is_empty i.recorded_by)) [
              | inl n ↦ (
                p,
                true,
                rw (record_manual_payment, stored, n) refl,
                rw (record_manual_payment, stored, n) e,
              )
              | inr n ↦ (
                p,
                true,
                rw (record_manual_payment, stored, n, log_audit) refl,
                rw (record_manual_payment, stored, n, log_audit) e,
              )
            ]
      ]

  -- Whatever key is set, a webhook whose signature is not that of its body is refused, and nothing
  -- changes.
  pub process_mobile_money_webhook-forged :
      (key : Text) (i : MobileMoneyWebhookInput) (w : World)
      → is_empty key ≡ false
      → env.hmac_sha256_hex i.raw_body key ≢ i.signature
      → process_mobile_money_webhook env key i w ≡ (err invalid_signature, w)
  unfolding process_mobile_money_webhook validate_hmac
  process_mobile_money_webhook-forged key i w set forged =
      ground (arith, eq_iff (env.hmac_sha256_hex i.raw_body key) i.signature)

  accepted_webhook :
      (key : Text) (i : MobileMoneyWebhookInput) (w : World) (p : Payment)
      → is_empty i.signature ≡ false
      → env.hmac_sha256_hex i.raw_body key ≡ i.signature
      → Dict.get w.store.payments i.transaction_ref ≡ some p
      → ((process_mobile_money_webhook env key i w).0 ≡ ok (p, true))
        × ((process_mobile_money_webhook env key i w).1.store ≡ w.store)
  unfolding process_mobile_money_webhook validate_hmac create_payment_if_absent webhook_payment
  accepted_webhook key i w p signed valid kept =
      let fresh = webhook_payment i (env.new_uuid w.uuids) (env.now w.clock) in
      let stored = create_payment_if_absent-old fresh p w.store kept in
      let signed_well : validate_hmac env i.raw_body i.signature key ≡ true =
        ground (arith, eq_iff (env.hmac_sha256_hex i.raw_body key) i.signature) in
      elim (Bool-cases (is_empty key)) [
        | inl e ↦ rw (process_mobile_money_webhook, e, stored) (refl, refl)
        | inr e ↦ rw (process_mobile_money_webhook, e, signed_well, stored) (refl, refl)
      ]

  -- A reference pays once: when a manual payment has been recorded, a signed webhook with the same
  -- reference gets that payment back, marked as known, whatever the webhook says, and the store stays.
  pub paid_once :
      (i : ManualPaymentInput) (key : Text) (j : MobileMoneyWebhookInput) (w : World)
      → j.transaction_ref ≡ i.transaction_ref
      → is_empty j.signature ≡ false
      → env.hmac_sha256_hex j.raw_body key ≡ j.signature
      → (p : Payment) × (b : Bool) × ((record_manual_payment env i w).0 ≡ ok (p, b))
        × ((process_mobile_money_webhook env key j (record_manual_payment env i w).1).0
            ≡ ok (p, true))
        × ((process_mobile_money_webhook env key j (record_manual_payment env i w).1).1.store
            ≡ (record_manual_payment env i w).1.store)
  paid_once i key j w same signed valid =
      let (p, b, e, kept) = record_manual_payment-payments i w in
      let again =
        accepted_webhook key j (record_manual_payment env i w).1 p signed valid (rw same kept) in
      (p, b, e, again.0, again.1)
