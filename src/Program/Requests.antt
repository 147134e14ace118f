-- ===== src/Program/Requests.antt =====
-- What the requests of backend/internal/http do to a voucher that lets a device in no more.
use wi_fi_man.Common.{
  if◌then◌else◌, ℕ, ◌≡◌, inl, inr, true, ◌&&◌, some, List, [], Text, bytes, is_empty, arith, ◌==◌,
  Option-cases, Bool-cases,
}
use mathlib.Core.Path.{subst}
use wi_fi_man.Common.Exec.{Result, ok, err, Keeps, bind-Keeps, return, ◌>>◌}
use wi_fi_man.Domain.{Error}
use wi_fi_man.World.{Env, World}
use wi_fi_man.Service.Gateway.{DisconnectInput, disconnect_session}
use wi_fi_man.Service.Payment.{
  ManualPaymentInput, MobileMoneyWebhookInput, record_manual_payment, process_mobile_money_webhook,
}
use wi_fi_man.Service.Plan.{CreatePlanInput, create_checked_plan}
use wi_fi_man.Service.Quota.{UsageUpdateInput, UsageUpdateResult}
use wi_fi_man.Service.Session.{
  AccountingStartInput, start_accounting, interim_accounting, stop_accounting,
}
use wi_fi_man.Service.Token.Generate.{GenerateTokensInput, GeneratedToken, generate_tokens}
use wi_fi_man.Service.Token.Redeem.{RedeemInput, RedeemResult, redeem_token, resume_token}
use wi_fi_man.Service.Token.Redeem.Blocked.{IsBlocked}
use wi_fi_man.Service.Token.Revoke.{revoke_token}
use wi_fi_man.Http.Context.{Context}
use wi_fi_man.Http.Handlers.{
  Reply, Bound, Handler, binding, reply_with, created, tokens, StopInput, GenerateInput,
  accounting_start, interim_and_disconnect, accounting_interim, accounting_stop, gateway_disconnect,
  manual_record, mobile_money_webhook, generate_tokens_handler, revoke_token_handler,
  create_plan_handler,
}
use wi_fi_man.Http.Portal.{completed, answer, handle_redeem, redeem_handler, resume_handler}
use wi_fi_man.Program.Accounting.{
  apply_usage-IsBlocked, start_accounting-IsBlocked, stop_session-IsBlocked,
  disconnect_session-IsBlocked,
}
use wi_fi_man.Program.Gateway.{redeem_token-IsBlocked, resume_token-IsBlocked}
use wi_fi_man.Program.Vouchers.{
  generate_tokens-IsBlocked, record_manual_payment-IsBlocked,
  process_mobile_money_webhook-IsBlocked, create_checked_plan-IsBlocked, revoke_token-IsBlocked,
}

-- A handler that keeps the voucher shut.
abbrev pub KeepsShut : Text → Text → Handler → Type 0
KeepsShut hash m f = (w : World) → IsBlocked hash m w → IsBlocked hash m (f w).1

module _ (hash m : Text) where
  pub reply_with-IsBlocked :
      {A : Type 0} (f : A → Reply) (x : Result Error A × World)
      → IsBlocked hash m x.1
      → IsBlocked hash m (reply_with f x).1
  unfolding reply_with
  reply_with-IsBlocked f (ok a, w) v = v
  reply_with-IsBlocked f (err e, w) v = v

  binding-IsBlocked :
      {A : Type 0} (b : Bound A) (f : A → Handler)
      → ((a : A) → KeepsShut hash m (f a))
      → KeepsShut hash m (binding b f)
  binding-IsBlocked (err t) f keeps w v = v
  binding-IsBlocked (ok a) f keeps w v = keeps a w v

  answer-IsBlocked :
      (x : Result Error RedeemResult × World) → IsBlocked hash m x.1 → IsBlocked hash m (answer x).1
  unfolding answer
  answer-IsBlocked (ok r, w) v = v
  answer-IsBlocked (err e, w) v = v

module _ (env : Env) (hash m : Text) where
  pub accounting_start-IsBlocked :
      (b : Bound AccountingStartInput) → KeepsShut hash m (accounting_start env b)
  unfolding accounting_start
  accounting_start-IsBlocked b = binding-IsBlocked hash m b _ λ r w v.
      reply_with-IsBlocked hash m _ (start_accounting env r w)
        (start_accounting-IsBlocked env hash m r w v)

  interim_and_disconnect-IsBlocked :
      (r : UsageUpdateInput) → Keeps (IsBlocked hash m) (interim_and_disconnect env r)
  unfolding interim_and_disconnect interim_accounting
  interim_and_disconnect-IsBlocked r =
      bind-Keeps (IsBlocked hash m) (interim_accounting env r) _
        (apply_usage-IsBlocked env hash m r) after_usage
    where
      after_usage :
          (u : UsageUpdateResult)
          → Keeps (IsBlocked hash m) (
              if u.disconnect && env.has_gateway
              then (do
                disconnect_session env (record {
                  session_id = r.session_id;
                  reason = u.disconnect_reason;
                  force = true;
                })
                return u)
              else return u)
      after_usage u w v = elim (Bool-cases (u.disconnect && env.has_gateway)) [
        | inr goes_on ↦ rw goes_on v
        | inl limited ↦ rw limited (
            bind-Keeps (IsBlocked hash m) (disconnect_session env _) _
              (disconnect_session-IsBlocked env hash m _) (λ a w' v'. v') w v)
      ]

  pub accounting_interim-IsBlocked :
      (b : Bound UsageUpdateInput) → KeepsShut hash m (accounting_interim env b)
  unfolding accounting_interim
  accounting_interim-IsBlocked b = binding-IsBlocked hash m b _ λ r w v.
      reply_with-IsBlocked hash m _ (interim_and_disconnect env r w)
        (interim_and_disconnect-IsBlocked r w v)

  pub accounting_stop-IsBlocked : (b : Bound StopInput) → KeepsShut hash m (accounting_stop env b)
  unfolding accounting_stop stop_accounting
  accounting_stop-IsBlocked b = binding-IsBlocked hash m b _ λ r w v.
      reply_with-IsBlocked hash m _ (stop_accounting env r.session_id r.reason w)
        (stop_session-IsBlocked env hash m r.session_id r.reason w v)

  pub gateway_disconnect-IsBlocked :
      (b : Bound DisconnectInput) → KeepsShut hash m (gateway_disconnect env b)
  unfolding gateway_disconnect
  gateway_disconnect-IsBlocked b = binding-IsBlocked hash m b _ λ r w v.
      reply_with-IsBlocked hash m _ (disconnect_session env r w)
        (disconnect_session-IsBlocked env hash m r w v)

  pub manual_record-IsBlocked :
      (b : Bound ManualPaymentInput) → KeepsShut hash m (manual_record env b)
  unfolding manual_record
  manual_record-IsBlocked b = binding-IsBlocked hash m b _ λ r w v.
      reply_with-IsBlocked hash m _ (record_manual_payment env r w)
        (record_manual_payment-IsBlocked env hash m r w v)

  pub mobile_money_webhook-IsBlocked :
      (decode : Text → Bound MobileMoneyWebhookInput) (key : Text) (raw : Bound Text)
      (signature : Text)
      → KeepsShut hash m (mobile_money_webhook env decode key raw signature)
  unfolding mobile_money_webhook
  mobile_money_webhook-IsBlocked decode key raw signature = binding-IsBlocked hash m raw _ λ body.
      binding-IsBlocked hash m (decode body) _ λ r w v.
        reply_with-IsBlocked hash m _
          (process_mobile_money_webhook env key
            (record r { raw_body = body; signature = signature }) w)
          (process_mobile_money_webhook-IsBlocked env hash m key _ w v)

  pub revoke_token_handler-IsBlocked :
      (id admin : Text) (b : Bound Text) → KeepsShut hash m (revoke_token_handler env id admin b)
  unfolding revoke_token_handler
  revoke_token_handler-IsBlocked id admin (err t) w v =
      reply_with-IsBlocked hash m _ (revoke_token env id admin [] w)
        (revoke_token-IsBlocked env hash m id admin [] w v)
  revoke_token_handler-IsBlocked id admin (ok reason) w v =
      reply_with-IsBlocked hash m _ (revoke_token env id admin reason w)
        (revoke_token-IsBlocked env hash m id admin reason w v)

  pub create_plan_handler-IsBlocked :
      (role : Text) (b : Bound CreatePlanInput) → KeepsShut hash m (create_plan_handler env role b)
  unfolding create_plan_handler
  create_plan_handler-IsBlocked role b w v = elim (Bool-cases (role == bytes "support")) [
    | inl support ↦ rw (create_plan_handler, support) v
    | inr other ↦
        rw (create_plan_handler, other)
          (binding-IsBlocked hash m b _
            (λ r w' v'.
              reply_with-IsBlocked hash m _ (create_checked_plan env r w')
                (create_checked_plan-IsBlocked env hash m r w' v'))
            w v)
  ]

  pub generate_tokens_handler-IsBlocked :
      (fuel : ℕ) (admin : Text) (b : Bound GenerateInput) (w w' : World) (r : Reply)
      → IsBlocked hash m w
      → generate_tokens_handler env fuel admin b w ≡ some (r, w')
      → IsBlocked hash m w'
  unfolding generate_tokens_handler
  generate_tokens_handler-IsBlocked fuel admin (err t) w w' r v h =
      let is_w : w ≡ w' = ground arith in subst (IsBlocked hash m) is_w v
  generate_tokens_handler-IsBlocked fuel admin (ok i) w w' r v h =
      let input : GenerateTokensInput = record {
        plan_id = i.plan_id;
        count = i.count;
        created_by = admin;
        notes = i.notes;
      } in
      elim (Option-cases (generate_tokens env fuel input w)) [
        | inl n ↦ absurd (ground (arith, n))
        | inr ((x, w1), n) ↦
            let f : List GeneratedToken → Reply = λ ts. created (tokens ts) in
            let run : reply_with f (x, w1) ≡ (r, w') = ground (arith, n) in
            subst (λ (y : Reply × World). IsBlocked hash m y.1) run
              (reply_with-IsBlocked hash m f (x, w1)
                (generate_tokens-IsBlocked env hash m fuel input w w1 x v n))
      ]

  handle_redeem-IsBlocked :
      (method : RedeemInput → World → Result Error RedeemResult × World) (c : Context)
      (i : RedeemInput)
      → ((j : RedeemInput) → Keeps (IsBlocked hash m) (method j))
      → (w : World) → IsBlocked hash m w
      → IsBlocked hash m (handle_redeem method c i w).1
  unfolding handle_redeem
  handle_redeem-IsBlocked method c i keeps w v =
      elim (Bool-cases (is_empty (completed c i).device_mac)) [
        | inl unknown ↦ rw (handle_redeem, unknown) v
        | inr known ↦
            rw (handle_redeem, known)
              (answer-IsBlocked hash m (method (completed c i) w) (keeps (completed c i) w v))
      ]

  pub redeem_handler-IsBlocked :
      (c : Context) (i : RedeemInput) (w : World)
      → IsBlocked hash m w
      → IsBlocked hash m (redeem_handler env c i w).1
  unfolding redeem_handler
  redeem_handler-IsBlocked c i =
      handle_redeem-IsBlocked (redeem_token env) c i (redeem_token-IsBlocked env hash m)

  pub resume_handler-IsBlocked :
      (c : Context) (i : RedeemInput) (w : World)
      → IsBlocked hash m w
      → IsBlocked hash m (resume_handler env c i w).1
  unfolding resume_handler
  resume_handler-IsBlocked c i =
      handle_redeem-IsBlocked (resume_token env) c i (resume_token-IsBlocked env hash m)
