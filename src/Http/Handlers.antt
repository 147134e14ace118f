-- ===== src/Http/Handlers.antt =====
-- backend/internal/http/handlers: the accounting, admin, gateway, payment and health handlers. What
-- gin's `ShouldBindJSON` makes of a body is an argument, a value or the text of its error.
use wi_fi_man.Common.{
  ℕ, Bool, true, ◌&&◌, List, [], Option, none, some, Text, bytes, ◌==◌, if◌then◌else◌,
}
use wi_fi_man.Common.Int.{ℤ}
use wi_fi_man.Common.Exec.{Result, ok, err, ◌>>=◌, ◌>>◌, return}
use wi_fi_man.Domain.{Plan, Session, Payment, Float64, Error}
use wi_fi_man.World.{Env, World, M, db}
use wi_fi_man.Store.Memory.{list_plans}
use wi_fi_man.Service.Plan.{CreatePlanInput, create_checked_plan, active_plans}
use wi_fi_man.Service.Payment.{
  ManualPaymentInput, MobileMoneyWebhookInput, Summary, record_manual_payment,
  process_mobile_money_webhook, sales_summary,
}
use wi_fi_man.Service.Gateway.{DisconnectInput, disconnect_session}
use wi_fi_man.Service.Quota.{UsageUpdateInput, UsageUpdateResult}
use wi_fi_man.Service.Session.{
  AccountingStartInput, start_accounting, interim_accounting, stop_accounting, active_session_list,
}
use wi_fi_man.Service.Token.Generate.{GeneratedToken, generate_tokens}
use wi_fi_man.Service.Token.Revoke.{revoke_token}
use wi_fi_man.Http.Errors.{write_service_error}

-- The bodies that `c.JSON` writes.
pub data Body : Type 0 where
  error : Text → Body
  status : Text → Body
  session : Session → Body
  sessions : List Session → Body
  usage : UsageUpdateResult → Body
  tokens : List GeneratedToken → Body
  plan : Plan → Body
  plans : List Plan → Body
  report : Summary → Body
  payment : Payment → Bool → Body

pub record Reply : Type 0 where
  pub code : ℕ
  pub body : Body

-- A request's body as `ShouldBindJSON` reads it.
abbrev pub Bound : Type 0 → Type 0
Bound A = Result Text A

abbrev pub bad_request : Text → Reply
bad_request t = record { code = 400; body = error t }

-- `writeServiceError(c, err)`, or the answer to a success.
unfoldable pub reply_with : {A : Type 0} → (A → Reply) → Result Error A × World → Reply × World
unfolding write_service_error
reply_with f (ok a, w) = (f a, w)
reply_with f (err e, w) =
    (record { code = (write_service_error e).0; body = error (write_service_error e).1 }, w)

abbrev pub created : Body → Reply
created b = record { code = 201; body = b }

abbrev pub okay : Body → Reply
okay b = record { code = 200; body = b }

abbrev pub Handler : Type 0
Handler = World → Reply × World

-- `if err := c.ShouldBindJSON(&req); err != nil { … return }` before the rest.
abbrev pub binding : {A : Type 0} → Bound A → (A → Handler) → Handler
binding (err t) f w = (bad_request t, w)
binding (ok a) f w = f a w

pub record StopInput : Type 0 where
  pub session_id : Text
  pub reason : Text

pub record GenerateInput : Type 0 where
  pub plan_id : Text
  pub count : ℤ
  pub notes : Text

module _ (env : Env) where
  unfoldable pub accounting_start : Bound AccountingStartInput → Handler
  unfolding start_accounting
  accounting_start req =
      binding req λ r w. reply_with (λ s. okay (session s)) (start_accounting env r w)

  unfoldable pub interim_and_disconnect : UsageUpdateInput → M UsageUpdateResult
  unfolding interim_accounting disconnect_session
  interim_and_disconnect req = do
    res ← interim_accounting env req
    if res.disconnect && env.has_gateway
        then (do
          disconnect_session env
              (record { session_id = req.session_id; reason = res.disconnect_reason; force = true })
          return res)
        else return res

  unfoldable pub accounting_interim : Bound UsageUpdateInput → Handler
  unfolding interim_and_disconnect
  accounting_interim req =
      binding req λ r w. reply_with (λ res. okay (usage res)) (interim_and_disconnect r w)

  unfoldable pub accounting_stop : Bound StopInput → Handler
  unfolding stop_accounting
  accounting_stop req =
      binding req
        λ r w. reply_with (λ s. okay (session s)) (stop_accounting env r.session_id r.reason w)

  unfoldable pub gateway_disconnect : Bound DisconnectInput → Handler
  unfolding disconnect_session
  gateway_disconnect req =
      binding req λ r w. reply_with (λ s. okay (session s)) (disconnect_session env r w)

  unfoldable pub manual_record : Bound ManualPaymentInput → Handler
  unfolding record_manual_payment
  manual_record req = binding req λ r w.
      reply_with (λ p. record { code = if p.1 then 200 else 201; body = payment p.0 p.1 })
        (record_manual_payment env r w)

  -- The body is read as it is, then decoded; the signature is the header's.
  unfoldable pub mobile_money_webhook :
      (Text → Bound MobileMoneyWebhookInput) → Text → Bound Text → Text → Handler
  unfolding process_mobile_money_webhook
  mobile_money_webhook decode mobile_money_key raw signature = binding raw λ raw_body.
      binding (decode raw_body) λ r w.
        reply_with (λ p. okay (payment p.0 p.1))
          (process_mobile_money_webhook env mobile_money_key
            (record r { raw_body = raw_body; signature = signature }) w)

  -- `none` is a generation that is still running.
  unfoldable pub generate_tokens_handler :
      ℕ → Text → Bound GenerateInput → World → Option (Reply × World)
  unfolding generate_tokens
  generate_tokens_handler fuel admin_id (err t) w = some (bad_request t, w)
  generate_tokens_handler fuel admin_id (ok r) w =
      elim (generate_tokens env fuel
        (record { plan_id = r.plan_id; count = r.count; created_by = admin_id; notes = r.notes })
        w) [ none ↦ none | some x ↦ some (reply_with (λ ts. created (tokens ts)) x) ]

  -- The body is optional: an error of its binding is dropped, and leaves the reason empty.
  unfoldable pub revoke_token_handler : Text → Text → Bound Text → Handler
  unfolding revoke_token
  revoke_token_handler token_id admin_id given w =
      reply_with (λ u. okay (status (bytes "revoked")))
        (revoke_token env token_id admin_id (elim given [ err t ↦ [] | ok reason ↦ reason ]) w)

  unfoldable pub create_plan_handler : Text → Bound CreatePlanInput → Handler
  unfolding create_checked_plan
  create_plan_handler x_role req w =
      if x_role == bytes "support"
      then (record { code = 403; body = error (bytes "support role cannot create plans") }, w)
      else binding req (λ r w'. reply_with (λ p. created (plan p)) (create_checked_plan env r w')) w

  unfoldable pub active_sessions_handler : Handler
  unfolding active_session_list
  active_sessions_handler w = reply_with (λ ss. okay (sessions ss)) (active_session_list env w)

unfoldable pub sales_report : (Float64 → Float64 → Float64) → Handler
unfolding sales_summary
sales_report plus w = reply_with (λ r. okay (report r)) (sales_summary plus w)

-- `PlanService.ListPlans` is the store's.
unfoldable pub list_plans_handler : Handler
unfolding list_plans
list_plans_handler w = reply_with (λ ps. okay (plans ps)) (db list_plans w)

-- The portal shows the plans that are active.
unfoldable pub portal_plans_handler : Handler
unfolding list_plans active_plans
portal_plans_handler w = reply_with (λ ps. okay (plans (active_plans ps))) (db list_plans w)

unfoldable pub health : Handler
health w = (okay (status (bytes "ok")), w)
