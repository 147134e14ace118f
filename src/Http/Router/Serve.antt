-- ===== src/Http/Router/Serve.antt =====
-- A request to the router of backend/internal/http/server.go from the route to the answer: the checks of
-- its group, then the handler.
use wi_fi_man.Common.{ℕ, List, [], ◌∷◌, ◌++◌, Option, none, some, Text, bytes}
use wi_fi_man.Common.Exec.{Result, ok, err}
use wi_fi_man.Domain.{Float64, Error}
use wi_fi_man.World.{Env, World}
use wi_fi_man.Config.{Config}
use wi_fi_man.Service.Plan.{CreatePlanInput}
use wi_fi_man.Service.Payment.{ManualPaymentInput, MobileMoneyWebhookInput}
use wi_fi_man.Service.Gateway.{DisconnectInput}
use wi_fi_man.Service.Quota.{UsageUpdateInput}
use wi_fi_man.Service.Session.{AccountingStartInput}
use wi_fi_man.Service.Token.Redeem.{RedeemInput}
use wi_fi_man.Http.Errors.{write_service_error}
use wi_fi_man.Http.Context.{Context}
use wi_fi_man.Http.Middleware.{Verdict, pass, abort, require_role, rate_limited, rate_key}
use wi_fi_man.Http.Portal.{
  PurchaseInput, PurchaseResult, Response, denied, redeem_handler, resume_handler, purchase,
}
use wi_fi_man.Http.Handlers.{
  Reply, Bound, StopInput, GenerateInput, accounting_start, accounting_interim, accounting_stop,
  gateway_disconnect, manual_record, mobile_money_webhook, generate_tokens_handler,
  revoke_token_handler, create_plan_handler, active_sessions_handler, sales_report,
  list_plans_handler, portal_plans_handler, health,
}
use wi_fi_man.Http.Html.{Page, portal_page, plan_cards, redeem_fragment, purchase_fragment}
use wi_fi_man.Http.Router.{
  Method, Endpoint, health_check, metrics, root, page, redeem_form, purchase_form, cards, redeem,
  resume, portal_plans, purchase_json, admin_plans, admin_create_plan, admin_generate, admin_revoke,
  admin_sessions, admin_sales, start, interim, stop, disconnect, webhook, manual, Guard,
  admin_roles, portal_limit, webhook_limit, Segment, literal, parameter, Route, routes, find_route,
}

pub record Request : Type 0 where
  pub method : Method
  pub path : List Text
  pub context : Context
  -- `io.ReadAll` of the body
  pub body : Bound Text

-- What `ShouldBindJSON` makes of a body, for each type that it fills.
pub record Decoders : Type 0 where
  pub redeem_input : Bound Text → Bound RedeemInput
  pub purchase_input : Bound Text → Bound PurchaseInput
  pub plan_input : Bound Text → Bound CreatePlanInput
  pub generate_input : Bound Text → Bound GenerateInput
  pub revoke_reason : Bound Text → Bound Text
  pub start_input : Bound Text → Bound AccountingStartInput
  pub usage_input : Bound Text → Bound UsageUpdateInput
  pub stop_input : Bound Text → Bound StopInput
  pub disconnect_input : Bound Text → Bound DisconnectInput
  pub manual_input : Bound Text → Bound ManualPaymentInput
  pub webhook_input : Text → Bound MobileMoneyWebhookInput

pub data Answer : Type 0 where
  json : Reply → Answer
  portal : Response → Answer
  purchased : PurchaseResult → Answer
  html : Text → Answer
  portal_html : Result Error Page → Answer
  cards_html : Result Text Page → Answer
  metrics_text : Answer
  redirected : Text → Answer
  aborted : ℕ → Text → Answer
  no_route : Answer

-- The route as it was registered, which `c.FullPath()` returns.
unfoldable pub full_path : List Segment → Text
full_path [] = []
full_path (literal l ∷ ss) = b'/' ∷ (l ++ full_path ss)
full_path (parameter ∷ ss) = bytes "/:id" ++ full_path ss

abbrev pub first_parameter : List Text → Text
first_parameter [] = []
first_parameter (p ∷ ps) = p

-- What the router is given: the configuration, the decoders, the counters of Redis, the sum of two
-- floats, and the bound on the loop that generates vouchers.
pub record Setting : Type 0 where
  pub cfg : Config
  pub decoders : Decoders
  pub counter : Text → Option ℕ
  pub plus : Float64 → Float64 → Float64
  pub fuel : ℕ

unfoldable pub check_guard : Setting → Route → Context → Guard → Verdict
unfolding require_role rate_limited full_path
check_guard g r c admin_roles =
    require_role (bytes "super_admin" ∷ bytes "cashier" ∷ bytes "support" ∷ [])
      (c.header g.cfg.admin_token_header)
check_guard g r c portal_limit =
    rate_limited g.cfg.rate_limit_requests (g.counter (rate_key (full_path r.path) c.client_ip))
check_guard g r c webhook_limit =
    rate_limited g.cfg.rate_limit_requests (g.counter (rate_key (full_path r.path) c.client_ip))

-- The first check that aborts ends the chain.
unfoldable pub check_guards : Setting → Route → Context → List Guard → Verdict
unfolding check_guard
check_guards g r c [] = pass
check_guards g r c (x ∷ xs) = elim (check_guard g r c x) [
  | abort code t ↦ abort code t
  | pass ↦ check_guards g r c xs
]

abbrev pub json_reply : Reply × World → Option (Answer × World)
json_reply (r, w) = some (json r, w)

abbrev pub maybe_json : Option (Reply × World) → Option (Answer × World)
maybe_json none = none
maybe_json (some (r, w)) = some (json r, w)

abbrev pub portal_reply : Response × World → Option (Answer × World)
portal_reply (r, w) = some (portal r, w)

abbrev pub maybe_html : Option (Text × World) → Option (Answer × World)
maybe_html none = none
maybe_html (some (t, w)) = some (html t, w)

-- `PortalHandler.Purchase`, once the body is bound.
unfoldable pub purchase_reply :
    Option (Result Error PurchaseResult × World) → Option (Answer × World)
unfolding write_service_error
purchase_reply none = none
purchase_reply (some (ok r, w)) = some (purchased r, w)
purchase_reply (some (err e, w)) =
    some (portal (denied (write_service_error e).0 (write_service_error e).1), w)

-- A handler of the portal on a body that may not bind.
abbrev pub bound_portal :
    {A : Type 0} → Bound A → (A → World → Option (Answer × World)) → World → Option (Answer × World)
bound_portal (err t) f w = some (portal (denied 400 t), w)
bound_portal (ok a) f w = f a w

module _ (env : Env) (g : Setting) where
  unfoldable pub call : Endpoint → List Text → Request → World → Option (Answer × World)
  unfolding health portal_page redeem_fragment purchase_fragment plan_cards redeem_handler
      resume_handler portal_plans_handler purchase list_plans_handler create_plan_handler
      generate_tokens_handler revoke_token_handler active_sessions_handler sales_report
      accounting_start accounting_interim accounting_stop gateway_disconnect mobile_money_webhook
      manual_record
  call health_check ps q w = json_reply (health w)
  call metrics ps q w = some (metrics_text, w)
  call root ps q w = some (redirected (bytes "/portal"), w)
  call page ps q w =
      let (p, w') = portal_page g.cfg.portal_title q.context w in some (portal_html p, w')
  call redeem_form ps q w = let (t, w') = redeem_fragment env q.context w in some (html t, w')
  call purchase_form ps q w = maybe_html (purchase_fragment env g.fuel q.context w)
  call cards ps q w = let (p, w') = plan_cards q.context w in some (cards_html p, w')
  call redeem ps q w =
      bound_portal (g.decoders.redeem_input q.body)
        (λ r w'. portal_reply (redeem_handler env q.context r w')) w
  call resume ps q w =
      bound_portal (g.decoders.redeem_input q.body)
        (λ r w'. portal_reply (resume_handler env q.context r w')) w
  call portal_plans ps q w = json_reply (portal_plans_handler w)
  call purchase_json ps q w =
      bound_portal (g.decoders.purchase_input q.body)
        (λ r w'. purchase_reply (purchase env g.fuel q.context r w')) w
  call admin_plans ps q w = json_reply (list_plans_handler w)
  call admin_create_plan ps q w =
      json_reply (
        create_plan_handler env (q.context.header (bytes "X-Role")) (g.decoders.plan_input q.body)
          w)
  call admin_generate ps q w = maybe_json (
      generate_tokens_handler env g.fuel (q.context.header (bytes "X-Admin-ID"))
        (g.decoders.generate_input q.body) w)
  call admin_revoke ps q w = json_reply (
      revoke_token_handler env (first_parameter ps) (q.context.header (bytes "X-Admin-ID"))
        (g.decoders.revoke_reason q.body) w)
  call admin_sessions ps q w = json_reply (active_sessions_handler env w)
  call admin_sales ps q w = json_reply (sales_report g.plus w)
  call start ps q w = json_reply (accounting_start env (g.decoders.start_input q.body) w)
  call interim ps q w = json_reply (accounting_interim env (g.decoders.usage_input q.body) w)
  call stop ps q w = json_reply (accounting_stop env (g.decoders.stop_input q.body) w)
  call disconnect ps q w =
      json_reply (gateway_disconnect env (g.decoders.disconnect_input q.body) w)
  call webhook ps q w = json_reply (
      mobile_money_webhook env g.decoders.webhook_input g.cfg.mobile_money_key q.body
        (q.context.header (bytes "X-Signature")) w)
  call manual ps q w = json_reply (manual_record env (g.decoders.manual_input q.body) w)

  -- `none` is a generation that is still running.
  unfoldable pub serve : Request → World → Option (Answer × World)
  unfolding routes find_route check_guards call
  serve q w = elim (find_route (routes g.cfg) q.method q.path) [
    | none ↦ some (no_route, w)
    | some found ↦ elim (check_guards g found.0 q.context found.0.guards) [
      | abort code t ↦ some (aborted code t, w)
      | pass ↦ call found.0.endpoint found.1 q w
    ]
  ]
