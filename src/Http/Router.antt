-- ===== src/Http/Router.antt =====
-- `NewRouter` of backend/internal/http/server.go: the table of routes, the checks of their groups, and
-- the handlers. gin, which matches a path and runs the chain, and the JSON decoders are not in the
-- repository: a request comes as the segments of its path, and the decoders are arguments.
pub mod Serve
pub mod Guards
pub mod Support
use wi_fi_man.Common.{
  ℕ, Bool, true, false, List, [], ◌∷◌, ◌++◌, Option, none, some, Text, bytes, ◌==◌, if◌then◌else◌,
}
use wi_fi_man.Common.Exec.{Result, ok, err}
use wi_fi_man.Domain.{Float64, Error, Session}
use wi_fi_man.World.{Env, World}
use wi_fi_man.Config.{Config, is_rate_limited}
use wi_fi_man.Service.Plan.{CreatePlanInput}
use wi_fi_man.Service.Payment.{ManualPaymentInput, MobileMoneyWebhookInput}
use wi_fi_man.Service.Gateway.{DisconnectInput}
use wi_fi_man.Service.Quota.{UsageUpdateInput}
use wi_fi_man.Service.Session.{AccountingStartInput}
use wi_fi_man.Service.Token.Redeem.{RedeemInput}
use wi_fi_man.Http.Errors.{write_service_error}
use wi_fi_man.Http.Context.{Context}
use wi_fi_man.Http.Middleware.{Verdict, pass, abort, require_role, rate_limited, rate_key}
use wi_fi_man.Http.Portal.{
  PurchaseInput, PurchaseResult, Response, redeem_handler, resume_handler, purchase,
}
use wi_fi_man.Http.Handlers.{
  Reply, Bound, bad_request, StopInput, GenerateInput, accounting_start, accounting_interim,
  accounting_stop, gateway_disconnect, manual_record, mobile_money_webhook, generate_tokens_handler,
  revoke_token_handler, create_plan_handler, active_sessions_handler, sales_report,
  list_plans_handler, portal_plans_handler, health,
}
use wi_fi_man.Http.Html.{Page, portal_page, plan_cards, redeem_fragment, purchase_fragment}

pub data Method : Type 0 where
  get post : Method

-- The handlers by name; `root` is the redirect to the portal.
pub data Endpoint : Type 0 where
  health_check metrics root : Endpoint
  page redeem_form purchase_form cards : Endpoint
  redeem resume portal_plans purchase_json : Endpoint
  admin_plans admin_create_plan admin_generate admin_revoke admin_sessions admin_sales : Endpoint
  start interim stop disconnect webhook manual : Endpoint

-- The middleware of a group or of a route.
pub data Guard : Type 0 where
  admin_roles portal_limit webhook_limit : Guard

pub data Segment : Type 0 where
  literal : Text → Segment
  parameter : Segment

pub record Route : Type 0 where
  pub method : Method
  pub path : List Segment
  pub guards : List Guard
  pub endpoint : Endpoint

abbrev pub below_v1 : Text → List Segment → List Segment
below_v1 group rest = literal (bytes "v1") ∷ literal group ∷ rest

-- The group /v1/portal, limited when there is a limiter.
unfoldable pub portal_route : Bool → Method → Text → Endpoint → Route
portal_route is_limited method name endpoint = record {
  method = method;
  path = below_v1 (bytes "portal") (literal name ∷ []);
  guards = if is_limited then portal_limit ∷ [] else [];
  endpoint = endpoint;
}

-- The group /v1/admin.
unfoldable pub admin_route : Method → List Segment → Endpoint → Route
admin_route method path endpoint = record {
  method = method;
  path = below_v1 (bytes "admin") path;
  guards = admin_roles ∷ [];
  endpoint = endpoint;
}

abbrev pub open_route : Method → List Segment → Endpoint → Route
open_route method path endpoint = record {
  method = method;
  path = path;
  guards = [];
  endpoint = endpoint;
}

unfoldable pub metrics_routes : Config → List Route
metrics_routes cfg =
    if cfg.metrics_enabled then open_route get (literal (bytes "metrics") ∷ []) metrics ∷ [] else []

unfoldable pub public_routes : List Route
public_routes =
    open_route get (literal (bytes "healthz") ∷ []) health_check
    ∷ open_route get (literal (bytes "portal") ∷ []) page
    ∷ open_route post (literal (bytes "portal") ∷ literal (bytes "redeem") ∷ []) redeem_form
    ∷ open_route post (literal (bytes "portal") ∷ literal (bytes "purchase") ∷ []) purchase_form
    ∷ open_route get
        (literal (bytes "portal") ∷ literal (bytes "plans") ∷ literal (bytes "fragment") ∷ []) cards
    ∷ open_route get [] root
    ∷ []

unfoldable pub portal_routes : Bool → List Route
unfolding portal_route
portal_routes is_limited =
    portal_route is_limited post (bytes "redeem") redeem
    ∷ portal_route is_limited post (bytes "resume") resume
    ∷ portal_route is_limited get (bytes "plans") portal_plans
    ∷ portal_route is_limited post (bytes "purchase") purchase_json
    ∷ []

unfoldable pub admin_routes : List Route
unfolding admin_route
admin_routes =
    admin_route get (literal (bytes "plans") ∷ []) admin_plans
    ∷ admin_route post (literal (bytes "plans") ∷ []) admin_create_plan
    ∷ admin_route post (literal (bytes "tokens") ∷ literal (bytes "generate") ∷ []) admin_generate
    ∷ admin_route post (literal (bytes "tokens") ∷ parameter ∷ literal (bytes "revoke") ∷ [])
        admin_revoke
    ∷ admin_route get (literal (bytes "sessions") ∷ literal (bytes "active") ∷ []) admin_sessions
    ∷ admin_route get (literal (bytes "reports") ∷ literal (bytes "sales") ∷ []) admin_sales
    ∷ []

unfoldable pub service_routes : Bool → List Route
service_routes is_limited =
    open_route post (below_v1 (bytes "accounting") (literal (bytes "start") ∷ [])) start
    ∷ open_route post (below_v1 (bytes "accounting") (literal (bytes "interim") ∷ [])) interim
    ∷ open_route post (below_v1 (bytes "accounting") (literal (bytes "stop") ∷ [])) stop
    ∷ open_route post (below_v1 (bytes "gateway") (literal (bytes "disconnect") ∷ [])) disconnect
    ∷ record {
      method = post;
      path =
          below_v1 (bytes "payments")
            (literal (bytes "mobilemoney") ∷ literal (bytes "webhook") ∷ []);
      guards = if is_limited then webhook_limit ∷ [] else [];
      endpoint = webhook;
    }
    ∷ open_route post
        (below_v1 (bytes "payments") (literal (bytes "manual") ∷ literal (bytes "record") ∷ []))
        manual
    ∷ []

-- `main` gives both limiters or none.
unfoldable pub routes : Config → List Route
unfolding metrics_routes public_routes portal_routes admin_routes service_routes is_rate_limited
routes cfg =
    metrics_routes cfg
    ++ (public_routes
        ++ (portal_routes (is_rate_limited cfg)
            ++ (admin_routes ++ service_routes (is_rate_limited cfg))))

-- The parameters of a path that matches.
unfoldable pub match_path : List Segment → List Text → Option (List Text)
match_path [] [] = some []
match_path [] (t ∷ ts) = none
match_path (s ∷ ss) [] = none
match_path (literal l ∷ ss) (t ∷ ts) = let rest = match_path ss ts in if l == t then rest else none
match_path (parameter ∷ ss) (t ∷ ts) = elim (match_path ss ts) [
  | none ↦ none
  | some ps ↦ some (t ∷ ps)
]

abbrev pub same_method : Method → Method → Bool
same_method get get = true
same_method post post = true
same_method _ _ = false

unfoldable pub find_route : List Route → Method → List Text → Option (Route × List Text)
unfolding match_path
find_route [] method path = none
find_route (r ∷ rs) method path =
    let rest = find_route rs method path in
    if same_method r.method method
    then elim (match_path r.path path) [ none ↦ rest | some ps ↦ some (r, ps) ]
    else rest
