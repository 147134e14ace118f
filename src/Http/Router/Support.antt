-- ===== src/Http/Router/Support.antt =====
-- Who may create a plan: `CreatePlan` of backend/internal/http/handlers/admin_handler.go behind the
-- roles of the group /v1/admin in backend/internal/http/server.go.
use wi_fi_man.Common.{
  true, false, List, [], ◌∷◌, some, Text, bytes, ◌==◌, ◌≡◌, refl, ◌∙◌, inl, inr, Bool-cases,
}
use wi_fi_man.World.{Env, World}
use wi_fi_man.Config.{Config}
use wi_fi_man.Http.Middleware.{is_allowed_role, require_role, pass}
use wi_fi_man.Http.Router.{
  post, Route, literal, admin_create_plan, admin_roles, routes, metrics_routes, public_routes,
  portal_route, portal_routes, admin_route, admin_routes, match_path, find_route,
}
use wi_fi_man.Common.Exec.{ok}
use wi_fi_man.Service.Plan.{CreatePlanInput, create_checked_plan}
use wi_fi_man.Http.Handlers.{reply_with, created, plan, error, create_plan_handler}
use wi_fi_man.Http.Router.Serve.{
  json, json_reply, call, Request, Setting, check_guard, check_guards, serve,
}
use wi_fi_man.Http.Router.Guards.{admin_role}

abbrev pub plans_path : List Text
plans_path = bytes "v1" ∷ bytes "admin" ∷ bytes "plans" ∷ []

abbrev plans_route : Route
unfolding admin_route
plans_route = admin_route post (literal (bytes "plans") ∷ []) admin_create_plan

plans_found : (cfg : Config) → find_route (routes cfg) post plans_path ≡ some (plans_route, [])
unfolding routes metrics_routes public_routes portal_routes portal_route admin_routes admin_route
    find_route match_path plans_route ◌==◌ bytes
plans_found cfg = elim (Bool-cases cfg.metrics_enabled) [
  | inl e ↦ rw (routes, metrics_routes, e) refl
  | inr e ↦ rw (routes, metrics_routes, e) refl
]

module _ (env : Env) (g : Setting) where
  admitted :
      (r : Route) (q : Request)
      → admin_role (q.context.header g.cfg.admin_token_header) ≡ true
      → check_guards g r q.context (admin_roles ∷ []) ≡ pass
  unfolding check_guards check_guard require_role admin_role
  admitted r q h = rw (check_guards, check_guard, require_role, h)

  create_plan_request :
      (q : Request) (w : World)
      → q.method ≡ post
      → q.path ≡ plans_path
      → admin_role (q.context.header g.cfg.admin_token_header) ≡ true
      → serve env g q w
        ≡ json_reply (
            create_plan_handler env
              (q.context.header (bytes "X-Role"))
              (g.decoders.plan_input q.body)
              w)
  unfolding serve call plans_route admin_route
  create_plan_request q w is_post is_plans role =
      rw (serve, is_post, is_plans, plans_found g.cfg, admitted plans_route q role) refl

  -- Where the role support comes in the configured header and X-Role does not say support, a
  -- request with a decodable plan goes on to the plan's creation.
  pub support_creates_plan :
      (q : Request) (w : World) (r : CreatePlanInput)
      → q.method ≡ post
      → q.path ≡ plans_path
      → q.context.header g.cfg.admin_token_header ≡ bytes "support"
      → (q.context.header (bytes "X-Role") == bytes "support") ≡ false
      → g.decoders.plan_input q.body ≡ ok r
      → serve env g q w
        ≡ json_reply (reply_with (λ p. created (plan p)) (create_checked_plan env r w))
  unfolding create_plan_handler admin_role is_allowed_role ◌==◌ bytes
  support_creates_plan q w r is_post is_plans role other decoded =
      create_plan_request q w is_post is_plans (rw role refl)
      ∙ rw (create_plan_handler, other, decoded) refl

  pub support_refused :
      (q : Request) (w : World)
      → q.method ≡ post
      → q.path ≡ plans_path
      → g.cfg.admin_token_header ≡ bytes "X-Role"
      → q.context.header (bytes "X-Role") ≡ bytes "support"
      → serve env g q w
        ≡ some (
          json (record { code = 403; body = error (bytes "support role cannot create plans") }),
          w,
        )
  unfolding create_plan_handler admin_role is_allowed_role ◌==◌ bytes
  support_refused q w is_post is_plans named role =
      create_plan_request q w is_post is_plans (rw (named, role) refl)
      ∙ rw (create_plan_handler, role) refl
