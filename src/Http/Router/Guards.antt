-- ===== src/Http/Router/Guards.antt =====
-- Which requests pass the router of backend/internal/http/server.go: the group /v1/admin and the roles of
-- backend/internal/http/middleware/rbac.go.
use wi_fi_man.Common.{
  Bool, false, List, [], ◌∷◌, ◌++◌, none, some, Text, bytes, ◌==◌, ◌≡◌, refl, sym, ap, ◌∙◌, ◌⊎◌,
  inl, inr, arith, All, All-append, Bool-cases, Option-cases,
}
use mathlib.Core.Path.{subst}
use wi_fi_man.World.{Env, World}
use wi_fi_man.Config.{Config, is_rate_limited}
use wi_fi_man.Http.Middleware.{is_allowed_role, require_role, abort}
use wi_fi_man.Http.Router.{
  Method, Route, admin_roles, routes, metrics_routes, public_routes, portal_route, portal_routes,
  admin_route, admin_routes, service_routes, match_path, find_route, same_method,
}
use wi_fi_man.Http.Router.Serve.{
  Request, Setting, no_route, aborted, check_guard, check_guards, serve,
}

-- A route that a path below /v1/admin matches checks the roles.
abbrev pub IsGuarded : Route → Type 0
IsGuarded r =
    (rest ps : List Text)
    → match_path r.path (bytes "v1" ∷ bytes "admin" ∷ rest) ≡ some ps
    → r.guards ≡ admin_roles ∷ []

impossible : {A : Type 0} {x : List Text} → none ≡ some x → A
impossible h = absurd (cc)

metrics_routes-IsGuarded : (cfg : Config) → All IsGuarded (metrics_routes cfg)
unfolding metrics_routes match_path ◌==◌ bytes
metrics_routes-IsGuarded cfg = elim (Bool-cases cfg.metrics_enabled) [
  | inl e ↦ rw (metrics_routes, e) ((λ rest ps h. impossible h), tt)
  | inr e ↦ rw (metrics_routes, e) tt
]

public_routes-IsGuarded : All IsGuarded public_routes
unfolding public_routes match_path ◌==◌ bytes
public_routes-IsGuarded = (
  (λ rest ps h. impossible h),
  (
    (λ rest ps h. impossible h),
    (
      (λ rest ps h. impossible h),
      (
        (λ rest ps h. impossible h),
        ((λ rest ps h. impossible h), ((λ rest ps h. impossible h), tt)),
      ),
    ),
  ),
)

portal_routes-IsGuarded : (b : Bool) → All IsGuarded (portal_routes b)
unfolding portal_routes portal_route match_path ◌==◌ bytes
portal_routes-IsGuarded b = (
  (λ rest ps h. impossible h),
  ((λ rest ps h. impossible h), ((λ rest ps h. impossible h), ((λ rest ps h. impossible h), tt))),
)

admin_routes-IsGuarded : All IsGuarded admin_routes
unfolding admin_routes admin_route
admin_routes-IsGuarded = (
  (λ rest ps h. refl),
  (
    (λ rest ps h. refl),
    ((λ rest ps h. refl), ((λ rest ps h. refl), ((λ rest ps h. refl), ((λ rest ps h. refl), tt)))),
  ),
)

service_routes-IsGuarded : (b : Bool) → All IsGuarded (service_routes b)
unfolding service_routes match_path ◌==◌ bytes
service_routes-IsGuarded b = (
  (λ rest ps h. impossible h),
  (
    (λ rest ps h. impossible h),
    (
      (λ rest ps h. impossible h),
      (
        (λ rest ps h. impossible h),
        ((λ rest ps h. impossible h), ((λ rest ps h. impossible h), tt)),
      ),
    ),
  ),
)

routes-IsGuarded : (cfg : Config) → All IsGuarded (routes cfg)
unfolding routes
routes-IsGuarded cfg =
    let b = is_rate_limited cfg in
    All-append IsGuarded (metrics_routes cfg)
      (public_routes ++ (portal_routes b ++ (admin_routes ++ service_routes b)))
      (metrics_routes-IsGuarded cfg)
      (All-append IsGuarded public_routes (portal_routes b ++ (admin_routes ++ service_routes b))
        public_routes-IsGuarded
        (All-append IsGuarded (portal_routes b) (admin_routes ++ service_routes b)
          (portal_routes-IsGuarded b)
          (All-append IsGuarded admin_routes (service_routes b) admin_routes-IsGuarded
            (service_routes-IsGuarded b))))

-- What is found is a route of the table, and matches.
find_route-All :
    (P : Route → Type 0) (rs : List Route) (m : Method) (path ps : List Text) (r : Route)
    → All P rs
    → find_route rs m path ≡ some (r, ps)
    → P r × (match_path r.path path ≡ some ps)
unfolding find_route
find_route-All P [] m path ps r h e = absurd (cc)
find_route-All P (x ∷ rs) m path ps r h e = elim (Bool-cases (same_method x.method m)) [
  | inr other ↦ find_route-All P rs m path ps r h.1 (ground arith)
  | inl hit ↦ elim (Option-cases (match_path x.path path)) [
    | inl missed ↦ find_route-All P rs m path ps r h.1 (ground arith)
    | inr (qs, matched) ↦
        let is_x : x ≡ r = ground arith in
        let is_q : qs ≡ ps = ground arith in
        (
          subst P is_x h.0,
          ap (λ (y : Route). match_path y.path path) (sym is_x)
              ∙ matched
              ∙ ap (λ (q : List Text). some q) is_q,
        )
  ]
]

-- The roles that the group admits.
unfoldable pub admin_role : Text → Bool
unfolding is_allowed_role
admin_role role =
    is_allowed_role (bytes "super_admin" ∷ bytes "cashier" ∷ bytes "support" ∷ []) role

module _ (env : Env) (g : Setting) where
  forbidden :
      (r : Route) (q : Request)
      → admin_role (q.context.header g.cfg.admin_token_header) ≡ false
      → check_guards g r q.context (admin_roles ∷ []) ≡ abort 403 (bytes "forbidden")
  unfolding check_guards check_guard require_role admin_role
  forbidden r q h = rw (check_guards, check_guard, require_role, h)

  -- A request below /v1/admin without one of the group's roles in the configured header changes
  -- nothing, and gets the answer of an unknown route or the refusal 403.
  pub serve-forbidden :
      (q : Request) (w : World) (rest : List Text)
      → q.path ≡ bytes "v1" ∷ bytes "admin" ∷ rest
      → admin_role (q.context.header g.cfg.admin_token_header) ≡ false
      → (serve env g q w ≡ some (no_route, w))
        ⊎ (serve env g q w ≡ some (aborted 403 (bytes "forbidden"), w))
  unfolding serve
  serve-forbidden q w rest below no_role =
      elim (Option-cases (find_route (routes g.cfg) q.method q.path)) [
        | inl e ↦ inl (ground arith)
        | inr ((r, ps), e) ↦
            let (guarded, matched) =
              find_route-All IsGuarded (routes g.cfg) q.method q.path ps r (routes-IsGuarded g.cfg)
                e in
            let roles = guarded rest ps (ap (match_path r.path) (sym below) ∙ matched) in
            let stopped = forbidden r q no_role in inr (rw (serve, e, roles, stopped))
      ]
