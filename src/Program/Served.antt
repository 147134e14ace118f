-- ===== src/Program/Served.antt =====
-- What a request to the router does to a voucher that lets a device in no more.
use wi_fi_man.Common.{
  bytes, ◌≡◌, refl, sym, inl, inr, none, some, Option, List, Text, arith, Option-cases,
}
use mathlib.Core.Path.{subst}
use wi_fi_man.Common.Exec.{Result, ok, err}
use wi_fi_man.Domain.{Error}
use wi_fi_man.Store.Memory.{list_plans, list_payments, list_active_sessions}
use wi_fi_man.World.{Env, World, db}
use wi_fi_man.Service.Payment.{sales_summary}
use wi_fi_man.Service.Session.{active_session_list}
use wi_fi_man.Service.Token.Redeem.Blocked.{IsBlocked}
use wi_fi_man.Http.Middleware.{Verdict, pass, abort}
use wi_fi_man.Http.Errors.{write_service_error}
use wi_fi_man.Http.Handlers.{
  Reply, Bound, active_sessions_handler, sales_report, list_plans_handler, portal_plans_handler,
  health, generate_tokens_handler, accounting_start, accounting_interim, accounting_stop,
  gateway_disconnect, manual_record, mobile_money_webhook, revoke_token_handler,
  create_plan_handler,
}
use wi_fi_man.Http.Html.{portal_page, plan_cards, redeem_fragment, purchase_fragment}
use wi_fi_man.Http.Portal.{
  PurchaseResult, Response, denied, redeem_handler, resume_handler, purchase,
}
use wi_fi_man.Http.Router.{
  Endpoint, health_check, metrics, root, page, redeem_form, purchase_form, cards, redeem, resume,
  portal_plans, purchase_json, admin_plans, admin_create_plan, admin_generate, admin_revoke,
  admin_sessions, admin_sales, start, interim, stop, disconnect, webhook, manual, routes,
  find_route,
}
use wi_fi_man.Http.Router.Serve.{
  metrics_text, redirected, portal_html, cards_html, html, aborted, json, portal, purchased,
  first_parameter, Request, Answer, Setting, json_reply, maybe_json, portal_reply, maybe_html,
  purchase_reply, bound_portal, call, serve, check_guards,
}
use wi_fi_man.Program.Requests.{
  reply_with-IsBlocked, accounting_start-IsBlocked, accounting_interim-IsBlocked,
  accounting_stop-IsBlocked, gateway_disconnect-IsBlocked, manual_record-IsBlocked,
  mobile_money_webhook-IsBlocked, revoke_token_handler-IsBlocked, create_plan_handler-IsBlocked,
  generate_tokens_handler-IsBlocked, redeem_handler-IsBlocked, resume_handler-IsBlocked,
}
use wi_fi_man.Program.Pages.{
  portal_page-same, plan_cards-same, redeem_fragment-IsBlocked, purchase_fragment-IsBlocked,
}
use wi_fi_man.Program.Vouchers.{purchase-IsBlocked}

module _ (hash m : Text) where
  -- What an answer that returns leaves.
  abbrev Leaves : Option (Answer × World) → Type 0
  Leaves x = (a : Answer) (w' : World) → x ≡ some (a, w') → IsBlocked hash m w'

  returned : (a : Answer) (w : World) → IsBlocked hash m w → Leaves (some (a, w))
  returned a w v b w' h = let is_w : w ≡ w' = ground arith in subst (IsBlocked hash m) is_w v

  json-Leaves : (x : Reply × World) → IsBlocked hash m x.1 → Leaves (json_reply x)
  json-Leaves (r, w) v = returned (json r) w v

  portal-Leaves : (x : Response × World) → IsBlocked hash m x.1 → Leaves (portal_reply x)
  portal-Leaves (r, w) v = returned (portal r) w v

  maybe_json-Leaves :
      (x : Option (Reply × World))
      → ((r : Reply) (w : World) → x ≡ some (r, w) → IsBlocked hash m w)
      → Leaves (maybe_json x)
  maybe_json-Leaves none k = λ a w' h. absurd (cc)
  maybe_json-Leaves (some (r, w)) k = returned (json r) w (k r w refl)

  maybe_html-Leaves :
      (x : Option (Text × World))
      → ((t : Text) (w : World) → x ≡ some (t, w) → IsBlocked hash m w)
      → Leaves (maybe_html x)
  maybe_html-Leaves none k = λ a w' h. absurd (cc)
  maybe_html-Leaves (some (t, w)) k = returned (html t) w (k t w refl)

  purchase-Leaves :
      (x : Option (Result Error PurchaseResult × World))
      → ((r : Result Error PurchaseResult) (w : World) → x ≡ some (r, w) → IsBlocked hash m w)
      → Leaves (purchase_reply x)
  unfolding purchase_reply
  purchase-Leaves none k = λ a w' h. absurd (ground arith)
  purchase-Leaves (some (ok r, w)) k = returned (purchased r) w (k (ok r) w refl)
  purchase-Leaves (some (err e, w)) k =
      returned (portal (denied (write_service_error e).0 (write_service_error e).1)) w
        (k (err e) w refl)

  bound-Leaves :
      {A : Type 0} (b : Bound A) (f : A → World → Option (Answer × World)) (w : World)
      → IsBlocked hash m w
      → ((a : A) → Leaves (f a w))
      → Leaves (bound_portal b f w)
  bound-Leaves (err t) f w v k = returned (portal (denied 400 t)) w v
  bound-Leaves (ok a) f w v k = k a

module _ (env : Env) (g : Setting) (hash m : Text) where
  quiet-IsBlocked :
      (w : World)
      → IsBlocked hash m w
      → IsBlocked hash m (active_sessions_handler env w).1
        × IsBlocked hash m (sales_report g.plus w).1
        × IsBlocked hash m (list_plans_handler w).1
        × IsBlocked hash m (portal_plans_handler w).1
  unfolding active_sessions_handler sales_report list_plans_handler portal_plans_handler
      active_session_list sales_summary list_plans list_payments list_active_sessions
  quiet-IsBlocked w v = (
    reply_with-IsBlocked hash m _ (active_session_list env w) v,
    reply_with-IsBlocked hash m _ (sales_summary g.plus w) v,
    reply_with-IsBlocked hash m _ (db list_plans w) v,
    reply_with-IsBlocked hash m _ (db list_plans w) v,
  )

  call-IsBlocked :
      (e : Endpoint) (ps : List Text) (q : Request) (w : World)
      → IsBlocked hash m w
      → Leaves hash m (call env g e ps q w)
  unfolding call health
  call-IsBlocked health_check ps q w v = json-Leaves hash m (health w) v
  call-IsBlocked metrics ps q w v = returned hash m metrics_text w v
  call-IsBlocked root ps q w v = returned hash m (redirected (bytes "/portal")) w v
  call-IsBlocked page ps q w v =
      let (p, w') = portal_page g.cfg.portal_title q.context w in
      returned hash m (portal_html p) w'
        (subst (IsBlocked hash m) (sym (portal_page-same g.cfg.portal_title q.context w)) v)
  call-IsBlocked cards ps q w v =
      let (p, w') = plan_cards q.context w in
      returned hash m (cards_html p) w'
        (subst (IsBlocked hash m) (sym (plan_cards-same q.context w)) v)
  call-IsBlocked redeem_form ps q w v =
      let (t, w') = redeem_fragment env q.context w in
      returned hash m (html t) w' (redeem_fragment-IsBlocked env hash m q.context w v)
  call-IsBlocked purchase_form ps q w v =
      maybe_html-Leaves hash m (purchase_fragment env g.fuel q.context w)
        (λ t w'. purchase_fragment-IsBlocked env hash m g.fuel q.context w w' t v)
  call-IsBlocked redeem ps q w v =
      bound-Leaves hash m (g.decoders.redeem_input q.body)
        (λ r w'. portal_reply (redeem_handler env q.context r w')) w v
        (λ r.
          portal-Leaves hash m (redeem_handler env q.context r w)
            (redeem_handler-IsBlocked env hash m q.context r w v))
  call-IsBlocked resume ps q w v =
      bound-Leaves hash m (g.decoders.redeem_input q.body)
        (λ r w'. portal_reply (resume_handler env q.context r w')) w v
        (λ r.
          portal-Leaves hash m (resume_handler env q.context r w)
            (resume_handler-IsBlocked env hash m q.context r w v))
  call-IsBlocked portal_plans ps q w v =
      json-Leaves hash m (portal_plans_handler w) (quiet-IsBlocked w v).3
  call-IsBlocked purchase_json ps q w v =
      bound-Leaves hash m (g.decoders.purchase_input q.body)
        (λ r w'. purchase_reply (purchase env g.fuel q.context r w')) w v
        (λ r.
          purchase-Leaves hash m (purchase env g.fuel q.context r w)
            (λ x w'. purchase-IsBlocked env hash m g.fuel q.context r w w' x v))
  call-IsBlocked admin_plans ps q w v =
      json-Leaves hash m (list_plans_handler w) (quiet-IsBlocked w v).2
  call-IsBlocked admin_create_plan ps q w v =
      let role = q.context.header (bytes "X-Role") in
      let input = g.decoders.plan_input q.body in
      json-Leaves hash m (create_plan_handler env role input w)
        (create_plan_handler-IsBlocked env hash m role input w v)
  call-IsBlocked admin_generate ps q w v =
      let admin = q.context.header (bytes "X-Admin-ID") in
      let input = g.decoders.generate_input q.body in
      maybe_json-Leaves hash m (generate_tokens_handler env g.fuel admin input w)
        (λ r w'. generate_tokens_handler-IsBlocked env hash m g.fuel admin input w w' r v)
  call-IsBlocked admin_revoke ps q w v =
      let admin = q.context.header (bytes "X-Admin-ID") in
      let given = g.decoders.revoke_reason q.body in
      json-Leaves hash m (revoke_token_handler env (first_parameter ps) admin given w)
        (revoke_token_handler-IsBlocked env hash m (first_parameter ps) admin given w v)
  call-IsBlocked admin_sessions ps q w v =
      json-Leaves hash m (active_sessions_handler env w) (quiet-IsBlocked w v).0
  call-IsBlocked admin_sales ps q w v =
      json-Leaves hash m (sales_report g.plus w) (quiet-IsBlocked w v).1
  call-IsBlocked start ps q w v =
      let input = g.decoders.start_input q.body in
      json-Leaves hash m (accounting_start env input w)
        (accounting_start-IsBlocked env hash m input w v)
  call-IsBlocked interim ps q w v =
      let input = g.decoders.usage_input q.body in
      json-Leaves hash m (accounting_interim env input w)
        (accounting_interim-IsBlocked env hash m input w v)
  call-IsBlocked stop ps q w v =
      let input = g.decoders.stop_input q.body in
      json-Leaves hash m (accounting_stop env input w)
        (accounting_stop-IsBlocked env hash m input w v)
  call-IsBlocked disconnect ps q w v =
      let input = g.decoders.disconnect_input q.body in
      json-Leaves hash m (gateway_disconnect env input w)
        (gateway_disconnect-IsBlocked env hash m input w v)
  call-IsBlocked webhook ps q w v =
      let signature = q.context.header (bytes "X-Signature") in
      json-Leaves hash m
        (mobile_money_webhook env g.decoders.webhook_input g.cfg.mobile_money_key q.body signature
          w)
        (mobile_money_webhook-IsBlocked env hash m g.decoders.webhook_input g.cfg.mobile_money_key
          q.body signature w v)
  call-IsBlocked manual ps q w v =
      let input = g.decoders.manual_input q.body in
      json-Leaves hash m (manual_record env input w) (manual_record-IsBlocked env hash m input w v)

  checked-IsBlocked :
      (verdict : Verdict) (e : Endpoint) (ps : List Text) (q : Request) (w : World)
      → IsBlocked hash m w
      → Leaves hash m
          (elim verdict [ abort code t ↦ some (aborted code t, w) | pass ↦ call env g e ps q w ])
  checked-IsBlocked (abort code t) e ps q w v = returned hash m (aborted code t) w v
  checked-IsBlocked pass e ps q w v = call-IsBlocked e ps q w v

  pub serve-IsBlocked :
      (q : Request) (w w' : World) (a : Answer)
      → IsBlocked hash m w
      → serve env g q w ≡ some (a, w')
      → IsBlocked hash m w'
  unfolding serve
  serve-IsBlocked q w w' a v h = elim (Option-cases (find_route (routes g.cfg) q.method q.path)) [
    | inl n ↦ let is_w : w ≡ w' = ground (arith, n) in subst (IsBlocked hash m) is_w v
    | inr ((r, ps), n) ↦
        checked-IsBlocked (check_guards g r q.context r.guards) r.endpoint ps q w v a w'
          (rw (serve, n) at h)
  ]
