-- ===== src/Tests/Web.antt =====
-- The router, the portal and what it writes.
use wi_fi_man.Common.{
  ◌≡◌, ◌⊎◌, refl, inl, true, [], ◌∷◌, Text, bytes, some, none, ◌==◌, if◌then◌else◌,
}
use wi_fi_man.Common.Int.{pos}
use wi_fi_man.Common.Exec.{ok, err}
use wi_fi_man.Config.{load, getenv}
use wi_fi_man.Service.Plan.{CreatePlanInput, create_checked_plan}
use wi_fi_man.Http.Handlers.{Bound, reply_with, created, plan}
use wi_fi_man.Http.Html.{render_result}
use wi_fi_man.Http.Html.Escaped.{count_byte, render_result-markup}
use wi_fi_man.Http.Middleware.{is_allowed_role}
use wi_fi_man.Http.Router.{post}
use wi_fi_man.Http.Router.Serve.{Request, Decoders, Setting, no_route, aborted, json_reply, serve}
use wi_fi_man.Http.Router.Guards.{admin_role, serve-forbidden}
use wi_fi_man.Http.Router.Support.{plans_path, support_creates_plan}
use wi_fi_man.Tests.Fixture.{env, world}

-- Markup in a code is shown and not run.
render_result-markup_example :
    count_byte b'<' (
      render_result (bytes "ok") true (bytes "<script>") (bytes "http://gw/login") [] (bytes "\">"))
    ≡ count_byte b'<' (render_result [] true (bytes "AB") (bytes "l") [] [])
unfolding bytes
render_result-markup_example =
    render_result-markup b'<' true (bytes "ok") (bytes "<script>") (bytes "http://gw/login") []
      (bytes "\">") [] (bytes "AB") (bytes "l") [] [] (inl refl) refl refl

abbrev empty : {A : Type 0} → Bound Text → Bound A
empty b = err (bytes "EOF")

abbrev pub new_plan : CreatePlanInput
new_plan = record {
  name = bytes "Day";
  duration_minutes = pos 1440;
  data_limit_mb = pos 0;
  speed_down_kbps = pos 1000;
  speed_up_kbps = pos 1000;
  device_limit = pos 1;
  price = 0;
  active = true;
}

abbrev decoders : Decoders
decoders = record {
  redeem_input = empty;
  purchase_input = empty;
  plan_input = λ b. ok new_plan;
  generate_input = empty;
  revoke_reason = empty;
  start_input = empty;
  usage_input = empty;
  stop_input = empty;
  disconnect_input = empty;
  manual_input = empty;
  webhook_input = λ t. err (bytes "EOF");
}

-- The role comes in another header than X-Role.
abbrev environ : Text → Text
environ key = if key == bytes "ADMIN_TOKEN_HEADER" then bytes "X-Admin-Role" else []

abbrev pub setting : Setting
setting = record {
  cfg = load environ;
  decoders = decoders;
  counter = λ t. none;
  plus = λ a b. a;
  fuel = 1;
}

abbrev headers : Text → Text
headers name = if name == bytes "X-Admin-Role" then bytes "support" else []

abbrev pub plan_request : Request
plan_request = record {
  method = post;
  path = plans_path;
  context = record { query = λ t. []; post_form = λ t. []; header = headers; client_ip = [] };
  body = ok [];
}

support_creates_plan_example :
    serve env setting plan_request world
    ≡ json_reply (reply_with (λ p. created (plan p)) (create_checked_plan env new_plan world))
unfolding load getenv ◌==◌ bytes
support_creates_plan_example =
    support_creates_plan env setting plan_request world new_plan refl refl refl refl refl

abbrev anonymous : Request
anonymous = record plan_request {
  context = record { query = λ t. []; post_form = λ t. []; header = λ t. []; client_ip = [] };
}

serve-forbidden_example :
    (serve env setting anonymous world ≡ some (no_route, world))
    ⊎ (serve env setting anonymous world ≡ some (aborted 403 (bytes "forbidden"), world))
unfolding admin_role is_allowed_role ◌==◌ bytes
serve-forbidden_example = serve-forbidden env setting anonymous world (bytes "plans" ∷ []) refl refl
