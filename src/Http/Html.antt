-- ===== src/Http/Html.antt =====
-- The HTML that backend/internal/http/handlers/portal_handler.go writes itself: the result of a
-- redemption or a purchase, and the form that logs the device in. The pages that gin renders from
-- templates are represented by the values that the handler passes.
pub mod Escaped
use wi_fi_man.Common.{
  ℕ, Bool, true, false, not, ◌||◌, List, [], ◌∷◌, ◌++◌, Option, none, some, Text, bytes, is_empty,
  nat_eq, if◌then◌else◌,
}
use wi_fi_man.Common.Exec.{Result, ok, err}
use wi_fi_man.Domain.{Plan, Error, error_text}
use wi_fi_man.Util.Ascii.{trim_space}
use wi_fi_man.Util.Mac.{normalize_mac}
use wi_fi_man.World.{Env, World, db}
use wi_fi_man.Store.Memory.{list_plans}
use wi_fi_man.Service.Plan.{active_plans}
use wi_fi_man.Service.Token.Redeem.{RedeemInput, RedeemResult, given_or, redeem_token}
use wi_fi_man.Http.Context.{
  Context, resolve_device_mac, resolve_gateway_id, resolve_link_login_only, resolve_dst,
  resolve_popup,
}
use wi_fi_man.Http.Portal.{PurchaseInput, PurchaseResult, normal_or_same, purchase}

-- `html.EscapeString`, on one byte and on a text.
unfoldable pub escape_byte : ℕ → Text
escape_byte c =
    if nat_eq c b'&'
    then bytes "&amp;"
    else if nat_eq c b'\''
    then bytes "&#39;"
    else if nat_eq c b'<'
    then bytes "&lt;"
    else if nat_eq c b'>'
    then bytes "&gt;"
    else if nat_eq c b'"'
    then bytes "&#34;"
    else c ∷ []

unfoldable pub escape_string : Text → Text
unfolding escape_byte
escape_string [] = []
escape_string (c ∷ s) = escape_byte c ++ escape_string s

unfoldable pub form_action : Text
form_action = bytes "<form id=\"mtk-auto-login\" method=\"post\" action=\""

unfoldable pub form_username : Text
form_username =
    bytes "\" style=\"display:none\">\n<input type=\"hidden\" name=\"username\" value=\""

unfoldable pub form_dst : Text
form_dst =
    bytes
      "\">\n<input type=\"hidden\" name=\"password\" value=\"\">\n<input type=\"hidden\" name=\"dst\" value=\""

unfoldable pub form_popup : Text
form_popup = bytes "\">\n<input type=\"hidden\" name=\"popup\" value=\""

unfoldable pub form_end : Text
form_end =
    bytes
      "\">\n</form>\n<script>setTimeout(function(){var f=document.getElementById('mtk-auto-login');if(f){f.submit();}},200);</script>"

unfoldable pub result_div : Bool → Text → Text
unfolding escape_string
result_div is_ok message =
    bytes "<div class=\"result "
    ++ ((if is_ok then bytes "ok" else bytes "err")
        ++ (bytes "\">" ++ (escape_string message ++ bytes "</div>")))

unfoldable pub login_form : Text → Text → Text → Text → Text
unfolding escape_string form_action form_username form_dst form_popup form_end
login_form link token dst popup =
    form_action
    ++ (escape_string link
        ++ (form_username
            ++ (escape_string token
                ++ (form_dst
                    ++ (escape_string dst ++ (form_popup ++ (escape_string popup ++ form_end)))))))

-- `renderPortalResultHTML`.
unfoldable pub render_result : Text → Bool → Text → Text → Text → Text → Text
unfolding result_div login_form
render_result message is_ok token link dst popup =
    if is_empty link || is_empty token
    then result_div is_ok message
    else result_div is_ok message ++ login_form link token dst popup

-- The fields that a template is given.
pub record Page : Type 0 where
  pub title : Text
  pub plans : List Plan
  pub detected_mac : Text
  pub gateway_id : Text
  pub link_login_only : Text
  pub dst : Text
  pub popup : Text

-- The page, or the error page with its status.
unfoldable pub portal_page : Text → Context → World → Result Error Page × World
unfolding list_plans active_plans resolve_device_mac resolve_gateway_id resolve_link_login_only
    resolve_dst resolve_popup
portal_page title c w = elim (db list_plans w).0 [
  | err e ↦ (err e, w)
  | ok found ↦ (
    ok (record {
      title = title;
      plans = active_plans found;
      detected_mac = resolve_device_mac c;
      gateway_id = resolve_gateway_id c;
      link_login_only = resolve_link_login_only c;
      dst = resolve_dst c;
      popup = resolve_popup c;
    }),
    w,
  )
]

-- `PlanCardsFragment`, whose template has no title; `err` is the notice that replaces the cards.
unfoldable pub plan_cards : Context → World → Result Text Page × World
unfolding list_plans active_plans resolve_device_mac resolve_gateway_id resolve_link_login_only
    resolve_dst resolve_popup
plan_cards c w = elim (db list_plans w).0 [
  | err e ↦ (err (bytes "<div class=\"empty\">Unable to load packages.</div>"), w)
  | ok found ↦ (
    ok (record {
      title = [];
      plans = active_plans found;
      detected_mac =
          normal_or_same
            (given_or (trim_space (c.query (bytes "device_mac"))) (resolve_device_mac c));
      gateway_id = given_or (trim_space (c.query (bytes "gateway_id"))) (resolve_gateway_id c);
      link_login_only = resolve_link_login_only c;
      dst = resolve_dst c;
      popup = resolve_popup c;
    }),
    w,
  )
]

abbrev pub denied_html : Text → Text
denied_html reason = bytes "<div class=\"result err\">Denied: " ++ (reason ++ bytes "</div>")

module _ (env : Env) where
  abbrev pub fragment_redemption : Context → Text → RedeemInput
  unfolding resolve_gateway_id
  fragment_redemption c mac = record {
    code = c.post_form (bytes "token");
    device_mac = mac;
    ip = c.client_ip;
    gateway_id = resolve_gateway_id c;
    radius_session_id = [];
    nas_ip = [];
    nas_identifier = [];
  }

  -- What the page says of a redemption. The code is escaped here, and once more when it is rendered.
  unfoldable pub redeem_answer : Context → Result Error RedeemResult × World → Text × World
  unfolding render_result escape_string error_text resolve_link_login_only resolve_dst resolve_popup
  redeem_answer c (err e, w) = (denied_html (error_text e), w)
  redeem_answer c (ok r, w) = (
    render_result (bytes "Access granted. Session: " ++ r.session.id) true
        (escape_string (c.post_form (bytes "token"))) (resolve_link_login_only c) (resolve_dst c)
        (resolve_popup c),
    w,
  )

  -- `RedeemFragment`.
  unfoldable pub redeem_fragment : Context → World → Text × World
  unfolding redeem_answer redeem_token fragment_redemption resolve_device_mac
  redeem_fragment c w =
      let mac = given_or (c.post_form (bytes "device_mac")) (resolve_device_mac c) in
      if is_empty mac
      then (denied_html (bytes "device MAC is required."), w)
      else elim (normalize_mac mac) [
        | err _ ↦ (denied_html (bytes "invalid device MAC."), w)
        | ok normalized ↦ redeem_answer c (redeem_token env (fragment_redemption c normalized) w)
      ]

  abbrev pub form_purchase : Context → PurchaseInput
  form_purchase c = record {
    plan_id = c.post_form (bytes "plan_id");
    device_mac = c.post_form (bytes "device_mac");
    currency = c.post_form (bytes "currency");
    method = c.post_form (bytes "method");
    gateway_id = c.post_form (bytes "gateway_id");
    customer_ref = c.post_form (bytes "customer_ref");
    link_login_only = c.post_form (bytes "link_login_only");
    dst = c.post_form (bytes "dst");
    popup = c.post_form (bytes "popup");
  }

  unfoldable pub purchase_answer :
      PurchaseInput → Result Error PurchaseResult × World → Text × World
  unfolding render_result escape_string error_text
  purchase_answer req (err e, w) =
      (bytes "<div class=\"result err\">Purchase failed: " ++ (error_text e ++ bytes "</div>"), w)
  purchase_answer req (ok r, w) = (
    render_result
        (bytes "Payment confirmed. Internet activated for "
          ++ (r.redeem.session.device_mac ++ (bytes ". Session: " ++ r.redeem.session.id)))
        true (escape_string r.token_code) req.link_login_only req.dst req.popup,
    w,
  )

  -- `PurchaseFragment`; `none` is a generation that is still running.
  unfoldable pub purchase_fragment : ℕ → Context → World → Option (Text × World)
  unfolding purchase purchase_answer
  purchase_fragment fuel c w = elim (purchase env fuel c (form_purchase c) w) [
    | none ↦ none
    | some x ↦ some (purchase_answer (form_purchase c) x)
  ]
