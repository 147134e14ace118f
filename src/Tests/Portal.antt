-- ===== src/Tests/Portal.antt =====
-- A purchase at the portal.
use wi_fi_man.Common.{◌≡◌, refl, Bool, true, [], Text, bytes, Option, some, none, ◌==◌}
use wi_fi_man.Common.Dict
use wi_fi_man.Common.Dict.{get, put}
use wi_fi_man.Common.Decimal.{decimal, digits_before}
use wi_fi_man.Util.Ascii.{to_upper, is_space, trim_left, trim_right, trim_space}
use wi_fi_man.Util.TokenCode.{
  generate_token_code, random_part, hash_token_code, normalize_token_code, token_alphabet,
}
use wi_fi_man.Store.Memory.{
  with_tx, create_audit_log, create_payment_if_absent, create_token, get_plan,
}
use wi_fi_man.Service.Audit.{log_audit}
use wi_fi_man.Service.Payment.{record_manual_payment}
use wi_fi_man.Service.Plan.{plan_by_id}
use wi_fi_man.Service.Token.Generate.{
  is_bad_count, draw, draw_code, generate_for, generate_loop, generate_tokens, audit_generation,
}
use wi_fi_man.Common.Int.{pos}
use wi_fi_man.Common.Exec.{Result, ok, err}
use wi_fi_man.Domain.{Plan, PaymentStatus, Error}
use wi_fi_man.Util.Mac.{normalize_mac, is_hex, write_pairs}
use wi_fi_man.World.{World}
use wi_fi_man.Http.Context.{Context, first_mac, resolve_device_mac}
use wi_fi_man.Service.Token.Expiry.{ensure_not_expired}
use wi_fi_man.Service.Token.Redeem.{given_or, redeem_found, redeem_status, activate, redeem_unsafe}
use wi_fi_man.Http.Portal.{
  portal_redemption, PurchaseInput, PurchaseResult, purchase_plan, purchase,
}
use wi_fi_man.Http.Portal.Bought.{IsBought, paid_by, purchase-IsBought}
use wi_fi_man.Tests.Fixture.{env, hour, store, world}
use wi_fi_man.Tests.Redeem.{store-IsIndexed, granted}

abbrev context : Context
context = record {
  query = λ t. [];
  post_form = λ t. [];
  header = λ t. [];
  client_ip = bytes "10.0.0.5";
}

abbrev order : PurchaseInput
order = record {
  plan_id = bytes "hour";
  device_mac = bytes "aa-bb-cc-dd-ee-01";
  currency = [];
  method = [];
  gateway_id = [];
  customer_ref = [];
  link_login_only = [];
  dst = [];
  popup = [];
}

-- What a purchase is read as when it has failed.
abbrev unsold : PurchaseResult
unsold = record {
  plan = hour;
  payment = record {
    id = [];
    amount = 0;
    currency = [];
    method = [];
    transaction_ref = [];
    status = PaymentStatus.paid;
    metadata = none;
    created_at = pos 0;
    updated_at = pos 0;
  };
  token_code = [];
  redeem = granted;
}

abbrev sold : Option (Result Error PurchaseResult × World) → PurchaseResult
sold (some (ok r, w)) = r
sold (some (err e, w)) = unsold
sold none = unsold

abbrev left : Option (Result Error PurchaseResult × World) → World
left (some (x, w)) = w
left none = world

abbrev run : Option (Result Error PurchaseResult × World)
unfolding purchase
run = purchase env 1 context order world

bought : purchase env 1 context order world ≡ some (ok (sold run), left run)
unfolding run normalize_mac trim_space trim_right trim_left is_space is_hex to_upper write_pairs
    bytes get put ◌==◌ is_bad_count generate_token_code random_part hash_token_code
    normalize_token_code token_alphabet with_tx digits_before resolve_device_mac first_mac purchase
    purchase_plan log_audit record_manual_payment plan_by_id audit_generation draw draw_code
    generate_for generate_loop redeem_found ensure_not_expired redeem_status activate redeem_unsafe
    portal_redemption generate_tokens decimal create_audit_log create_payment_if_absent create_token
    get_plan
bought = refl

purchase-IsBought_example :
    (m : Text) × (plan : Plan) × (existed : Bool) × (normalize_mac
        (given_or order.device_mac (resolve_device_mac context))
      ≡ ok m)
    × (Dict.get store.plans order.plan_id ≡ some plan)
    × (plan.active ≡ true)
    × ((paid_by env order plan m world).0 ≡ ok ((sold run).payment, existed))
    × IsBought env m plan (sold run) (left run)
purchase-IsBought_example =
    purchase-IsBought env 1 context order world (left run) (sold run) store-IsIndexed bought
