-- ===== src/Service/Radius.antt =====
-- backend/internal/service/radius_service.go.
pub mod Packet
pub mod Device
pub mod Server
use wi_fi_man.Common.{
  Bool, true, false, not, ◌&&◌, Option, none, some, Text, bytes, is_empty, [], if◌then◌else◌,
}
use wi_fi_man.Common.Int.{ℤ}
use wi_fi_man.Common.Exec.{Result, Exec, ok, err, after, ◌>>=◌, ◌>>◌, return, fail}
use wi_fi_man.Domain.{
  Session, GatewayPolicy, Error, message, invalid_token, session_not_found, error_text,
}
use wi_fi_man.Util.Mac.{normalize_mac}
use wi_fi_man.World.{Env, World, M}
use wi_fi_man.Service.Gateway.{disconnect_session}
use wi_fi_man.Service.Token.Redeem.{RedeemInput, RedeemResult, given_or, redeem_token, resume_token}
use wi_fi_man.Service.Quota.{UsageUpdateResult}
use wi_fi_man.Service.Session.{RadiusAccountingInput, handle_radius_accounting}

pub record RadiusAuthInput : Type 0 where
  pub user_name : Text
  pub calling_station_id : Text
  pub framed_ip : Text
  pub nas_ip : Text
  pub nas_identifier : Text
  pub acct_session_id : Text

-- `RadiusAuthDecision`: allowed with a session and a policy, or not with a reason.
pub data RadiusAuthDecision : Type 0 where
  allow : Session → GatewayPolicy → RadiusAuthDecision
  reject : Text → RadiusAuthDecision

pub record RadiusAccountingEvent : Type 0 where
  pub status_type : Text
  pub user_name : Text
  pub calling_station_id : Text
  pub framed_ip : Text
  pub nas_ip : Text
  pub nas_identifier : Text
  pub acct_session_id : Text
  pub bytes_in_total : ℤ
  pub bytes_out_total : ℤ
  pub stop_reason : Text

abbrev pub redeem_input : RadiusAuthInput → Text → RedeemInput
redeem_input in_auth mac = record {
  code = in_auth.user_name;
  device_mac = mac;
  ip = in_auth.framed_ip;
  gateway_id = given_or (given_or in_auth.nas_identifier in_auth.nas_ip) (bytes "radius");
  radius_session_id = in_auth.acct_session_id;
  nas_ip = in_auth.nas_ip;
  nas_identifier = in_auth.nas_identifier;
}

unfoldable pub is_invalid_token : Error → Bool
is_invalid_token invalid_token = true
is_invalid_token _ = false

unfoldable pub is_session_not_found : Error → Bool
is_session_not_found session_not_found = true
is_session_not_found _ = false

-- The MAC of the event, if it has a valid one.
unfoldable pub event_mac : Text → Text
event_mac calling_station_id =
    if is_empty calling_station_id
    then []
    else elim (normalize_mac calling_station_id) [ ok mac ↦ mac | err _ ↦ [] ]

abbrev pub accounting_input : RadiusAccountingEvent → RadiusAccountingInput
unfolding event_mac
accounting_input in_event = record {
  status_type = in_event.status_type;
  radius_session_id = in_event.acct_session_id;
  nas_ip = in_event.nas_ip;
  nas_identifier = in_event.nas_identifier;
  ip_address = in_event.framed_ip;
  device_mac = event_mac in_event.calling_station_id;
  bytes_up_total = in_event.bytes_out_total;
  bytes_down_total = in_event.bytes_in_total;
  stop_reason = in_event.stop_reason;
}

unfoldable pub decide : Result Error RedeemResult → RadiusAuthDecision
unfolding error_text
decide (ok r) = allow r.session r.policy
decide (err e) = reject (error_text e)

module _ (env : Env) where
  -- A resumption, then a first redemption where the resumption finds no active voucher.
  unfoldable pub resume_or_redeem : RedeemInput → World → Result Error RedeemResult × World
  unfolding resume_token redeem_token
  resume_or_redeem in_req w =
      let (resumed, w') = resume_token env in_req w in
      elim resumed [
        | ok r ↦ (ok r, w')
        | err e ↦ if is_invalid_token e then redeem_token env in_req w' else (err e, w')
      ]

  -- The error of `Authenticate` is always nil: a refusal is a decision.
  unfoldable pub authenticate : RadiusAuthInput → World → RadiusAuthDecision × World
  unfolding resume_or_redeem decide
  authenticate in_auth w = elim (normalize_mac in_auth.calling_station_id) [
    | err _ ↦ (reject (bytes "invalid device MAC"), w)
    | ok mac ↦ let (r, w') = resume_or_redeem (redeem_input in_auth mac) w in (decide r, w')
  ]

  -- What follows the session service's answer.
  unfoldable pub enforce_accounting : UsageUpdateResult → Session → M (Unit {0})
  unfolding disconnect_session
  enforce_accounting update session =
      if update.disconnect && env.has_gateway
      then (do
        disconnect_session env
            (record { session_id = session.id; reason = update.disconnect_reason; force = true })
        return tt)
      else return tt

  unfoldable pub handle_accounting : RadiusAccountingEvent → M (Unit {0})
  unfolding handle_radius_accounting enforce_accounting
  handle_accounting in_event w =
      if is_empty in_event.status_type
      then (err (message (bytes "missing accounting status")), w)
      else (let (handled, w') = handle_radius_accounting env (accounting_input in_event) w in
          elim handled [
            | err e ↦ if is_session_not_found e then (ok tt, w') else (err e, w')
            | ok (update, session) ↦ enforce_accounting update session w'
          ])
