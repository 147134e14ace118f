-- ===== src/Service/Radius/Server.antt =====
-- backend/internal/service/radius_server.go: the handlers of one packet. The sockets are not modelled.
pub mod Replies
use wi_fi_man.Common.{
  ℕ, zero, suc, ◌*◌, ◌%◌, ◌^◌, Bool, true, false, not, List, [], ◌∷◌, ◌++◌, Option, none, some,
  Text, bytes, is_empty, length, nat_eq, if◌then◌else◌,
}
use wi_fi_man.Common.Int.{ℤ, pos, pos_part, ltb_ℤ}
use wi_fi_man.Common.Exec.{Result, ok, err}
use wi_fi_man.Domain.{Error, message, GatewayPolicy, Session}
use wi_fi_man.Util.Ascii.{trim_space}
use wi_fi_man.Service.Token.Policy.{rate_limit}
use wi_fi_man.Service.Radius.{
  RadiusAuthInput, RadiusAuthDecision, allow, reject, RadiusAccountingEvent, authenticate,
  handle_accounting,
}
use wi_fi_man.Service.Radius.Packet.{
  RadiusAttr, RadiusPacket, put_uint32, parse_packet, build_response, validate_request,
  first_string, first_ip, first_uint32, octets,
}
use wi_fi_man.World.{Env, World}

unfoldable pub first_non_empty : List Text → Text
first_non_empty [] = []
first_non_empty (v ∷ vs) = if not (is_empty (trim_space v)) then v else first_non_empty vs

unfoldable pub auth_input : List RadiusAttr → Text → RadiusAuthInput
unfolding first_string first_ip first_non_empty
auth_input attrs remote_ip = record {
  user_name = first_string 1 attrs;
  calling_station_id = first_string 31 attrs;
  framed_ip = first_non_empty (first_ip 8 attrs ∷ remote_ip ∷ []);
  nas_ip = first_ip 4 attrs;
  nas_identifier = first_string 32 attrs;
  acct_session_id = first_string 44 attrs;
}

-- `radiusMikrotikRateLimitAttr`: vendor 14988, type 8.
abbrev pub mikrotik_attr : Text → RadiusAttr
mikrotik_attr rate = record {
  attr_type = 26;
  value = put_uint32 14988 ++ 8 ∷ (suc (suc (length rate)) % 256) ∷ rate;
}

-- `uint32(max(timeout, 60))`.
unfoldable pub timeout_word : ℤ → ℕ
timeout_word sec = if ltb_ℤ (pos 60) sec then pos_part sec % 2 ^ 32 else 60

abbrev pub message_attr : Text → RadiusAttr
message_attr t = record { attr_type = 18; value = t }

unfoldable pub accept_attrs : GatewayPolicy → List RadiusAttr
unfolding timeout_word rate_limit
accept_attrs policy =
    let given = policy.mikrotik_rate_limit_vsa in
    let rate =
      if is_empty given then rate_limit policy.speed_down_kbps policy.speed_up_kbps else given in
    record { attr_type = 27; value = put_uint32 (timeout_word policy.session_timeout_sec) }
    ∷ mikrotik_attr rate
    ∷ message_attr (bytes "Access granted")
    ∷ []

abbrev pub reason_or_denied : Text → Text
reason_or_denied reason = if is_empty reason then bytes "access denied" else reason

unfoldable pub status_type_of : ℕ → Text
status_type_of status =
    if nat_eq status 1
    then bytes "start"
    else if nat_eq status 2
    then bytes "stop"
    else bytes "interim"

unfoldable pub accounting_event : List RadiusAttr → Text → RadiusAccountingEvent
unfolding status_type_of first_string first_ip first_uint32 octets
accounting_event attrs remote_ip =
    let nas_ip = first_ip 4 attrs in
    record {
      status_type = status_type_of (first_uint32 40 attrs);
      user_name = first_string 1 attrs;
      calling_station_id = first_string 31 attrs;
      framed_ip = first_ip 8 attrs;
      nas_ip = if is_empty nas_ip then remote_ip else nas_ip;
      nas_identifier = first_string 32 attrs;
      acct_session_id = first_string 44 attrs;
      bytes_in_total = octets 42 52 attrs;
      bytes_out_total = octets 43 53 attrs;
      stop_reason = first_string 18 attrs;
    }

module _ (env : Env) (md5 : Text → Text) (secret : Text) where
  abbrev pub decision_response : RadiusPacket → RadiusAuthDecision → Text
  unfolding build_response accept_attrs
  decision_response packet (allow session policy) =
      build_response md5 packet 2 (accept_attrs policy) secret
  decision_response packet (reject reason) =
      build_response md5 packet 3 (message_attr (reason_or_denied reason) ∷ []) secret

  -- `none` where nothing is sent back.
  unfoldable pub answer_auth : RadiusPacket → Text → World → Result Error (Option Text) × World
  unfolding authenticate auth_input
  answer_auth packet remote_ip w =
      if not (nat_eq packet.code 1)
      then (ok none, w)
      else (let (decision, w') = authenticate env (auth_input packet.attributes remote_ip) w in
          (ok (some (decision_response packet decision)), w'))

  unfoldable pub handle_auth_packet : Text → Text → World → Result Error (Option Text) × World
  unfolding parse_packet answer_auth
  handle_auth_packet raw remote_ip w = elim (parse_packet raw) [
    | err e ↦ (err e, w)
    | ok packet ↦ answer_auth packet remote_ip w
  ]

  unfoldable pub accounted :
      RadiusPacket → Result Error (Unit {0}) × World → Result Error (Option Text) × World
  unfolding build_response
  accounted packet (err e, w) = (err e, w)
  accounted packet (ok _, w) = (ok (some (build_response md5 packet 5 [] secret)), w)

  unfoldable pub answer_accounting :
      Text → RadiusPacket → Text → World → Result Error (Option Text) × World
  unfolding validate_request handle_accounting accounting_event accounted
  answer_accounting raw packet remote_ip w =
      if not (nat_eq packet.code 4)
      then (ok none, w)
      else if not (validate_request md5 raw secret)
      then (err (message (bytes "invalid accounting authenticator")), w)
      else accounted packet (handle_accounting env (accounting_event packet.attributes remote_ip) w)

  unfoldable pub handle_accounting_packet : Text → Text → World → Result Error (Option Text) × World
  unfolding parse_packet answer_accounting
  handle_accounting_packet raw remote_ip w = elim (parse_packet raw) [
    | err e ↦ (err e, w)
    | ok packet ↦ answer_accounting raw packet remote_ip w
  ]
