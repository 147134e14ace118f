-- ===== src/Tests/Access.antt =====
-- Access requests of two devices, and the recovery after a restart.
use wi_fi_man.Common.{◌≡◌, ◌≢◌, refl, false, [], ◌∷◌, Text, bytes, some, arith, ◌==◌, eq_iff}
use wi_fi_man.Common.Dict
use wi_fi_man.Common.Dict.{get, put, find}
use wi_fi_man.Common.Int.{pos, ◌+ℤ◌, ◌*ℤ◌, wrap}
use wi_fi_man.Common.Exec.{ok}
use wi_fi_man.Domain.{Session, GatewayPolicy, Token}
use wi_fi_man.Util.Ascii.{to_upper, is_space, trim_left, trim_right, trim_space}
use wi_fi_man.Util.Mac.{is_hex, write_pairs, normalize_mac}
use wi_fi_man.Util.TokenCode.{normalize_token_code, hash_token_code}
use wi_fi_man.Store.Memory.{
  with_tx, active_sessions, list_active_sessions, get_token_by_id, get_token_by_code_hash,
  get_token_by_code_hash_for_update, get_plan, update_token, create_session,
}
use wi_fi_man.World.{World}
use wi_fi_man.Service.Token.Policy.{policy_from_token, minutes_long}
use wi_fi_man.Service.Token.Expiry.{ensure_not_expired}
use wi_fi_man.Service.Token.Redeem.{
  activated, new_session, activate, redeem_status, redeem_found, redeem_unsafe, redeem_token,
  resume_token,
}
use wi_fi_man.Service.Token.Revoke.{
  is_recoverable, recover_session, recover, recover_sessions_after_restart,
}
use wi_fi_man.Service.Token.Revoke.Recover.{
  SessionsOwnIds, is_stray, recover_sessions_after_restart-rests,
}
use wi_fi_man.Service.Radius.{
  RadiusAuthInput, redeem_input, allow, reject, is_invalid_token, resume_or_redeem, decide,
  authenticate,
}
use wi_fi_man.Config.{load, getenv}
use wi_fi_man.Jobs.{handle_gateway_disconnect}
use wi_fi_man.Service.Plan.{create_checked_plan}
use wi_fi_man.Http.Handlers.{reply_with, created, plan}
use wi_fi_man.Http.Router.Serve.{json}
use wi_fi_man.Http.Router.Support.{support_creates_plan}
use wi_fi_man.Program.{Run, requested, disconnect_task, rest, then}
use wi_fi_man.Program.OneDevice.{Run-one_device}
use wi_fi_man.Tests.Web.{new_plan, setting, plan_request}
use wi_fi_man.Tests.Retries.{codec, retry, md5}
use wi_fi_man.Tests.Fixture.{env, hour, voucher, world}
use wi_fi_man.Tests.Redeem.{
  mac, other_mac, mac_ok, other_mac_ok, store-IsIndexed, started, redeemed,
}

abbrev asking : RadiusAuthInput
asking = record {
  user_name = bytes "ab-2";
  calling_station_id = bytes "aa-bb-cc-dd-ee-01";
  framed_ip = bytes "10.0.0.5";
  nas_ip = bytes "10.0.0.1";
  nas_identifier = bytes "gw";
  acct_session_id = bytes "acct-1";
}

abbrev other_asking : RadiusAuthInput
other_asking = record asking {
  calling_station_id = bytes "aa-bb-cc-dd-ee-02";
  user_name = bytes "AB-2";
}

abbrev bound : Token
bound = activated voucher hour mac (pos 2_000_000_000)

abbrev first : Session
first = new_session (7 ∷ []) bound (redeem_input asking mac) (pos 2_000_000_000)

abbrev policy : GatewayPolicy
policy = policy_from_token hour bound (pos 2_000_000_000)

abbrev after_first : World
after_first = (authenticate env asking world).1

first_allowed : authenticate env asking world ≡ (allow first policy, after_first)
unfolding authenticate decide resume_or_redeem is_invalid_token resume_token redeem_token with_tx
    redeem_unsafe redeem_found redeem_status activate ensure_not_expired get_token_by_code_hash
    get_token_by_code_hash_for_update get_plan update_token create_session normalize_mac is_hex
    write_pairs hash_token_code normalize_token_code trim_space trim_left trim_right is_space
    to_upper bytes get put ◌==◌
first_allowed = refl

same_code :
    hash_token_code env.sha256_hex (bytes "AB-2") ≡ hash_token_code env.sha256_hex (bytes "ab-2")
unfolding hash_token_code normalize_token_code trim_space trim_left trim_right is_space to_upper
    bytes
same_code = refl

macs_apart : mac ≢ other_mac
unfolding bytes ◌==◌
macs_apart e = ground (arith, eq_iff mac other_mac)

abbrev after_plan : World
after_plan = (reply_with (λ p. created (plan p)) (create_checked_plan env new_plan after_first)).1

-- The administrator adds a plan, and a queued disconnect is repeated.
after_first-Run :
    Run env setting md5 codec after_first (handle_gateway_disconnect env codec retry after_plan).1
unfolding load getenv ◌==◌ bytes
after_first-Run =
    then
      (requested plan_request
        (json (reply_with (λ p. created (plan p)) (create_checked_plan env new_plan after_first)).0)
        (support_creates_plan env setting plan_request after_first new_plan refl refl refl refl
          refl))
      (then (disconnect_task retry refl) rest)

Run-one_device_example :
    (reason : Text) × ((authenticate env other_asking
        (handle_gateway_disconnect env codec retry after_plan).1).0
      ≡ reject reason)
Run-one_device_example =
    Run-one_device env setting md5 codec asking other_asking world after_first
      (handle_gateway_disconnect env codec retry after_plan).1 first policy mac other_mac
      store-IsIndexed mac_ok other_mac_ok macs_apart same_code first_allowed after_first-Run

redeemed-OwnIds : SessionsOwnIds redeemed.store.sessions
unfolding get put
redeemed-OwnIds id s h = ground (arith, eq_iff (7 ∷ []) id)

abbrev recovered : World
recovered = (recover_sessions_after_restart env redeemed).1

recovered_ok : recover_sessions_after_restart env redeemed ≡ (ok 0, recovered)
unfolding recover_sessions_after_restart recover recover_session is_recoverable list_active_sessions
    active_sessions get_token_by_id get put minutes_long wrap ◌*ℤ◌ ◌+ℤ◌ ◌==◌ bytes
recovered_ok = refl

recovered_session : Dict.get recovered.store.sessions (7 ∷ []) ≡ some started
unfolding recover_sessions_after_restart recover recover_session is_recoverable list_active_sessions
    active_sessions get_token_by_id get put minutes_long wrap ◌*ℤ◌ ◌+ℤ◌ ◌==◌ bytes
recovered_session = refl

recover_sessions_after_restart-rests_example :
    is_stray recovered.store.tokens (pos 2_000_000_000) started ≡ false
recover_sessions_after_restart-rests_example =
    recover_sessions_after_restart-rests env 0 redeemed recovered redeemed-OwnIds recovered_ok
      (7 ∷ []) started recovered_session
