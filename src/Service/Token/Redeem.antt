-- ===== src/Service/Token/Redeem.antt =====
-- `RedeemToken`, `ResumeToken` and `redeemUnsafe`.
pub mod Cases
pub mod Binding
pub mod Index
pub mod Device
pub mod Blocked
pub mod Branches
use wi_fi_man.Common.{
  Bool, true, false, not, Option, none, some, Text, bytes, is_empty, ◌==◌, [], if◌then◌else◌,
}
use wi_fi_man.Common.Int.{pos, ◌+ℤ◌}
use wi_fi_man.Common.Exec.{Exec, ok, err, after, ◌>>=◌, ◌>>◌, return, fail}
use wi_fi_man.Domain.{
  Plan, Token, TokenStatus, Session, SessionStatus, GatewayPolicy, Time, Error, invalid_input,
  invalid_token, token_expired, token_revoked, token_consumed, token_device_bound, plan_inactive,
}
use wi_fi_man.Util.Mac.{normalize_mac}
use wi_fi_man.Util.TokenCode.{hash_token_code}
use wi_fi_man.Store.Memory.{
  get_token_by_code_hash_for_update, get_plan, update_token, create_session, update_session,
  get_active_session_by_token, with_tx,
}
use wi_fi_man.World.{Env, World, M, db, now_utc, new_uuid}
use wi_fi_man.Service.Token.Policy.{policy_from_token, minutes_long}
use wi_fi_man.Service.Token.Expiry.{ensure_not_expired}

pub record RedeemInput : Type 0 where
  pub code : Text
  pub device_mac : Text
  pub ip : Text
  pub gateway_id : Text
  pub radius_session_id : Text
  pub nas_ip : Text
  pub nas_identifier : Text

pub record RedeemResult : Type 0 where
  pub token : Token
  pub session : Session
  pub policy : GatewayPolicy
  pub resumed : Bool

-- The session that an activation, or a return without a session, starts.
abbrev pub new_session : Text → Token → RedeemInput → Time → Session
new_session id token in_req now = record {
  id = id;
  token_id = token.id;
  device_mac = in_req.device_mac;
  ip_address = in_req.ip;
  gateway_id = in_req.gateway_id;
  radius_session_id = in_req.radius_session_id;
  nas_ip = in_req.nas_ip;
  nas_identifier = in_req.nas_identifier;
  disconnect_pending = false;
  started_at = now;
  ended_at = none;
  bytes_up = pos 0;
  bytes_down = pos 0;
  status = SessionStatus.active;
  end_reason = [];
}

abbrev pub given_or : Text → Text → Text
given_or given old = if not (is_empty given) then given else old

-- The running session, moved to where the device is now.
abbrev pub moved_session : Session → RedeemInput → Session
moved_session session in_req = record session {
  ip_address = in_req.ip;
  gateway_id = in_req.gateway_id;
  radius_session_id = given_or in_req.radius_session_id session.radius_session_id;
  nas_ip = given_or in_req.nas_ip session.nas_ip;
  nas_identifier = given_or in_req.nas_identifier session.nas_identifier;
}

-- The token as its first redemption binds it.
abbrev pub activated : Token → Plan → Text → Time → Token
activated token plan mac now = record token {
  used_by_device_mac = some mac;
  activated_at = some now;
  expires_at = some (now +ℤ minutes_long plan.duration_minutes);
  status = TokenStatus.active;
  updated_at = now;
}

abbrev pub bound_to : Token → Text → Bool
bound_to token mac = elim token.used_by_device_mac [ none ↦ false | some bound ↦ bound == mac ]

module _ (env : Env) where
  -- `case TokenStatusUnused`.
  unfoldable pub activate : RedeemInput → Time → Plan → Token → M RedeemResult
  unfolding update_token create_session
  activate in_req now plan token = do
    let token' = activated token plan in_req.device_mac now
    db (update_token token')
    session_id ← new_uuid env
    let session = new_session session_id token' in_req now
    db (create_session session)
    return (record {
      token = token';
      session = session;
      policy = policy_from_token plan token' now;
      resumed = false;
    })

  -- `case TokenStatusActive`.
  unfoldable pub reattach : RedeemInput → Time → Plan → Token → M RedeemResult
  unfolding update_session create_session get_active_session_by_token
  reattach in_req now plan token =
      if not (bound_to token in_req.device_mac) then fail token_device_bound else do
        found ← db (get_active_session_by_token token.id)
        elim found [
          | some session ↦ do
            let session' = moved_session session in_req
            db (update_session session')
            return (record {
              token = token;
              session = session';
              policy = policy_from_token plan token now;
              resumed = true;
            })
          | none ↦ do
            session_id ← new_uuid env
            let session' = new_session session_id token in_req now
            db (create_session session')
            return (record {
              token = token;
              session = session';
              policy = policy_from_token plan token now;
              resumed = true;
            })
        ]

  -- The `switch` on the token's status.
  unfoldable pub redeem_status : RedeemInput → Bool → Time → Plan → Token → M RedeemResult
  redeem_status in_req require_active now plan token = elim token.status [
    | TokenStatus.created ↦ fail invalid_token
    | TokenStatus.unused ↦
        if require_active then fail invalid_token else activate in_req now plan token
    | TokenStatus.active ↦ reattach in_req now plan token
    | TokenStatus.expired ↦ fail token_expired
    | TokenStatus.consumed ↦ fail token_consumed
    | TokenStatus.revoked ↦ fail token_revoked
  ]

  -- From the lookup of the plan on.
  unfoldable pub redeem_found : RedeemInput → Bool → Time → Token → M RedeemResult
  unfolding get_plan
  redeem_found in_req require_active now token = do
    found ← db (get_plan token.plan_id)
    elim found [
      | none ↦ fail plan_inactive
      | some plan ↦ if not plan.active then fail plan_inactive else do
        ensure_not_expired env token now
        redeem_status in_req require_active now plan token
    ]

  unfoldable pub redeem_unsafe : RedeemInput → Bool → M RedeemResult
  unfolding get_token_by_code_hash_for_update
  redeem_unsafe in_req require_active = do
    now ← now_utc env
    if is_empty in_req.code then fail invalid_input else elim (normalize_mac in_req.device_mac) [
      | err _ ↦ fail invalid_input
      | ok mac ↦ do
        found ← db (get_token_by_code_hash_for_update (hash_token_code env.sha256_hex in_req.code))
        elim found [
          | none ↦ fail invalid_token
          | some token ↦ redeem_found (record in_req { device_mac = mac }) require_active now token
        ]
    ]

  unfoldable pub redeem_token : RedeemInput → M RedeemResult
  redeem_token in_req = with_tx (redeem_unsafe in_req false)

  unfoldable pub resume_token : RedeemInput → M RedeemResult
  resume_token in_req = with_tx (redeem_unsafe in_req true)
