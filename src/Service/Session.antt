-- ===== src/Service/Session.antt =====
-- backend/internal/service/session_service.go.
pub mod Totals
use wi_fi_man.Common.{
  Bool, true, false, not, ◌&&◌, ◌||◌, List, Option, none, some, Text, bytes, is_empty, ◌==◌, [],
  if◌then◌else◌,
}
use wi_fi_man.Common.Int.{ℤ, pos, ◌-ℤ◌, ltb_ℤ, wrap}
use wi_fi_man.Common.Exec.{Exec, ok, after, ◌>>=◌, ◌>>◌, return, fail}
use wi_fi_man.Domain.{Session, SessionStatus, Time, session_not_found}
use wi_fi_man.Store.Memory.{
  get_active_session_by_token, get_session_by_radius, update_session, create_session,
  list_active_sessions,
}
use wi_fi_man.World.{Env, World, M, db, now_utc, new_uuid}
use wi_fi_man.Service.Gateway.{is_ended}
use wi_fi_man.Service.Quota.{UsageUpdateInput, UsageUpdateResult, apply_usage, stop_session}
use wi_fi_man.Service.Token.Redeem.{given_or}

pub record AccountingStartInput : Type 0 where
  pub token_id : Text
  pub device_mac : Text
  pub ip : Text
  pub gateway_id : Text
  pub radius_session_id : Text
  pub nas_ip : Text
  pub nas_identifier : Text
  pub disconnect_pending : Bool

pub record RadiusAccountingInput : Type 0 where
  pub status_type : Text
  pub radius_session_id : Text
  pub nas_ip : Text
  pub nas_identifier : Text
  pub ip_address : Text
  pub device_mac : Text
  pub bytes_up_total : ℤ
  pub bytes_down_total : ℤ
  pub stop_reason : Text

-- The running session, with what the start reports.
abbrev pub restarted : Session → AccountingStartInput → Session
restarted current in_start = record current {
  ip_address = in_start.ip;
  gateway_id = in_start.gateway_id;
  radius_session_id = given_or in_start.radius_session_id current.radius_session_id;
  nas_ip = given_or in_start.nas_ip current.nas_ip;
  nas_identifier = given_or in_start.nas_identifier current.nas_identifier;
  disconnect_pending = in_start.disconnect_pending;
}

abbrev pub accounting_session : Text → AccountingStartInput → Time → Session
accounting_session id in_start now = record {
  id = id;
  token_id = in_start.token_id;
  device_mac = in_start.device_mac;
  ip_address = in_start.ip;
  gateway_id = in_start.gateway_id;
  radius_session_id = in_start.radius_session_id;
  nas_ip = in_start.nas_ip;
  nas_identifier = in_start.nas_identifier;
  disconnect_pending = in_start.disconnect_pending;
  started_at = now;
  ended_at = none;
  bytes_up = pos 0;
  bytes_down = pos 0;
  status = SessionStatus.active;
  end_reason = [];
}

-- What a start packet refreshes.
abbrev pub refreshed : Session → RadiusAccountingInput → Session
refreshed session in_acct = record session {
  ip_address = given_or in_acct.ip_address session.ip_address;
  device_mac = given_or in_acct.device_mac session.device_mac;
  nas_identifier = given_or in_acct.nas_identifier session.nas_identifier;
}

-- A counter's growth up to the reported total: none, if the report lies behind.
unfoldable pub growth : ℤ → ℤ → ℤ
growth total counter =
    let delta = wrap (total -ℤ counter) in if ltb_ℤ delta (pos 0) then pos 0 else delta

abbrev pub unchanged : Session → UsageUpdateResult
unchanged session = record { session = session; disconnect = false; disconnect_reason = [] }

module _ (env : Env) where
  unfoldable pub start_accounting : AccountingStartInput → M Session
  unfolding get_active_session_by_token update_session create_session
  start_accounting in_start = do
    found ← db (get_active_session_by_token in_start.token_id)
    elim found [
      | some current ↦ do
        db (update_session (restarted current in_start))
        return (restarted current in_start)
      | none ↦ do
        id ← new_uuid env
        now ← now_utc env
        db (create_session (accounting_session id in_start now))
        return (accounting_session id in_start now)
    ]

  unfoldable pub interim_accounting : UsageUpdateInput → M UsageUpdateResult
  unfolding apply_usage
  interim_accounting in_use = apply_usage env in_use

  unfoldable pub stop_accounting : Text → Text → M Session
  unfolding stop_session
  stop_accounting session_id reason = stop_session env session_id reason

  unfoldable pub active_session_list : M (List Session)
  unfolding list_active_sessions
  active_session_list = db list_active_sessions

  -- The counters move up to the reported totals.
  unfoldable pub catch_up : RadiusAccountingInput → Session → M UsageUpdateResult
  unfolding growth
  catch_up in_acct session =
      let delta_up = growth in_acct.bytes_up_total session.bytes_up in
      let delta_down = growth in_acct.bytes_down_total session.bytes_down in
      if ltb_ℤ (pos 0) delta_up || ltb_ℤ (pos 0) delta_down
      then apply_usage env
          (record { session_id = session.id; bytes_up = delta_up; bytes_down = delta_down })
      else return (unchanged session)

  -- The stop of a session that is still active after that.
  unfoldable pub stop_if_asked :
      RadiusAccountingInput → UsageUpdateResult → M (UsageUpdateResult × Session)
  unfolding stop_accounting
  stop_if_asked in_acct update =
      if in_acct.status_type == bytes "stop" && not (is_ended update.session)
      then (do
        session ←
            stop_accounting update.session.id (given_or in_acct.stop_reason (bytes "radius_stop"))
        return (record update { session = session }, session))
      else return (update, update.session)

  unfoldable pub account : RadiusAccountingInput → Session → M (UsageUpdateResult × Session)
  unfolding catch_up stop_if_asked update_session
  account in_acct session =
      if in_acct.status_type == bytes "start"
      then (do
        db (update_session (refreshed session in_acct))
        return (unchanged (refreshed session in_acct), refreshed session in_acct))
      else if is_ended session
      then return (unchanged session, session)
      else do update ← catch_up in_acct session; stop_if_asked in_acct update

  unfoldable pub handle_radius_accounting : RadiusAccountingInput → M (UsageUpdateResult × Session)
  unfolding get_session_by_radius account
  handle_radius_accounting in_acct = do
    found ← db (get_session_by_radius in_acct.radius_session_id in_acct.nas_ip)
    elim found [ none ↦ fail session_not_found | some session ↦ account in_acct session ]
