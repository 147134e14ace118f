-- ===== src/Service/Quota.antt =====
-- backend/internal/service/quota_service.go. A byte counter is an `int64` and wraps around.
pub mod Limit
pub mod Ledger
use wi_fi_man.Common.{Bool, true, false, ◌&&◌, ◌++◌, Option, none, some, Text, bytes, if◌then◌else◌}
use wi_fi_man.Common.Int.{ℤ, pos, ◌+ℤ◌, ◌*ℤ◌, ltb_ℤ, leb_ℤ, wrap}
use wi_fi_man.Common.Exec.{Exec, ok, after, ◌>>=◌, ◌>>◌, return, fail}
use wi_fi_man.Domain.{
  Plan, Token, TokenStatus, Session, SessionStatus, UsageRecord, Time, Error, not_found,
  session_not_found, session_not_active,
}
use wi_fi_man.Store.Memory.{
  get_session_by_id, update_session, create_usage_record, get_token_by_id, get_plan, update_token,
}
use wi_fi_man.World.{Env, World, M, db, now_utc}
use wi_fi_man.Service.Gateway.{is_ended}

pub record UsageUpdateInput : Type 0 where
  pub session_id : Text
  pub bytes_up : ℤ
  pub bytes_down : ℤ

pub record UsageUpdateResult : Type 0 where
  pub session : Session
  pub disconnect : Bool
  pub disconnect_reason : Text

-- The session with the new bytes on its counters.
abbrev pub counted : Session → UsageUpdateInput → Session
counted session in_use = record session {
  bytes_up = wrap (session.bytes_up +ℤ in_use.bytes_up);
  bytes_down = wrap (session.bytes_down +ℤ in_use.bytes_down);
}

abbrev pub limit_reason : Text
limit_reason = bytes "data_limit_reached"

-- `plan.DataLimitMB * 1024 * 1024`.
unfoldable pub data_limit : Plan → ℤ
data_limit plan = wrap (wrap (plan.data_limit_mb *ℤ pos 1024) *ℤ pos 1024)

unfoldable pub over_limit : Plan → Session → Bool
over_limit plan session =
    ltb_ℤ (pos 0) (data_limit plan)
    && leb_ℤ (data_limit plan) (wrap (session.bytes_up +ℤ session.bytes_down))

abbrev pub limited_session : Session → Time → Session
limited_session session now = record session {
  status = SessionStatus.ended;
  end_reason = limit_reason;
  ended_at = some now;
  disconnect_pending = true;
}

abbrev pub consumed_token : Token → Time → Token
consumed_token token now = record token { status = TokenStatus.consumed; updated_at = now }

module _ (env : Env) where
  -- The record of one report, whose id is the session's followed by the time.
  abbrev pub usage_record : UsageUpdateInput → Session → Time → UsageRecord
  usage_record in_use session now = record {
    id = in_use.session_id ++ env.format_time now;
    session_id = in_use.session_id;
    token_id = session.token_id;
    bytes_up = in_use.bytes_up;
    bytes_down = in_use.bytes_down;
    created_at = now;
  }

  -- The end of `ApplyUsage`, once the token and its plan are known.
  unfoldable pub enforce_limit : Session → Token → Plan → Time → M UsageUpdateResult
  unfolding update_session update_token
  enforce_limit session token plan now =
      if over_limit plan session
      then (do
        db (update_session (limited_session session now))
        db (update_token (consumed_token token now))
        return (record {
          session = limited_session session now;
          disconnect = true;
          disconnect_reason = limit_reason;
        }))
      else return (record { session = session; disconnect = false; disconnect_reason = bytes "" })

  -- From the first lookup of the token on.
  unfoldable pub check_limit : Session → Time → M UsageUpdateResult
  unfolding get_token_by_id get_plan
  check_limit session now = do
    found ← db (get_token_by_id session.token_id)
    elim found [
      | none ↦ fail not_found
      | some token ↦ do
        found_plan ← db (get_plan token.plan_id)
        elim found_plan [ none ↦ fail not_found | some plan ↦ enforce_limit session token plan now ]
    ]

  -- `ApplyUsage` for a session that was found.
  unfoldable pub apply_to : UsageUpdateInput → Session → M UsageUpdateResult
  unfolding update_session create_usage_record
  apply_to in_use session = if is_ended session then fail session_not_active else do
    let session' = counted session in_use
    db (update_session session')
    now ← now_utc env
    db (create_usage_record (usage_record in_use session' now))
    check_limit session' now

  unfoldable pub apply_usage : UsageUpdateInput → M UsageUpdateResult
  unfolding get_session_by_id
  apply_usage in_use = do
    found ← db (get_session_by_id in_use.session_id)
    elim found [ none ↦ fail session_not_found | some session ↦ apply_to in_use session ]

  unfoldable pub stop_session : Text → Text → M Session
  unfolding get_session_by_id update_session
  stop_session session_id reason = do
    now ← now_utc env
    found ← db (get_session_by_id session_id)
    elim found [
      | none ↦ fail session_not_found
      | some session ↦ if is_ended session then return session else do
        let session' = record session {
          status = SessionStatus.ended;
          end_reason = reason;
          ended_at = some now;
          disconnect_pending = false;
        }
        db (update_session session')
        return session'
    ]
