-- ===== src/Service/Token/Expiry.antt =====
-- The end of a token's session, which expiry and revocation share; `ensureNotExpired`.
pub mod Effect
use wi_fi_man.Common.{Bool, true, false, not, Option, none, some, Text, bytes, if◌then◌else◌}
use wi_fi_man.Common.Int.{ltb_ℤ}
use wi_fi_man.Common.Exec.{Exec, ok, after, ◌>>=◌, ◌>>◌, return, fail}
use wi_fi_man.Domain.{Token, TokenStatus, Session, SessionStatus, Time, Error, token_expired}
use wi_fi_man.Store.Memory.{update_token, update_session, get_active_session_by_token}
use wi_fi_man.World.{Env, World, M, db}
use wi_fi_man.Service.Gateway.{disconnect_session}

-- The session as it is closed: `now` is when, `reason` why.
abbrev pub ended_session : Session → Text → Time → Session
ended_session session reason now = record session {
  status = SessionStatus.ended;
  end_reason = reason;
  ended_at = some now;
  disconnect_pending = true;
}

module _ (env : Env) where
  -- `if s.gateway != nil { s.gateway.DisconnectSession(…) }`, with the forced request of all its callers.
  unfoldable pub request_disconnect : Text → Text → M (Unit {0})
  request_disconnect session_id reason = if not env.has_gateway then return tt else do
    disconnect_session env (record { session_id = session_id; reason = reason; force = true })
    return tt

  -- The block under `if session, found, err := GetActiveSessionByToken(…); err == nil && found`.
  unfoldable pub end_active_session : Text → Text → Time → M (Unit {0})
  unfolding get_active_session_by_token update_session
  end_active_session token_id reason now = do
    found ← db (get_active_session_by_token token_id)
    elim found [
      | none ↦ return tt
      | some session ↦ do
        db (update_session (ended_session session reason now))
        request_disconnect session.id reason
    ]

  -- A token whose time is over is stored as expired, its session ended, and the call fails.
  unfoldable pub expire_token : Token → Time → M (Unit {0})
  unfolding update_token
  expire_token token now = do
    db (update_token (record token { status = TokenStatus.expired; updated_at = now }))
    end_active_session token.id (bytes "expired") now
    fail token_expired

  unfoldable pub ensure_not_expired : Token → Time → M (Unit {0})
  ensure_not_expired token now = elim token.expires_at [
    | none ↦ return tt
    | some expires_at ↦ if ltb_ℤ now expires_at then return tt else expire_token token now
  ]
