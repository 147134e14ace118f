-- ===== src/Service/Token/Revoke.antt =====
-- `RevokeToken`, `SweepExpiredTokens` and `RecoverSessionsAfterRestart`.
pub mod Effect
pub mod Sweep
pub mod Recover
use wi_fi_man.Common.{
  ℕ, suc, Bool, true, false, not, ◌&&◌, ◌||◌, List, [], ◌∷◌, Option, none, some, Text, bytes,
  is_empty, if◌then◌else◌,
}
use wi_fi_man.Common.Int.{ltb_ℤ}
use wi_fi_man.Common.Exec.{Exec, ok, after, ◌>>=◌, ◌>>◌, return, fail, ignore_error}
use wi_fi_man.Domain.{Token, TokenStatus, Session, Time, not_found}
use wi_fi_man.Store.Memory.{
  get_token_by_id, update_token, update_session, list_tokens, list_active_sessions,
}
use wi_fi_man.World.{Env, M, db, now_utc}
use wi_fi_man.Service.Audit.{log_audit}
use wi_fi_man.Service.Token.Redeem.{given_or}
use wi_fi_man.Service.Token.Expiry.{end_active_session, ended_session, request_disconnect}

abbrev pub revoked : Token → Text → Time → Token
revoked token reason now = record token {
  status = TokenStatus.revoked;
  revoked_reason = reason;
  updated_at = now;
}

-- The loop's two `continue` tests passed.
unfoldable pub is_overdue : Time → Token → Bool
is_overdue now token = elim token.status [
  | TokenStatus.created ↦ false
  | TokenStatus.unused ↦ false
  | TokenStatus.active ↦ elim token.expires_at [
    | none ↦ false
    | some expires_at ↦ not (ltb_ℤ now expires_at)
  ]
  | TokenStatus.expired ↦ false
  | TokenStatus.consumed ↦ false
  | TokenStatus.revoked ↦ false
]

-- A session keeps its token through a restart, if the token is active and its end not past.
unfoldable pub is_recoverable : Time → Option Token → Bool
is_recoverable now none = false
is_recoverable now (some token) = elim token.status [
  | TokenStatus.created ↦ false
  | TokenStatus.unused ↦ false
  | TokenStatus.active ↦ elim token.expires_at [
    | none ↦ true
    | some expires_at ↦ not (ltb_ℤ expires_at now)
  ]
  | TokenStatus.expired ↦ false
  | TokenStatus.consumed ↦ false
  | TokenStatus.revoked ↦ false
]

module _ (env : Env) where
  unfoldable pub audit_revocation : Text → Text → Text → M (Unit {0})
  unfolding log_audit
  audit_revocation token_id admin_id reason =
      if is_empty admin_id
      then return tt
      else ignore_error
          (log_audit env admin_id (bytes "token.revoke") (bytes "token") token_id reason)

  unfoldable pub revoke_token : Text → Text → Text → M (Unit {0})
  unfolding get_token_by_id update_token audit_revocation
  revoke_token token_id admin_id given = do
    let reason = given_or given (bytes "revoked by admin")
    now ← now_utc env
    found ← db (get_token_by_id token_id)
    elim found [
      | none ↦ fail not_found
      | some token ↦ do
        db (update_token (revoked token reason now))
        end_active_session env token_id (bytes "revoked") now
        audit_revocation token_id admin_id reason
    ]

  -- The loop over the tokens. The count is returned on success only: no caller reads it otherwise.
  unfoldable pub sweep : Time → List Token → ℕ → M ℕ
  unfolding update_token
  sweep now [] changed = return changed
  sweep now (token ∷ tokens) changed =
      if not (is_overdue now token) then sweep now tokens changed else do
        db (update_token (record token { status = TokenStatus.expired; updated_at = now }))
        end_active_session env token.id (bytes "expired") now
        sweep now tokens (suc changed)

  unfoldable pub sweep_expired_tokens : M ℕ
  unfolding list_tokens sweep
  sweep_expired_tokens = do now ← now_utc env; tokens ← db list_tokens; sweep now tokens 0

  -- One session of the loop, once its token has been looked up.
  unfoldable pub recover_session : Time → Session → Option Token → ℕ → M ℕ
  unfolding update_session
  recover_session now session token closed = if is_recoverable now token then return closed else do
    db (update_session (ended_session session (bytes "recovered_closed") now))
    ignore_error (request_disconnect env session.id (bytes "recovered_closed"))
    return (suc closed)

  unfoldable pub recover : Time → List Session → ℕ → M ℕ
  unfolding get_token_by_id recover_session
  recover now [] closed = return closed
  recover now (session ∷ sessions) closed = do
    token ← db (get_token_by_id session.token_id)
    closed' ← recover_session now session token closed
    recover now sessions closed'

  unfoldable pub recover_sessions_after_restart : M ℕ
  unfolding list_active_sessions recover
  recover_sessions_after_restart = do
    active ← db list_active_sessions
    now ← now_utc env
    recover now active 0
