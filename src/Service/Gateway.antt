-- ===== src/Service/Gateway.antt =====
-- backend/internal/service/gateway_service.go, and the fallback of gateway_client.go.
pub mod Outcome
pub mod Controllers
pub mod Coa
use wi_fi_man.Common.{
  suc, Bool, true, false, not, ◌&&◌, ◌||◌, List, [], ◌∷◌, ◌++◌, Option, none, some, Text, bytes,
  is_empty, if◌then◌else◌,
}
use wi_fi_man.Common.Exec.{Result, ok, err, Exec, after, ◌>>=◌, ◌>>◌, return, fail}
use wi_fi_man.Domain.{Session, SessionStatus, Error, session_not_found, message}
use wi_fi_man.Store.Memory.{get_session_by_id, update_session}
use wi_fi_man.World.{Env, World, M, db, count, now_utc}

pub record DisconnectInput : Type 0 where
  pub session_id : Text
  pub reason : Text
  pub force : Bool

abbrev pub is_ended : Session → Bool
is_ended s = elim s.status [ SessionStatus.active ↦ false | SessionStatus.ended ↦ true ]

-- `FallbackGatewayController.Disconnect`, over what its two controllers answer.
unfoldable pub fallback_disconnect :
    Option (Session → Text → Result Error (Unit {0}))
    → Option (Session → Text → Result Error (Unit {0}))
    → Session
    → Text
    → Result Error (Unit {0})
fallback_disconnect none none session reason = ok tt
fallback_disconnect none (some fallback) session reason = fallback session reason
fallback_disconnect (some primary) none session reason = elim (primary session reason) [
  | ok _ ↦ ok tt
  | err _ ↦ err (message (bytes "primary gateway disconnect failed and no fallback configured"))
]
fallback_disconnect (some primary) (some fallback) session reason = elim (primary session reason) [
  | ok _ ↦ ok tt
  | err _ ↦ fallback session reason
]

module _ (env : Env) where
  -- `s.retryQueue.EnqueueDisconnect`, whose error is dropped.
  unfoldable pub enqueue_disconnect : Text → Text → M (Unit {0})
  enqueue_disconnect session_id reason w = elim env.retry_queue [
    | none ↦ (ok tt, w)
    | some takes ↦ (
      ok tt,
      record w {
        enqueued = suc w.enqueued;
        queue = if takes w.enqueued then w.queue ++ (session_id, reason) ∷ [] else w.queue;
      },
    )
  ]

  -- The controller is called, if there is one and the call is needed; a failed call is queued.
  unfoldable pub call_controller : Bool → Session → Text → M (Unit {0})
  unfolding enqueue_disconnect
  call_controller needed session reason w = elim env.controller [
    | none ↦ (ok tt, w)
    | some answer ↦
        if needed
        then (let w' = record w { sent = w.sent ++ (session, reason) ∷ [] } in
            elim (answer (count w.sent) session reason) [
              | ok _ ↦ (ok tt, w')
              | err e ↦ (do enqueue_disconnect session.id reason; fail e) w'
            ])
        else (ok tt, w)
  ]

  -- The session as the request leaves it before the controller is called.
  unfoldable pub close_session : Session → Text → M Session
  close_session session reason =
      if is_ended session then return (record session { disconnect_pending = true }) else do
        now ← now_utc env
        return (record session {
          status = SessionStatus.ended;
          ended_at = some now;
          end_reason = reason;
          disconnect_pending = true;
        })

  -- The rest of `DisconnectSession`, once the session has been found.
  unfoldable pub disconnect_found : DisconnectInput → Session → M Session
  unfolding call_controller close_session
  disconnect_found in_req session =
      let reason = if is_empty in_req.reason then bytes "disconnect" else in_req.reason in
      let needed = in_req.force || session.disconnect_pending || not (is_ended session) in
      if is_ended session && not needed then return session else do
        closed ← close_session session reason
        db (update_session closed)
        call_controller needed closed reason
        let done = record closed { disconnect_pending = false }
        db (update_session done)
        return done

  unfoldable pub disconnect_session : DisconnectInput → M Session
  disconnect_session in_req = do
    found ← db (get_session_by_id in_req.session_id)
    elim found [ none ↦ fail session_not_found | some session ↦ disconnect_found in_req session ]
