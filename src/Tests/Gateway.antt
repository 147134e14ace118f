-- ===== src/Tests/Gateway.antt =====
-- Disconnect requests, on the session of Tests/Redeem.antt.
use wi_fi_man.Common.{ℕ, ◌≡◌, refl, false, true, [], ◌∷◌, ◌++◌, Text, bytes, some, arith, ◌==◌}
use wi_fi_man.Common.Dict
use wi_fi_man.Common.Dict.{get, put}
use wi_fi_man.Common.Exec.{Result, ok, err}
use wi_fi_man.Domain.{Session, SessionStatus, Error, message}
use wi_fi_man.Store.Memory.{get_session_by_id, update_session}
use wi_fi_man.World.{World, count}
use wi_fi_man.Service.Gateway.{
  DisconnectInput, call_controller, close_session, enqueue_disconnect, disconnect_found,
  disconnect_session,
}
use wi_fi_man.Service.Gateway.Outcome.{
  reason_of, disconnect_session-refused, disconnect_session-others,
}
use wi_fi_man.Tests.Fixture.{env, deaf_env}
use wi_fi_man.Tests.Redeem.{started, redeemed}

abbrev asked : DisconnectInput
asked = record { session_id = 7 ∷ []; reason = bytes "admin"; force = false }

session_found : Dict.get redeemed.store.sessions (7 ∷ []) ≡ some started
unfolding get put ◌==◌
session_found = refl

abbrev closed : Session
closed = record started {
  status = SessionStatus.ended;
  ended_at = some (env.now 2);
  end_reason = bytes "admin";
  disconnect_pending = false;
}

abbrev after_ok : World
after_ok = (disconnect_session env asked redeemed).1

asked_ok : disconnect_session env asked redeemed ≡ (ok closed, after_ok)
unfolding disconnect_session disconnect_found call_controller close_session get_session_by_id
    update_session get put ◌==◌ bytes
asked_ok = refl

abbrev deaf : ℕ → Session → Text → Result Error (Unit {0})
deaf n s r = err (message (bytes "timeout"))

abbrev after_refusal : World
after_refusal = (disconnect_session deaf_env asked redeemed).1

asked_refused :
    disconnect_session deaf_env asked redeemed ≡ (err (message (bytes "timeout")), after_refusal)
unfolding disconnect_session disconnect_found call_controller close_session enqueue_disconnect
    get_session_by_id update_session get put ◌==◌ bytes
asked_refused = refl

disconnect_session-refused_example :
    (t : Session) × (Dict.get after_refusal.store.sessions (7 ∷ []) ≡ some t)
    × (t.status ≡ SessionStatus.ended)
    × (t.disconnect_pending ≡ true)
    × (deaf (count redeemed.sent) t (reason_of asked) ≡ err (message (bytes "timeout")))
    × (after_refusal.sent ≡ redeemed.sent ++ (t, reason_of asked) ∷ [])
    × (after_refusal.queue ≡ redeemed.queue ++ (7 ∷ [], reason_of asked) ∷ [])
disconnect_session-refused_example =
    disconnect_session-refused deaf_env asked redeemed started session_found refl deaf (λ n. true)
      (message (bytes "timeout")) after_refusal refl refl asked_refused

disconnect_session-others_example :
    Dict.get (disconnect_session deaf_env asked redeemed).1.store.sessions (8 ∷ [])
    ≡ Dict.get redeemed.store.sessions (8 ∷ [])
disconnect_session-others_example =
    disconnect_session-others deaf_env asked redeemed started session_found refl (8 ∷ [])
      (λ e. ground (arith, e))

abbrev good : Session → Text → Result Error (Unit {0})
good s r = ok tt

abbrev bad : Session → Text → Result Error (Unit {0})
bad s r = err (message [])
