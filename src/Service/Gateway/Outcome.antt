-- ===== src/Service/Gateway/Outcome.antt =====
-- What a disconnect request leaves behind, on success, on a refusal by the controller, and elsewhere in
-- the store.
use wi_fi_man.Common.{
  ◌≡◌, ◌≢◌, ◌↔◌, ◌⊎◌, refl, Bool, true, false, none, some, Text, eq_iff, is_empty, bytes, arith,
  if◌then◌else◌, Option-cases, Bool-cases, inl, inr, ℕ, [], ◌∷◌, ◌++◌,
}
use wi_fi_man.Common.Dict
use wi_fi_man.Common.Dict.{get-put, get-put_self}
use wi_fi_man.Common.Exec.{Result, ok, err}
use wi_fi_man.Domain.{Session, SessionStatus, Error, session_not_found}
use wi_fi_man.Store.Memory.{get_session_by_id, update_session}
use wi_fi_man.Store.Memory.Frame.{SameBut}
use wi_fi_man.Store.Memory.Sessions.{status_at}
use wi_fi_man.World.{Env, World, count}
use wi_fi_man.Service.Gateway.{
  DisconnectInput, is_ended, call_controller, fallback_disconnect, disconnect_found,
  disconnect_session,
}

-- The reason that is stored and sent.
abbrev pub reason_of : DisconnectInput → Text
reason_of i = if is_empty i.reason then bytes "disconnect" else i.reason

module _ (env : Env) where
  call_controller-store :
      (b : Bool) (s : Session) (r : Text) (w : World)
      → (call_controller env b s r w).1.store ≡ w.store
  unfolding call_controller
  call_controller-store b s r w = ground arith

  disconnect_found-SameBut :
      (i : DisconnectInput) (s : Session) (w : World)
      → SameBut w.store (disconnect_found env i s w).1.store
  unfolding disconnect_found update_session
  disconnect_found-SameBut i s w = ground arith

  module _ (i : DisconnectInput) (w : World) (s : Session)
      (found : Dict.get w.store.sessions i.session_id ≡ some s) (own : s.id ≡ i.session_id) where
    found_step : disconnect_session env i w ≡ disconnect_found env i s w
    unfolding disconnect_session get_session_by_id
    found_step = rw (found, disconnect_session, get_session_by_id)

    -- A disconnect that succeeds leaves the session ended, with no request pending, and returns what it
    -- stored.
    pub disconnect_session-ok :
        (t : Session) (w' : World)
        → disconnect_session env i w ≡ (ok t, w')
        → (Dict.get w'.store.sessions i.session_id ≡ some t)
          × (t.status ≡ SessionStatus.ended)
          × (t.disconnect_pending ≡ false)
    unfolding disconnect_found update_session
    disconnect_session-ok t w' h = grind (arith, found_step, get-put_self)

    -- A disconnect that the controller refuses returns the controller's error and leaves the session
    -- ended and marked as pending, so that the next request calls the controller again; the request is
    -- put into the retry queue, if the queue takes it.
    pub disconnect_session-refused :
        (answer : ℕ → Session → Text → Result Error (Unit {0})) (takes : ℕ → Bool) (e : Error)
        (w' : World)
        → env.controller ≡ some answer
        → env.retry_queue ≡ some takes
        → disconnect_session env i w ≡ (err e, w')
        → (t : Session) × (Dict.get w'.store.sessions i.session_id ≡ some t)
          × (t.status ≡ SessionStatus.ended)
          × (t.disconnect_pending ≡ true)
          × (answer (count w.sent) t (reason_of i) ≡ err e)
          × (w'.sent ≡ w.sent ++ (t, reason_of i) ∷ [])
          × (w'.queue
              ≡ (if takes w.enqueued then w.queue ++ (i.session_id, reason_of i) ∷ [] else w.queue))
    unfolding disconnect_found update_session
    disconnect_session-refused answer takes e w' c q h = elim (Bool-cases (is_ended s)) [
      | inl old ↦ (
        record s { disconnect_pending = true },
        grind (arith, found_step, get-put_self),
        ground arith,
        refl,
        grind (arith, found_step, get-put_self),
        grind (arith, found_step, get-put_self),
        grind (arith, found_step, get-put_self),
      )
      | inr new ↦ (
        record s {
          status = SessionStatus.ended;
          ended_at = some (env.now w.clock);
          end_reason = reason_of i;
          disconnect_pending = true;
        },
        grind (arith, found_step, get-put_self),
        refl,
        refl,
        grind (arith, found_step, get-put_self),
        grind (arith, found_step, get-put_self),
        grind (arith, found_step, get-put_self),
      )
    ]

    -- Whatever the outcome, the session is ended.
    pub disconnect_session-ended :
        status_at (disconnect_session env i w).1.store i.session_id ≡ some SessionStatus.ended
    unfolding disconnect_found update_session
    disconnect_session-ended = grind (arith, found_step, get-put_self)

    -- And it keeps its place: what stands there is ended, under its id.
    pub disconnect_session-own :
        (t : Session)
        → Dict.get (disconnect_session env i w).1.store.sessions i.session_id ≡ some t
        → (t.id ≡ i.session_id) × (t.status ≡ SessionStatus.ended)
    unfolding disconnect_found update_session
    disconnect_session-own t h = grind (arith, found_step, get-put_self)

    -- Whatever the outcome, no other session changes.
    pub disconnect_session-others :
        (j : Text)
        → j ≢ i.session_id
        → Dict.get (disconnect_session env i w).1.store.sessions j ≡ Dict.get w.store.sessions j
    unfolding disconnect_found update_session
    disconnect_session-others j ne = grind (arith, found_step, get-put, eq_iff)

  -- A request for an unknown session is refused and changes nothing.
  pub disconnect_session-missing :
      (i : DisconnectInput) (w : World)
      → Dict.get w.store.sessions i.session_id ≡ none
      → disconnect_session env i w ≡ (err session_not_found, w)
  unfolding disconnect_session get_session_by_id
  disconnect_session-missing i w h = ground arith

  -- A request changes the sessions alone, whatever its outcome.
  pub disconnect_session-SameBut :
      (i : DisconnectInput) (w : World) → SameBut w.store (disconnect_session env i w).1.store
  unfolding disconnect_session get_session_by_id
  disconnect_session-SameBut i w = elim (Option-cases (Dict.get w.store.sessions i.session_id)) [
    | inl e ↦ rw (disconnect_session-missing i w e) (ground arith)
    | inr (s, e) ↦ rw (disconnect_session, get_session_by_id, e) (disconnect_found-SameBut i s w)
  ]

-- The fallback is asked exactly when the primary controller failed or is missing, and with both missing
-- a disconnect succeeds without a call.
pub fallback_disconnect_ok :
    (primary fallback : Session → Text → Result Error (Unit {0})) (s : Session) (r : Text)
    → ((fallback_disconnect (some primary) (some fallback) s r ≡ ok tt)
        ↔ ((primary s r ≡ ok tt) ⊎ (fallback s r ≡ ok tt)))
      × ((fallback_disconnect (some primary) none s r ≡ ok tt) ↔ (primary s r ≡ ok tt))
      × (fallback_disconnect none (some fallback) s r ≡ fallback s r)
      × (fallback_disconnect none none s r ≡ ok tt)
unfolding fallback_disconnect
fallback_disconnect_ok primary fallback s r = ground arith
