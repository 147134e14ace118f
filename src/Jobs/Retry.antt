-- ===== src/Jobs/Retry.antt =====
-- A disconnect that the gateway refuses, and the task that repeats it: gateway_service.go of
-- backend/internal/service with worker.go and tasks.go of backend/internal/jobs.
use wi_fi_man.Common.{◌≡◌, ap, Bool, true, false, some, Text, arith, inl, inr, ℕ, [], ◌∷◌, ◌++◌}
use wi_fi_man.Common.Dict
use wi_fi_man.Common.Dict.{get-put_self}
use wi_fi_man.Common.Exec.{Result, ok, err, outcome, Result-cases}
use wi_fi_man.Domain.{Session, SessionStatus, Error}
use wi_fi_man.World.{Env, World, count}
use wi_fi_man.Service.Gateway.{DisconnectInput, disconnect_session}
use wi_fi_man.Service.Gateway.Outcome.{
  reason_of, disconnect_session-refused, disconnect_session-ok, disconnect_session-own,
}
use wi_fi_man.Jobs.{Task, PayloadCodec, new_gateway_disconnect_task, handle_gateway_disconnect}

-- What the producer marshals, the worker reads.
abbrev pub ReadsBack : PayloadCodec → Type 0
ReadsBack codec =
    (session_id reason payload : Text)
    → codec.marshal (record { session_id = session_id; reason = reason }) ≡ ok payload
    → codec.unmarshal payload ≡ ok (record { session_id = session_id; reason = reason })

module _ (env : Env) where
  -- A request that the controller does not refuse succeeds.
  disconnect_session-accepted :
      (i : DisconnectInput) (w : World) (s : Session)
      (answer : ℕ → Session → Text → Result Error (Unit {0})) (takes : ℕ → Bool)
      → Dict.get w.store.sessions i.session_id ≡ some s
      → s.id ≡ i.session_id
      → env.controller ≡ some answer
      → env.retry_queue ≡ some takes
      → ((t : Session) (r : Text) → answer (count w.sent) t r ≡ ok tt)
      → (t : Session) × (w' : World) × (disconnect_session env i w ≡ (ok t, w'))
  disconnect_session-accepted i w s answer takes found own c q accepts =
      elim (outcome (disconnect_session env i w)) [
        | inl (t, w', e) ↦ (t, w', e)
        | inr (x, w', e) ↦
            let (t, at, over, pending, refused, sent, queued) =
              disconnect_session-refused env i w s found own answer takes x w' c q e in
            absurd (cc (accepts t (reason_of i), refused))
      ]

  made_payload :
      (codec : PayloadCodec) (task : Task) (id reason : Text)
      → ReadsBack codec
      → new_gateway_disconnect_task codec id reason ≡ ok task
      → codec.unmarshal task.payload ≡ ok (record { session_id = id; reason = reason })
  unfolding new_gateway_disconnect_task
  made_payload codec task id reason back made =
      elim (Result-cases (codec.marshal (record { session_id = id; reason = reason }))) [
        | inr (x, e) ↦ absurd (ground arith)
        | inl (payload, e) ↦
            let read = back id reason payload e in
            let same : task.payload ≡ payload = ground arith in rw same read
      ]

  handled :
      (codec : PayloadCodec) (task : Task) (id reason : Text) (w w' : World) (t : Session)
      → codec.unmarshal task.payload ≡ ok (record { session_id = id; reason = reason })
      → env.has_gateway ≡ true
      → disconnect_session env (record { session_id = id; reason = reason; force = true }) w
        ≡ (ok t, w')
      → handle_gateway_disconnect env codec task w ≡ (ok tt, w')
  unfolding handle_gateway_disconnect
  handled codec task id reason w w' t read on done = rw (handle_gateway_disconnect, on, read, done)

  -- The worker, on the task that the producer made.
  pub handle_gateway_disconnect-settles :
      (codec : PayloadCodec) (task : Task) (id reason : Text) (w : World) (s : Session)
      (answer : ℕ → Session → Text → Result Error (Unit {0})) (takes : ℕ → Bool)
      → ReadsBack codec
      → new_gateway_disconnect_task codec id reason ≡ ok task
      → env.has_gateway ≡ true
      → Dict.get w.store.sessions id ≡ some s
      → s.id ≡ id
      → env.controller ≡ some answer
      → env.retry_queue ≡ some takes
      → ((t : Session) (r : Text) → answer (count w.sent) t r ≡ ok tt)
      → (w' : World) × (t : Session) × (handle_gateway_disconnect env codec task w ≡ (ok tt, w'))
        × (Dict.get w'.store.sessions id ≡ some t)
        × (t.status ≡ SessionStatus.ended)
        × (t.disconnect_pending ≡ false)
  handle_gateway_disconnect-settles codec task id reason w s answer takes back made on found own c q
        accepts =
      let i : DisconnectInput = record { session_id = id; reason = reason; force = true } in
      let (t, w', done) = disconnect_session-accepted i w s answer takes found own c q accepts in
      let (at, over, settled) = disconnect_session-ok env i w s found own t w' done in
      (
        w',
        t,
        handled codec task id reason w w' t (made_payload codec task id reason back made) on done,
        at,
        over,
        settled,
      )

  -- Where a gateway's refusal fails a disconnect of a stored session and the queue takes it, the
  -- request is queued, and the task made for it, run by a worker at a gateway that answers by then,
  -- leaves the session ended with nothing pending (payloads reading back as written).
  pub disconnect_session-retried :
      (codec : PayloadCodec) (task : Task) (i : DisconnectInput) (w w1 : World) (s : Session)
      (e : Error) (answer : ℕ → Session → Text → Result Error (Unit {0})) (takes : ℕ → Bool)
      → ReadsBack codec
      → env.has_gateway ≡ true
      → env.controller ≡ some answer
      → env.retry_queue ≡ some takes
      → takes w.enqueued ≡ true
      → Dict.get w.store.sessions i.session_id ≡ some s
      → s.id ≡ i.session_id
      → disconnect_session env i w ≡ (err e, w1)
      → new_gateway_disconnect_task codec i.session_id (reason_of i) ≡ ok task
      → ((t : Session) (r : Text) → answer (count w1.sent) t r ≡ ok tt)
      → (w1.queue ≡ w.queue ++ (i.session_id, reason_of i) ∷ [])
        × ((w2 : World) × (t : Session) × (handle_gateway_disconnect env codec task w1
              ≡ (ok tt, w2))
            × (Dict.get w2.store.sessions i.session_id ≡ some t)
            × (t.status ≡ SessionStatus.ended)
            × (t.disconnect_pending ≡ false))
  disconnect_session-retried codec task i w w1 s e answer takes back on c q took found own failed
        made accepts =
      let (t, stored, over, pending, refused, sent, queued) =
        disconnect_session-refused env i w s found own answer takes e w1 c q failed in
      let after_failure : (disconnect_session env i w).1 ≡ w1 =
        ap (λ (x : Result Error Session × World). x.1) failed in
      let kept = disconnect_session-own env i w s found own t (rw after_failure stored) in
      (
        rw (queued, took),
        handle_gateway_disconnect-settles codec task i.session_id (reason_of i) w1 t answer takes
            back made on stored kept.0 c q accepts,
      )
