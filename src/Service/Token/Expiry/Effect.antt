-- ===== src/Service/Token/Expiry/Effect.antt =====
-- What the end of a session and the expiry of a token do to the store.
use wi_fi_man.Common.{◌≡◌, refl, inl, inr, true, some, Text, bytes, arith, Option-cases, Bool-cases}
use wi_fi_man.Common.Dict
use wi_fi_man.Common.Dict.{get-put, get-put_self}
use wi_fi_man.Common.Exec.{err, outcome}
use wi_fi_man.Domain.{Token, TokenStatus, Session, SessionStatus, Time, Error}
use wi_fi_man.Store.Memory.{running, update_token}
use wi_fi_man.Store.Memory.Index.{IsIndexed, update_token-IsIndexed}
use wi_fi_man.Store.Memory.Sessions.{status_at}
use wi_fi_man.Store.Memory.Frame.{SameBut, SameBut-refl, SameBut-trans, SameBut-IsIndexed}
use wi_fi_man.World.{Env, World}
use wi_fi_man.Service.Gateway.Outcome.{disconnect_session-SameBut, disconnect_session-ended}
use wi_fi_man.Service.Gateway.{DisconnectInput}
use wi_fi_man.Service.Token.Expiry.{
  request_disconnect, ended_session, end_active_session, expire_token,
}

module _ (env : Env) where
  pub request_disconnect-SameBut :
      (id r : Text) (w : World) → SameBut w.store (request_disconnect env id r w).1.store
  unfolding request_disconnect
  request_disconnect-SameBut id r w =
      let input : DisconnectInput = record { session_id = id; reason = r; force = true } in
      elim (Bool-cases env.has_gateway) [
        | inr e ↦ rw (e, request_disconnect) (SameBut-refl w.store)
        | inl e ↦ ground (arith, disconnect_session-SameBut env input w)
      ]

  pub end_active_session-SameBut :
      (id r : Text) (now : Time) (w : World)
      → SameBut w.store (end_active_session env id r now w).1.store
  unfolding end_active_session Dict.get
  end_active_session-SameBut id r now w =
      elim (Option-cases (Dict.find (running id) w.store.sessions)) [
        | inl e ↦ rw (e, end_active_session) (SameBut-refl w.store)
        | inr (s, e) ↦ elim (Option-cases (Dict.get w.store.sessions s.id)) [
          | inl n ↦ rw (e, n, end_active_session) (SameBut-refl w.store)
          | inr (o, n) ↦
              let w' = record w {
                store = record w.store {
                  sessions = Dict.put w.store.sessions s.id (ended_session s r now);
                };
              } in
              rw (e, n, end_active_session)
                (SameBut-trans w.store w'.store _ (ground arith)
                  (request_disconnect-SameBut s.id r w'))
        ]
      ]

  -- The world in which an expiring token has been stored as such.
  abbrev pub expired_world : Token → Time → World → World
  expired_world t now w = record w {
    store = (update_token (record t { status = TokenStatus.expired; updated_at = now }) w.store).1;
  }

  pub expire_token-world :
      (t : Token) (now : Time) (w : World)
      → Dict.get w.store.tokens t.id ≡ some t
      → (expire_token env t now w).1
        ≡ (end_active_session env t.id (bytes "expired") now (expired_world t now w)).1
  unfolding expire_token
  expire_token-world t now w stored =
      elim (outcome (end_active_session env t.id (bytes "expired") now (expired_world t now w))) [
        | inl (u, w', e) ↦ ground (arith, e)
        | inr (x, w', e) ↦ ground (arith, e)
      ]

  -- Expiry keeps the index, whatever becomes of the session.
  pub expire_token-IsIndexed :
      (t : Token) (now : Time) (w : World)
      → IsIndexed w.store
      → Dict.get w.store.tokens t.id ≡ some t
      → IsIndexed (expire_token env t now w).1.store
  expire_token-IsIndexed t now w v stored =
      let w' = expired_world t now w in
      rw (expire_token-world t now w stored) (
        SameBut-IsIndexed w'.store _ (end_active_session-SameBut t.id (bytes "expired") now w') (
          update_token-IsIndexed (record t { status = TokenStatus.expired; updated_at = now })
            w.store v (λ s e. cc)))

  -- The token is stored as expired, with the rest of it as it was, whatever becomes of the session.
  pub expire_token-stored :
      (t : Token) (now : Time) (w : World)
      → Dict.get w.store.tokens t.id ≡ some t
      → Dict.get (expire_token env t now w).1.store.tokens t.id
        ≡ some (record t { status = TokenStatus.expired; updated_at = now })
  unfolding update_token
  expire_token-stored t now w stored =
      let w' = expired_world t now w in
      let same = end_active_session-SameBut t.id (bytes "expired") now w' in
      rw (expire_token-world t now w stored, same.tokens)
        (ground (
          arith,
          get-put_self w.store.tokens t.id
              (record t { status = TokenStatus.expired; updated_at = now }),
        ))

  -- The running session of the token is ended, whatever the gateway answers.
  pub end_active_session-ended :
      (id r : Text) (now : Time) (w : World) (s : Session)
      → Dict.find (running id) w.store.sessions ≡ some s
      → Dict.get w.store.sessions s.id ≡ some s
      → status_at (end_active_session env id r now w).1.store s.id ≡ some SessionStatus.ended
  unfolding end_active_session request_disconnect
  end_active_session-ended id r now w s found stored =
      let m = Dict.put w.store.sessions s.id (ended_session s r now) in
      let w' = record w { store = record w.store { sessions = m } } in
      let input : DisconnectInput = record { session_id = s.id; reason = r; force = true } in
      let put = get-put_self w.store.sessions s.id (ended_session s r now) in
      ground (arith, put, disconnect_session-ended env input w' (ended_session s r now) put refl)

  -- So does expiry end the running session of the token.
  pub expire_token-ended :
      (t : Token) (now : Time) (w : World) (s : Session)
      → Dict.get w.store.tokens t.id ≡ some t
      → Dict.find (running t.id) w.store.sessions ≡ some s
      → Dict.get w.store.sessions s.id ≡ some s
      → status_at (expire_token env t now w).1.store s.id ≡ some SessionStatus.ended
  unfolding update_token
  expire_token-ended t now w s stored found kept =
      let w' = expired_world t now w in
      let same : w'.store.sessions ≡ w.store.sessions = ground arith in
      rw (expire_token-world t now w stored)
        (end_active_session-ended t.id (bytes "expired") now w' s (rw same found) (rw same kept))

  -- And it never returns a value.
  pub expire_token-fails :
      (t : Token) (now : Time) (w : World) → (e : Error) × ((expire_token env t now w).0 ≡ err e)
  unfolding expire_token
  expire_token-fails t now w = elim (outcome (expire_token env t now w)) [
    | inl (u, w', e) ↦ absurd (ground arith)
    | inr (x, w', e) ↦ (x, ground (arith, e))
  ]
