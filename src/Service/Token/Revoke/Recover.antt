-- ===== src/Service/Token/Revoke/Recover.antt =====
-- The recovery after a restart leaves no session running without a live voucher.
use wi_fi_man.Common.{
  OneOf, ℕ, suc, ◌≡◌, ◌≢◌, refl, sym, ap, ◌∙◌, true, false, Bool, not, ◌&&◌, List, [], ◌∷◌, some,
  Text, bytes, arith, eq_iff, inl, inr, Option-cases, Bool-cases, ◌==◌,
}
use wi_fi_man.Common.Dict
use wi_fi_man.Common.Dict.{Dict, get-put, get-put_self}
use wi_fi_man.Common.Exec.{ok}
use wi_fi_man.Domain.{Token, Session, SessionStatus, Time}
use wi_fi_man.Store.Memory.{
  is_active, active_sessions, list_active_sessions, get_token_by_id, update_session,
}
use wi_fi_man.World.{Env, World}
use wi_fi_man.Service.Gateway.{DisconnectInput, disconnect_session}
use wi_fi_man.Service.Gateway.Outcome.{disconnect_session-others, disconnect_session-own}
use wi_fi_man.Service.Token.Expiry.{ended_session, request_disconnect}
use wi_fi_man.Service.Token.Expiry.Effect.{request_disconnect-SameBut}
use wi_fi_man.Service.Token.Revoke.{
  is_recoverable, recover_session, recover, recover_sessions_after_restart,
}

-- A session that runs without a live voucher.
abbrev pub is_stray : Dict Token → Time → Session → Bool
is_stray tokens now s = is_active s && not (is_recoverable now (Dict.get tokens s.token_id))

-- Each session stands under its own id.
abbrev pub SessionsOwnIds : Dict Session → Type 0
SessionsOwnIds d = (id : Text) (s : Session) → Dict.get d id ≡ some s → s.id ≡ id

-- The strays of the map are in the list.
abbrev CoversStrays : Dict Token → Time → List Session → Dict Session → Type 0
CoversStrays tokens now ss d =
    (id : Text) (s : Session) → Dict.get d id ≡ some s → is_stray tokens now s ≡ true → OneOf s ss

get-active_sessions :
    (d : Dict Session) (id : Text) (s : Session)
    → Dict.get d id ≡ some s
    → is_active s ≡ true
    → OneOf s (active_sessions d)
unfolding Dict.get active_sessions
get-active_sessions [] id s h a = cc
get-active_sessions ((j, u) ∷ d) id s h a = elim (Bool-cases (j == id)) [
  | inl e ↦
      let same : s ≡ u = ground arith in
      let b : is_active u ≡ true = cc (ap is_active same) in rw b (inl same)
  | inr e ↦
      let later = get-active_sessions d id s (ground arith) a in
      elim (Bool-cases (is_active u)) [ inl b ↦ rw b (inr later) | inr b ↦ rw b later ]
]

-- A step that ends one session and leaves the others.
abbrev Ends : Text → Dict Session → Dict Session → Type 0
Ends id d e =
    ((j : Text) → j ≢ id → Dict.get e j ≡ Dict.get d j)
    × ((t : Session) → Dict.get e id ≡ some t → (t.id ≡ id) × (t.status ≡ SessionStatus.ended))

Ends-OwnIds : (id : Text) (d e : Dict Session) → Ends id d e → SessionsOwnIds d → SessionsOwnIds e
Ends-OwnIds id d e h own j s at_j = elim (Bool-cases (id == j)) [
  | inl same ↦
      let eq : id ≡ j = ground (arith, eq_iff id j) in (h.1 s (ap (Dict.get e) eq ∙ at_j)).0 ∙ eq
  | inr other ↦ own j s (sym (h.0 j (λ x. ground (arith, eq_iff id j, x))) ∙ at_j)
]

Ends-CoversStrays :
    (tokens : Dict Token) (now : Time) (u : Session) (ss : List Session) (d e : Dict Session)
    → Ends u.id d e
    → SessionsOwnIds d
    → CoversStrays tokens now (u ∷ ss) d
    → CoversStrays tokens now ss e
Ends-CoversStrays tokens now u ss d e h own c j s at_j stray = elim (Bool-cases (u.id == j)) [
  | inl same ↦
      let eq : u.id ≡ j = ground (arith, eq_iff u.id j) in
      let over = (h.1 s (ap (Dict.get e) eq ∙ at_j)).1 in absurd (ground (arith, over, stray))
  | inr other ↦
      let old = sym (h.0 j (λ x. ground (arith, eq_iff u.id j, x))) ∙ at_j in
      elim (c j s old stray) [
        | inl same ↦
            absurd (ground (arith, own j s old, ap (λ (x : Session). x.id) same, eq_iff u.id j))
        | inr later ↦ later
      ]
]

module _ (env : Env) where
  request_disconnect-Ends :
      (id r : Text) (w : World) (s : Session) (d : Dict Session)
      → Dict.get w.store.sessions id ≡ some s
      → s.id ≡ id
      → s.status ≡ SessionStatus.ended
      → ((j : Text) → j ≢ id → Dict.get w.store.sessions j ≡ Dict.get d j)
      → Ends id d (request_disconnect env id r w).1.store.sessions
  unfolding request_disconnect
  request_disconnect-Ends id r w s d stored own over same =
      let input : DisconnectInput = record { session_id = id; reason = r; force = true } in
      elim (Bool-cases env.has_gateway) [
        | inr e ↦ rw (request_disconnect, e) (same, λ t h. ground (arith, h, stored))
        | inl e ↦
            let step : (request_disconnect env id r w).1.store.sessions
                ≡ (disconnect_session env input w).1.store.sessions =
              ground (arith, e) in
            rw step (
              (λ j ne. disconnect_session-others env input w s stored own j ne ∙ same j ne),
              (λ t h. disconnect_session-own env input w s stored own t h),
            )
      ]

module _ (env : Env) (now : Time) (tokens : Dict Token) where
  abbrev closing : Session → World → World
  closing u w = record w {
    store = record w.store {
      sessions = Dict.put w.store.sessions u.id (ended_session u (bytes "recovered_closed") now);
    };
  }

  -- One session of the loop: it is left alone, or ended.
  recover-step :
      (u : Session) (ss : List Session) (k n : ℕ) (w w' : World)
      → w.store.tokens ≡ tokens
      → SessionsOwnIds w.store.sessions
      → CoversStrays tokens now (u ∷ ss) w.store.sessions
      → recover env now (u ∷ ss) k w ≡ (ok n, w')
      → (v : World) × (j : ℕ) × (v.store.tokens ≡ tokens)
        × SessionsOwnIds v.store.sessions
        × CoversStrays tokens now ss v.store.sessions
        × (recover env now ss j v ≡ (ok n, w'))
  unfolding recover recover_session get_token_by_id update_session
  recover-step u ss k n w w' t own c h =
      let token : Dict.get w.store.tokens u.token_id ≡ Dict.get tokens u.token_id =
        ap (λ d. Dict.get d u.token_id) t in
      elim (Bool-cases (is_recoverable now (Dict.get tokens u.token_id))) [
        | inl live ↦ (
          w,
          k,
          t,
          own,
          λ id s at_id stray. elim (c id s at_id stray) [
            | inl same ↦
                absurd
                  (ground (arith, live, stray, ap (λ (x : Session). is_stray tokens now x) same))
            | inr later ↦ later
          ],
          ground (arith, h, token, live),
        )
        | inr dead ↦ elim (Option-cases (Dict.get w.store.sessions u.id)) [
          | inl gone ↦ absurd (ground (arith, h, token, dead, gone))
          | inr (o, stored) ↦
              let v = (request_disconnect env u.id (bytes "recovered_closed") (closing u w)).1 in
              let put = get-put w.store.sessions u.id in
              let closed = ended_session u (bytes "recovered_closed") now in
              let ends : Ends u.id w.store.sessions v.store.sessions =
                request_disconnect-Ends env u.id (bytes "recovered_closed") (closing u w) closed
                  w.store.sessions (get-put_self w.store.sessions u.id closed) refl refl
                  (λ j ne. ground (arith, put j closed, ne, eq_iff u.id j)) in
              (
                v,
                suc k,
                (request_disconnect-SameBut env u.id (bytes "recovered_closed")
                      (closing u w)).tokens
                    ∙ t,
                Ends-OwnIds u.id w.store.sessions v.store.sessions ends own,
                Ends-CoversStrays tokens now u ss w.store.sessions v.store.sessions ends own c,
                ground (arith, h, token, dead, stored),
              )
        ]
      ]

  recover-rests :
      (ss : List Session) (k n : ℕ) (w w' : World)
      → w.store.tokens ≡ tokens
      → SessionsOwnIds w.store.sessions
      → CoversStrays tokens now ss w.store.sessions
      → recover env now ss k w ≡ (ok n, w')
      → (id : Text) (s : Session) → Dict.get w'.store.sessions id ≡ some s
      → (w'.store.tokens ≡ tokens) × (is_stray tokens now s ≡ false)
  unfolding recover
  recover-rests [] k n w w' t own c h id s kept =
      let same : w' ≡ w = ground arith in
      elim (Bool-cases (is_stray tokens now s)) [
        | inl stray ↦
            absurd
              (c id s (ap (λ (x : World). Dict.get x.store.sessions id) (sym same) ∙ kept) stray)
        | inr rest ↦ (ap (λ (x : World). x.store.tokens) same ∙ t, rest)
      ]
  recover-rests (u ∷ ss) k n w w' t own c h id s kept =
      let (v, j, t', own', c', h') = recover-step u ss k n w w' t own c h in
      recover-rests ss j n v w' t' own' c' h' id s kept

-- After a recovery that returns, no stored session is active without a voucher that is active and whose
-- end is not past.
pub recover_sessions_after_restart-rests :
    (env : Env) (n : ℕ) (w w' : World)
    → SessionsOwnIds w.store.sessions
    → recover_sessions_after_restart env w ≡ (ok n, w')
    → (id : Text) (s : Session) → Dict.get w'.store.sessions id ≡ some s
    → is_stray w'.store.tokens (env.now w.clock) s ≡ false
unfolding recover_sessions_after_restart list_active_sessions
recover_sessions_after_restart-rests env n w w' own h id s kept =
    let (t, rest) =
      recover-rests env (env.now w.clock) w.store.tokens (active_sessions w.store.sessions) 0 n
        (record w { clock = suc w.clock }) w' refl own
        (λ j u at_j stray. get-active_sessions w.store.sessions j u at_j (ground arith)) h id s
        kept in
    rw t rest
