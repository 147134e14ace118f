-- ===== src/Service/Token/Redeem/Binding.antt =====
-- What a successful redemption or resumption leaves in the store: a token bound to one device, with an
-- active session.
use wi_fi_man.Common.{◌≡◌, ◌∙◌, ap, inl, inr, Bool, some, Text, eq_iff, arith, Option-cases}
use wi_fi_man.Common.Dict
use wi_fi_man.Common.Dict.{get-put, get-put_self}
use wi_fi_man.Common.Dict.Search.{find-true}
use wi_fi_man.Common.Exec.{ok}
use wi_fi_man.Domain.{Plan, Token, TokenStatus, SessionStatus, Time}
use wi_fi_man.Util.Mac.{normalize_mac}
use wi_fi_man.Util.TokenCode.{hash_token_code}
use wi_fi_man.Store.Memory.{running}
use wi_fi_man.Store.Memory.Index.{IsIndexed}
use wi_fi_man.World.{Env, World}
use wi_fi_man.Service.Token.Redeem.{RedeemInput, RedeemResult, activate, reattach, redeem_unsafe}
use wi_fi_man.Service.Token.Redeem.Cases.{redeem_unsafe-ok, find_token, timed, Unexpired}

-- The token that a code leads to stands under its own id, with the hash of that code.
pub find_token-stored :
    (env : Env) (i : RedeemInput) (w : World) (t : Token)
    → IsIndexed w.store
    → find_token env i w ≡ some t
    → (Dict.get w.store.tokens t.id ≡ some t)
      × (t.code_hash ≡ hash_token_code env.sha256_hex i.code)
find_token-stored env i w t v h =
    let hash = hash_token_code env.sha256_hex i.code in
    elim (Option-cases (Dict.get w.store.token_by_hash hash)) [
      | inl e ↦ absurd (ground arith)
      | inr (id, e) ↦
          let (s, at, same) = v.from_index hash id e in
          let own = v.own_id id s at in (ground arith, ground arith)
    ]

-- The result names a stored token, active and bound to the device, and a stored active session of it.
pub record IsGranted (mac : Text) (r : RedeemResult) (w : World) : Type 0 where
  pub token_stored : Dict.get w.store.tokens r.token.id ≡ some r.token
  pub session_stored : Dict.get w.store.sessions r.session.id ≡ some r.session
  pub token_active : r.token.status ≡ TokenStatus.active
  pub session_active : r.session.status ≡ SessionStatus.active
  pub bound : r.token.used_by_device_mac ≡ some mac
  pub of_token : r.session.token_id ≡ r.token.id

module _ (env : Env) where
  activate-IsGranted :
      (i : RedeemInput) (now : Time) (plan : Plan) (t : Token) (w : World) (r : RedeemResult)
      (w' : World)
      → activate env i now plan t w ≡ (ok r, w')
      → IsGranted i.device_mac r w'
  unfolding activate
  activate-IsGranted i now plan t w r w' h = grind (arith, get-put_self)

  reattach-IsGranted :
      (i : RedeemInput) (now : Time) (plan : Plan) (t : Token) (w : World) (r : RedeemResult)
      (w' : World)
      → Dict.get w.store.tokens t.id ≡ some t
      → t.status ≡ TokenStatus.active
      → reattach env i now plan t w ≡ (ok r, w')
      → IsGranted i.device_mac r w'
  unfolding reattach
  reattach-IsGranted i now plan t w r w' at a h =
      elim (Option-cases (Dict.find (running t.id) w.store.sessions)) [
        | inl none_running ↦ grind (arith, get-put_self, eq_iff)
        | inr (s, e) ↦
            let live = find-true (running t.id) w.store.sessions s e in
            grind (arith, get-put_self, eq_iff)
      ]

  -- The token of the result is the one that was found, up to its binding.
  SameToken : RedeemResult → Token → Type 0
  SameToken r t =
      (r.token.id ≡ t.id) × (r.token.code_hash ≡ t.code_hash) × (r.token.plan_id ≡ t.plan_id)

  activate-SameToken :
      (i : RedeemInput) (now : Time) (plan : Plan) (t : Token) (w : World) (r : RedeemResult)
      (w' : World)
      → activate env i now plan t w ≡ (ok r, w')
      → SameToken r t
  unfolding activate SameToken
  activate-SameToken i now plan t w r w' h = ground arith

  reattach-SameToken :
      (i : RedeemInput) (now : Time) (plan : Plan) (t : Token) (w : World) (r : RedeemResult)
      (w' : World)
      → reattach env i now plan t w ≡ (ok r, w')
      → SameToken r t
  unfolding reattach SameToken
  reattach-SameToken i now plan t w r w' h = ground arith

  -- Whoever is let in holds a valid device address, and the store holds the token, active and bound to
  -- that device, and an active session of the token; the token is the one that the code leads to, and
  -- its end, where it had one, lies ahead.
  pub redeem_unsafe-IsGranted :
      (i : RedeemInput) (b : Bool) (w : World) (r : RedeemResult) (w' : World)
      → IsIndexed w.store
      → redeem_unsafe env i b w ≡ (ok r, w')
      → (mac : Text) × (normalize_mac i.device_mac ≡ ok mac)
        × IsGranted mac r w'
        × (r.token.code_hash ≡ hash_token_code env.sha256_hex i.code)
        × (t : Token) × (find_token env i w ≡ some t)
        × (r.token.id ≡ t.id)
        × Unexpired t (env.now w.clock)
  unfolding SameToken
  redeem_unsafe-IsGranted i b w r w' v h =
      let s = redeem_unsafe-ok env i b w r w' h in
      let now = env.now w.clock in
      let i' = record i { device_mac = s.mac } in
      let (at, hash) = find_token-stored env i w s.token v s.token_found in
      elim s.way [
        | inl (u, c, run) ↦
            let same = activate-SameToken i' now s.plan s.token (timed w) r w' run in
            (
              s.mac,
              s.mac_ok,
              activate-IsGranted i' now s.plan s.token (timed w) r w' run,
              same.1 ∙ hash,
              s.token,
              s.token_found,
              same.0,
              s.unexpired,
            )
        | inr (a, c, run) ↦
            let same = reattach-SameToken i' now s.plan s.token (timed w) r w' run in
            (
              s.mac,
              s.mac_ok,
              reattach-IsGranted i' now s.plan s.token (timed w) r w' at a run,
              same.1 ∙ hash,
              s.token,
              s.token_found,
              same.0,
              s.unexpired,
            )
      ]

  -- The token of the result is of the plan that the token found by the code is of.
  pub redeem_unsafe-plan :
      (i : RedeemInput) (b : Bool) (w : World) (r : RedeemResult) (w' : World) (t : Token)
      → redeem_unsafe env i b w ≡ (ok r, w')
      → find_token env i w ≡ some t
      → r.token.plan_id ≡ t.plan_id
  unfolding SameToken
  redeem_unsafe-plan i b w r w' t h found =
      let s = redeem_unsafe-ok env i b w r w' h in
      let is_t : s.token ≡ t = ground (arith, s.token_found) in
      let now = env.now w.clock in
      let i' = record i { device_mac = s.mac } in
      elim s.way [
        | inl (u, c, run) ↦
            (activate-SameToken i' now s.plan s.token (timed w) r w' run).2
            ∙ ap (λ (x : Token). x.plan_id) is_t
        | inr (a, c, run) ↦
            (reattach-SameToken i' now s.plan s.token (timed w) r w' run).2
            ∙ ap (λ (x : Token). x.plan_id) is_t
      ]
