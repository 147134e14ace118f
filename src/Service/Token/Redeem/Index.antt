-- ===== src/Service/Token/Redeem/Index.antt =====
-- Redemption and resumption keep the index of tokens, on every path, errors included.
use wi_fi_man.Common.{◌≡◌, refl, inl, inr, Bool, some, is_empty, arith, Option-cases, Bool-cases}
use wi_fi_man.Common.Dict
use wi_fi_man.Common.Int.{ltb_ℤ}
use wi_fi_man.Common.Exec.{outcome, Result-cases}
use wi_fi_man.Domain.{Plan, Token, TokenStatus, Time}
use wi_fi_man.Util.Mac.{normalize_mac}
use wi_fi_man.Store.Memory.{update_token, create_session}
use wi_fi_man.Store.Memory.Index.{IsIndexed, update_token-IsIndexed}
use wi_fi_man.Store.Memory.Frame.{SameBut, SameBut-IsIndexed, create_session-SameBut}
use wi_fi_man.World.{Env, World}
use wi_fi_man.Service.Token.Expiry.{expire_token, ensure_not_expired}
use wi_fi_man.Service.Token.Expiry.Effect.{expire_token-IsIndexed}
use wi_fi_man.Service.Token.Redeem.{
  RedeemInput, activated, new_session, activate, reattach, redeem_status, redeem_found,
  redeem_unsafe,
}
use wi_fi_man.Service.Token.Redeem.Cases.{find_token, timed, ensure_not_expired-ok}
use wi_fi_man.Service.Token.Redeem.Binding.{find_token-stored}

module _ (env : Env) where
  pub activate-store :
      (i : RedeemInput) (now : Time) (plan : Plan) (t : Token) (w : World)
      → Dict.get w.store.tokens t.id ≡ some t
      → (activate env i now plan t w).1.store
        ≡ (create_session
            (new_session (env.new_uuid w.uuids) t i now)
            (update_token (activated t plan i.device_mac now) w.store).1).1
  unfolding activate
  activate-store i now plan t w stored = ground arith

  activate-IsIndexed :
      (i : RedeemInput) (now : Time) (plan : Plan) (t : Token) (w : World)
      → IsIndexed w.store
      → Dict.get w.store.tokens t.id ≡ some t
      → IsIndexed (activate env i now plan t w).1.store
  activate-IsIndexed i now plan t w v stored =
      let t' = activated t plan i.device_mac now in
      let m = (update_token t' w.store).1 in
      rw (activate-store i now plan t w stored) (
        SameBut-IsIndexed m _
          (create_session-SameBut (new_session (env.new_uuid w.uuids) t i now) m)
          (update_token-IsIndexed t' w.store v (λ s e. cc)))

  pub reattach-SameBut :
      (i : RedeemInput) (now : Time) (plan : Plan) (t : Token) (w : World)
      → SameBut w.store (reattach env i now plan t w).1.store
  unfolding reattach
  reattach-SameBut i now plan t w = ground arith

  module _ (P : World → Type 0) where
    -- A predicate on worlds, followed through the `switch` on the status.
    redeem_status_paths :
        (i : RedeemInput) (b : Bool) (now : Time) (plan : Plan) (t : Token) (w : World)
        → P w
        → (t.status ≡ TokenStatus.unused → P (activate env i now plan t w).1)
        → P (reattach env i now plan t w).1
        → P (redeem_status env i b now plan t w).1
    unfolding redeem_status
    redeem_status_paths i b now plan t w same act re = by_status t.status refl
      where
        by_status : (s : TokenStatus) → t.status ≡ s → P (redeem_status env i b now plan t w).1
        by_status TokenStatus.unused e = elim (Bool-cases b) [
          | inl resume ↦ rw (e, resume, redeem_status) same
          | inr redeem ↦ rw (e, redeem, redeem_status) (act e)
        ]
        by_status TokenStatus.active e = rw (e, redeem_status) re
        by_status _ e = rw (e, redeem_status) same

    ensure_not_expired_paths :
        (t : Token) (now : Time) (w : World)
        → P w
        → P (expire_token env t now w).1
        → P (ensure_not_expired env t now w).1
    unfolding ensure_not_expired
    ensure_not_expired_paths t now w same over = elim (Option-cases t.expires_at) [
      | inl e ↦ rw (e, ensure_not_expired) same
      | inr (x, e) ↦ elim (Bool-cases (ltb_ℤ now x)) [
        | inl before ↦ rw (e, ensure_not_expired, before) same
        | inr late ↦ rw (e, ensure_not_expired, late) over
      ]
    ]

    redeem_found_paths :
        (i : RedeemInput) (b : Bool) (now : Time) (t : Token) (w : World)
        → P w
        → P (expire_token env t now w).1
        → ((plan : Plan) → t.status ≡ TokenStatus.unused → P (activate env i now plan t w).1)
        → ((plan : Plan) → P (reattach env i now plan t w).1)
        → P (redeem_found env i b now t w).1
    unfolding redeem_found
    redeem_found_paths i b now t w same over act re =
        elim (Option-cases (Dict.get w.store.plans t.plan_id)) [
          | inl e ↦ rw (e, redeem_found) same
          | inr (plan, e) ↦ elim (Bool-cases plan.active) [
            | inr a ↦ rw (e, redeem_found, a) same
            | inl a ↦ elim (outcome (ensure_not_expired env t now w)) [
              | inl (u, w', c) ↦
                  let kept = ensure_not_expired-ok env t now w w' c in
                  let step : (redeem_found env i b now t w).1
                      ≡ (redeem_status env i b now plan t w).1 =
                    ground (arith, kept.0) in
                  rw step (redeem_status_paths i b now plan t w same (act plan) (re plan))
              | inr (x, w', c) ↦
                  let step : (redeem_found env i b now t w).1 ≡ (ensure_not_expired env t now w).1 =
                    ground arith in
                  rw step (ensure_not_expired_paths t now w same over)
            ]
          ]
        ]

    -- Every path through `redeemUnsafe`: the refusals that change nothing, an expiry, and the two ways
    -- to succeed.
    pub redeem_unsafe_paths :
        (i : RedeemInput) (b : Bool) (w : World)
        → P (timed w)
        → ((t : Token)
            → find_token env i w ≡ some t
            → P (expire_token env t (env.now w.clock) (timed w)).1)
        → ((j : RedeemInput) (plan : Plan) (t : Token)
            → find_token env i w ≡ some t
            → t.status ≡ TokenStatus.unused
            → P (activate env j (env.now w.clock) plan t (timed w)).1)
        → ((j : RedeemInput) (plan : Plan) (t : Token)
            → find_token env i w ≡ some t
            → P (reattach env j (env.now w.clock) plan t (timed w)).1)
        → P (redeem_unsafe env i b w).1
    unfolding redeem_unsafe
    redeem_unsafe_paths i b w same over act re = elim (Bool-cases (is_empty i.code)) [
      | inl blank ↦ let step : (redeem_unsafe env i b w).1 ≡ timed w = ground arith in rw step same
      | inr given ↦ elim (Result-cases (normalize_mac i.device_mac)) [
        | inr (x, n) ↦
            let step : (redeem_unsafe env i b w).1 ≡ timed w = ground arith in rw step same
        | inl (mac, n) ↦ elim (Option-cases (find_token env i w)) [
          | inl e ↦ let step : (redeem_unsafe env i b w).1 ≡ timed w = ground arith in rw step same
          | inr (t, e) ↦
              let j = record i { device_mac = mac } in
              let now = env.now w.clock in
              let step : (redeem_unsafe env i b w).1 ≡ (redeem_found env j b now t (timed w)).1 =
                ground arith in
              rw step (
                redeem_found_paths j b now t (timed w) same (over t e) (λ plan. act j plan t e)
                  (λ plan. re j plan t e))
        ]
      ]
    ]

  -- Redemption and resumption keep the index, whether they succeed or fail.
  pub redeem_unsafe-IsIndexed :
      (i : RedeemInput) (b : Bool) (w : World)
      → IsIndexed w.store
      → IsIndexed (redeem_unsafe env i b w).1.store
  redeem_unsafe-IsIndexed i b w v =
      redeem_unsafe_paths (λ w'. IsIndexed w'.store) i b w v
        (λ t e.
          expire_token-IsIndexed env t (env.now w.clock) (timed w) v
            (find_token-stored env i w t v e).0)
        (λ j plan t e unused.
          activate-IsIndexed j (env.now w.clock) plan t (timed w) v
            (find_token-stored env i w t v e).0)
        (λ j plan t e.
          SameBut-IsIndexed w.store _ (reattach-SameBut j (env.now w.clock) plan t (timed w)) v)
