-- ===== src/Service/Token/Redeem/Cases.antt =====
-- How a redemption or a resumption can succeed: the ways through `redeemUnsafe` that return no error.
use wi_fi_man.Common.{
  suc, ◌≡◌, ◌⊎◌, inl, inr, Bool, true, false, Option, none, some, Text, arith, Option-cases,
  Bool-cases,
}
use wi_fi_man.Common.Dict
use wi_fi_man.Common.Int.{◌<ℤ◌, ltb_ℤ}
use wi_fi_man.Common.Exec.{ok, outcome, Result-cases}
use wi_fi_man.Domain.{Plan, Token, TokenStatus, Time}
use wi_fi_man.Util.Mac.{normalize_mac}
use wi_fi_man.Util.TokenCode.{hash_token_code}
use wi_fi_man.World.{Env, World}
use wi_fi_man.Service.Token.Expiry.{ensure_not_expired, expire_token}
use wi_fi_man.Service.Token.Redeem.{
  RedeemInput, RedeemResult, bound_to, activate, reattach, redeem_status, redeem_found,
  redeem_unsafe,
}

-- The token has no end yet, or one that lies ahead.
abbrev pub Unexpired : Token → Time → Type 0
Unexpired t now = (t.expires_at ≡ none) ⊎ ((e : Time) × (t.expires_at ≡ some e) × (now <ℤ e))

abbrev pub find_token : Env → RedeemInput → World → Option Token
find_token env i w = elim (Dict.get w.store.token_by_hash (hash_token_code env.sha256_hex i.code)) [
  | none ↦ none
  | some id ↦ Dict.get w.store.tokens id
]

-- The world once the clock has been read.
abbrev pub timed : World → World
timed w = record w { clock = suc w.clock }

module _ (env : Env) where
  expire_token-fails :
      (t : Token) (now : Time) (w w' : World) → expire_token env t now w ≡ (ok tt, w') → ⊥
  unfolding expire_token
  expire_token-fails t now w w' h = ground arith

  pub ensure_not_expired-ok :
      (t : Token) (now : Time) (w w' : World)
      → ensure_not_expired env t now w ≡ (ok tt, w')
      → (w' ≡ w) × Unexpired t now
  unfolding ensure_not_expired
  ensure_not_expired-ok t now w w' h = elim (Option-cases t.expires_at) [
    | inl e ↦ (ground arith, inl e)
    | inr (x, e) ↦ elim (Bool-cases (ltb_ℤ now x)) [
      | inl before ↦ (ground arith, inr (x, e, ground arith))
      | inr over ↦ absurd (expire_token-fails t now w w' (ground arith))
    ]
  ]

  -- The two ways to succeed, for a token and a plan that were found.
  pub record Success (i : RedeemInput) (require_active : Bool) (w : World) (r : RedeemResult)
      (w' : World) : Type 0 where
    pub mac : Text
    pub mac_ok : normalize_mac i.device_mac ≡ ok mac
    pub token : Token
    pub token_found : find_token env i w ≡ some token
    pub plan : Plan
    pub plan_found : Dict.get w.store.plans token.plan_id ≡ some plan
    pub plan_active : plan.active ≡ true
    pub unexpired : Unexpired token (env.now w.clock)
    pub way :
        ((token.status ≡ TokenStatus.unused)
          × (require_active ≡ false)
          × (activate env (record i { device_mac = mac }) (env.now w.clock) plan token (timed w)
              ≡ (ok r, w')))
        ⊎ ((token.status ≡ TokenStatus.active)
            × (bound_to token mac ≡ true)
            × (reattach env (record i { device_mac = mac }) (env.now w.clock) plan token (timed w)
                ≡ (ok r, w')))

  redeem_status-ok :
      (i : RedeemInput) (b : Bool) (now : Time) (plan : Plan) (t : Token) (w : World)
      (r : RedeemResult) (w' : World)
      → redeem_status env i b now plan t w ≡ (ok r, w')
      → ((t.status ≡ TokenStatus.unused) × (b ≡ false) × (activate env i now plan t w ≡ (ok r, w')))
        ⊎ ((t.status ≡ TokenStatus.active)
            × (bound_to t i.device_mac ≡ true)
            × (reattach env i now plan t w ≡ (ok r, w')))
  unfolding redeem_status reattach
  redeem_status-ok i b now plan t w r w' h = ground arith

  redeem_found-ok :
      (i : RedeemInput) (b : Bool) (now : Time) (t : Token) (w : World) (r : RedeemResult)
      (w' : World)
      → redeem_found env i b now t w ≡ (ok r, w')
      → (plan : Plan) × (Dict.get w.store.plans t.plan_id ≡ some plan)
        × (plan.active ≡ true)
        × Unexpired t now
        × (redeem_status env i b now plan t w ≡ (ok r, w'))
  unfolding redeem_found
  redeem_found-ok i b now t w r w' h = elim (Option-cases (Dict.get w.store.plans t.plan_id)) [
    | inl e ↦ absurd (ground arith)
    | inr (plan, e) ↦ elim (outcome (ensure_not_expired env t now w)) [
      | inl (tt, w'', c) ↦
          let checked = ensure_not_expired-ok t now w w'' c in
          (plan, e, ground arith, checked.1, ground (arith, checked.0))
      | inr (x, w'', c) ↦ absurd (ground arith)
    ]
  ]

  -- Every success goes one of the two ways.
  pub redeem_unsafe-ok :
      (i : RedeemInput) (b : Bool) (w : World) (r : RedeemResult) (w' : World)
      → redeem_unsafe env i b w ≡ (ok r, w')
      → Success i b w r w'
  unfolding redeem_unsafe
  redeem_unsafe-ok i b w r w' h = elim (Result-cases (normalize_mac i.device_mac)) [
    | inr (x, n) ↦ absurd (ground arith)
    | inl (mac, n) ↦ elim (Option-cases (find_token env i w)) [
      | inl e ↦ absurd (ground arith)
      | inr (t, e) ↦
          let i' = record i { device_mac = mac } in
          let (plan, pe, pa, u, s) =
            redeem_found-ok i' b (env.now w.clock) t (timed w) r w' (ground arith) in
          record {
            mac = mac;
            mac_ok = n;
            token = t;
            token_found = e;
            plan = plan;
            plan_found = pe;
            plan_active = pa;
            unexpired = u;
            way = redeem_status-ok i' b (env.now w.clock) plan t (timed w) r w' s;
          }
    ]
  ]
