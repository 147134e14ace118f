-- ===== src/Service/Radius/Device.antt =====
-- One voucher, one device, seen from the gateway's access requests.
use wi_fi_man.Common.{◌≡◌, ◌≢◌, sym, inl, inr, Bool, true, false, Text, eq_iff, arith, Bool-cases}
use wi_fi_man.Common.Exec.{ok, err, outcome}
use mathlib.Core.Path.{subst}
use wi_fi_man.Domain.{Session, GatewayPolicy, Error, error_text}
use wi_fi_man.Util.Mac.{normalize_mac}
use wi_fi_man.Util.Mac.Spelling.{normalize_mac_idem}
use wi_fi_man.Util.TokenCode.{hash_token_code}
use wi_fi_man.Store.Memory.{with_tx}
use wi_fi_man.Store.Memory.Index.{IsIndexed}
use wi_fi_man.World.{Env, World}
use wi_fi_man.Service.Token.Redeem.{
  RedeemInput, RedeemResult, bound_to, redeem_unsafe, redeem_token, resume_token,
}
use wi_fi_man.Service.Token.Redeem.Binding.{redeem_unsafe-IsGranted}
use wi_fi_man.Service.Token.Redeem.Index.{redeem_unsafe-IsIndexed}
use wi_fi_man.Service.Token.Redeem.Blocked.{IsBlocked, blocked_fails, redeem_unsafe-IsBlocked}
use wi_fi_man.Service.Radius.{
  RadiusAuthInput, allow, reject, redeem_input, is_invalid_token, resume_or_redeem, decide,
  authenticate,
}

module _ (env : Env) where
  abbrev hash_of : Text → Text
  hash_of code = hash_token_code env.sha256_hex code

  -- A grant comes from a redemption or a resumption in a store whose index is intact.
  resume_or_redeem-ok :
      (i : RedeemInput) (w w' : World) (r : RedeemResult)
      → IsIndexed w.store
      → resume_or_redeem env i w ≡ (ok r, w')
      → (b : Bool) × (v : World) × IsIndexed v.store × (redeem_unsafe env i b v ≡ (ok r, w'))
  unfolding resume_or_redeem resume_token redeem_token with_tx
  resume_or_redeem-ok i w w' r v h = elim (outcome (redeem_unsafe env i true w)) [
    | inl (q, x, e) ↦ (true, w, v, ground (arith, e))
    | inr (q, x, e) ↦
        let kept : IsIndexed x.store = rw e at (redeem_unsafe-IsIndexed env i true w v) in
        elim (Bool-cases (is_invalid_token q)) [
          | inl again ↦ (false, x, kept, ground (arith, e, again))
          | inr over ↦ absurd (ground (arith, e, over))
        ]
  ]

  -- A blocked device gets nothing from the two attempts.
  resume_or_redeem-blocked :
      (i : RedeemInput) (m : Text) (w : World)
      → normalize_mac i.device_mac ≡ ok m
      → IsBlocked (hash_of i.code) m w
      → (e : Error) × ((resume_or_redeem env i w).0 ≡ err e)
  unfolding resume_or_redeem resume_token redeem_token with_tx
  resume_or_redeem-blocked i m w mac blocked = elim (outcome (redeem_unsafe env i true w)) [
    | inl (q, x, e) ↦ absurd (blocked_fails env i true m w x q mac blocked e)
    | inr (q, x, e) ↦
        let still : IsBlocked (hash_of i.code) m x =
          rw e at (redeem_unsafe-IsBlocked env (hash_of i.code) m i true w blocked) in
        elim (Bool-cases (is_invalid_token q)) [
          | inr over ↦ (q, ground (arith, e, over))
          | inl again ↦ elim (outcome (redeem_unsafe env i false x)) [
            | inl (q', y, e') ↦ absurd (blocked_fails env i false m x y q' mac still e')
            | inr (q', y, e') ↦ (q', ground (arith, e, again, e'))
          ]
        ]
  ]

  granted-IsBlocked :
      (i : RedeemInput) (n m : Text) (w w' : World) (r : RedeemResult)
      → IsIndexed w.store
      → resume_or_redeem env i w ≡ (ok r, w')
      → normalize_mac i.device_mac ≡ ok n
      → n ≢ m
      → IsBlocked (hash_of i.code) m w'
  granted-IsBlocked i n m w w' r v h mac ne =
      let (b, x, vx, run) = resume_or_redeem-ok i w w' r v h in
      let (k, k_ok, granted, hash, t, found, own, live) =
        redeem_unsafe-IsGranted env i b x r w' vx run in
      let same : k ≡ n = ground (arith, k_ok, mac) in
      let kept : IsIndexed w'.store = rw run at (redeem_unsafe-IsIndexed env i b x vx) in
      let other : bound_to r.token m ≡ false = ground (arith, granted.bound, same, eq_iff n m) in
      (kept, (r.token, granted.token_stored, hash, inl (granted.token_active, other)))

  -- A grant shuts every other device out.
  pub authenticate-IsBlocked :
      (a : RadiusAuthInput) (w w' : World) (s : Session) (p : GatewayPolicy) (n m : Text)
      → IsIndexed w.store
      → normalize_mac a.calling_station_id ≡ ok n
      → n ≢ m
      → authenticate env a w ≡ (allow s p, w')
      → IsBlocked (hash_of a.user_name) m w'
  unfolding authenticate decide
  authenticate-IsBlocked a w w' s p n m v na ne h =
      let i = redeem_input a n in
      elim (outcome (resume_or_redeem env i w)) [
        | inr (e, x, run) ↦ absurd (ground (arith, na, run, h))
        | inl (r, x, run) ↦
            let same : x ≡ w' = ground (arith, na, run, h) in
            subst (IsBlocked (hash_of a.user_name) m) same
              (granted-IsBlocked i n m w x r v run (normalize_mac_idem _ n na).2 ne)
      ]

  -- A device that is shut out is rejected.
  pub authenticate-blocked :
      (b : RadiusAuthInput) (w : World) (m : Text)
      → normalize_mac b.calling_station_id ≡ ok m
      → IsBlocked (hash_of b.user_name) m w
      → (reason : Text) × ((authenticate env b w).0 ≡ reject reason)
  unfolding authenticate decide error_text
  authenticate-blocked b w m nb blocked =
      let (e, fails) =
        resume_or_redeem-blocked (redeem_input b m) m w (normalize_mac_idem _ m nb).2 blocked in
      (error_text e, ground (arith, nb, fails))

  -- Once an access request has been granted, a request of another device with the same code, in any
  -- spelling, is rejected in the store that this leaves, by the resumption and by the redemption alike.
  pub authenticate_one_device :
      (a b : RadiusAuthInput) (w w' : World) (s : Session) (p : GatewayPolicy) (n m : Text)
      → IsIndexed w.store
      → normalize_mac a.calling_station_id ≡ ok n
      → normalize_mac b.calling_station_id ≡ ok m
      → n ≢ m
      → hash_of b.user_name ≡ hash_of a.user_name
      → authenticate env a w ≡ (allow s p, w')
      → (reason : Text) × ((authenticate env b w').0 ≡ reject reason)
  authenticate_one_device a b w w' s p n m v na nb ne hash h = authenticate-blocked b w' m nb (
      subst (λ (x : Text). IsBlocked x m w') (sym hash)
        (authenticate-IsBlocked a w w' s p n m v na ne h))
