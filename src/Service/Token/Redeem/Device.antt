-- ===== src/Service/Token/Redeem/Device.antt =====
-- One voucher, one device.
use wi_fi_man.Common.{
  ◌≡◌, ◌≢◌, sym, ap, ◌∙◌, inl, inr, Bool, true, some, Text, eq_iff, arith, Option-cases,
}
use wi_fi_man.Common.Dict
use wi_fi_man.Common.Exec.{ok}
use wi_fi_man.Domain.{Token, TokenStatus}
use wi_fi_man.Util.Mac.{normalize_mac}
use wi_fi_man.Util.TokenCode.{hash_token_code}
use wi_fi_man.Store.Memory.Index.{IsIndexed, code_hash_unique}
use wi_fi_man.World.{Env, World}
use wi_fi_man.Service.Token.Redeem.{RedeemInput, RedeemResult, bound_to, redeem_unsafe}
use wi_fi_man.Service.Token.Redeem.Cases.{redeem_unsafe-ok}
use wi_fi_man.Service.Token.Redeem.Binding.{find_token-stored, redeem_unsafe-IsGranted}
use wi_fi_man.Service.Token.Redeem.Index.{redeem_unsafe-IsIndexed}

bound_to-eq : (t : Token) (m : Text) → bound_to t m ≡ true → t.used_by_device_mac ≡ some m
bound_to-eq t m h = elim (Option-cases t.used_by_device_mac) [
  | inl e ↦ absurd (ground arith)
  | inr (n, e) ↦ ground (arith, eq_iff n m)
]

module _ (env : Env) where
  -- While a token is stored as active and bound to one device, its code lets no other device in.
  pub bound_excludes :
      (j : RedeemInput) (c : Bool) (w : World) (t : Token) (n m : Text) (r : RedeemResult)
      (w' : World)
      → IsIndexed w.store
      → Dict.get w.store.tokens t.id ≡ some t
      → t.status ≡ TokenStatus.active
      → t.used_by_device_mac ≡ some n
      → hash_token_code env.sha256_hex j.code ≡ t.code_hash
      → normalize_mac j.device_mac ≡ ok m
      → n ≢ m
      → redeem_unsafe env j c w ≢ (ok r, w')
  bound_excludes j c w t n m r w' v stored a used hash mac ne h =
      let s = redeem_unsafe-ok env j c w r w' h in
      let (at_id, own_hash) = find_token-stored env j w s.token v s.token_found in
      let same_id =
        code_hash_unique w.store s.token.id t.id s.token t v at_id stored (own_hash ∙ hash) in
      let same : s.token ≡ t = cc (at_id, stored, ap (Dict.get w.store.tokens) same_id) in
      elim s.way [
        | inl (unused, b, run) ↦ cc (unused, a, ap (λ (x : Token). x.status) same)
        | inr (act, bound, run) ↦
            let used' = bound_to-eq s.token s.mac bound in
            ne (cc (used, used', ap (λ (x : Token). x.used_by_device_mac) same, mac, s.mac_ok))
      ]

  -- Once a code has let one device in, by redemption or resumption, no request of another device with
  -- that code, in any spelling, succeeds in the store that this leaves.
  pub one_device :
      (i j : RedeemInput) (b c : Bool) (w : World) (m : Text) (r r' : RedeemResult) (w' w'' : World)
      → IsIndexed w.store
      → redeem_unsafe env i b w ≡ (ok r, w')
      → hash_token_code env.sha256_hex j.code ≡ hash_token_code env.sha256_hex i.code
      → normalize_mac j.device_mac ≡ ok m
      → normalize_mac i.device_mac ≢ ok m
      → redeem_unsafe env j c w' ≢ (ok r', w'')
  one_device i j b c w m r r' w' w'' v h hash mac ne h' =
      let (n, n_ok, granted, r_hash, t, found, same, u) =
        redeem_unsafe-IsGranted env i b w r w' v h in
      let kept : IsIndexed w'.store = rw h at (redeem_unsafe-IsIndexed env i b w v) in
      bound_excludes j c w' r.token n m r' w'' kept granted.token_stored granted.token_active
        granted.bound (hash ∙ sym r_hash) mac (λ e. ne (n_ok ∙ ap ok e)) h'
