-- ===== src/Service/Token/Redeem/Blocked.antt =====
-- A device that a voucher does not let in stays out, however often it asks.
use wi_fi_man.Common.{
  ◌≡◌, ◌≢◌, ◌⊎◌, refl, sym, ap, ◌∙◌, inl, inr, Bool, true, false, some, Text, bytes, arith, ◌==◌,
  eq_iff, Bool-cases,
}
use wi_fi_man.Common.Dict
use wi_fi_man.Common.Dict.{get-put, get-put_self}
use wi_fi_man.Common.Exec.{ok}
use wi_fi_man.Domain.{Plan, Token, TokenStatus, Time}
use wi_fi_man.Util.Mac.{normalize_mac}
use wi_fi_man.Util.TokenCode.{hash_token_code}
use wi_fi_man.Store.Memory.{MemoryStore, update_token}
use wi_fi_man.Store.Memory.Index.{IsIndexed, code_hash_unique, update_token-IsIndexed}
use wi_fi_man.World.{Env, World}
use wi_fi_man.Service.Token.Expiry.Effect.{
  end_active_session-SameBut, expired_world, expire_token-world,
}
use wi_fi_man.Service.Token.Expiry.{end_active_session, expire_token}
use wi_fi_man.Service.Token.Redeem.{
  RedeemInput, RedeemResult, bound_to, activated, new_session, activate, redeem_unsafe,
}
use wi_fi_man.Service.Token.Redeem.Cases.{find_token, timed, redeem_unsafe-ok}
use wi_fi_man.Service.Token.Redeem.Binding.{find_token-stored}
use wi_fi_man.Service.Token.Redeem.Index.{redeem_unsafe_paths, activate-store, reattach-SameBut}
use wi_fi_man.Store.Memory.Frame.{SameBut, create_session-SameBut, same_tokens-IsIndexed}

-- No redemption and no resumption brings such a token back.
unfoldable pub is_spent : TokenStatus → Bool
is_spent TokenStatus.expired = true
is_spent TokenStatus.consumed = true
is_spent TokenStatus.revoked = true
is_spent _ = false

-- The token does not let the device in: it is active for another one, or spent.
abbrev pub Excludes : Token → Text → Type 0
Excludes t m =
    ((t.status ≡ TokenStatus.active) × (bound_to t m ≡ false)) ⊎ (is_spent t.status ≡ true)

-- The token under a hash does not let the device in.
abbrev pub Blocks : Text → Text → MemoryStore → Type 0
Blocks hash m store =
    IsIndexed store
    × ((t : Token) × (Dict.get store.tokens t.id ≡ some t) × (t.code_hash ≡ hash) × Excludes t m)

abbrev pub IsBlocked : Text → Text → World → Type 0
IsBlocked hash m w = Blocks hash m w.store

-- It stands on the tokens and their index alone.
pub same_tokens-Blocks :
    (hash m : Text) (store next : MemoryStore)
    → next.tokens ≡ store.tokens
    → next.token_by_hash ≡ store.token_by_hash
    → Blocks hash m store
    → Blocks hash m next
same_tokens-Blocks hash m store next e e' (v, (t, stored, own, x)) =
    (same_tokens-IsIndexed store next e e' v, (t, rw e stored, own, x))

pub SameBut-Blocks :
    (hash m : Text) (store next : MemoryStore)
    → SameBut store next
    → Blocks hash m store
    → Blocks hash m next
SameBut-Blocks hash m store next same =
    same_tokens-Blocks hash m store next same.tokens same.token_by_hash

-- A change of any token that keeps its hash, and lets in nobody who was shut out.
pub update_token-Blocks :
    (hash m : Text) (store : MemoryStore) (s u : Token)
    → Dict.get store.tokens s.id ≡ some s
    → u.id ≡ s.id
    → u.code_hash ≡ s.code_hash
    → (Excludes s m → Excludes u m)
    → Blocks hash m store
    → Blocks hash m (update_token u store).1
unfolding update_token
update_token-Blocks hash m store s u at_id same_id same_hash kept (v, (t, stored, own, x)) =
    let index = update_token-IsIndexed u store v (λ o e. cc) in
    elim (Bool-cases (u.id == t.id)) [
      | inl hit ↦
          let is_t : u.id ≡ t.id = ground (arith, hit, eq_iff u.id t.id) in
          let same : t ≡ s = cc (ap (Dict.get store.tokens) (sym is_t ∙ same_id)) in
          (index, (u, ground (arith, get-put_self store.tokens u.id u), cc, kept (rw (sym same) x)))
      | inr miss ↦ (index, (t, ground (arith, get-put store.tokens u.id t.id u), own, x))
    ]

unused-Excludes : (t : Token) (m : Text) → t.status ≡ TokenStatus.unused → Excludes t m → ⊥
unfolding is_spent
unused-Excludes t m unused (inl (active, other)) = ground arith
unused-Excludes t m unused (inr spent) = ground (arith, ap is_spent unused)

active-Excludes :
    (t : Token) (m : Text) → t.status ≡ TokenStatus.active → bound_to t m ≡ true → Excludes t m → ⊥
unfolding is_spent
active-Excludes t m active bound (inl (e, other)) = cc
active-Excludes t m active bound (inr spent) = ground (arith, ap is_spent active)

module _ (env : Env) where
  -- The token that the code of a blocked device leads to.
  blocked_token :
      (i : RedeemInput) (m : Text) (w : World) (s : Token)
      → IsBlocked (hash_token_code env.sha256_hex i.code) m w
      → find_token env i w ≡ some s
      → Excludes s m
  blocked_token i m w s (v, (t, stored, hash, x)) found =
      let (at_id, own_hash) = find_token-stored env i w s v found in
      let same_id = code_hash_unique w.store s.id t.id s t v at_id stored (own_hash ∙ sym hash) in
      let same : t ≡ s = cc (at_id, stored, ap (Dict.get w.store.tokens) same_id) in rw same at x

  pub end_active_session-IsBlocked :
      (hash m id r : Text) (now : Time) (w : World)
      → IsBlocked hash m w
      → IsBlocked hash m (end_active_session env id r now w).1
  end_active_session-IsBlocked hash m id r now w =
      SameBut-Blocks hash m w.store _ (end_active_session-SameBut env id r now w)

  pub expire_token-IsBlocked :
      (hash m : Text) (t : Token) (now : Time) (w : World)
      → Dict.get w.store.tokens t.id ≡ some t
      → IsBlocked hash m w
      → IsBlocked hash m (expire_token env t now w).1
  unfolding is_spent
  expire_token-IsBlocked hash m t now w stored blocked =
      rw (expire_token-world env t now w stored) (
        end_active_session-IsBlocked hash m t.id (bytes "expired") now (expired_world env t now w) (
          update_token-Blocks hash m w.store t
            (record t { status = TokenStatus.expired; updated_at = now }) stored refl refl
            (λ x. inr refl) blocked))

  activate-IsBlocked :
      (hash m : Text) (i : RedeemInput) (now : Time) (plan : Plan) (t : Token) (w : World)
      → Dict.get w.store.tokens t.id ≡ some t
      → t.status ≡ TokenStatus.unused
      → IsBlocked hash m w
      → IsBlocked hash m (activate env i now plan t w).1
  activate-IsBlocked hash m i now plan t w stored unused blocked =
      let t' = activated t plan i.device_mac now in
      let store = (update_token t' w.store).1 in
      rw (activate-store env i now plan t w stored) (
        SameBut-Blocks hash m store _
          (create_session-SameBut (new_session (env.new_uuid w.uuids) t i now) store)
          (update_token-Blocks hash m w.store t t' stored refl refl
            (λ x. absurd (unused-Excludes t m unused x)) blocked))

  -- It is not let in.
  pub blocked_fails :
      (i : RedeemInput) (b : Bool) (m : Text) (w w' : World) (r : RedeemResult)
      → normalize_mac i.device_mac ≡ ok m
      → IsBlocked (hash_token_code env.sha256_hex i.code) m w
      → redeem_unsafe env i b w ≢ (ok r, w')
  blocked_fails i b m w w' r mac blocked h =
      let s = redeem_unsafe-ok env i b w r w' h in
      let x = blocked_token i m w s.token blocked s.token_found in
      let same : s.mac ≡ m = ground (arith, s.mac_ok, mac) in
      elim s.way [
        | inl (unused, c, run) ↦ unused-Excludes s.token m unused x
        | inr (active, bound, run) ↦
            active-Excludes s.token m active (sym (ap (bound_to s.token) same) ∙ bound) x
      ]

  -- And whatever is redeemed by whom, it stays blocked.
  pub redeem_unsafe-IsBlocked :
      (hash m : Text) (i : RedeemInput) (b : Bool) (w : World)
      → IsBlocked hash m w
      → IsBlocked hash m (redeem_unsafe env i b w).1
  redeem_unsafe-IsBlocked hash m i b w blocked =
      let v = blocked.0 in
      let now = env.now w.clock in
      redeem_unsafe_paths env (IsBlocked hash m) i b w blocked
        (λ s found.
          expire_token-IsBlocked hash m s now (timed w) (find_token-stored env i w s v found).0
            blocked)
        (λ j plan s found unused.
          activate-IsBlocked hash m j now plan s (timed w) (find_token-stored env i w s v found).0
            unused blocked)
        (λ j plan s found.
          SameBut-Blocks hash m w.store _ (reattach-SameBut env j now plan s (timed w)) blocked)
