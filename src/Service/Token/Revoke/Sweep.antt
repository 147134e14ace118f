-- ===== src/Service/Token/Revoke/Sweep.antt =====
-- A sweep that comes to its end leaves no voucher overdue.
use wi_fi_man.Common.{
  OneOf, ℕ, suc, ◌≡◌, refl, ap, true, false, List, [], ◌∷◌, some, Text, bytes, arith, eq_iff, inl,
  inr, Option-cases, Bool-cases, ◌==◌,
}
use wi_fi_man.Common.Dict
use wi_fi_man.Common.Dict.{Dict, get-put, get-put_self}
use wi_fi_man.Common.Exec.{ok, outcome}
use wi_fi_man.Domain.{Token, TokenStatus, Time}
use wi_fi_man.Store.Memory.{update_token, list_tokens}
use wi_fi_man.World.{Env, World}
use wi_fi_man.Service.Token.Expiry.{end_active_session}
use wi_fi_man.Service.Token.Expiry.Effect.{end_active_session-SameBut}
use wi_fi_man.Service.Token.Revoke.{is_overdue, sweep, sweep_expired_tokens}

get-OneOf :
    (m : Dict Token) (id : Text) (t : Token) → Dict.get m id ≡ some t → OneOf t (Dict.values m)
unfolding Dict.get Dict.values
get-OneOf [] id t h = cc
get-OneOf ((j, u) ∷ m) id t h = elim (Bool-cases (j == id)) [
  | inl e ↦ inl (ground arith)
  | inr e ↦ inr (get-OneOf m id t (ground arith))
]

-- Each token stands under its own id.
abbrev pub HasOwnIds : Dict Token → Type 0
HasOwnIds m = (id : Text) (t : Token) → Dict.get m id ≡ some t → t.id ≡ id

-- The overdue tokens of the map are in the list.
abbrev Covers : Time → List Token → Dict Token → Type 0
Covers now ts m =
    (id : Text) (t : Token) → Dict.get m id ≡ some t → is_overdue now t ≡ true → OneOf t ts

module _ (now : Time) where
  abbrev spent : Token → Token
  spent t = record t { status = TokenStatus.expired; updated_at = now }

  spent_rests : (t : Token) → is_overdue now (spent t) ≡ false
  unfolding is_overdue
  spent_rests t = refl

  put-HasOwnIds : (m : Dict Token) (t : Token) → HasOwnIds m → HasOwnIds (Dict.put m t.id (spent t))
  put-HasOwnIds m t own id u h =
      ground (arith, get-put m t.id id (spent t), own id u, eq_iff t.id id)

  Covers-skip :
      (t : Token) (ts : List Token) (m : Dict Token)
      → is_overdue now t ≡ false
      → Covers now (t ∷ ts) m
      → Covers now ts m
  Covers-skip t ts m e c id u h o = elim (c id u h o) [
    | inl same ↦ absurd (cc (ap (is_overdue now) same))
    | inr later ↦ later
  ]

  Covers-put :
      (t : Token) (ts : List Token) (m : Dict Token)
      → HasOwnIds m
      → Covers now (t ∷ ts) m
      → Covers now ts (Dict.put m t.id (spent t))
  Covers-put t ts m own c id u h o = elim (Bool-cases (t.id == id)) [
    | inl e ↦
        let same : u ≡ spent t = ground (arith, get-put m t.id id (spent t)) in
        absurd (cc (ap (is_overdue now) same, spent_rests t))
    | inr e ↦
        let old : Dict.get m id ≡ some u = ground (arith, get-put m t.id id (spent t)) in
        elim (c id u old o) [
          | inl same ↦
              absurd (ground (arith, own id u old, ap (λ (x : Token). x.id) same, eq_iff t.id id))
          | inr later ↦ later
        ]
  ]

module _ (env : Env) (now : Time) where
  -- The world once an overdue voucher has been stored as expired.
  abbrev spent_world : Token → World → World
  spent_world t w = record w {
    store = record w.store {
      tokens = Dict.put w.store.tokens t.id (spent now t);
      token_by_hash = Dict.put w.store.token_by_hash t.code_hash t.id;
    };
  }

  sweep-overdue :
      (t : Token) (ts : List Token) (k n : ℕ) (w w' : World)
      → is_overdue now t ≡ true
      → sweep env now (t ∷ ts) k w ≡ (ok n, w')
      → (v : World) × (v.store.tokens ≡ Dict.put w.store.tokens t.id (spent now t))
        × (sweep env now ts (suc k) v ≡ (ok n, w'))
  unfolding sweep update_token
  sweep-overdue t ts k n w w' o h = elim (Option-cases (Dict.get w.store.tokens t.id)) [
    | inl e ↦ absurd (ground (arith, e, o))
    | inr (u, e) ↦
        elim (outcome (end_active_session env t.id (bytes "expired") now (spent_world t w))) [
          | inl (x, v, c) ↦ (
            v,
            ground (
              arith,
              c,
              (end_active_session-SameBut env t.id (bytes "expired") now (spent_world t w)).tokens,
            ),
            ground (arith, e, o, c),
          )
          | inr (x, v, c) ↦ absurd (ground (arith, e, o, c))
        ]
  ]

  sweep-rests :
      (ts : List Token) (k n : ℕ) (w w' : World)
      → HasOwnIds w.store.tokens
      → Covers now ts w.store.tokens
      → sweep env now ts k w ≡ (ok n, w')
      → (id : Text) (t : Token) → Dict.get w'.store.tokens id ≡ some t
      → is_overdue now t ≡ false
  unfolding sweep
  sweep-rests [] k n w w' own c h id t kept = elim (Bool-cases (is_overdue now t)) [
    | inl o ↦ absurd (c id t (ground arith) o)
    | inr o ↦ o
  ]
  sweep-rests (u ∷ ts) k n w w' own c h id t kept = elim (Bool-cases (is_overdue now u)) [
    | inr o ↦ sweep-rests ts k n w w' own (Covers-skip now u ts _ o c) (ground (arith, o)) id t kept
    | inl o ↦
        let (v, tokens, rest) = sweep-overdue u ts k n w w' o h in
        sweep-rests ts (suc k) n v w' (rw tokens (put-HasOwnIds now w.store.tokens u own))
          (rw tokens (Covers-put now u ts w.store.tokens own c)) rest id t kept
  ]

-- After a sweep that returns, no stored voucher is active past its end.
pub sweep_expired_tokens-rests :
    (env : Env) (n : ℕ) (w w' : World)
    → HasOwnIds w.store.tokens
    → sweep_expired_tokens env w ≡ (ok n, w')
    → (id : Text) (t : Token) → Dict.get w'.store.tokens id ≡ some t
    → is_overdue (env.now w.clock) t ≡ false
unfolding sweep_expired_tokens list_tokens
sweep_expired_tokens-rests env n w w' own h =
    sweep-rests env (env.now w.clock) (Dict.values w.store.tokens) 0 n
      (record w { clock = suc w.clock }) w' own (λ id t kept o. get-OneOf w.store.tokens id t kept)
      h
