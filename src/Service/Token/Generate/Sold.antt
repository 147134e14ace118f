-- ===== src/Service/Token/Generate/Sold.antt =====
-- The vouchers that the loop returns are in the store.
use wi_fi_man.Common.{
  ℕ, zero, suc, ◌≡◌, ◌≢◌, refl, sym, ◌∙◌, ap, List, [], ◌∷◌, Option, none, some, Text, eq_iff,
  arith, All, length, inl, inr,
}
use wi_fi_man.Common.Dict
use wi_fi_man.Common.Dict.{Dict, get-put, get-put_self}
use wi_fi_man.Common.Exec.{Result, ok, err, outcome, Result-cases}
use wi_fi_man.Domain.{Token, TokenStatus, Time, Error, message}
use wi_fi_man.Util.TokenCode.{generate_token_code, hash_token_code}
use wi_fi_man.Store.Memory.{MemoryStore, create_token}
use wi_fi_man.World.{Env, World}
use wi_fi_man.Service.Token.Generate.{
  GenerateTokensInput, GeneratedToken, draw_code, draw, prepend, generate_loop,
}

-- What is stored stays.
abbrev Kept : MemoryStore → MemoryStore → Type 0
Kept m n =
    ((id : Text) (t : Token) → Dict.get m.tokens id ≡ some t → Dict.get n.tokens id ≡ some t)
    × ((h id : Text) → Dict.get m.token_by_hash h ≡ some id → Dict.get n.token_by_hash h ≡ some id)

put_keeps :
    {V : Type 0} (d : Dict V) (k j : Text) (v w : V)
    → Dict.get d k ≡ none
    → Dict.get d j ≡ some w
    → Dict.get (Dict.put d k v) j ≡ some w
put_keeps d k j v w free h = ground (arith, get-put d k j v, eq_iff k j)

module _ (env : Env) (i : GenerateTokensInput) (now : Time) where
  abbrev hash_of : Text → Text
  hash_of code = hash_token_code env.sha256_hex code

  -- The token of a voucher as it is sold: unused, of the plan asked for, and with the code's hash.
  abbrev token_of : GeneratedToken → Token
  token_of t = record {
    id = t.token_id;
    plan_id = i.plan_id;
    code_hash = hash_of t.code;
    status = TokenStatus.unused;
    created_at = now;
    updated_at = now;
    activated_at = none;
    expires_at = none;
    used_by_device_mac = none;
    payment_id = none;
    notes = i.notes;
    sold_by_agent_id = none;
    revoked_reason = [];
  }

  -- A customer who types the code reaches an unused voucher of the plan.
  abbrev pub IsSold : MemoryStore → GeneratedToken → Type 0
  IsSold m t =
      (Dict.get m.token_by_hash (hash_of t.code) ≡ some t.token_id)
      × (Dict.get m.tokens t.token_id ≡ some (token_of t))

  -- What a pass draws, and the world in which it stores it.
  abbrev pub drawn : World → Result Text Text
  drawn w =
      generate_token_code (env.rand_read w.reads 4) (env.rand_read (suc w.reads) 4)
        (env.rand_read (suc (suc w.reads)) 4)

  abbrev after_draw : World → World
  after_draw w = record w { reads = suc (suc (suc w.reads)); uuids = suc w.uuids }

  draw-failed : (w : World) (e : Text) → drawn w ≡ err e → (draw env i now w).0 ≡ err (message e)
  unfolding draw draw_code
  draw-failed w e h = ground (arith, h)

  abbrev voucher : World → Text → GeneratedToken
  voucher w code = record { token_id = env.new_uuid w.uuids; code = code }

  -- A pass that draws a code, by what the store says to its token.
  draw-taken :
      (w : World) (code : Text) (e : Error) (m : MemoryStore)
      → drawn w ≡ ok code
      → create_token (token_of (voucher w code)) w.store ≡ (err e, m)
      → draw env i now w ≡ (ok none, record (after_draw w) { store = m })
  unfolding draw draw_code
  draw-taken w code e m h c = ground (arith, h, c)

  draw-stored :
      (w : World) (code : Text) (m : MemoryStore)
      → drawn w ≡ ok code
      → create_token (token_of (voucher w code)) w.store ≡ (ok tt, m)
      → draw env i now w ≡ (ok (some (voucher w code)), record (after_draw w) { store = m })
  unfolding draw draw_code
  draw-stored w code m h c = ground (arith, h, c)

  pub loop-stored :
      (fuel n : ℕ) (w : World) (code : Text) (m : MemoryStore)
      → drawn w ≡ ok code
      → create_token (token_of (voucher w code)) w.store ≡ (ok tt, m)
      → generate_loop env (suc fuel) i now (suc n) w
        ≡ prepend
            (voucher w code)
            (generate_loop env fuel i now n (record (after_draw w) { store = m }))
  unfolding generate_loop
  loop-stored fuel n w code m h c = ground (arith, draw-stored w code m h c)

  pub loop-taken :
      (fuel n : ℕ) (w : World) (code : Text) (e : Error) (m : MemoryStore)
      → drawn w ≡ ok code
      → create_token (token_of (voucher w code)) w.store ≡ (err e, m)
      → generate_loop env (suc fuel) i now (suc n) w
        ≡ generate_loop env fuel i now (suc n) (record (after_draw w) { store = m })
  unfolding generate_loop
  loop-taken fuel n w code e m h c = ground (arith, draw-taken w code e m h c)

  loop-failed :
      (fuel n : ℕ) (w w' : World) (e : Text) (ts : List GeneratedToken)
      → drawn w ≡ err e
      → generate_loop env (suc fuel) i now (suc n) w ≢ some (ok ts, w')
  unfolding generate_loop
  loop-failed fuel n w w' e ts h s = ground (arith, draw-failed w e h, s)

  -- What the store does with a new token.
  pub created :
      (t : Token) (m n : MemoryStore)
      → create_token t m ≡ (ok tt, n)
      → (Dict.get m.tokens t.id ≡ none)
        × (Dict.get m.token_by_hash t.code_hash ≡ none)
        × (n.tokens ≡ Dict.put m.tokens t.id t)
        × (n.token_by_hash ≡ Dict.put m.token_by_hash t.code_hash t.id)
  unfolding create_token
  created t m n h = ground (arith, h)

  refused_token :
      (t : Token) (e : Error) (m n : MemoryStore) → create_token t m ≡ (err e, n) → n ≡ m
  unfolding create_token
  refused_token t e m n h = ground (arith, h)

  created-Kept : (t : Token) (m n : MemoryStore) → create_token t m ≡ (ok tt, n) → Kept m n
  created-Kept t m n h =
      let (a, b, c, d) = created t m n h in
      (
        λ id u k. rw c (put_keeps m.tokens t.id id t u a k),
        λ x id k. rw d (put_keeps m.token_by_hash t.code_hash x t.id id b k),
      )

  created-IsSold :
      (t : GeneratedToken) (m n : MemoryStore)
      → create_token (token_of t) m ≡ (ok tt, n)
      → IsSold n t
  created-IsSold t m n h =
      let (a, b, c, d) = created (token_of t) m n h in
      (
        rw d (get-put_self m.token_by_hash (hash_of t.code) t.token_id),
        rw c (get-put_self m.tokens t.token_id (token_of t)),
      )

  prepended :
      (t : GeneratedToken) (rest : Option (Result Error (List GeneratedToken) × World))
      (ts : List GeneratedToken) (w' : World)
      → prepend t rest ≡ some (ok ts, w')
      → (us : List GeneratedToken) × (rest ≡ some (ok us, w')) × (ts ≡ t ∷ us)
  prepended t none ts w' h = absurd (ground arith)
  prepended t (some (err e, v)) ts w' h = absurd (ground arith)
  prepended t (some (ok us, v)) ts w' h = (us, ground arith, ground arith)

  -- The vouchers that the loop returns are as many as asked for, and each of them is found by its code,
  -- unused and of the plan; what was stored before is still there.
  pub generate_loop-IsSold :
      (fuel n : ℕ) (w w' : World) (ts : List GeneratedToken)
      → generate_loop env fuel i now n w ≡ some (ok ts, w')
      → (length ts ≡ n) × All (IsSold w'.store) ts × Kept w.store w'.store
  unfolding generate_loop
  generate_loop-IsSold fuel zero w w' ts h =
      let e : ts ≡ [] = ground arith in
      let v : w' ≡ w = ground arith in rw (e, v) (refl, tt, (λ id t k. k, λ x id k. k))
  generate_loop-IsSold zero (suc n) w w' ts h = absurd (ground arith)
  generate_loop-IsSold (suc fuel) (suc n) w w' ts h = elim (Result-cases (drawn w)) [
    | inr (e, d) ↦ absurd (loop-failed fuel n w w' e ts d h)
    | inl (code, d) ↦ elim (outcome (create_token (token_of (voucher w code)) w.store)) [
      | inr (e, m, c) ↦
          let same = refused_token (token_of (voucher w code)) e w.store m c in
          let (size, sold, kept) =
            generate_loop-IsSold fuel (suc n) (record (after_draw w) { store = m }) w' ts
              (sym (loop-taken fuel n w code e m d c) ∙ h) in
          (size, sold, (λ id t k. kept.0 id t (rw same k), λ x id k. kept.1 x id (rw same k)))
      | inl (u, m, c) ↦
          let (us, rest, eq) =
            prepended (voucher w code) _ ts w' (sym (loop-stored fuel n w code m d c) ∙ h) in
          let (size, sold, kept) =
            generate_loop-IsSold fuel n (record (after_draw w) { store = m }) w' us rest in
          let first = created-IsSold (voucher w code) w.store m c in
          let old = created-Kept (token_of (voucher w code)) w.store m c in
          rw eq (
            ap suc size,
            ((kept.1 _ _ first.0, kept.0 _ _ first.1), sold),
            (λ id t k. kept.0 id t (old.0 id t k), λ x id k. kept.1 x id (old.1 x id k)),
          )
    ]
  ]
