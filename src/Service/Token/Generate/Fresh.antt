-- ===== src/Service/Token/Generate/Fresh.antt =====
-- When the loop ends: with fresh codes and identifiers it needs one pass for each voucher, and as long as
-- the store refuses what it draws it goes on.
use wi_fi_man.Common.{
  ℕ, zero, suc, ◌+◌, ◌*◌, ◌≤◌, ◌<◌, ◌≡◌, ◌≢◌, refl, sym, ◌∙◌, ap, List, [], ◌∷◌, none, some, Text,
  arith, eq_iff, bytes, length, All, ◌⊎◌, inl, inr, Option-cases,
}
use wi_fi_man.Common.Dict
use wi_fi_man.Common.Dict.{get-put}
use wi_fi_man.Common.Exec.{Result, ok, err}
use wi_fi_man.Domain.{Token, Time, Error, message}
use wi_fi_man.Util.TokenCode.{generate_token_code, hash_token_code}
use wi_fi_man.Store.Memory.{MemoryStore, create_token}
use wi_fi_man.World.{Env, World}
use wi_fi_man.Service.Token.Generate.{
  GenerateTokensInput, GeneratedToken, unused_token, prepend, generate_loop,
}
use wi_fi_man.Service.Token.Generate.Sold.{loop-stored, loop-taken, IsSold, generate_loop-IsSold}

abbrev added : Token → MemoryStore → MemoryStore
added t m = record m {
  tokens = Dict.put m.tokens t.id t;
  token_by_hash = Dict.put m.token_by_hash t.code_hash t.id;
}

create_token-free :
    (t : Token) (m : MemoryStore)
    → Dict.get m.tokens t.id ≡ none
    → Dict.get m.token_by_hash t.code_hash ≡ none
    → create_token t m ≡ (ok tt, added t m)
unfolding create_token
create_token-free t m h k = rw (create_token, h, k)

create_token-known :
    (t u : Token) (m : MemoryStore)
    → Dict.get m.tokens t.id ≡ some u
    → (e : Error) × (create_token t m ≡ (err e, m))
unfolding create_token
create_token-known t u m h = (message (bytes "token already exists"), rw (create_token, h))

create_token-hashed :
    (t : Token) (id : Text) (m : MemoryStore)
    → Dict.get m.token_by_hash t.code_hash ≡ some id
    → (e : Error) × (create_token t m ≡ (err e, m))
unfolding create_token
create_token-hashed t id m h = elim (Option-cases (Dict.get m.tokens t.id)) [
  | inl free ↦ (message (bytes "token hash already exists"), rw (create_token, free, h))
  | inr (u, known) ↦ create_token-known t u m known
]

module _ (env : Env) (i : GenerateTokensInput) (now : Time) where
  abbrev hash_of : Text → Text
  hash_of c = hash_token_code env.sha256_hex c

  -- The code that the reads from the r-th on give.
  abbrev pub code_at : ℕ → Result Text Text
  code_at r =
      generate_token_code (env.rand_read r 4) (env.rand_read (suc r) 4)
        (env.rand_read (suc (suc r)) 4)

  -- The next `n` codes and identifiers are new, to the store and among themselves.
  abbrev pub IsFresh : (ℕ → Text) → ℕ → World → Type 0
  IsFresh code n w =
      (k : ℕ)
      → k < n
      → (code_at (w.reads + 3 * k) ≡ ok (code k))
        × (Dict.get w.store.tokens (env.new_uuid (w.uuids + k)) ≡ none)
        × (Dict.get w.store.token_by_hash (hash_of (code k)) ≡ none)
        × ((j : ℕ)
            → j < k
            → (env.new_uuid (w.uuids + j) ≢ env.new_uuid (w.uuids + k))
              × (hash_of (code j) ≢ hash_of (code k)))

  abbrev next : Text → World → World
  next c w = record w {
    reads = suc (suc (suc w.reads));
    uuids = suc w.uuids;
    store = added (unused_token (env.new_uuid w.uuids) (hash_of c) i now) w.store;
  }

  IsFresh-next :
      (code : ℕ → Text) (n : ℕ) (w : World)
      → IsFresh code (suc n) w
      → IsFresh (λ k. code (suc k)) n (next (code 0) w)
  IsFresh-next code n w f k lt =
      let (drawn, free, new, apart) = f (suc k) (omega arith) in
      let reads : w.reads + 3 * suc k ≡ suc (suc (suc w.reads)) + 3 * k = omega arith in
      let uuids : w.uuids + suc k ≡ suc w.uuids + k = omega arith in
      let first : w.uuids + 0 ≡ w.uuids = omega arith in
      let (u, h) = apart 0 (omega arith) in
      let u' : env.new_uuid w.uuids ≢ env.new_uuid (suc w.uuids + k) =
        λ e. u (ap env.new_uuid first ∙ e ∙ ap env.new_uuid (sym uuids)) in
      (
        ap code_at (sym reads) ∙ drawn,
        ground (
          arith,
          get-put w.store.tokens (env.new_uuid w.uuids) (env.new_uuid (suc w.uuids + k))
              (unused_token (env.new_uuid w.uuids) (hash_of (code 0)) i now),
          ap (λ x. Dict.get w.store.tokens (env.new_uuid x)) uuids,
          eq_iff (env.new_uuid w.uuids) (env.new_uuid (suc w.uuids + k)),
        ),
        ground (
          arith,
          get-put w.store.token_by_hash (hash_of (code 0)) (hash_of (code (suc k)))
              (env.new_uuid w.uuids),
          eq_iff (hash_of (code 0)) (hash_of (code (suc k))),
        ),
        λ j less.
            let (a, b) = apart (suc j) (omega arith) in
            let uuids_j : w.uuids + suc j ≡ suc w.uuids + j = omega arith in
            (λ e. a (ap env.new_uuid uuids_j ∙ e ∙ ap env.new_uuid (sym uuids)), b),
      )

  loop-returns :
      (code : ℕ → Text) (n fuel : ℕ) (w : World)
      → n ≤ fuel
      → IsFresh code n w
      → (ts : List GeneratedToken) × (w' : World) × (generate_loop env fuel i now n w
          ≡ some (ok ts, w'))
  unfolding generate_loop
  loop-returns code zero fuel w le f = ([], w, refl)
  loop-returns code (suc n) zero w le f = absurd (omega arith)
  loop-returns code (suc n) (suc fuel) w le f =
      let (drawn, free, new, apart) = f 0 (omega arith) in
      let reads : w.reads + 3 * 0 ≡ w.reads = omega arith in
      let uuids : w.uuids + 0 ≡ w.uuids = omega arith in
      let token = unused_token (env.new_uuid w.uuids) (hash_of (code 0)) i now in
      let stored =
        create_token-free token w.store
          (ap (λ x. Dict.get w.store.tokens (env.new_uuid x)) (sym uuids) ∙ free) new in
      let step =
        loop-stored env i now fuel n w (code 0) (added token w.store)
          (ap code_at (sym reads) ∙ drawn) stored in
      let (ts, w', rest) =
        loop-returns (λ k. code (suc k)) n fuel (next (code 0) w) (omega arith)
          (IsFresh-next code n w f) in
      let t : GeneratedToken = record { token_id = env.new_uuid w.uuids; code = code 0 } in
      (t ∷ ts, w', step ∙ ap (prepend t) rest)

  -- Where reading random bytes works, and the hashes of the next codes and the next identifiers are
  -- new to the store and among themselves, as many passes of the loop as vouchers are asked for are
  -- enough: it returns that many, and each code leads to a stored token with the status unused, of
  -- the plan asked for, with no device, no end and no activation.
  pub generate_loop-returns :
      (code : ℕ → Text) (n fuel : ℕ) (w : World)
      → n ≤ fuel
      → IsFresh code n w
      → (ts : List GeneratedToken) × (w' : World) × (generate_loop env fuel i now n w
          ≡ some (ok ts, w'))
        × (length ts ≡ n)
        × All (IsSold env i now w'.store) ts
  generate_loop-returns code n fuel w le f =
      let (ts, w', e) = loop-returns code n fuel w le f in
      let (size, sold, kept) = generate_loop-IsSold env i now fuel n w w' ts e in
      (ts, w', e, size, sold)

  -- The next `n` tokens that are drawn are refused by the store: each has a stored identifier, or a code
  -- whose hash is indexed.
  abbrev pub IsRefused : (ℕ → Text) → ℕ → World → Type 0
  IsRefused code n w =
      (k : ℕ)
      → k < n
      → (code_at (w.reads + 3 * k) ≡ ok (code k))
        × (((t : Token) × (Dict.get w.store.tokens (env.new_uuid (w.uuids + k)) ≡ some t))
            ⊎ ((id : Text) × (Dict.get w.store.token_by_hash (hash_of (code k)) ≡ some id)))

  abbrev skipped : World → World
  skipped w = record w { reads = suc (suc (suc w.reads)); uuids = suc w.uuids }

  IsRefused-next :
      (code : ℕ → Text) (n : ℕ) (w : World)
      → IsRefused code (suc n) w
      → IsRefused (λ k. code (suc k)) n (skipped w)
  IsRefused-next code n w f k lt =
      let (drawn, taken) = f (suc k) (omega arith) in
      let reads : w.reads + 3 * suc k ≡ suc (suc (suc w.reads)) + 3 * k = omega arith in
      let uuids : w.uuids + suc k ≡ suc w.uuids + k = omega arith in
      (
        ap code_at (sym reads) ∙ drawn,
        elim taken [
          | inl (t, e) ↦ inl (t, ap (λ x. Dict.get w.store.tokens (env.new_uuid x)) (sym uuids) ∙ e)
          | inr known ↦ inr known
        ],
      )

  first-refused :
      (code : ℕ → Text) (n : ℕ) (w : World)
      → IsRefused code (suc n) w
      → (e : Error) × (create_token
            (unused_token (env.new_uuid w.uuids) (hash_of (code 0)) i now)
            w.store
          ≡ (err e, w.store))
  first-refused code n w f =
      let token = unused_token (env.new_uuid w.uuids) (hash_of (code 0)) i now in
      let uuids : w.uuids + 0 ≡ w.uuids = omega arith in
      elim (f 0 (omega arith)).1 [
        | inl (t, e) ↦
            create_token-known token t w.store
              (ap (λ x. Dict.get w.store.tokens (env.new_uuid x)) (sym uuids) ∙ e)
        | inr (id, e) ↦ create_token-hashed token id w.store e
      ]

  -- The loop has no bound on its passes: while vouchers are still to be made, where reading random
  -- bytes works and the memory store refuses each of the next tokens, since its identifier or its
  -- code's hash is taken, the loop is still running after that many passes, however many they are.
  pub generate_loop-endless :
      (code : ℕ → Text) (n passes : ℕ) (w : World)
      → IsRefused code passes w
      → generate_loop env passes i now (suc n) w ≡ none
  unfolding generate_loop
  generate_loop-endless code n zero w f = refl
  generate_loop-endless code n (suc passes) w f =
      let reads : w.reads + 3 * 0 ≡ w.reads = omega arith in
      let (e, refused) = first-refused code passes w f in
      loop-taken env i now passes n w (code 0) e w.store
        (ap code_at (sym reads) ∙ (f 0 (omega arith)).0) refused
      ∙ generate_loop-endless (λ k. code (suc k)) n passes (skipped w)
          (IsRefused-next code passes w f)
