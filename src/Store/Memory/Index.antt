-- ===== src/Store/Memory/Index.antt =====
-- The index from code hashes to tokens, which every redemption goes through.
use wi_fi_man.Common.{
  ◌≡◌, sym, ap, ◌∙◌, inl, inr, none, some, Text, ◌==◌, eq_iff, arith, Option-cases, Bool-cases,
  eq_refl,
}
use wi_fi_man.Common.Dict
use wi_fi_man.Common.Dict.{get-put}
use wi_fi_man.Common.Exec.{ok}
use wi_fi_man.Domain.{Token}
use wi_fi_man.Store.Memory.{
  MemoryStore, create_token, update_token, get_token_by_code_hash, get_token_by_id,
}

-- Tokens stand under their own id, and the index leads from a hash to the token that has it and back.
pub record IsIndexed (m : MemoryStore) : Type 0 where
  pub own_id : (id : Text) (t : Token) → Dict.get m.tokens id ≡ some t → t.id ≡ id
  pub to_index :
      (id : Text) (t : Token)
      → Dict.get m.tokens id ≡ some t
      → Dict.get m.token_by_hash t.code_hash ≡ some id
  pub from_index :
      (h id : Text)
      → Dict.get m.token_by_hash h ≡ some id
      → (t : Token) × (Dict.get m.tokens id ≡ some t) × (t.code_hash ≡ h)

create_token_eq :
    (t : Token) (m : MemoryStore)
    → Dict.get m.tokens t.id ≡ none
    → Dict.get m.token_by_hash t.code_hash ≡ none
    → create_token t m ≡ (
      ok tt,
      record m {
        tokens = Dict.put m.tokens t.id t;
        token_by_hash = Dict.put m.token_by_hash t.code_hash t.id;
      },
    )
unfolding create_token
create_token_eq t m a b = ground arith

-- A token that is new to the index, or that replaces one with the same hash, is indexed.
module _ (m : MemoryStore) (t : Token) (v : IsIndexed m)
    (new : (id : Text) (s : Token)
      → Dict.get m.tokens id ≡ some s
      → s.code_hash ≡ t.code_hash
      → id ≡ t.id)
    (same : (s : Token) → Dict.get m.tokens t.id ≡ some s → s.code_hash ≡ t.code_hash) where
  write : MemoryStore
  write = record m {
    tokens = Dict.put m.tokens t.id t;
    token_by_hash = Dict.put m.token_by_hash t.code_hash t.id;
  }

  write-own_id : (id : Text) (s : Token) → Dict.get write.tokens id ≡ some s → s.id ≡ id
  unfolding write
  write-own_id id s h = ground (arith, get-put m.tokens t.id id t, eq_iff t.id id, v.own_id id s)

  write-to_index :
      (id : Text) (s : Token)
      → Dict.get write.tokens id ≡ some s
      → Dict.get write.token_by_hash s.code_hash ≡ some id
  unfolding write
  write-to_index id s h = ground (
    arith,
    get-put m.tokens t.id id t,
    get-put m.token_by_hash t.code_hash s.code_hash t.id,
    eq_iff t.id id,
    eq_iff t.code_hash s.code_hash,
    v.to_index id s,
    new id s,
  )

  write-from_index :
      (h id : Text)
      → Dict.get write.token_by_hash h ≡ some id
      → (s : Token) × (Dict.get write.tokens id ≡ some s) × (s.code_hash ≡ h)
  unfolding write
  write-from_index h id e = elim (Bool-cases (t.code_hash == h)) [
    | inl hit ↦ (
      t,
      ground (
        arith,
        get-put m.tokens t.id id t,
        get-put m.token_by_hash t.code_hash h t.id,
        eq_iff t.id id,
      ),
      ground (arith, eq_iff t.code_hash h),
    )
    | inr miss ↦
        let (s, at, hash) =
          v.from_index h id (ground (arith, get-put m.token_by_hash t.code_hash h t.id)) in
        (
          s,
          ground (arith, get-put m.tokens t.id id t, eq_iff t.id id, eq_iff t.code_hash h, same s),
          hash,
        )
  ]

  write-IsIndexed : IsIndexed write
  write-IsIndexed = record {
    own_id = write-own_id;
    to_index = write-to_index;
    from_index = write-from_index;
  }

-- Creating a token keeps the index, whether the token is stored or refused.
pub create_token-IsIndexed :
    (t : Token) (m : MemoryStore) → IsIndexed m → IsIndexed (create_token t m).1
unfolding create_token write
create_token-IsIndexed t m v = elim (Option-cases (Dict.get m.tokens t.id)) [
  | inr (s, e) ↦ rw (e, create_token) v
  | inl e ↦ elim (Option-cases (Dict.get m.token_by_hash t.code_hash)) [
    | inr (i, e') ↦ rw (e, e', create_token) v
    | inl e' ↦
        rw (e, e', create_token)
          (write-IsIndexed m t v
            (λ id s at h. absurd (cc (v.to_index id s at, ap (Dict.get m.token_by_hash) h)))
            (λ s at. cc))
  ]
]

-- So does updating a token whose hash is the stored one.
pub update_token-IsIndexed :
    (t : Token) (m : MemoryStore)
    → IsIndexed m
    → ((s : Token) → Dict.get m.tokens t.id ≡ some s → s.code_hash ≡ t.code_hash)
    → IsIndexed (update_token t m).1
unfolding update_token write
update_token-IsIndexed t m v same = elim (Option-cases (Dict.get m.tokens t.id)) [
  | inl e ↦ rw (e, update_token) v
  | inr (old, e) ↦
      rw (e, update_token)
        (write-IsIndexed m t v
          (λ id s at h. cc (
            v.to_index id s at,
            ap (Dict.get m.token_by_hash) (h ∙ sym (same old e)),
            v.to_index t.id old e,
          ))
          same)
]

-- A token that was created is found by its hash and by its id; before, neither was there.
pub get_token_by_code_hash-create_token :
    (t : Token) (m n : MemoryStore)
    → create_token t m ≡ (ok tt, n)
    → (get_token_by_code_hash t.code_hash n ≡ (ok (some t), n))
      × (get_token_by_id t.id n ≡ (ok (some t), n))
      × (get_token_by_code_hash t.code_hash m ≡ (ok none, m))
      × (get_token_by_id t.id m ≡ (ok none, m))
unfolding create_token get_token_by_code_hash get_token_by_id
get_token_by_code_hash-create_token t m n h =
    let a = get-put m.tokens t.id t.id t in
    let b = get-put m.token_by_hash t.code_hash t.code_hash t.id in
    (
      ground (arith, a, b, eq_refl t.id, eq_refl t.code_hash),
      ground (arith, a, eq_refl t.id),
      ground arith,
      ground arith,
    )

-- With the index intact two tokens never share a hash.
pub code_hash_unique :
    (m : MemoryStore) (i j : Text) (s t : Token)
    → IsIndexed m
    → Dict.get m.tokens i ≡ some s
    → Dict.get m.tokens j ≡ some t
    → s.code_hash ≡ t.code_hash
    → i ≡ j
code_hash_unique m i j s t v a b h =
    cc (v.to_index i s a, ap (Dict.get m.token_by_hash) h, v.to_index j t b)
