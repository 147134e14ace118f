-- ===== src/Store/Memory/Refines.antt =====
-- The memory store of backend/internal/repository/memory.go against the specification of Store/Spec.
use wi_fi_man.Common.{
  map, Option, none, some, ◌≡◌, refl, sym, ◌∙◌, ap, Text, List, [], ◌∷◌, arith, Option-cases, inl,
  inr,
}
use wi_fi_man.Common.Dict
use wi_fi_man.Common.Dict.{get-put}
use wi_fi_man.Common.Exec.{Result, ok, err}
use wi_fi_man.Domain.{Token, Error}
use wi_fi_man.Store.Memory.{
  MemoryStore, create_token, get_token_by_id, get_token_by_code_hash, update_token,
}
use wi_fi_man.Store.Memory.Index.{
  IsIndexed, code_hash_unique, create_token-IsIndexed, update_token-IsIndexed,
}
use wi_fi_man.Store.Spec.{
  Vouchers, Request, create, by_id, by_code_hash, update, Answer, done, refused, found, write, Step,
  created, id_taken, hash_taken, looked_up, no_hash, has_hash, updated, unknown, Steps, stop, step,
  KeepsHash, UniqueHashes, Step-unique,
}
use mathlib.Core.Path.{fun_ext, subst}

-- The store, forgetting its index.
abbrev pub vouchers : MemoryStore → Vouchers
vouchers m = Dict.get m.tokens

abbrev written : Result Error (Unit {0}) × MemoryStore → Answer × MemoryStore
written (ok _, m) = (done, m)
written (err _, m) = (refused, m)

abbrev looked : Result Error (Option Token) × MemoryStore → Answer × MemoryStore
looked (ok o, m) = (found o, m)
looked (err _, m) = (refused, m)

abbrev stored : MemoryStore → Token → MemoryStore
stored m t = record m {
  tokens = Dict.put m.tokens t.id t;
  token_by_hash = Dict.put m.token_by_hash t.code_hash t.id;
}

written-state : (x : Result Error (Unit {0}) × MemoryStore) → (written x).1 ≡ x.1
written-state (ok _, m) = refl
written-state (err _, m) = refl

-- The method that a request calls, and its answer.
unfoldable pub serve : Request → MemoryStore → Answer × MemoryStore
unfolding create_token get_token_by_id get_token_by_code_hash update_token
serve (create t) m = written (create_token t m)
serve (by_id id) m = looked (get_token_by_id id m)
serve (by_code_hash h) m = looked (get_token_by_code_hash h m)
serve (update t) m = written (update_token t m)

lookup-state : (h : Text) (m : MemoryStore) → (serve (by_code_hash h) m).1 ≡ m
unfolding serve
lookup-state h m = ground arith

pub serve-IsIndexed :
    (r : Request) (m : MemoryStore)
    → IsIndexed m
    → KeepsHash (vouchers m) r
    → IsIndexed (serve r m).1
unfolding serve
serve-IsIndexed (create t) m v k =
    subst IsIndexed (sym (written-state (create_token t m))) (create_token-IsIndexed t m v)
serve-IsIndexed (by_id id) m v k = v
serve-IsIndexed (by_code_hash h) m v k = subst IsIndexed (sym (lookup-state h m)) v
serve-IsIndexed (update t) m v k =
    subst IsIndexed (sym (written-state (update_token t m))) (update_token-IsIndexed t m v k)

by_equation :
    (r : Request) (m n : MemoryStore) (a : Answer) (w : Vouchers)
    → serve r m ≡ (a, n)
    → vouchers n ≡ w
    → Step (vouchers m) r a w
    → Step (vouchers m) r (serve r m).0 (vouchers (serve r m).1)
by_equation r m n a w h e s = rw (h, e) s

put-write :
    (m : MemoryStore) (t : Token) → Dict.get (Dict.put m.tokens t.id t) ≡ write (vouchers m) t
put-write m t = fun_ext λ id. get-put m.tokens t.id id t

pub serve-Step :
    (r : Request) (m : MemoryStore)
    → IsIndexed m
    → Step (vouchers m) r (serve r m).0 (vouchers (serve r m).1)
unfolding serve
serve-Step (create t) m v = elim (Option-cases (Dict.get m.tokens t.id)) [
  | inr (s, e) ↦ by_equation (create t) m m refused (vouchers m) (ground arith) refl (id_taken e)
  | inl e ↦ elim (Option-cases (Dict.get m.token_by_hash t.code_hash)) [
    | inr (id, e') ↦
        let (s, at_id, hash) = v.from_index t.code_hash id e' in
        by_equation (create t) m m refused (vouchers m) (ground arith) refl
          (hash_taken id at_id hash)
    | inl e' ↦
        by_equation (create t) m (stored m t) done (write (vouchers m) t) (ground arith)
          (put-write m t)
          (created e
            (λ id s at_id hash. cc (v.to_index id s at_id, ap (Dict.get m.token_by_hash) hash, e'))
            refl)
  ]
]
serve-Step (by_id id) m v = looked_up
serve-Step (by_code_hash h) m v = elim (Option-cases (Dict.get m.token_by_hash h)) [
  | inl e ↦ by_equation (by_code_hash h) m m (found none) (vouchers m) (ground arith) refl (
      no_hash
        (λ id s at_id hash. cc (v.to_index id s at_id, ap (Dict.get m.token_by_hash) hash, e)))
  | inr (id, e) ↦
      let (s, at_id, hash) = v.from_index h id e in
      by_equation (by_code_hash h) m m (found (some s)) (vouchers m) (ground arith) refl
        (has_hash (ap (Dict.get m.tokens) (v.own_id id s at_id) ∙ at_id) hash)
]
serve-Step (update t) m v = elim (Option-cases (Dict.get m.tokens t.id)) [
  | inl e ↦ by_equation (update t) m m refused (vouchers m) (ground arith) refl (unknown e)
  | inr (s, e) ↦
      by_equation (update t) m (stored m t) done (write (vouchers m) t) (ground arith)
        (put-write m t) (updated e refl)
]

-- A client's requests in order, each with its answer.
unfoldable pub serve_all : List Request → MemoryStore → List (Request × Answer) × MemoryStore
unfolding serve
serve_all [] m = ([], m)
serve_all (r ∷ rs) m =
    let (a, n) = serve r m in
    let (answers, end_store) = serve_all rs n in ((r, a) ∷ answers, end_store)

-- Every change among the requests keeps the hash of its voucher.
abbrev pub KeepsHashes : List Request → MemoryStore → Type 0
KeepsHashes [] m = Unit
KeepsHashes (r ∷ rs) m = KeepsHash (vouchers m) r × KeepsHashes rs (serve r m).1

-- The memory store implements the specification of a store of vouchers: whatever a client asks of a
-- store with an intact index, as long as each change keeps the hash of its voucher's code, the
-- answers and the vouchers left are steps of the specification, and the index stays intact.
pub serve_all-Steps :
    (rs : List Request) (m : MemoryStore)
    → IsIndexed m
    → KeepsHashes rs m
    → Steps (vouchers m) (serve_all rs m).0 (vouchers (serve_all rs m).1)
      × IsIndexed (serve_all rs m).1
unfolding serve_all
serve_all-Steps [] m v k = (stop, v)
serve_all-Steps (r ∷ rs) m v k =
    let (rest, w) = serve_all-Steps rs (serve r m).1 (serve-IsIndexed r m v k.0) k.1 in
    (step (serve-Step r m v) rest, w)

vouchers-UniqueHashes : (m : MemoryStore) → IsIndexed m → UniqueHashes (vouchers m)
vouchers-UniqueHashes m v i j s t e e' h =
    let same = code_hash_unique m i j s t v e e' h in cc (same, e, e')

-- Of a store with an intact index, under requests whose changes keep their vouchers' hashes,
-- whatever the specification allows as answers and as the vouchers left is what the memory store
-- gives.
pub serve_all-only :
    (trace : List (Request × Answer)) (m : MemoryStore) (u : Vouchers)
    → IsIndexed m
    → KeepsHashes (map (λ x. x.0) trace) m
    → Steps (vouchers m) trace u
    → ((serve_all (map (λ x. x.0) trace) m).0 ≡ trace)
      × (vouchers (serve_all (map (λ x. x.0) trace) m).1 ≡ u)
unfolding serve_all
serve_all-only [] m u v k stop = (refl, refl)
serve_all-only ((r, a) ∷ trace) m u v k (step {w = w} s rest) =
    let (is_a, is_w) = Step-unique (vouchers-UniqueHashes m v) (serve-Step r m v) s in
    let (answers, outcome) =
      serve_all-only trace (serve r m).1 u (serve-IsIndexed r m v k.0) k.1
        (subst (λ x. Steps x trace u) (sym is_w) rest) in
    (rw (is_a, answers), outcome)
