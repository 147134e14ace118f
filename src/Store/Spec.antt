-- ===== src/Store/Spec.antt =====
-- What the services expect of a store of vouchers (the token methods of the interface in
-- backend/internal/repository/store.go): a voucher by its id and by the hash of its code, new ones
-- under an id and a hash that are new, and changes of those that are there. How a store keeps them,
-- and in what order, is forgotten.
use wi_fi_man.Common.{
  Option, none, some, ◌≡◌, ◌≢◌, refl, sym, ◌∙◌, ap, Text, ◌==◌, if◌then◌else◌, List, [], ◌∷◌,
}
use wi_fi_man.Domain.{Token}

-- The vouchers by their ids.
abbrev pub Vouchers : Type 0
Vouchers = Text → Option Token

pub data Request : Type 0 where
  create : Token → Request
  by_id : Text → Request
  by_code_hash : Text → Request
  update : Token → Request

pub data Answer : Type 0 where
  done : Answer
  refused : Answer
  found : Option Token → Answer

abbrev pub write : Vouchers → Token → Vouchers
write v t id = if t.id == id then some t else v id

abbrev pub NoHash : Vouchers → Text → Type 0
NoHash v h = (id : Text) (s : Token) → v id ≡ some s → s.code_hash ≢ h

pub data Step : Vouchers → Request → Answer → Vouchers → Type 0 where
  created :
      {v w : Vouchers} {t : Token}
      → v t.id ≡ none
      → NoHash v t.code_hash
      → w ≡ write v t
      → Step v (create t) done w
  id_taken : {v : Vouchers} {t s : Token} → v t.id ≡ some s → Step v (create t) refused v
  hash_taken :
      {v : Vouchers} {t s : Token} (id : Text)
      → v id ≡ some s
      → s.code_hash ≡ t.code_hash
      → Step v (create t) refused v
  looked_up : {v : Vouchers} {id : Text} → Step v (by_id id) (found (v id)) v
  no_hash : {v : Vouchers} {h : Text} → NoHash v h → Step v (by_code_hash h) (found none) v
  has_hash :
      {v : Vouchers} {t : Token} {h : Text}
      → v t.id ≡ some t
      → t.code_hash ≡ h
      → Step v (by_code_hash h) (found (some t)) v
  updated :
      {v w : Vouchers} {t s : Token} → v t.id ≡ some s → w ≡ write v t → Step v (update t) done w
  unknown : {v : Vouchers} {t : Token} → v t.id ≡ none → Step v (update t) refused v

-- The steps of a client, each request with its answer.
pub data Steps : Vouchers → List (Request × Answer) → Vouchers → Type 0 where
  stop : {v : Vouchers} → Steps v [] v
  step :
      {v w u : Vouchers} {r : Request} {a : Answer} {rest : List (Request × Answer)}
      → Step v r a w
      → Steps w rest u
      → Steps v ((r, a) ∷ rest) u

-- A change keeps the code of the voucher.
abbrev pub KeepsHash : Vouchers → Request → Type 0
KeepsHash v (update t) = (s : Token) → v t.id ≡ some s → s.code_hash ≡ t.code_hash
KeepsHash v _ = Unit

-- No two vouchers have the same hash.
abbrev pub UniqueHashes : Vouchers → Type 0
UniqueHashes v =
    (i j : Text) (s t : Token) → v i ≡ some s → v j ≡ some t → s.code_hash ≡ t.code_hash → s ≡ t

-- The specification leaves nothing open: a request has one answer and one outcome.
pub Step-unique :
    {v w u : Vouchers} {r : Request} {a b : Answer}
    → UniqueHashes v
    → Step v r a w
    → Step v r b u
    → (a ≡ b) × (w ≡ u)
Step-unique one (created n k e) (created n' k' e') = (refl, e ∙ sym e')
Step-unique one (created n k e) (id_taken e') = absurd (cc)
Step-unique one (created n k e) (hash_taken id e' h) = absurd (k id _ e' h)
Step-unique one (id_taken e) (created n k e') = absurd (cc)
Step-unique one (id_taken e) (id_taken e') = (refl, refl)
Step-unique one (id_taken e) (hash_taken id e' h) = (refl, refl)
Step-unique one (hash_taken id e h) (created n k e') = absurd (k id _ e h)
Step-unique one (hash_taken id e h) (id_taken e') = (refl, refl)
Step-unique one (hash_taken id e h) (hash_taken id' e' h') = (refl, refl)
Step-unique one looked_up looked_up = (refl, refl)
Step-unique one (no_hash n) (no_hash n') = (refl, refl)
Step-unique one (no_hash n) (has_hash {t = t} e h) = absurd (n t.id t e h)
Step-unique one (has_hash {t = t} e h) (no_hash n) = absurd (n t.id t e h)
Step-unique one (has_hash {t = t} e h) (has_hash {t = s} e' h') =
    (ap (λ (x : Token). found (some x)) (one t.id s.id t s e e' (h ∙ sym h')), refl)
Step-unique one (updated e e2) (updated e' e2') = (refl, e2 ∙ sym e2')
Step-unique one (updated e e2) (unknown n) = absurd (cc)
Step-unique one (unknown n) (updated e e2) = absurd (cc)
Step-unique one (unknown n) (unknown n') = (refl, refl)
