-- ===== src/Common/Dict/Search.antt =====
-- A search of a map's values against its lookups. Where one entry at most passes the test, the order
-- in which the map is visited does not matter.
use wi_fi_man.Common.Texts.{Text, eq_iff}
use wi_fi_man.Common.Tests.{Option-cases, Bool-cases}
use wi_fi_man.Common.Dict.{Dict, get, put, find, get-put}
use mathlib.Core.Path.{◌≡◌, refl, sym, ◌∙◌}
use mathlib.Core.Logic.{inl, inr}
use mathlib.Core.Bool.{Bool, true, false}
use mathlib.Core.Option.{none, some}
use mathlib.Core.List.{[], ◌∷◌}
use native.Mathlib.Omega.{arith}

module _ {V : Type 0} where
  -- No key stands twice.
  abbrev pub UniqueKeys : Dict V → Type 0
  UniqueKeys [] = Unit
  UniqueKeys ((k, v) ∷ m) = (get m k ≡ none) × UniqueKeys m

  pub put-UniqueKeys : (m : Dict V) (k : Text) (v : V) → UniqueKeys m → UniqueKeys (put m k v)
  unfolding put get
  put-UniqueKeys [] k v u = (refl, tt)
  put-UniqueKeys ((j, w) ∷ m) k v u =
      ground (arith, put-UniqueKeys m k v u.1, get-put m k j v, eq_iff j k, eq_iff k j)

  pub find-some :
      (p : V → Bool) (m : Dict V) (v : V)
      → UniqueKeys m
      → find p m ≡ some v
      → (k : Text) × (get m k ≡ some v) × (p v ≡ true)
  unfolding find get
  find-some p [] v u h = absurd (cc)
  find-some p ((j, w) ∷ m) v u h = elim (Bool-cases (p w)) [
    | inl yes_w ↦ (j, ground (arith, eq_iff j j), ground arith)
    | inr no_w ↦
        let (k, at, pv) = find-some p m v u.1 (ground arith) in (k, ground (arith, eq_iff j k), pv)
  ]

  pub find-none :
      (p : V → Bool) (m : Dict V) (k : Text) (v : V)
      → find p m ≡ none
      → get m k ≡ some v
      → p v ≡ false
  unfolding find get
  find-none p [] k v h at = cc
  find-none p ((j, w) ∷ m) k v h at = ground (arith, find-none p m k v)

  -- One entry at most passes the test.
  abbrev pub AtMostOne : (V → Bool) → Dict V → Type 0
  AtMostOne p m =
      (i j : Text) (v w : V) → get m i ≡ some v → get m j ≡ some w → p v ≡ true → p w ≡ true → i ≡ j

  pub find-of_get :
      (p : V → Bool) (m : Dict V) (k : Text) (v : V)
      → UniqueKeys m
      → AtMostOne p m
      → get m k ≡ some v
      → p v ≡ true
      → find p m ≡ some v
  find-of_get p m k v u one at pv = elim (Option-cases (find p m)) [
    | inl e ↦ absurd (cc (find-none p m k v e at))
    | inr (w, e) ↦
        let (j, at', pw) = find-some p m w u e in
        e ∙ sym at' ∙ ground (arith, one j k w v at' at pw pv)
  ]

  -- Two maps with the same lookups give the same answer to a search.
  pub find_ext :
      (p : V → Bool) (m n : Dict V)
      → UniqueKeys m
      → UniqueKeys n
      → ((k : Text) → get m k ≡ get n k)
      → AtMostOne p m
      → find p m ≡ find p n
  find_ext p m n u w same one = elim (Option-cases (find p m)) [
    | inl e ↦ elim (Option-cases (find p n)) [
      | inl e' ↦ e ∙ sym e'
      | inr (v, e') ↦
          let (k, at, pv) = find-some p n v w e' in absurd (cc (find-none p m k v e (same k ∙ at)))
    ]
    | inr (v, e) ↦
        let (k, at, pv) = find-some p m v u e in
        e
        ∙ sym (
            find-of_get p n k v w
              (λ i j a b ia jb pa pb. one i j a b (same i ∙ ia) (same j ∙ jb) pa pb)
              (sym (same k) ∙ at) pv)
  ]

  pub find-true : (p : V → Bool) (m : Dict V) (v : V) → find p m ≡ some v → p v ≡ true
  unfolding find
  find-true p [] v h = cc
  find-true p ((j, w) ∷ m) v h = ground (arith, find-true p m v)
