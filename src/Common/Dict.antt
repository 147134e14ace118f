-- ===== src/Common/Dict.antt =====
-- Go maps with text keys, as association lists. The order of the list stands for the order in which
-- `range` visits the map, which Go leaves open.
pub mod Search
use wi_fi_man.Common.Texts.{Text, ◌==◌, eq_iff, eq_refl}
use wi_fi_man.Common.Tests.{if◌then◌else◌}
use mathlib.Core.Path.{◌≡◌, refl}
use mathlib.Core.Bool.{Bool}
use mathlib.Core.Option.{Option, none, some}
use mathlib.Core.List.{List, [], ◌∷◌}
use native.Mathlib.Omega.{arith}

abbrev pub Dict {ℓ} : Type ℓ → Type ℓ
Dict V = List (Text × V)

module _ {ℓ} {V : Type ℓ} where
  unfoldable pub get : Dict V → Text → Option V
  get [] k = none
  get ((j, v) ∷ m) k = if j == k then some v else get m k

  unfoldable pub put : Dict V → Text → V → Dict V
  put [] k v = (k, v) ∷ []
  put ((j, w) ∷ m) k v = if j == k then (j, v) ∷ m else (j, w) ∷ put m k v

  -- The values, in the order of the list.
  unfoldable pub values : Dict V → List V
  values [] = []
  values ((k, v) ∷ m) = v ∷ values m

  -- The first value that passes the test, as a `range` loop that returns finds it.
  unfoldable pub find : (V → Bool) → Dict V → Option V
  find p [] = none
  find p ((k, v) ∷ m) = if p v then some v else find p m

  pub get-put :
      (m : Dict V) (k j : Text) (v : V) → get (put m k v) j ≡ (if k == j then some v else get m j)
  unfolding get put
  get-put [] k j v = refl
  get-put ((i, w) ∷ m) k j v = ground (arith, eq_iff k j, eq_iff i k, eq_iff i j, get-put m k j v)

  pub get-put_self : (m : Dict V) (k : Text) (v : V) → get (put m k v) k ≡ some v
  get-put_self m k v = rw (get-put m k k v, eq_refl k)
