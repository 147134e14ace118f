-- ===== src/Common/Texts.antt =====
-- Go strings are sequences of bytes: a `Text` is a list of numbers below 256.
use Prim.Native.Nat.{ℕ}
use Prim.Native.Char.{code}
use Prim.Native.String.{String}
use mathlib.Core.Path.{◌≡◌, refl}
use mathlib.Core.Logic.{◌≢◌, ◌↔◌}
use mathlib.Core.Bool.{Bool, true, false, ◌&&◌}
use mathlib.Core.List.{List, [], ◌∷◌}
use native.Mathlib.Omega.{arith}
use wi_fi_man.Common.Tests.{nat_eq}

abbrev pub Text : Type 0
Text = List ℕ

-- The bytes of an ASCII literal.
unfoldable pub bytes : String → Text
bytes String.[] = []
bytes (String.◌∷◌ c s) = code c ∷ bytes s

infix 50 ◌==◌
unfoldable pub ◌==◌ : Text → Text → Bool
[] == [] = true
[] == (b ∷ t) = false
(a ∷ s) == [] = false
(a ∷ s) == (b ∷ t) = nat_eq a b && s == t

-- `s == ""` of the source.
abbrev pub is_empty : Text → Bool
is_empty [] = true
is_empty (b ∷ t) = false

pub eq_refl : (s : Text) → (s == s) ≡ true
unfolding ◌==◌
eq_refl [] = refl
eq_refl (a ∷ s) = ground (arith, eq_refl s)

eq_of_eq-true : (s t : Text) → (s == t) ≡ true → s ≡ t
unfolding ◌==◌
eq_of_eq-true [] [] h = refl
eq_of_eq-true [] (b ∷ t) h = cc
eq_of_eq-true (a ∷ s) [] h = cc
eq_of_eq-true (a ∷ s) (b ∷ t) h = ground (arith, eq_of_eq-true s t)

pub eq_iff : (s t : Text) → ((s == t) ≡ true) ↔ (s ≡ t)
eq_iff s t = (eq_of_eq-true s t, λ e. rw e (eq_refl t))

pub eq-false_of_ne : (s t : Text) → s ≢ t → (s == t) ≡ false
eq-false_of_ne s t h = ground (arith, eq_of_eq-true s t)
