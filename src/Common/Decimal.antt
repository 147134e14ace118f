-- ===== src/Common/Decimal.antt =====
-- `%d` of Go's `fmt`.
use wi_fi_man.Common.Texts.{Text}
use wi_fi_man.Common.Tests.{ltb}
use wi_fi_man.Common.Int.{ℤ, pos, negsuc}
use Prim.Native.Nat.{ℕ, zero, suc, ◌+◌, ◌/◌, ◌%◌}
use mathlib.Core.Bool.{true, false}
use mathlib.Core.List.{[], ◌∷◌}

-- The digits of `n` before those of `acc`. A number has no more digits than its value and one.
unfoldable pub digits_before : ℕ → ℕ → Text → Text
digits_before zero n acc = acc
digits_before (suc fuel) n acc = elim (ltb n 10) [
  | true ↦ (b'0' + n) ∷ acc
  | false ↦ digits_before fuel (n / 10) ((b'0' + n % 10) ∷ acc)
]

unfoldable pub decimal : ℤ → Text
unfolding digits_before
decimal (pos n) = digits_before (suc n) n []
decimal (negsuc n) = b'-' ∷ digits_before (suc (suc n)) (suc n) []
