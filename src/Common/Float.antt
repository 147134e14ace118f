-- ===== src/Common/Float.antt =====
-- The rounding of Go's `float64`: the nearest number of 53 bits, and the even one of two that are equally
-- near.
use wi_fi_man.Common.Tests.{ltb, leb, if◌then◌else◌, Bool-cases}
use Prim.Native.Nat.{ℕ, zero, suc, ◌+◌, ◌*◌, ◌/◌, ◌%◌, ◌^◌, ◌≤◌, ◌<◌}
use mathlib.Core.Path.{◌≡◌, refl, sym, ap, ◌∙◌}
use mathlib.Core.Logic.{◌⊎◌, inl, inr}
use mathlib.Core.Bool.{true, false}
use native.Mathlib.Omega.{arith}
use native.Mathlib.Nat.{
  mul-div_left, mul-mod_left, le-div_iff_mul-le, mul-le-mul_right, mul-le-mul_left, pow-succ',
  div-add-mod',
}

-- The power of two that is `p`, doubled while it does not pass `n`, at most `fuel` times.
unfoldable pub doubled : ℕ → ℕ → ℕ → ℕ
doubled zero p n = p
doubled (suc fuel) p n = elim (leb (2 * p) n) [ true ↦ doubled fuel (2 * p) n | false ↦ p ]

-- The greatest power of two that is at most `n`, for `n` from 1 to 2 ^ 65 - 1.
unfoldable pub top_bit : ℕ → ℕ
unfolding doubled
top_bit n = doubled 64 1 n

-- The quotient, rounded to the nearest number, and to the even one of two that are equally near.
unfoldable pub half_even : ℕ → ℕ → ℕ
half_even n m =
    let q = n / m in
    let r = n % m in if ltb (2 * r) m then q else if ltb m (2 * r) then q + 1 else q + q % 2

-- The quotient, rounded to a number of 53 bits.
unfoldable pub nearest : ℕ → ℕ → ℕ
unfolding top_bit half_even
nearest n d = let s = top_bit (n / (d * 2 ^ 52)) in half_even n (d * s) * s

twice : (p k : ℕ) → 2 * p * 2 ^ k ≡ p * 2 ^ suc k
twice p k =
    let same : 2 * p * 2 ^ k ≡ p * (2 * 2 ^ k) = omega arith in
    same ∙ ap (λ x. p * x) (sym (pow-succ' 2 k))

doubled-divides : (fuel p n : ℕ) → (c : ℕ) × (doubled fuel p n * c ≡ p * 2 ^ fuel)
unfolding doubled
doubled-divides zero p n = (1, refl)
doubled-divides (suc fuel) p n = elim (Bool-cases (leb (2 * p) n)) [
  | inl more ↦
      let (c, e) = doubled-divides fuel (2 * p) n in (c, rw (doubled, more) (e ∙ twice p fuel))
  | inr done ↦ (2 ^ suc fuel, rw (doubled, done) refl)
]

doubled-bounds : (fuel p n : ℕ) → 1 ≤ p → p ≤ n → (1 ≤ doubled fuel p n) × (doubled fuel p n ≤ n)
unfolding doubled
doubled-bounds zero p n h k = (h, k)
doubled-bounds (suc fuel) p n h k = elim (Bool-cases (leb (2 * p) n)) [
  | inl more ↦ rw (doubled, more) (doubled-bounds fuel (2 * p) n (omega arith) (ground arith))
  | inr done ↦ rw (doubled, done) (h, k)
]

-- A power of two, between one and `n`.
pub top_bit-bounds : (n b : ℕ) → n ≤ b → 1 ≤ b → (1 ≤ top_bit n) × (top_bit n ≤ b)
unfolding top_bit doubled
top_bit-bounds zero b h k = (ground arith, ground arith)
top_bit-bounds (suc n) b h k =
    let (low, high) = doubled-bounds 64 1 (suc n) (omega arith) (omega arith) in (low, omega arith)

pub top_bit-divides : (n : ℕ) → (c : ℕ) × (top_bit n * c ≡ 2 ^ 64)
unfolding top_bit
top_bit-divides n = let (c, e) = doubled-divides 64 1 n in (c, e)

pub half_even-ge : (n m : ℕ) → n / m ≤ half_even n m
unfolding half_even
half_even-ge n m = ground arith

half_even-cases :
    (n m : ℕ) → (half_even n m ≡ n / m) ⊎ ((half_even n m ≡ n / m + 1) × (m ≤ 2 * (n % m)))
unfolding half_even
half_even-cases n m = elim (Bool-cases (ltb (2 * (n % m)) m)) [
  | inl small ↦ inl (rw (half_even, small) refl)
  | inr big ↦ elim (Bool-cases (ltb m (2 * (n % m)))) [
    | inl bigger ↦ inr (rw (half_even, big, bigger) refl, ground arith)
    | inr half ↦ elim (Bool-cases (ltb 0 (n / m % 2))) [
      | inl odd ↦ inr ((rw (half_even, big, half) (ground arith)), ground arith)
      | inr even ↦ inl (rw (half_even, big, half) (ground arith))
    ]
  ]
]

-- The rounded quotient is off by half at most.
pub half_even-le : (n m : ℕ) → 2 * (half_even n m * m) ≤ 2 * n + m
half_even-le n m =
    let whole = div-add-mod' n m in
    elim (half_even-cases n m) [
      | inl down ↦ rw down (omega arith)
      | inr (up, half) ↦ rw up (omega arith)
    ]

pub half_even-exact : (a m : ℕ) → 0 < m → half_even (a * m) m ≡ a
unfolding half_even
half_even-exact a m h = ground (arith, mul-mod_left a m, mul-div_left a h)

module _ (s c : ℕ) (power : s * c ≡ 2 ^ 64) where
  multiple : (x : ℕ) → x * 2 ^ 64 ≡ x * c * s
  multiple x = ap (λ y. x * y) (sym power) ∙ omega arith

  multiple-ge : (x n : ℕ) → 0 < s → x * 2 ^ 64 ≤ n → x * 2 ^ 64 ≤ half_even n s * s
  multiple-ge x n some_bit h =
      let below : x * c ≤ n / s = (le-div_iff_mul-le some_bit).1 (omega (arith, multiple x)) in
      let up : x * c ≤ half_even n s = omega (arith, half_even-ge n s) in
      let scaled : x * c * s ≤ half_even n s * s = mul-le-mul_right s up in
      omega (arith, multiple x)

  multiple-exact : (x : ℕ) → 0 < s → half_even (x * 2 ^ 64) s * s ≡ x * 2 ^ 64
  multiple-exact x some_bit = rw (multiple x) (ap (λ y. y * s) (half_even-exact (x * c) s some_bit))

one_bit : (n : ℕ) → 0 < 1 * top_bit n
one_bit n = let (low, high) = top_bit-bounds n (n + 1) (omega arith) (omega arith) in omega arith

one_power : (n : ℕ) → (c : ℕ) × (1 * top_bit n * c ≡ 2 ^ 64)
one_power n = let (c, e) = top_bit-divides n in (c, omega arith)

nearest_one : (n : ℕ) → (b : ℕ) × (nearest n 1 ≡ half_even n (1 * top_bit b) * (1 * top_bit b))
unfolding nearest
nearest_one n =
    let b = n / (1 * 2 ^ 52) in (b, ap (λ s. half_even n (1 * top_bit b) * s) (omega arith))

-- Rounding to 53 bits does not pass a multiple of 2 ^ 64, and keeps it.
pub nearest-ge : (x n : ℕ) → x * 2 ^ 64 ≤ n → x * 2 ^ 64 ≤ nearest n 1
nearest-ge x n h =
    let (b, e) = nearest_one n in
    let (c, power) = one_power b in rw e (multiple-ge (1 * top_bit b) c power x n (one_bit b) h)

pub nearest-exact : (x : ℕ) → nearest (x * 2 ^ 64) 1 ≡ x * 2 ^ 64
nearest-exact x =
    let (b, e) = nearest_one (x * 2 ^ 64) in
    let (c, power) = one_power b in e ∙ multiple-exact (1 * top_bit b) c power x (one_bit b)

scaled-le :
    (q n d s b : ℕ) → 2 * (q * (d * s)) ≤ 2 * n + d * s → s ≤ b → 2 * (q * s * d) ≤ 2 * n + d * b
scaled-le q n d s b h k = let wide : d * s ≤ d * b = mul-le-mul_left d k in omega arith

-- The rounded number is off by half of the spacing at most.
pub nearest-le : (n d b : ℕ) → n / (d * 2 ^ 52) ≤ b → 1 ≤ b → 2 * (nearest n d * d) ≤ 2 * n + d * b
unfolding nearest
nearest-le n d b h k =
    let s = top_bit (n / (d * 2 ^ 52)) in
    scaled-le (half_even n (d * s)) n d s b (half_even-le n (d * s))
      (top_bit-bounds (n / (d * 2 ^ 52)) b h k).1
