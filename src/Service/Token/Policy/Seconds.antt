-- ===== src/Service/Token/Policy/Seconds.antt =====
-- The whole seconds of a duration, as `int(d.Seconds())` gives them.
use wi_fi_man.Common.{ℕ, ◌+◌, ◌*◌, ◌/◌, ◌%◌, ◌^◌, ◌<◌, ◌≤◌, ◌≡◌, refl, ap, ◌∙◌, arith}
use wi_fi_man.Common.Float.{
  doubled, top_bit, half_even, nearest, nearest-le, nearest-ge, nearest-exact,
}
use wi_fi_man.Service.Token.Policy.{nanoseconds, seconds_of}

abbrev total : ℕ → ℕ → ℕ
total a f = nearest (a * 2 ^ 82 + nearest (f * 2 ^ 82) nanoseconds) 1 / 2 ^ 82

nothing : nearest (0 * 2 ^ 82) nanoseconds ≡ 0
unfolding nearest top_bit doubled half_even
nothing = refl

-- A duration of whole seconds loses nothing.
pub seconds_of-whole : (a : ℕ) → seconds_of (a * nanoseconds) ≡ a
unfolding seconds_of
seconds_of-whole a =
    let whole : a * nanoseconds / nanoseconds ≡ a = omega arith in
    let part : a * nanoseconds % nanoseconds ≡ 0 = omega arith in
    let split : a * 2 ^ 82 + 0 ≡ a * 2 ^ 18 * 2 ^ 64 = omega arith in
    let sum : nearest (a * 2 ^ 82 + 0) 1 ≡ a * 2 ^ 18 * 2 ^ 64 =
      ap (λ x. nearest x 1) split ∙ nearest-exact (a * 2 ^ 18) in
    ap (λ x. total x (a * nanoseconds % nanoseconds)) whole
    ∙ ap (total a) part
    ∙ ap (λ x. nearest (a * 2 ^ 82 + x) 1 / 2 ^ 82) nothing
    ∙ ap (λ x. x / 2 ^ 82) sum
    ∙ omega arith

pub seconds_of_zero : seconds_of 0 ≡ 0
seconds_of_zero = seconds_of-whole 0

rest-le :
    (f : ℕ)
    → f < nanoseconds
    → 2 * (nearest (f * 2 ^ 82) nanoseconds * nanoseconds) ≤ 2 * (f * 2 ^ 82) + nanoseconds * 2 ^ 30
rest-le f h = nearest-le (f * 2 ^ 82) nanoseconds (2 ^ 30) (omega arith) (omega arith)

sum-le :
    (a r : ℕ)
    → a < 2 ^ 23
    → r < 2 ^ 82
    → 2 * (nearest (a * 2 ^ 82 + r) 1 * 1) ≤ 2 * (a * 2 ^ 82 + r) + 1 * 2 ^ 53
sum-le a r h k = nearest-le (a * 2 ^ 82 + r) 1 (2 ^ 53) (omega arith) (omega arith)

-- For less than 2 ^ 23 seconds, the rounding does not reach the next second.
pub seconds_of-small : (n : ℕ) → n < 2 ^ 23 * nanoseconds → seconds_of n ≡ n / nanoseconds
unfolding seconds_of
seconds_of-small n h =
    let a = n / nanoseconds in
    let f = n % nanoseconds in
    let r = nearest (f * 2 ^ 82) nanoseconds in
    let rest = rest-le f (omega arith) in
    let below = sum-le a r (omega arith) (omega arith) in
    let above : a * 2 ^ 82 ≤ nearest (a * 2 ^ 82 + r) 1 =
      ground (arith, nearest-ge (a * 2 ^ 18) (a * 2 ^ 82 + r)) in
    omega arith
