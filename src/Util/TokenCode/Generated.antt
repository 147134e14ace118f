-- ===== src/Util/TokenCode/Generated.antt =====
-- The codes that the generator makes.
use wi_fi_man.Common.{
  ℕ, zero, suc, ◌+◌, ◌%◌, ◌<◌, ◌≤◌, ◌≡◌, refl, Bool, true, false, not, ◌&&◌, [], ◌∷◌, ◌++◌, map,
  Text, bytes, is_empty, nat_eq, length, length-map, filter, get_or, All, Option, none, some, arith,
  if◌then◌else◌, ◌⊎◌, ◌==◌, eq_of_nat_eq, length-append, All-append,
}
use wi_fi_man.Common.Exec.{ok, err}
use wi_fi_man.Util.Ascii.{to_upper, is_space, trim_left, trim_right, trim_space}
use wi_fi_man.Util.TokenCode.{
  token_alphabet, random_part, generate_token_code, normalize_token_code,
}

-- How many numbers below `n` pass the test.
abbrev pub count_below : ℕ → (ℕ → Bool) → ℕ
count_below zero p = 0
count_below (suc n) p = (if p n then 1 else 0) + count_below n p

count_below-bound : (m : ℕ) (test : ℕ → Bool) → count_below m test ≤ m
count_below-bound zero test = omega arith
count_below-bound (suc m) test = ground (arith, count_below-bound m test)

-- A count that leaves no number out speaks of each of them.
nothing_left_out : (test : ℕ → Bool) (m i : ℕ) → count_below m test ≡ m → i < m → test i ≡ true
nothing_left_out test zero i full h = absurd (omega arith)
nothing_left_out test (suc m) i full h =
    ground (arith, count_below-bound m test, nothing_left_out test m i)

abbrev is_plain : ℕ → Bool
is_plain c = nat_eq (to_upper c) c && not (is_space c)

alphabet_plain : count_below 32 (λ i. is_plain (get_or token_alphabet i 0)) ≡ 32
unfolding token_alphabet bytes to_upper is_space
alphabet_plain = refl

length-alphabet : length token_alphabet ≡ 32
unfolding token_alphabet bytes
length-alphabet = refl

-- A letter that normalisation leaves alone.
abbrev IsPlain : ℕ → Type 0
IsPlain c = (to_upper c ≡ c) × (is_space c ≡ false)

letter-IsPlain : (b : ℕ) → IsPlain (get_or token_alphabet (b % length token_alphabet) 0)
letter-IsPlain b =
    let at =
      nothing_left_out (λ i. is_plain (get_or token_alphabet i 0)) 32 (b % 32) alphabet_plain
        (omega arith) in
    rw length-alphabet (ground arith)

random_part-IsPlain : (buf : Text) → All IsPlain (random_part (some buf))
unfolding random_part
random_part-IsPlain [] = tt
random_part-IsPlain (b ∷ buf) = (letter-IsPlain b, random_part-IsPlain buf)

-- The number of byte values that the generator turns into the letter at index `i`.
unfoldable pub hits : ℕ → ℕ
unfolding random_part token_alphabet bytes ◌==◌
hits i = count_below 256 (λ b. random_part (some (b ∷ [])) == get_or token_alphabet i 0 ∷ [])

hits_table : count_below 32 (λ i. nat_eq (hits i) 8) ≡ 32
unfolding hits
hits_table = refl

-- Every letter of the alphabet comes from exactly eight of the 256 values of a random byte: the
-- reduction modulo the alphabet's length favours no letter.
pub random_part_uniform : (i : ℕ) → i < length token_alphabet → hits i ≡ 8
random_part_uniform i h =
    eq_of_nat_eq _ _
      (nothing_left_out (λ j. nat_eq (hits j) 8) 32 i hits_table (rw length-alphabet at h))

IsPlain-IsUpper : (s : Text) → All IsPlain s → map to_upper s ≡ s
IsPlain-IsUpper [] h = refl
IsPlain-IsUpper (c ∷ s) h = rw (h.0.0, IsPlain-IsUpper s h.1)

trim_left-plain : (s : Text) → All IsPlain s → trim_left s ≡ s
unfolding trim_left
trim_left-plain [] h = refl
trim_left-plain (c ∷ s) h = rw h.0.1

trim_right-plain : (s : Text) → All IsPlain s → trim_right s ≡ s
unfolding trim_right
trim_right-plain [] h = refl
trim_right-plain (c ∷ s) h = ground (arith, trim_right-plain s h.1, h.0.1)

keep_plain : (s : Text) → All IsPlain s → filter (λ c. not (nat_eq c b' ')) s ≡ s
unfolding is_space
keep_plain [] h = refl
keep_plain (c ∷ s) h = ground (arith, keep_plain s h.1, h.0.1)

normalize-plain : (s : Text) → All IsPlain s → normalize_token_code s ≡ s
unfolding normalize_token_code trim_space
normalize-plain s h =
    rw (IsPlain-IsUpper s h, trim_left-plain s h, trim_right-plain s h) (keep_plain s h)

dash-IsPlain : IsPlain b'-'
unfolding to_upper is_space
dash-IsPlain = (refl, refl)

length-random_part : (buf : Text) → length (random_part (some buf)) ≡ length buf
unfolding random_part
length-random_part buf = length-map buf _

-- The printed code, three parts joined by dashes.
abbrev joined : Text → Text → Text → Text
joined p0 p1 p2 = p0 ++ b'-' ∷ (p1 ++ b'-' ∷ p2)

length-joined : (p0 p1 p2 : Text) → length (joined p0 p1 p2) ≡ length p0 + length p1 + length p2 + 2
length-joined p0 p1 p2 =
    omega (arith, length-append p0 (b'-' ∷ (p1 ++ b'-' ∷ p2)), length-append p1 (b'-' ∷ p2))

joined-IsPlain :
    (p0 p1 p2 : Text)
    → All IsPlain p0
    → All IsPlain p1
    → All IsPlain p2
    → All IsPlain (joined p0 p1 p2)
joined-IsPlain p0 p1 p2 h0 h1 h2 =
    All-append IsPlain p0 _ h0 (dash-IsPlain, All-append IsPlain p1 _ h1 (dash-IsPlain, h2))

not_empty : (s : Text) → 0 < length s → is_empty s ≡ false
not_empty [] h = absurd (omega arith)
not_empty (c ∷ s) h = refl

-- Where the three reads of four random bytes succeed, the generator returns a code of fourteen
-- characters, and that code is in the normal form under which it will be looked up.
pub generate_token_code_ok :
    (b0 b1 b2 : Text)
    → length b0 ≡ 4
    → length b1 ≡ 4
    → length b2 ≡ 4
    → (c : Text) × (generate_token_code (some b0) (some b1) (some b2) ≡ ok c)
      × (length c ≡ 14)
      × (normalize_token_code c ≡ c)
unfolding generate_token_code
generate_token_code_ok b0 b1 b2 n0 n1 n2 =
    let l0 = length-random_part b0 in
    let l1 = length-random_part b1 in
    let l2 = length-random_part b2 in
    let c = joined (random_part (some b0)) (random_part (some b1)) (random_part (some b2)) in
    (
      c,
      rw (
        not_empty (random_part (some b0)) (omega arith),
        not_empty (random_part (some b1)) (omega arith),
        not_empty (random_part (some b2)) (omega arith),
      ),
      omega (
        arith,
        length-joined (random_part (some b0)) (random_part (some b1)) (random_part (some b2)),
      ),
      normalize-plain c (
          joined-IsPlain _ _ _ (random_part-IsPlain b0) (random_part-IsPlain b1)
            (random_part-IsPlain b2)),
    )

-- One failed read is enough for no code to be returned.
pub generate_token_code_fails :
    (r0 r1 r2 : Option Text)
    → ((r0 ≡ none) ⊎ (r1 ≡ none)) ⊎ (r2 ≡ none)
    → (e : Text) × (generate_token_code r0 r1 r2 ≡ err e)
unfolding generate_token_code random_part
generate_token_code_fails r0 r1 r2 h = (bytes "failed to generate token", ground arith)
