-- ===== src/Util/TokenCode/Normal.antt =====
-- Normal forms of voucher codes: what a customer may type in place of the printed code.
use wi_fi_man.Common.{
  ℕ, ◌≡◌, refl, ap, Bool, true, not, [], ◌∷◌, map, Text, is_empty, nat_eq, filter, arith,
}
use wi_fi_man.Util.Ascii.{to_upper, is_space, trim_left, trim_right, trim_space}
use wi_fi_man.Util.TokenCode.{normalize_token_code, hash_token_code}

abbrev without_blanks : Text → Text
without_blanks = filter λ c. not (nat_eq c b' ')

-- The text is in capitals.
abbrev IsUpper : Text → Type 0
IsUpper s = map to_upper s ≡ s

capital_letter : (c : ℕ) → IsUpper (to_upper c ∷ [])
unfolding to_upper
capital_letter c = ground arith

capitals-IsUpper : (s : Text) → IsUpper (map to_upper s)
capitals-IsUpper [] = refl
capitals-IsUpper (c ∷ s) = ground (arith, capital_letter c, capitals-IsUpper s)

-- It does not begin with white space.
abbrev starts_solid : Text → Bool
starts_solid [] = true
starts_solid (c ∷ s) = not (is_space c)

blank_is_space : is_space b' ' ≡ true
unfolding is_space
blank_is_space = refl

starts_solid-trim_left : (s : Text) → starts_solid (trim_left s) ≡ true
unfolding trim_left
starts_solid-trim_left [] = refl
starts_solid-trim_left (c ∷ s) = ground (arith, starts_solid-trim_left s)

trim_left-solid : (s : Text) → starts_solid s ≡ true → trim_left s ≡ s
unfolding trim_left
trim_left-solid [] h = refl
trim_left-solid (c ∷ s) h = ground arith

starts_solid-trim_right : (s : Text) → starts_solid s ≡ true → starts_solid (trim_right s) ≡ true
unfolding trim_right
starts_solid-trim_right [] h = refl
starts_solid-trim_right (c ∷ s) h = ground arith

starts_solid-without_blanks :
    (s : Text) → starts_solid s ≡ true → starts_solid (without_blanks s) ≡ true
unfolding is_space
starts_solid-without_blanks [] h = refl
starts_solid-without_blanks (c ∷ s) h = ground arith

-- A text that was trimmed does not lose its last character with the blanks.
is_empty-without_blanks-trim_right :
    (s : Text) → is_empty (without_blanks (trim_right s)) ≡ is_empty (trim_right s)
unfolding trim_right is_space
is_empty-without_blanks-trim_right [] = refl
is_empty-without_blanks-trim_right (c ∷ s) = ground (arith, is_empty-without_blanks-trim_right s)

trim_right-without_blanks :
    (s : Text) → trim_right (without_blanks (trim_right s)) ≡ without_blanks (trim_right s)
unfolding trim_right is_space
trim_right-without_blanks [] = refl
trim_right-without_blanks (c ∷ s) =
    ground (arith, trim_right-without_blanks s, is_empty-without_blanks-trim_right s)

without_blanks_idem : (s : Text) → without_blanks (without_blanks s) ≡ without_blanks s
without_blanks_idem [] = refl
without_blanks_idem (c ∷ s) = ground (arith, without_blanks_idem s)

to_upper_blank : (c : ℕ) → nat_eq (to_upper c) b' ' ≡ nat_eq c b' '
unfolding to_upper
to_upper_blank c = ground arith

without_blanks-IsUpper : (s : Text) → IsUpper s → IsUpper (without_blanks s)
without_blanks-IsUpper [] h = refl
without_blanks-IsUpper (c ∷ s) h = ground (arith, without_blanks-IsUpper s)

IsUpper-trim_left : (s : Text) → IsUpper s → IsUpper (trim_left s)
unfolding trim_left
IsUpper-trim_left [] h = refl
IsUpper-trim_left (c ∷ s) h = ground (arith, IsUpper-trim_left s)

IsUpper-trim_right : (s : Text) → IsUpper s → IsUpper (trim_right s)
unfolding trim_right
IsUpper-trim_right [] h = refl
IsUpper-trim_right (c ∷ s) h = ground (arith, IsUpper-trim_right s)

-- A code in normal form is its own normal form.
pub normalize_token_code_idem :
    (s : Text) → normalize_token_code (normalize_token_code s) ≡ normalize_token_code s
unfolding normalize_token_code trim_space
normalize_token_code_idem s =
    let u = map to_upper s in
    let l = trim_left u in
    let n = without_blanks (trim_right l) in
    let up : map to_upper n ≡ n =
      without_blanks-IsUpper _ (IsUpper-trim_right l (IsUpper-trim_left u (capitals-IsUpper s))) in
    let solid : trim_left n ≡ n =
      trim_left-solid n
        (starts_solid-without_blanks _ (starts_solid-trim_right l (starts_solid-trim_left u))) in
    rw (up, solid, trim_right-without_blanks l) (without_blanks_idem (trim_right l))

-- The hash under which a voucher is stored is found again from its normal form, and from the code
-- typed in small letters or in capitals.
pub hash_token_code_spelling :
    (sha256_hex : Text → Text) (s : Text)
    → (hash_token_code sha256_hex (normalize_token_code s) ≡ hash_token_code sha256_hex s)
      × (hash_token_code sha256_hex (map to_upper s) ≡ hash_token_code sha256_hex s)
unfolding hash_token_code normalize_token_code
hash_token_code_spelling sha256_hex s = (
  ap sha256_hex (unfold normalize_token_code in normalize_token_code_idem s),
  rw (capitals-IsUpper s),
)
