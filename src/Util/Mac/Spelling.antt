-- ===== src/Util/Mac/Spelling.antt =====
-- A normalised MAC address depends on the hexadecimal digits alone, and is its own normal form.
use wi_fi_man.Common.{
  ℕ, ◌+◌, ◌≡◌, refl, ap, sym, ◌∙◌, ◌↔◌, true, false, [], ◌∷◌, ◌++◌, map, Text, is_empty, length,
  filter, All, ltb, length-map, ◌*◌, ◌-◌, arith, if◌then◌else◌, Bool-cases, inl, inr,
}
use wi_fi_man.Common.Exec.{ok}
use wi_fi_man.Util.Ascii.{to_upper, is_space, trim_left, trim_right, trim_space}
use wi_fi_man.Util.Mac.{is_hex, write_pairs, normalize_mac}

-- The digits of a text, in capitals.
abbrev pub digits : Text → Text
digits s = map to_upper (filter is_hex s)

space_not_hex : (c : ℕ) → is_space c ≡ true → is_hex c ≡ false
unfolding is_space is_hex
space_not_hex c h = ground arith

filter-trim_left : (s : Text) → filter is_hex (trim_left s) ≡ filter is_hex s
unfolding trim_left
filter-trim_left [] = refl
filter-trim_left (c ∷ s) = ground (arith, filter-trim_left s, space_not_hex c)

filter-trim_right : (s : Text) → filter is_hex (trim_right s) ≡ filter is_hex s
unfolding trim_right
filter-trim_right [] = refl
filter-trim_right (c ∷ s) =
    ground
      (arith, filter-trim_right s, space_not_hex c, ap (filter is_hex) (empty_nil (trim_right s)))
  where
    empty_nil : (t : Text) → (if is_empty t then [] else t) ≡ t
    empty_nil [] = refl
    empty_nil (b ∷ t) = refl

filter-trim_space : (s : Text) → filter is_hex (trim_space s) ≡ filter is_hex s
unfolding trim_space
filter-trim_space s = filter-trim_right (trim_left s) ∙ filter-trim_left s

-- A capital hexadecimal digit.
abbrev IsDigit : ℕ → Type 0
IsDigit d = (is_hex d ≡ true) × (to_upper d ≡ d)

to_upper-IsDigit : (c : ℕ) → is_hex c ≡ true → IsDigit (to_upper c)
unfolding to_upper is_hex
to_upper-IsDigit c h = ground arith

digits-IsDigit : (s : Text) → All IsDigit (digits s)
digits-IsDigit [] = tt
digits-IsDigit (c ∷ s) = elim (Bool-cases (is_hex c)) [
  | inl h ↦ rw h (to_upper-IsDigit c h, digits-IsDigit s)
  | inr h ↦ rw h (digits-IsDigit s)
]

colon_not_hex : is_hex b':' ≡ false
unfolding is_hex
colon_not_hex = refl

digits-colon : (i : ℕ) (s : Text) → digits ((if ltb 0 i then b':' ∷ [] else []) ++ s) ≡ digits s
digits-colon i s = ground (arith, colon_not_hex)

digits-write_pairs :
    (i n : ℕ) (ds : Text) → length ds ≡ 2 * n → All IsDigit ds → digits (write_pairs i ds) ≡ ds
unfolding write_pairs
digits-write_pairs i n [] e h = refl
digits-write_pairs i n (a ∷ []) e h = absurd (omega arith)
digits-write_pairs i n (a ∷ b ∷ ds) e ((ha, ua), ((hb, ub), h)) =
    digits-colon i (a ∷ b ∷ write_pairs (i + 2) ds)
    ∙ rw (ha, hb, ua, ub)
        (ap (λ t. a ∷ b ∷ t) (digits-write_pairs (i + 2) (n - 1) ds (omega arith) h))

length-digits : (s : Text) → length (digits s) ≡ length (filter is_hex s)
length-digits s = length-map (filter is_hex s) to_upper

empty-digits : (s : Text) → is_empty (trim_space s) ≡ true → length (digits s) ≡ 0
empty-digits s h = length-digits s ∙ ap length (sym (filter-trim_space s)) ∙ nil (trim_space s) h
  where
    nil : (t : Text) → is_empty t ≡ true → length (filter is_hex t) ≡ 0
    nil [] e = refl
    nil (c ∷ t) e = cc

-- What a text must hold to be accepted, and what it is turned into.
normalize_mac-eq_ok :
    (s m : Text)
    → normalize_mac s ≡ ok m
    → (length (digits s) ≡ 12) × (m ≡ write_pairs 0 (digits s))
unfolding normalize_mac
normalize_mac-eq_ok s m h =
    let e = filter-trim_space s in let n = length-digits s in ground (arith, e, n)

normalize_mac-of_digits :
    (s : Text) → length (digits s) ≡ 12 → normalize_mac s ≡ ok (write_pairs 0 (digits s))
unfolding normalize_mac
normalize_mac-of_digits s h =
    let e = filter-trim_space s in let n = length-digits s in ground (arith, e, n, empty-digits s)

digits-normalize_mac : (s m : Text) → normalize_mac s ≡ ok m → digits m ≡ digits s
digits-normalize_mac s m h =
    let (n, e) = normalize_mac-eq_ok s m h in
    rw e (digits-write_pairs 0 6 (digits s) (omega arith) (digits-IsDigit s))

-- A normalised address has the twelve digits of its input, in capitals, and normalises to itself.
pub normalize_mac_idem :
    (s m : Text)
    → normalize_mac s ≡ ok m
    → (digits m ≡ digits s) × (length (digits m) ≡ 12) × (normalize_mac m ≡ ok m)
normalize_mac_idem s m h =
    let (n, e) = normalize_mac-eq_ok s m h in
    let d = digits-normalize_mac s m h in
    let again = normalize_mac-of_digits m (ap length d ∙ n) in
    (d, ap length d ∙ n, again ∙ ap (λ t. ok (write_pairs 0 t)) d ∙ ap ok (sym e))

-- A text is accepted exactly when it holds twelve hexadecimal digits, whatever stands between them.
pub normalize_mac_iff :
    (s : Text) → ((m : Text) × (normalize_mac s ≡ ok m)) ↔ (length (digits s) ≡ 12)
normalize_mac_iff s = (
  λ (m, h). (normalize_mac-eq_ok s m h).0,
  λ n. (write_pairs 0 (digits s), normalize_mac-of_digits s n),
)

-- Two accepted texts name the same device exactly when their digits agree, in capitals.
pub normalize_mac-eq_iff :
    (s t m n : Text)
    → normalize_mac s ≡ ok m
    → normalize_mac t ≡ ok n
    → (m ≡ n) ↔ (digits s ≡ digits t)
normalize_mac-eq_iff s t m n h k = (
  λ e. sym (digits-normalize_mac s m h) ∙ ap digits e ∙ digits-normalize_mac t n k,
  λ e. (normalize_mac-eq_ok s m h).1 ∙ ap (write_pairs 0) e ∙ sym (normalize_mac-eq_ok t n k).1,
)
