-- ===== src/Service/Radius/Packet/Wire.antt =====
-- Written packets read back.
use wi_fi_man.Common.{
  ℕ, zero, suc, ◌+◌, ◌-◌, ◌%◌, ◌≤◌, ◌≡◌, refl, sym, ap, ◌∙◌, false, ◌||◌, List, [], ◌∷◌, ◌++◌, Text,
  ltb, length, drop, All, filter, leb, arith, Bool-cases, inl, inr, length-append,
  take-append_exact, drop-append_exact, length-drop,
}
use wi_fi_man.Common.Exec.{ok}
use wi_fi_man.Service.Radius.Packet.{
  RadiusAttr, with_attr, parse_attrs, write_attr, response_body, request_body,
}

-- The loop's fuel is enough: from the payload's length on, more of it makes no difference.
pub parse_attrs_fuel :
    (f g : ℕ) (b : Text) → length b ≤ f → length b ≤ g → parse_attrs f b ≡ parse_attrs g b
unfolding parse_attrs
parse_attrs_fuel f g [] h k = refl
parse_attrs_fuel f g (t ∷ []) h k = refl
parse_attrs_fuel zero g (t ∷ n ∷ rest) h k = absurd (omega arith)
parse_attrs_fuel (suc f) zero (t ∷ n ∷ rest) h k = absurd (omega arith)
parse_attrs_fuel (suc f) (suc g) (t ∷ n ∷ rest) h k =
    let same =
      parse_attrs_fuel f g (drop (n - 2) rest) (omega (arith, length-drop (n - 2) rest))
        (omega (arith, length-drop (n - 2) rest)) in
    rw same

-- An attribute that has room for its value.
abbrev pub IsShort : RadiusAttr → Type 0
IsShort a = length a.value ≤ 253

parse_attrs-write :
    (fuel : ℕ) (a : RadiusAttr) (rest : Text)
    → IsShort a
    → parse_attrs (suc fuel) (write_attr a ++ rest) ≡ with_attr a (parse_attrs fuel rest)
unfolding parse_attrs
parse_attrs-write fuel a rest h =
    let n : (length a.value + 2) % 256 ≡ length a.value + 2 = omega arith in
    let m : length a.value + 2 - 2 ≡ length a.value = omega arith in
    let fits : (ltb (length a.value + 2) 2
          || ltb (2 + length (a.value ++ rest)) (length a.value + 2))
        ≡ false =
      ground (arith, length-append a.value rest) in
    rw (
      n,
      fits,
      m,
      take-append_exact a.value rest (length a.value) refl,
      drop-append_exact a.value rest (length a.value) refl,
    )

parse_attrs-request_body :
    (fuel : ℕ) (attrs : List RadiusAttr)
    → length (request_body attrs) ≤ fuel
    → All IsShort attrs
    → parse_attrs fuel (request_body attrs) ≡ ok attrs
unfolding request_body parse_attrs
parse_attrs-request_body fuel [] le h = refl
parse_attrs-request_body zero (a ∷ attrs) le h = absurd (omega arith)
parse_attrs-request_body (suc fuel) (a ∷ attrs) le h =
    let rest =
      parse_attrs-request_body fuel attrs
        (omega (arith, length-append a.value (request_body attrs))) h.1 in
    parse_attrs-write fuel a (request_body attrs) h.0 ∙ rw rest refl

pub parse_attrs-body :
    (fuel : ℕ) (body : Text) (attrs : List RadiusAttr)
    → request_body attrs ≡ body
    → length body ≤ fuel
    → All IsShort attrs
    → parse_attrs fuel body ≡ ok attrs
parse_attrs-body fuel body attrs e le short =
    ap (parse_attrs fuel) (sym e) ∙ parse_attrs-request_body fuel attrs (rw e le) short

-- What a response keeps.
abbrev pub short_ones : List RadiusAttr → List RadiusAttr
short_ones = filter λ a. leb (length a.value) 253

pub response_body-short :
    (attrs : List RadiusAttr) → response_body attrs ≡ request_body (short_ones attrs)
unfolding response_body request_body
response_body-short [] = refl
response_body-short (a ∷ attrs) = ground (arith, response_body-short attrs)

pub short_ones-IsShort : (attrs : List RadiusAttr) → All IsShort (short_ones attrs)
short_ones-IsShort [] = tt
short_ones-IsShort (a ∷ attrs) = elim (Bool-cases (leb (length a.value) 253)) [
  | inl e ↦ rw e (ground arith, short_ones-IsShort attrs)
  | inr e ↦ rw e (short_ones-IsShort attrs)
]
