-- ===== src/Http/Html/Escaped.antt =====
-- What `renderPortalResultHTML` of backend/internal/http/handlers/portal_handler.go lets through: the
-- characters of markup in the page are those of its literals.
use wi_fi_man.Common.{
  ℕ, suc, ◌+◌, ◌≡◌, refl, ◌∙◌, Bool, ◌||◌, [], ◌∷◌, ◌++◌, Text, bytes, is_empty, nat_eq,
  if◌then◌else◌, ◌⊎◌, inl, inr, arith, Bool-cases,
}
use wi_fi_man.Http.Html.{
  escape_byte, escape_string, form_action, form_username, form_dst, form_popup, form_end,
  result_div, login_form, render_result,
}

-- How often a byte occurs.
unfoldable pub count_byte : ℕ → Text → ℕ
count_byte c [] = 0
count_byte c (b ∷ s) = let rest = count_byte c s in if nat_eq b c then suc rest else rest

abbrev pub IsMarkup : ℕ → Type 0
IsMarkup c = (c ≡ b'<') ⊎ (c ≡ b'>') ⊎ (c ≡ b'"') ⊎ (c ≡ b'\'')

count_byte-append : (c : ℕ) (s t : Text) → count_byte c (s ++ t) ≡ count_byte c s + count_byte c t
unfolding count_byte
count_byte-append c [] t = omega arith
count_byte-append c (b ∷ s) t = ground (arith, count_byte-append c s t)

count_byte-escape_byte : (c b : ℕ) → IsMarkup c → count_byte c (escape_byte b) ≡ 0
unfolding count_byte escape_byte bytes
count_byte-escape_byte c b m = ground arith

pub count_byte-escape_string : (c : ℕ) (s : Text) → IsMarkup c → count_byte c (escape_string s) ≡ 0
unfolding escape_string count_byte
count_byte-escape_string c [] m = refl
count_byte-escape_string c (b ∷ s) m =
    count_byte-append c (escape_byte b) (escape_string s)
    ∙ omega (arith, count_byte-escape_byte c b m, count_byte-escape_string c s m)

-- A value between two literals adds nothing.
count_byte-between :
    (c : ℕ) (s v rest : Text)
    → IsMarkup c
    → count_byte c (s ++ (escape_string v ++ rest)) ≡ count_byte c s + count_byte c rest
count_byte-between c s v rest m =
    count_byte-append c s (escape_string v ++ rest)
    ∙ omega (arith, count_byte-append c (escape_string v) rest, count_byte-escape_string c v m)

count_byte-login_form :
    (c : ℕ) (link token dst popup : Text)
    → IsMarkup c
    → count_byte c (login_form link token dst popup)
      ≡ count_byte c form_action
        + (count_byte c form_username
            + (count_byte c form_dst + (count_byte c form_popup + count_byte c form_end)))
unfolding login_form
count_byte-login_form c link token dst popup m = rw (
  count_byte-between c form_action link _ m,
  count_byte-between c form_username token _ m,
  count_byte-between c form_dst dst _ m,
  count_byte-between c form_popup popup _ m,
)

count_byte-result_div :
    (c : ℕ) (is_ok : Bool) (message other : Text)
    → IsMarkup c
    → count_byte c (result_div is_ok message) ≡ count_byte c (result_div is_ok other)
unfolding result_div
count_byte-result_div c is_ok message other m = omega (
  arith,
  count_byte-append c (bytes "<div class=\"result ") _,
  count_byte-append c (if is_ok then bytes "ok" else bytes "err") _,
  count_byte-between c (bytes "\">") message (bytes "</div>") m,
  count_byte-between c (bytes "\">") other (bytes "</div>") m,
)

-- No input injects markup: each character of markup occurs in the result's HTML equally often
-- whatever the message, the code and the form's fields are, as long as the same ones of the code
-- and the link are empty.
pub render_result-markup :
    (c : ℕ) (is_ok : Bool) (message token link dst popup message' token' link' dst' popup' : Text)
    → IsMarkup c
    → is_empty link ≡ is_empty link'
    → is_empty token ≡ is_empty token'
    → count_byte c (render_result message is_ok token link dst popup)
      ≡ count_byte c (render_result message' is_ok token' link' dst' popup')
unfolding render_result
render_result-markup c is_ok message token link dst popup message' token' link' dst' popup' m hl
      ht =
    elim (Bool-cases (is_empty link || is_empty token)) [
      | inl e ↦ ground (arith, count_byte-result_div c is_ok message message' m)
      | inr e ↦ ground (
        arith,
        count_byte-append c (result_div is_ok message) (login_form link token dst popup),
        count_byte-append c (result_div is_ok message') (login_form link' token' dst' popup'),
        count_byte-result_div c is_ok message message' m,
        count_byte-login_form c link token dst popup m,
        count_byte-login_form c link' token' dst' popup' m,
      )
    ]
