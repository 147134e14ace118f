-- ===== src/Util/Ascii.antt =====
-- What the utilities use of Go's `strings`: case and white space, for ASCII text. A byte of 128 or
-- more is no letter and no white space here.
use wi_fi_man.Common.{ℕ, ◌-◌, Bool, ◌&&◌, ◌||◌, [], ◌∷◌, Text, is_empty, leb, nat_eq, if◌then◌else◌}

-- `strings.ToUpper`, on one byte and on a text.
unfoldable pub to_upper : ℕ → ℕ
to_upper c = if leb b'a' c && leb c b'z' then c - 32 else c

unfoldable pub is_space : ℕ → Bool
is_space c = (leb 9 c && leb c 13) || nat_eq c 32

unfoldable pub trim_left : Text → Text
trim_left [] = []
trim_left (c ∷ s) = let rest = trim_left s in if is_space c then rest else c ∷ s

unfoldable pub trim_right : Text → Text
trim_right [] = []
trim_right (c ∷ s) = let rest = trim_right s in if is_empty rest && is_space c then [] else c ∷ rest

-- `strings.TrimSpace`.
unfoldable pub trim_space : Text → Text
trim_space s = trim_right (trim_left s)
