-- ===== src/Util/TokenCode.antt =====
-- backend/internal/util/token.go. The random bytes and SHA-256 are arguments.
pub mod Normal
pub mod Generated
use wi_fi_man.Common.{
  ℕ, ◌%◌, Bool, ◌||◌, not, List, [], ◌∷◌, ◌++◌, map, Text, bytes, is_empty, nat_eq, length, filter,
  get_or, Option, none, some, if◌then◌else◌,
}
use wi_fi_man.Common.Exec.{Result, ok, err}
use wi_fi_man.Util.Ascii.{to_upper, trim_space}

unfoldable pub token_alphabet : Text
token_alphabet = bytes "ABCDEFGHJKLMNPQRSTUVWXYZ23456789"

unfoldable pub normalize_token_code : Text → Text
normalize_token_code code = filter (λ c. not (nat_eq c b' ')) (trim_space (map to_upper code))

-- `sha256_hex` is the digest in hexadecimal.
unfoldable pub hash_token_code : (Text → Text) → Text → Text
hash_token_code sha256_hex code = sha256_hex (normalize_token_code code)

-- `none` is an error of `rand.Read`.
unfoldable pub random_part : Option Text → Text
random_part none = []
random_part (some buf) = map (λ b. get_or token_alphabet (b % length token_alphabet) 0) buf

-- The three parts are drawn before any of them is tested.
unfoldable pub generate_token_code : Option Text → Option Text → Option Text → Result Text Text
generate_token_code r0 r1 r2 =
    let p0 = random_part r0 in
    let p1 = random_part r1 in
    let p2 = random_part r2 in
    if is_empty p0 || is_empty p1 || is_empty p2
    then err (bytes "failed to generate token")
    else ok (p0 ++ b'-' ∷ (p1 ++ b'-' ∷ p2))
