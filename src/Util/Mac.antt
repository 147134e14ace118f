-- ===== src/Util/Mac.antt =====
-- backend/internal/util/mac.go.
pub mod Spelling
use wi_fi_man.Common.{
  ℕ, ◌+◌, Bool, ◌&&◌, ◌||◌, not, List, [], ◌∷◌, ◌++◌, map, Text, bytes, is_empty, leb, ltb, nat_eq,
  length, filter, if◌then◌else◌,
}
use wi_fi_man.Common.Exec.{Result, ok, err}
use wi_fi_man.Util.Ascii.{to_upper, trim_space}

-- What `nonHex` leaves: `[^0-9a-fA-F]` is replaced by nothing.
unfoldable pub is_hex : ℕ → Bool
is_hex c = (leb b'0' c && leb c b'9') || (leb b'a' c && leb c b'f') || (leb b'A' c && leb c b'F')

-- The loop that writes two digits a round, with a colon before every pair but the first. A slice past
-- the end would panic; an odd rest does not arise, since the length is 12.
unfoldable pub write_pairs : ℕ → Text → Text
write_pairs i [] = []
write_pairs i (a ∷ []) = []
write_pairs i (a ∷ b ∷ rest) =
    (if ltb 0 i then b':' ∷ [] else []) ++ a ∷ b ∷ write_pairs (i + 2) rest

unfoldable pub normalize_mac : Text → Result Text Text
normalize_mac in_text =
    let clean = trim_space in_text in
    let hex_only = filter is_hex clean in
    if is_empty clean
    then err (bytes "empty mac")
    else if not (nat_eq (length hex_only) 12)
    then err (bytes "invalid mac length")
    else ok (write_pairs 0 (map to_upper hex_only))
