-- ===== src/Tests/Codes.antt =====
-- MAC addresses and voucher codes.
use wi_fi_man.Common.{◌≡◌, ◌↔◌, refl, Text, bytes, length, arith}
use wi_fi_man.Common.Exec.{ok, err}
use wi_fi_man.Util.Ascii.{to_upper, is_space, trim_left, trim_right, trim_space}
use wi_fi_man.Util.Mac.{is_hex, write_pairs, normalize_mac}
use wi_fi_man.Util.Mac.Spelling.{digits, normalize_mac_idem, normalize_mac-eq_iff}
use wi_fi_man.Util.TokenCode.{token_alphabet, normalize_token_code}
use wi_fi_man.Util.TokenCode.Generated.{hits, random_part_uniform}

abbrev dashed : Text
dashed = bytes "aa-bb-cc-dd-ee-ff"

abbrev dotted : Text
dotted = bytes "AABB.CCDD.EEFF"

abbrev canonical : Text
canonical = bytes "AA:BB:CC:DD:EE:FF"

-- The rows of mac_test.go.
mac_rows :
    (normalize_mac (bytes "aa:bb:cc:dd:ee:ff") ≡ ok canonical)
    × (normalize_mac dashed ≡ ok canonical)
    × (normalize_mac dotted ≡ ok canonical)
    × (normalize_mac (bytes "AA:BB:CC:DD:EE") ≡ err (bytes "invalid mac length"))
    × (normalize_mac (bytes "") ≡ err (bytes "empty mac"))
unfolding normalize_mac trim_space trim_left trim_right is_space is_hex write_pairs to_upper bytes
mac_rows = (refl, refl, refl, refl, refl)

normalize_mac_idem_example :
    (digits canonical ≡ digits dashed)
    × (length (digits canonical) ≡ 12)
    × (normalize_mac canonical ≡ ok canonical)
normalize_mac_idem_example = normalize_mac_idem dashed canonical mac_rows.1

normalize_mac-eq_iff_example : (canonical ≡ canonical) ↔ (digits dashed ≡ digits dotted)
normalize_mac-eq_iff_example =
    normalize_mac-eq_iff dashed dotted canonical canonical mac_rows.1 mac_rows.2

spaced_code : normalize_token_code (bytes "ab c-2 ") ≡ bytes "ABC-2"
unfolding normalize_token_code trim_space trim_left trim_right is_space to_upper bytes
spaced_code = refl

random_part_uniform_example : hits 31 ≡ 8
unfolding token_alphabet bytes
random_part_uniform_example = random_part_uniform 31 (omega arith)
