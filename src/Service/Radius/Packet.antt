-- ===== src/Service/Radius/Packet.antt =====
-- RADIUS packets: the second half of backend/internal/service/gateway_client.go and of
pub mod Wire
pub mod Sealed
-- radius_server.go. `md5` is an argument, the sum as a list of its sixteen bytes.
use wi_fi_man.Common.{
  ℕ, zero, suc, ◌+◌, ◌-◌, ◌*◌, ◌/◌, ◌%◌, ◌^◌, Bool, true, false, not, ◌&&◌, ◌||◌, List, [], ◌∷◌,
  ◌++◌, Text, bytes, ltb, leb, nat_eq, length, take, drop, get_or, replicate, ◌==◌, if◌then◌else◌,
}
use wi_fi_man.Common.Int.{ℤ, pos, wrap}
use wi_fi_man.Common.Decimal.{decimal}
use wi_fi_man.Common.Exec.{Result, ok, err}
use wi_fi_man.Domain.{Error, message}
use wi_fi_man.Util.Ascii.{trim_space}

pub record RadiusAttr : Type 0 where
  pub attr_type : ℕ
  pub value : Text

pub record RadiusPacket : Type 0 where
  pub code : ℕ
  pub identifier : ℕ
  pub authenticator : Text
  pub attributes : List RadiusAttr

-- `binary.BigEndian.Uint16`, `PutUint16`, `Uint32` and `PutUint32`.
abbrev pub uint16_of : ℕ → ℕ → ℕ
uint16_of hi lo = hi * 256 + lo

abbrev pub uint32_of : Text → ℕ
uint32_of v = get_or v 0 0 * 2 ^ 24 + get_or v 1 0 * 2 ^ 16 + get_or v 2 0 * 2 ^ 8 + get_or v 3 0

abbrev pub put_uint32 : ℕ → Text
put_uint32 n = n / 2 ^ 24 % 256 ∷ n / 2 ^ 16 % 256 ∷ n / 2 ^ 8 % 256 ∷ n % 256 ∷ []

abbrev pub with_attr : RadiusAttr → Result Error (List RadiusAttr) → Result Error (List RadiusAttr)
with_attr a (ok attrs) = ok (a ∷ attrs)
with_attr a (err e) = err e

-- The loop over the payload. Each attribute takes two bytes at least, so as many passes as there are
-- bytes are enough.
unfoldable pub parse_attrs : ℕ → Text → Result Error (List RadiusAttr)
parse_attrs fuel [] = ok []
parse_attrs fuel (t ∷ []) = err (message (bytes "invalid attribute header"))
parse_attrs zero (t ∷ n ∷ rest) = ok []
parse_attrs (suc fuel) (t ∷ n ∷ rest) =
    let tail = parse_attrs fuel (drop (n - 2) rest) in
    if ltb n 2 || ltb (2 + length rest) n
    then err (message (bytes "invalid attribute length"))
    else with_attr (record { attr_type = t; value = take (n - 2) rest }) tail

abbrev pub packet_of : Text → Result Error (List RadiusAttr) → Result Error RadiusPacket
packet_of b (err e) = err e
packet_of b (ok attrs) = ok (record {
  code = get_or b 0 0;
  identifier = get_or b 1 0;
  authenticator = take 16 (drop 4 b);
  attributes = attrs;
})

abbrev pub length_field : Text → ℕ
length_field b = uint16_of (get_or b 2 0) (get_or b 3 0)

-- `b[20:length]`.
abbrev pub payload : Text → Text
payload b = take (length_field b - 20) (drop 20 b)

unfoldable pub parse_packet : Text → Result Error RadiusPacket
unfolding parse_attrs
parse_packet b =
    if ltb (length b) 20
    then err (message (bytes "short radius packet"))
    else if ltb (length_field b) 20 || ltb (length b) (length_field b)
    then err (message (bytes "invalid radius packet length"))
    else packet_of b (parse_attrs (length b) (payload b))

-- An attribute on the wire; its length byte wraps.
abbrev pub write_attr : RadiusAttr → Text
write_attr a = a.attr_type ∷ (length a.value + 2) % 256 ∷ a.value

-- The body of a response, which leaves out what does not fit an attribute.
unfoldable pub response_body : List RadiusAttr → Text
response_body [] = []
response_body (a ∷ attrs) =
    let tail = response_body attrs in
    if ltb 253 (length a.value) then tail else write_attr a ++ tail

-- The body of a disconnect request.
unfoldable pub request_body : List RadiusAttr → Text
request_body [] = []
request_body (a ∷ attrs) = write_attr a ++ request_body attrs

abbrev pub header : ℕ → ℕ → ℕ → Text
header code identifier n = code ∷ identifier ∷ n / 256 % 256 ∷ n % 256 ∷ []

abbrev pub zeros : Text
zeros = replicate 16 0

module _ (md5 : Text → Text) where
  -- A packet whose checksum is taken with `seed` in place of the authenticator.
  abbrev pub seal : Text → Text → Text → Text → Text
  seal head seed body secret = head ++ (md5 (head ++ (seed ++ (body ++ secret))) ++ body)

  unfoldable pub build_response : RadiusPacket → ℕ → List RadiusAttr → Text → Text
  unfolding response_body
  build_response req code attrs secret =
      let body = response_body attrs in
      seal (header code req.identifier (20 + length body)) req.authenticator body secret

  -- `identifier` is the random byte.
  unfoldable pub build_disconnect_request : ℕ → List RadiusAttr → Text → Text
  unfolding request_body
  build_disconnect_request identifier attrs secret =
      let body = request_body attrs in
      seal (header 40 identifier (20 + length body)) zeros body secret

  -- The sums are compared as hexadecimal text without regard to case, which compares the bytes.
  unfoldable pub validate_request : Text → Text → Bool
  validate_request raw secret =
      if ltb (length raw) 20
      then false
      else if ltb (length_field raw) 20 || ltb (length raw) (length_field raw)
      then false
      else md5 (take 4 raw ++ (zeros ++ (payload raw ++ secret))) == take 16 (drop 4 raw)

unfoldable pub first_string : ℕ → List RadiusAttr → Text
first_string t [] = []
first_string t (a ∷ attrs) =
    if nat_eq a.attr_type t then trim_space a.value else first_string t attrs

-- `net.IP.String` on four bytes.
unfoldable pub ip_string : Text → Text
ip_string v =
    decimal (pos (get_or v 0 0))
    ++ b'.'
      ∷ (decimal (pos (get_or v 1 0))
          ++ b'.' ∷ (decimal (pos (get_or v 2 0)) ++ b'.' ∷ decimal (pos (get_or v 3 0))))

abbrev pub is_word : ℕ → RadiusAttr → Bool
is_word t a = nat_eq a.attr_type t && nat_eq (length a.value) 4

unfoldable pub first_ip : ℕ → List RadiusAttr → Text
unfolding ip_string
first_ip t [] = []
first_ip t (a ∷ attrs) = if is_word t a then ip_string a.value else first_ip t attrs

unfoldable pub first_uint32 : ℕ → List RadiusAttr → ℕ
first_uint32 t [] = 0
first_uint32 t (a ∷ attrs) = if is_word t a then uint32_of a.value else first_uint32 t attrs

-- The loop of `octets`, from the words read so far: the last of each kind counts.
unfoldable pub octet_words : ℕ → ℕ → List RadiusAttr → ℕ × ℕ → ℕ × ℕ
octet_words lo hi [] words = words
octet_words lo hi (a ∷ attrs) (low, high) = octet_words lo hi attrs (
    if is_word lo a
    then (uint32_of a.value, high)
    else if is_word hi a
    then (low, uint32_of a.value)
    else (low, high))

unfoldable pub octets : ℕ → ℕ → List RadiusAttr → ℤ
unfolding octet_words
octets lo hi attrs =
    let (low, high) = octet_words lo hi attrs (0, 0) in wrap (pos (high * 2 ^ 32 + low))
