-- ===== src/Service/Radius/Packet/Sealed.antt =====
-- Whole packets: a sealed packet read back and validated.
use wi_fi_man.Common.{
  ℕ, ◌+◌, ◌-◌, ◌<◌, ◌^◌, ◌≡◌, refl, sym, true, false, ◌||◌, List, ◌++◌, Text, ltb, length, take,
  drop, All, arith, eq_refl, length-append, take-append_exact, drop-append_exact, take_all,
}
use wi_fi_man.Common.Exec.{ok}
use wi_fi_man.Service.Radius.Packet.{
  RadiusAttr, RadiusPacket, parse_packet, payload, length_field, response_body, request_body,
  header, zeros, build_response, build_disconnect_request, validate_request,
}
use wi_fi_man.Service.Radius.Packet.Wire.{
  IsShort, short_ones, parse_attrs-body, response_body-short, short_ones-IsShort,
}

module _ (code identifier : ℕ) (sum body : Text) (sum_size : length sum ≡ 16)
    (fits : 20 + length body < 2 ^ 16) where
  abbrev packet : Text
  packet = header code identifier (20 + length body) ++ (sum ++ body)

  length-packet : length packet ≡ 20 + length body
  length-packet = omega (arith, length-append sum body)

  packet-length_field : length_field packet ≡ 20 + length body
  packet-length_field = omega arith

  packet-authenticator : take 16 (drop 4 packet) ≡ sum
  packet-authenticator = take-append_exact sum body 16 (omega arith)

  packet-payload : payload packet ≡ body
  packet-payload =
      let rest : drop 20 packet ≡ body = drop-append_exact sum body 16 (omega arith) in
      let size : length_field packet - 20 ≡ length body = omega (arith, packet-length_field) in
      rw (rest, size) (take_all body)

  packet-lengths :
      (ltb (length packet) 20 ≡ false)
      × (ltb (length_field packet) 20 || ltb (length packet) (length_field packet) ≡ false)
  packet-lengths = ground (arith, length-packet, packet-length_field)

  parse_packet-packet :
      (attrs : List RadiusAttr)
      → request_body attrs ≡ body
      → All IsShort attrs
      → parse_packet packet
        ≡ ok (record {
          code = code;
          identifier = identifier;
          authenticator = sum;
          attributes = attrs;
        })
  unfolding parse_packet
  parse_packet-packet attrs e short =
      let read =
        parse_attrs-body (length packet) body attrs e (omega (arith, length-packet)) short in
      rw (
        parse_packet, packet-lengths.0, packet-lengths.1, packet-payload, read,
        packet-authenticator,
      )

  packet-IsValid :
      (md5 : Text → Text) (secret : Text)
      → md5 (take 4 packet ++ (zeros ++ (body ++ secret))) ≡ sum
      → validate_request md5 packet secret ≡ true
  unfolding validate_request
  packet-IsValid md5 secret e =
      rw
        (
          validate_request, packet-lengths.0, packet-lengths.1, packet-payload, e,
          packet-authenticator,
        )
        (eq_refl sum)

module _ (md5 : Text → Text) (md5_size : (t : Text) → length (md5 t) ≡ 16) where
  -- A response that fits a packet is read back with the code that was asked for, the request's
  -- identifier and, in their order, the attributes whose values have 253 bytes or fewer.
  pub parse_packet-build_response :
      (req : RadiusPacket) (code : ℕ) (attrs : List RadiusAttr) (secret : Text)
      → 20 + length (response_body attrs) < 2 ^ 16
      → (sum : Text) × (parse_packet (build_response md5 req code attrs secret)
          ≡ ok (record {
            code = code;
            identifier = req.identifier;
            authenticator = sum;
            attributes = short_ones attrs;
          }))
  unfolding build_response
  parse_packet-build_response req code attrs secret fits =
      let head = header code req.identifier (20 + length (response_body attrs)) in
      let sum = md5 (head ++ (req.authenticator ++ (response_body attrs ++ secret))) in
      (
        sum,
        parse_packet-packet code req.identifier sum (response_body attrs) (md5_size _) fits
            (short_ones attrs) (sym (response_body-short attrs)) (short_ones-IsShort attrs),
      )

  -- A disconnect request that fits a packet passes the check of its authenticator under the same
  -- secret, and if every attribute has room for its value it is read back with all of them.
  pub parse_packet-build_disconnect_request :
      (identifier : ℕ) (attrs : List RadiusAttr) (secret : Text)
      → 20 + length (request_body attrs) < 2 ^ 16
      → All IsShort attrs
      → (validate_request md5 (build_disconnect_request md5 identifier attrs secret) secret ≡ true)
        × (sum : Text) × (parse_packet (build_disconnect_request md5 identifier attrs secret)
            ≡ ok (record {
              code = 40;
              identifier = identifier;
              authenticator = sum;
              attributes = attrs;
            }))
  unfolding build_disconnect_request
  parse_packet-build_disconnect_request identifier attrs secret fits short =
      let body = request_body attrs in
      let sum = md5 (header 40 identifier (20 + length body) ++ (zeros ++ (body ++ secret))) in
      (
        packet-IsValid 40 identifier sum body (md5_size _) fits md5 secret refl,
        sum,
        parse_packet-packet 40 identifier sum body (md5_size _) fits attrs refl short,
      )
