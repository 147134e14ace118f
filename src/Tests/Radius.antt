-- ===== src/Tests/Radius.antt =====
-- RADIUS packets, with a constant in place of the checksum.
use wi_fi_man.Common.{◌≡◌, refl, true, List, [], ◌∷◌, Text, bytes, some, arith, replicate}
use wi_fi_man.Common.Exec.{ok}
use wi_fi_man.World.{World}
use wi_fi_man.Service.Radius.{RadiusAuthDecision, authenticate}
use wi_fi_man.Service.Radius.Packet.{
  RadiusAttr, RadiusPacket, zeros, parse_attrs, parse_packet, response_body, request_body,
  build_response, build_disconnect_request, validate_request,
}
use wi_fi_man.Service.Radius.Packet.Wire.{short_ones}
use wi_fi_man.Service.Radius.Packet.Sealed.{
  parse_packet-build_response, parse_packet-build_disconnect_request,
}
use wi_fi_man.Service.Radius.Server.{auth_input, handle_auth_packet}
use wi_fi_man.Service.Radius.Server.Replies.{IsReply, handle_auth_packet-IsReply}
use wi_fi_man.Tests.Fixture.{env, world}

abbrev md5 : Text → Text
md5 t = replicate 16 1

abbrev asked : RadiusPacket
asked = record { code = 1; identifier = 9; authenticator = zeros; attributes = [] }

abbrev hello : List RadiusAttr
hello = record { attr_type = 18; value = bytes "hi" } ∷ []

parse_packet-build_response_example :
    (sum : Text) × (parse_packet (build_response md5 asked 2 hello (bytes "s"))
      ≡ ok
          (record { code = 2; identifier = 9; authenticator = sum; attributes = short_ones hello }))
unfolding response_body bytes
parse_packet-build_response_example =
    parse_packet-build_response md5 (λ t. refl) asked 2 hello (bytes "s") (omega arith)

parse_packet-build_disconnect_request_example :
    (validate_request md5 (build_disconnect_request md5 7 hello (bytes "s")) (bytes "s") ≡ true)
    × (sum : Text) × (parse_packet (build_disconnect_request md5 7 hello (bytes "s"))
        ≡ ok (record { code = 40; identifier = 7; authenticator = sum; attributes = hello }))
unfolding request_body bytes
parse_packet-build_disconnect_request_example =
    parse_packet-build_disconnect_request md5 (λ t. refl) 7 hello (bytes "s") (omega arith)
      (omega arith, tt)

abbrev auth_raw : Text
auth_raw = 1 ∷ 9 ∷ 0 ∷ 20 ∷ zeros

auth_raw_read : parse_packet auth_raw ≡ ok asked
unfolding parse_packet parse_attrs
auth_raw_read = refl

handle_auth_packet-IsReply_example :
    (d : RadiusAuthDecision) × (reply : Text) × (w' : World) × (authenticate env
        (auth_input [] (bytes "10.0.0.5"))
        world
      ≡ (d, w'))
    × (handle_auth_packet env md5 (bytes "s") auth_raw (bytes "10.0.0.5") world
        ≡ (ok (some reply), w'))
    × IsReply env md5 (λ t. refl) (bytes "s") asked d reply
handle_auth_packet-IsReply_example =
    handle_auth_packet-IsReply env md5 (λ t. refl) (bytes "s") auth_raw (bytes "10.0.0.5") world
      asked auth_raw_read refl

abbrev acct_raw : Text
acct_raw = 4 ∷ 9 ∷ 0 ∷ 20 ∷ zeros
