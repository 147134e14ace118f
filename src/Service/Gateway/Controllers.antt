-- ===== src/Service/Gateway/Controllers.antt =====
-- The controllers of backend/internal/service/gateway_client.go that reach a gateway, over HTTP and by
-- RADIUS change of authorisation, and the choice between them in backend/cmd/api/main.go. The network,
-- the MD5 sum, the random identifier, `json.Marshal` and `net.ParseIP` are arguments.
use wi_fi_man.Common.{
  ℕ, ◌||◌, List, [], ◌∷◌, ◌++◌, Option, none, some, Text, bytes, is_empty, nat_eq, leb,
  if◌then◌else◌,
}
use wi_fi_man.Common.Int.{pos, leb_ℤ}
use wi_fi_man.Common.Decimal.{decimal}
use wi_fi_man.Common.Exec.{Result, ok, err}
use wi_fi_man.Domain.{Session, Error, message, Fields, field, end, text, Time}
use wi_fi_man.Service.Radius.Packet.{RadiusAttr, build_disconnect_request, parse_packet}

-- `http.NewRequest` and `client.Do`: the URL, the Authorization header if one is set, and the body;
-- the answer is the status.
abbrev pub Post : Type 0
Post = Text → Option Text → Text → Result Error ℕ

pub record HttpGatewayController : Type 0 where
  pub base_url : Text
  pub auth_token : Text

abbrev pub disconnect_payload : Session → Text → Fields
disconnect_payload s reason = field (bytes "session_id") (text s.id) (
    field (bytes "token_id") (text s.token_id) (
      field (bytes "device_mac") (text s.device_mac) (
        field (bytes "ip_address") (text s.ip_address) (
          field (bytes "gateway_id") (text s.gateway_id)
            (field (bytes "reason") (text reason) end)))))

abbrev pub authorization : Text → Option Text
authorization auth_token =
    if is_empty auth_token then none else some (bytes "Bearer " ++ auth_token)

module _ (marshal : Fields → Result Error Text) (post : Post) where
  unfoldable pub http_disconnect : HttpGatewayController → Session → Text → Result Error (Unit {0})
  http_disconnect c session reason = elim (marshal (disconnect_payload session reason)) [
    | err e ↦ err e
    | ok body ↦ elim (post c.base_url (authorization c.auth_token) body) [
      | err e ↦ err e
      | ok status ↦
          if leb 300 status
          then err
              (message (bytes "gateway disconnect failed with status " ++ decimal (pos status)))
          else ok tt
    ]
  ]

pub record CoaController : Type 0 where
  pub addr : Text
  pub key : Text
  pub timeout : Time

abbrev pub coa_timeout : Time
coa_timeout = pos 3_000_000_000

unfoldable pub new_coa_controller : Text → Text → Time → CoaController
new_coa_controller addr key timeout = record {
  addr = addr;
  key = key;
  timeout = if leb_ℤ timeout (pos 0) then coa_timeout else timeout;
}

-- `net.DialTimeout`, `conn.Write` and `conn.Read`: the error, or the datagram that came back.
pub record Network : Type 0 where
  pub dial : Text → Time → Option Error
  pub send : Text → Option Error
  pub receive : Result Error Text

-- `if value != "" { attrs = append(attrs, radiusStringAttr(…)) }`.
abbrev pub string_attr : ℕ → Text → List RadiusAttr
string_attr t v = if is_empty v then [] else record { attr_type = t; value = v } ∷ []

-- The address as `net.ParseIP(…).To4()` reads it, if it does.
abbrev pub address_attr : (Text → Option Text) → Text → List RadiusAttr
address_attr parse_ip4 v =
    if is_empty v
    then []
    else elim (parse_ip4 v) [ none ↦ [] | some ip ↦ record { attr_type = 8; value = ip } ∷ [] ]

unfoldable pub disconnect_attrs : (Text → Option Text) → Session → Text → List RadiusAttr
disconnect_attrs parse_ip4 session reason =
    string_attr 44 session.radius_session_id
    ++ (string_attr 31 session.device_mac
        ++ (address_attr parse_ip4 session.ip_address ++ string_attr 18 reason))

-- The `switch` on the code of the answer.
unfoldable pub coa_answer : Text → Result Error (Unit {0})
unfolding parse_packet
coa_answer datagram = elim (parse_packet datagram) [
  | err e ↦ err e
  | ok resp ↦
      if nat_eq resp.code 41
      then ok tt
      else if nat_eq resp.code 42
      then err (message (bytes "coa disconnect rejected"))
      else err (message (bytes "unexpected coa response code " ++ decimal (pos resp.code)))
]

module _ (md5 : Text → Text) (parse_ip4 : Text → Option Text) (net : Network) where
  -- The request is written, and the answer read.
  unfoldable pub coa_exchange : Text → Result Error (Unit {0})
  unfolding coa_answer
  coa_exchange packet = elim (net.send packet) [
    | some e ↦ err e
    | none ↦ elim net.receive [ err e ↦ err e | ok datagram ↦ coa_answer datagram ]
  ]

  -- `CoAController.Disconnect`, with the identifier that it draws.
  unfoldable pub coa_disconnect : ℕ → CoaController → Session → Text → Result Error (Unit {0})
  unfolding coa_exchange disconnect_attrs build_disconnect_request
  coa_disconnect identifier c session reason =
      if is_empty c.addr || is_empty c.key
      then err (message (bytes "coa not configured"))
      else elim (net.dial c.addr c.timeout) [
        | some e ↦ err e
        | none ↦ elim (disconnect_attrs parse_ip4 session reason) [
          | [] ↦ err (message (bytes "no disconnect attributes"))
          | a ∷ attrs ↦ coa_exchange (build_disconnect_request md5 identifier (a ∷ attrs) c.key)
        ]
      ]
