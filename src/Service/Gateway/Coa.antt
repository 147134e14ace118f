-- ===== src/Service/Gateway/Coa.antt =====
-- What a disconnect by RADIUS that succeeds has done: `CoAController.Disconnect` of
-- backend/internal/service/gateway_client.go, with the packet it builds.
use wi_fi_man.Common.{
  ℕ, ◌+◌, ◌^◌, ◌<◌, ◌≡◌, refl, true, ◌||◌, ◌⊎◌, List, [], ◌∷◌, Option, none, Text, is_empty, length,
  Option-cases, Bool-cases, inl, inr, arith, All,
}
use wi_fi_man.Common.Exec.{ok, Result-cases}
use wi_fi_man.Domain.{Session}
use wi_fi_man.Service.Radius.Packet.{
  RadiusPacket, build_disconnect_request, parse_packet, request_body, validate_request,
}
use wi_fi_man.Service.Radius.Packet.Wire.{IsShort}
use wi_fi_man.Service.Radius.Packet.Sealed.{parse_packet-build_disconnect_request}
use wi_fi_man.Service.Gateway.Controllers.{
  CoaController, Network, disconnect_attrs, coa_answer, coa_exchange, coa_disconnect,
}

List-cases :
    {A : Type 0} (xs : List A) → (xs ≡ []) ⊎ ((a : A) × (as_rest : List A) × (xs ≡ a ∷ as_rest))
List-cases [] = inl refl
List-cases (a ∷ rest) = inr (a, rest, refl)

-- Only an answer that parses, with the code of an acknowledgement, is a success.
coa_answer-ok :
    (datagram : Text)
    → coa_answer datagram ≡ ok tt
    → (resp : RadiusPacket) × (parse_packet datagram ≡ ok resp) × (resp.code ≡ 41)
unfolding coa_answer
coa_answer-ok datagram h = elim (Result-cases (parse_packet datagram)) [
  | inr (x, e) ↦ absurd (ground arith)
  | inl (resp, e) ↦ (resp, e, ground arith)
]

module _ (md5 : Text → Text) (parse_ip4 : Text → Option Text) (net : Network) where
  coa_exchange-ok :
      (packet : Text)
      → coa_exchange md5 parse_ip4 net packet ≡ ok tt
      → (net.send packet ≡ none)
        × (datagram : Text) × (net.receive ≡ ok datagram)
        × (coa_answer datagram ≡ ok tt)
  unfolding coa_exchange
  coa_exchange-ok packet h = elim (Option-cases (net.send packet)) [
    | inr (x, e) ↦ absurd (ground arith)
    | inl e ↦ elim (Result-cases net.receive) [
      | inr (x, e') ↦ absurd (ground arith)
      | inl (datagram, e') ↦ (e, datagram, e', ground arith)
    ]
  ]

  -- A disconnect that succeeds was configured, dialled, and had attributes to send.
  coa_disconnect-sent :
      (identifier : ℕ) (c : CoaController) (s : Session) (reason : Text)
      → coa_disconnect md5 parse_ip4 net identifier c s reason ≡ ok tt
      → coa_exchange md5 parse_ip4 net
          (build_disconnect_request md5 identifier (disconnect_attrs parse_ip4 s reason) c.key)
        ≡ ok tt
  unfolding coa_disconnect
  coa_disconnect-sent identifier c s reason h =
      elim (Bool-cases (is_empty c.addr || is_empty c.key)) [
        | inl e ↦ absurd (ground arith)
        | inr e ↦ elim (Option-cases (net.dial c.addr c.timeout)) [
          | inr (x, e') ↦ absurd (ground arith)
          | inl e' ↦ elim (List-cases (disconnect_attrs parse_ip4 s reason)) [
            | inl none_there ↦ absurd (ground arith)
            | inr (a, attrs, there) ↦ ground arith
          ]
        ]
      ]

module _ (md5 : Text → Text) (md5_size : (t : Text) → length (md5 t) ≡ 16)
    (parse_ip4 : Text → Option Text) (net : Network) where
  -- A disconnect over RADIUS that succeeds, with attributes that fit a packet and a digest of 16
  -- bytes, has sent a request that validates under the secret and carries the session's attributes,
  -- and has received a packet with the code of an acknowledgement.
  pub coa_disconnect-ok :
      (identifier : ℕ) (c : CoaController) (s : Session) (reason : Text)
      → All IsShort (disconnect_attrs parse_ip4 s reason)
      → 20 + length (request_body (disconnect_attrs parse_ip4 s reason)) < 2 ^ 16
      → coa_disconnect md5 parse_ip4 net identifier c s reason ≡ ok tt
      → (packet : Text) × (request : RadiusPacket) × (datagram : Text) × (answer : RadiusPacket)
        × (net.send packet ≡ none)
        × (validate_request md5 packet c.key ≡ true)
        × (parse_packet packet ≡ ok request)
        × (request.code ≡ 40)
        × (request.attributes ≡ disconnect_attrs parse_ip4 s reason)
        × (net.receive ≡ ok datagram)
        × (parse_packet datagram ≡ ok answer)
        × (answer.code ≡ 41)
  coa_disconnect-ok identifier c s reason short fits h =
      let attrs = disconnect_attrs parse_ip4 s reason in
      let packet = build_disconnect_request md5 identifier attrs c.key in
      let sent =
        coa_exchange-ok md5 parse_ip4 net packet
          (coa_disconnect-sent md5 parse_ip4 net identifier c s reason h) in
      let (answer, parsed, acknowledged) = coa_answer-ok sent.1 sent.3 in
      let (valid, sum, read) =
        parse_packet-build_disconnect_request md5 md5_size identifier attrs c.key fits short in
      (
        packet,
        record { code = 40; identifier = identifier; authenticator = sum; attributes = attrs },
        sent.1,
        answer,
        sent.0,
        valid,
        read,
        refl,
        refl,
        sent.2,
        parsed,
        acknowledged,
      )
