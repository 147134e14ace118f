-- ===== src/Service/Radius/Server/Replies.antt =====
-- What the server answers.
use wi_fi_man.Common.{
  ℕ, ◌*◌, ◌≤◌, ◌≡◌, refl, false, List, [], ◌∷◌, some, Text, bytes, length, length-append, arith,
}
use wi_fi_man.Common.Exec.{ok, err}
use wi_fi_man.Domain.{message}
use wi_fi_man.World.{Env, World}
use wi_fi_man.Service.Radius.{RadiusAuthDecision, allow, reject, authenticate}
use wi_fi_man.Service.Radius.Packet.{
  RadiusAttr, RadiusPacket, parse_packet, response_body, build_response, validate_request,
}
use wi_fi_man.Service.Radius.Packet.Wire.{short_ones}
use wi_fi_man.Service.Radius.Packet.Sealed.{parse_packet-build_response}
use wi_fi_man.Service.Radius.Server.{
  auth_input, accept_attrs, decision_response, message_attr, reason_or_denied, answer_auth,
  handle_auth_packet, answer_accounting, handle_accounting_packet,
}

response_body-bound : (attrs : List RadiusAttr) → length (response_body attrs) ≤ 255 * length attrs
unfolding response_body
response_body-bound [] = omega arith
response_body-bound (a ∷ attrs) =
    ground (arith, response_body-bound attrs, length-append a.value (response_body attrs))

module _ (env : Env) (md5 : Text → Text) (md5_size : (t : Text) → length (md5 t) ≡ 16)
    (secret : Text) where
  -- The code and the attributes of the reply to a decision.
  abbrev pub reply_code : RadiusAuthDecision → ℕ
  reply_code (allow session policy) = 2
  reply_code (reject reason) = 3

  abbrev pub reply_attrs : RadiusAuthDecision → List RadiusAttr
  reply_attrs (allow session policy) = accept_attrs policy
  reply_attrs (reject reason) = message_attr (reason_or_denied reason) ∷ []

  -- The reply to a decision is read back as that decision's: its code, the request's identifier, and
  -- those of its attributes whose values have 253 bytes or fewer.
  abbrev pub IsReply : RadiusPacket → RadiusAuthDecision → Text → Type 0
  IsReply req d raw =
      (sum : Text) × (parse_packet raw
        ≡ ok (record {
          code = reply_code d;
          identifier = req.identifier;
          authenticator = sum;
          attributes = short_ones (reply_attrs d);
        }))

  decision_response-IsReply :
      (req : RadiusPacket) (d : RadiusAuthDecision)
      → IsReply req d (decision_response env md5 secret req d)
  unfolding accept_attrs decision_response build_response
  decision_response-IsReply req (allow session policy) =
      parse_packet-build_response md5 md5_size req 2 (accept_attrs policy) secret
        (omega (arith, response_body-bound (accept_attrs policy)))
  decision_response-IsReply req (reject reason) =
      let attrs = message_attr (reason_or_denied reason) ∷ [] in
      parse_packet-build_response md5 md5_size req 3 attrs secret
        (omega (arith, response_body-bound attrs))

  -- Every access request that can be read is answered, and the answer tells the gateway what the
  -- service decided: the code, the identifier of the request and the attributes of the decision.
  pub handle_auth_packet-IsReply :
      (raw remote : Text) (w : World) (req : RadiusPacket)
      → parse_packet raw ≡ ok req
      → req.code ≡ 1
      → (d : RadiusAuthDecision) × (reply : Text) × (w' : World) × (authenticate env
            (auth_input req.attributes remote)
            w
          ≡ (d, w'))
        × (handle_auth_packet env md5 secret raw remote w ≡ (ok (some reply), w'))
        × IsReply req d reply
  unfolding handle_auth_packet answer_auth
  handle_auth_packet-IsReply raw remote w req read code =
      let (d, w') = authenticate env (auth_input req.attributes remote) w in
      (
        d,
        decision_response env md5 secret req d,
        w',
        refl,
        ground (arith, read),
        decision_response-IsReply req d,
      )

  -- An accounting request whose authenticator is not that of the secret gets an error and no reply, and
  -- changes nothing.
  pub handle_accounting_packet-forged :
      (raw remote : Text) (w : World) (req : RadiusPacket)
      → parse_packet raw ≡ ok req
      → req.code ≡ 4
      → validate_request md5 raw secret ≡ false
      → handle_accounting_packet env md5 secret raw remote w
        ≡ (err (message (bytes "invalid accounting authenticator")), w)
  unfolding handle_accounting_packet answer_accounting
  handle_accounting_packet-forged raw remote w req read code forged = ground arith
