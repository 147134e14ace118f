-- ===== src/Tests/Retries.antt =====
-- A disconnect repeated by the worker, and one by RADIUS.
use wi_fi_man.Common.{
  ℕ, ◌≡◌, refl, true, false, [], ◌∷◌, ◌++◌, Option, Text, bytes, some, none, arith, ◌==◌, nat_eq,
  if◌then◌else◌, replicate,
}
use wi_fi_man.Common.Dict
use wi_fi_man.Common.Dict.{get, put}
use wi_fi_man.Common.Int.{pos}
use wi_fi_man.Common.Exec.{Result, ok, err}
use wi_fi_man.Domain.{Session, SessionStatus, Error, message}
use wi_fi_man.Store.Memory.{get_session_by_id, update_session}
use wi_fi_man.World.{Env, World}
use wi_fi_man.Service.Gateway.{
  DisconnectInput, call_controller, close_session, enqueue_disconnect, disconnect_found,
  disconnect_session,
}
use wi_fi_man.Service.Gateway.Outcome.{reason_of}
use wi_fi_man.Service.Gateway.Controllers.{
  CoaController, Network, disconnect_attrs, coa_answer, coa_exchange, coa_disconnect,
}
use wi_fi_man.Service.Gateway.Coa.{coa_disconnect-ok}
use wi_fi_man.Service.Radius.Packet.{
  RadiusPacket, build_disconnect_request, request_body, validate_request, parse_packet, parse_attrs,
}
use wi_fi_man.Jobs.{
  Task, GatewayDisconnectPayload, PayloadCodec, task_gateway_disconnect,
  new_gateway_disconnect_task, handle_gateway_disconnect,
}
use wi_fi_man.Jobs.Retry.{ReadsBack, disconnect_session-retried}
use wi_fi_man.Tests.Fixture.{env}
use wi_fi_man.Tests.Redeem.{started, redeemed}

-- A gateway that refuses the first request.
abbrev answer : ℕ → Session → Text → Result Error (Unit {0})
answer n s r = if nat_eq n 0 then err (message (bytes "timeout")) else ok tt

abbrev moody_env : Env
moody_env = record env { controller = some answer }

abbrev asked : DisconnectInput
asked = record { session_id = 7 ∷ []; reason = bytes "admin"; force = false }

abbrev after_refusal : World
after_refusal = (disconnect_session moody_env asked redeemed).1

refused :
    disconnect_session moody_env asked redeemed ≡ (err (message (bytes "timeout")), after_refusal)
unfolding disconnect_session disconnect_found call_controller close_session enqueue_disconnect
    get_session_by_id update_session get put ◌==◌ bytes
refused = refl

-- The id has one byte, so the payload is that byte and the reason.
abbrev marshal : GatewayDisconnectPayload → Result Error Text
marshal p = elim p.session_id [
  | [] ↦ err (message [])
  | b ∷ bs ↦ elim bs [ [] ↦ ok (b ∷ p.reason) | c ∷ cs ↦ err (message []) ]
]

abbrev unmarshal : Text → Result Error GatewayDisconnectPayload
unmarshal [] = err (message (bytes "unexpected end of JSON input"))
unmarshal (b ∷ reason) = ok (record { session_id = b ∷ []; reason = reason })

abbrev pub codec : PayloadCodec
codec = record { marshal = marshal; unmarshal = unmarshal }

codec-ReadsBack : ReadsBack codec
codec-ReadsBack [] reason payload h = absurd (ground arith)
codec-ReadsBack (b ∷ []) reason payload h = ground arith
codec-ReadsBack (b ∷ c ∷ cs) reason payload h = absurd (ground arith)

session_found : Dict.get redeemed.store.sessions (7 ∷ []) ≡ some started
unfolding get put ◌==◌
session_found = refl

abbrev pub retry : Task
retry = record { type_name = task_gateway_disconnect; payload = 7 ∷ bytes "admin" }

disconnect_session-retried_example :
    (after_refusal.queue ≡ redeemed.queue ++ (7 ∷ [], reason_of asked) ∷ [])
    × ((w2 : World) × (t : Session) × (handle_gateway_disconnect moody_env codec retry after_refusal
          ≡ (ok tt, w2))
        × (Dict.get w2.store.sessions (7 ∷ []) ≡ some t)
        × (t.status ≡ SessionStatus.ended)
        × (t.disconnect_pending ≡ false))
unfolding disconnect_session disconnect_found call_controller close_session enqueue_disconnect
    get_session_by_id update_session get put new_gateway_disconnect_task ◌==◌ bytes
disconnect_session-retried_example =
    disconnect_session-retried moody_env codec retry asked redeemed after_refusal started
      (message (bytes "timeout")) answer (λ n. true) codec-ReadsBack refl refl refl refl
      session_found refl refused refl (λ t r. refl)

abbrev pub md5 : Text → Text
md5 t = replicate 16 1

abbrev coa : CoaController
coa = record { addr = bytes "10.0.0.1:3799"; key = bytes "s"; timeout = pos 3_000_000_000 }

-- An acknowledgement without attributes.
abbrev acknowledgement : Text
acknowledgement = 41 ∷ 7 ∷ 0 ∷ 20 ∷ replicate 16 1

abbrev network : Network
network = record { dial = λ a t. none; send = λ p. none; receive = ok acknowledgement }

abbrev no_ip : Text → Option Text
no_ip t = none

abbrev reason : Text
reason = bytes "admin"

coa_done : coa_disconnect md5 no_ip network 7 coa started reason ≡ ok tt
unfolding coa_disconnect coa_exchange coa_answer disconnect_attrs build_disconnect_request
    parse_packet parse_attrs bytes
coa_done = refl

coa_disconnect-ok_example :
    (packet : Text) × (request : RadiusPacket) × (datagram : Text) × (answered : RadiusPacket)
    × (network.send packet ≡ none)
    × (validate_request md5 packet coa.key ≡ true)
    × (parse_packet packet ≡ ok request)
    × (request.code ≡ 40)
    × (request.attributes ≡ disconnect_attrs no_ip started reason)
    × (network.receive ≡ ok datagram)
    × (parse_packet datagram ≡ ok answered)
    × (answered.code ≡ 41)
unfolding disconnect_attrs request_body bytes
coa_disconnect-ok_example =
    coa_disconnect-ok md5 (λ t. refl) no_ip network 7 coa started reason
      (omega arith, (omega arith, (omega arith, tt))) (omega arith) coa_done
