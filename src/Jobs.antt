-- ===== src/Jobs.antt =====
-- backend/internal/jobs: the tasks, the worker's handlers and the producer. asynq, which keeps the
-- queue in Redis and hands the tasks to the worker, and `encoding/json` are arguments.
pub mod Retry
use wi_fi_man.Common.{
  Bool, true, false, List, [], ◌∷◌, Option, none, some, Text, bytes, is_empty, ◌==◌, if◌then◌else◌,
}
use wi_fi_man.Common.Exec.{Result, ok, err, ◌>>=◌, ◌>>◌, return, fail}
use wi_fi_man.Domain.{Error}
use wi_fi_man.World.{Env, World, M}
use wi_fi_man.Service.Gateway.{DisconnectInput, disconnect_session}
use wi_fi_man.Service.Token.Revoke.{sweep_expired_tokens}

pub record Task : Type 0 where
  pub type_name : Text
  pub payload : Text

pub record GatewayDisconnectPayload : Type 0 where
  pub session_id : Text
  pub reason : Text

abbrev pub task_sweep_expired_tokens : Text
task_sweep_expired_tokens = bytes "tokens:sweep_expired"

abbrev pub task_gateway_disconnect : Text
task_gateway_disconnect = bytes "gateway:disconnect"

-- `json.Marshal` and `json.Unmarshal` of the payload.
pub record PayloadCodec : Type 0 where
  pub marshal : GatewayDisconnectPayload → Result Error Text
  pub unmarshal : Text → Result Error GatewayDisconnectPayload

-- The empty struct is marshalled to the empty object.
abbrev pub new_sweep_expired_task : Task
new_sweep_expired_task = record { type_name = task_sweep_expired_tokens; payload = bytes "{}" }

unfoldable pub new_gateway_disconnect_task : PayloadCodec → Text → Text → Result Error Task
new_gateway_disconnect_task codec session_id reason =
    elim (codec.marshal (record { session_id = session_id; reason = reason })) [
      | err e ↦ err e
      | ok payload ↦ ok (record { type_name = task_gateway_disconnect; payload = payload })
    ]

-- `Producer.EnqueueDisconnect`, over the client's `Enqueue`.
unfoldable pub enqueue_disconnect_task :
    PayloadCodec → (Task → Option Error) → Text → Text → Option Error
unfolding new_gateway_disconnect_task
enqueue_disconnect_task codec enqueue session_id reason =
    elim (new_gateway_disconnect_task codec session_id reason) [
      | err e ↦ some e
      | ok task ↦ enqueue task
    ]

module _ (env : Env) (codec : PayloadCodec) where
  unfoldable pub handle_sweep : M (Unit {0})
  unfolding sweep_expired_tokens
  handle_sweep = do expired ← sweep_expired_tokens env; return tt

  -- `has_gateway` is `gatewayService != nil`.
  unfoldable pub handle_gateway_disconnect : Task → M (Unit {0})
  unfolding disconnect_session
  handle_gateway_disconnect task =
      if env.has_gateway
      then elim (codec.unmarshal task.payload) [
        | err e ↦ fail e
        | ok payload ↦ do
          session ←
              disconnect_session env
                (record { session_id = payload.session_id; reason = payload.reason; force = true })
          return tt
      ]
      else return tt

  -- `mux.ProcessTask`: the handler of the task's type; `unknown` is asynq's answer where none matches.
  unfoldable pub process_task : Error → Task → M (Unit {0})
  unfolding handle_sweep handle_gateway_disconnect
  process_task unknown task =
      if task.type_name == task_sweep_expired_tokens
      then handle_sweep
      else if task.type_name == task_gateway_disconnect
      then handle_gateway_disconnect task
      else fail unknown

-- The schedule of `NewScheduler`.
unfoldable pub sweep_schedule : Text → Text
sweep_schedule sweep_cron = if is_empty sweep_cron then bytes "@every 1m" else sweep_cron
