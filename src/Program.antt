-- ===== src/Program.antt =====
-- The running program: what backend/cmd/api/main.go starts, the HTTP server, the RADIUS server and the
-- worker of the jobs, as steps that each handle one request, one packet or one task. The steps come in
-- any order. The sweep of expired vouchers is not among them: its loop works on a list of the tokens
-- that was read before.
pub mod Accounting
pub mod Gateway
pub mod Vouchers
pub mod Requests
pub mod Pages
pub mod Served
pub mod OneDevice
use wi_fi_man.Common.{◌≡◌, some, Text}
use wi_fi_man.World.{Env, World}
use wi_fi_man.Jobs.{PayloadCodec, Task, handle_gateway_disconnect}
use wi_fi_man.Http.Router.Serve.{Request, Answer, Setting, serve}
use wi_fi_man.Service.Radius.Server.{handle_auth_packet, handle_accounting_packet}

module _ (env : Env) (g : Setting) (md5 : Text → Text) (codec : PayloadCodec) where
  pub data Step : World → World → Type 0 where
    -- a request to the router, on its way to any handler
    requested :
        {w w' : World} (q : Request) (a : Answer) → serve env g q w ≡ some (a, w') → Step w w'
    -- a datagram on the port for access requests, with the sender's address
    access_packet :
        {w w' : World} (raw remote : Text)
        → (handle_auth_packet env md5 g.cfg.radius_key raw remote w).1 ≡ w'
        → Step w w'
    -- a datagram on the port for accounting
    accounting_packet :
        {w w' : World} (raw remote : Text)
        → (handle_accounting_packet env md5 g.cfg.radius_key raw remote w).1 ≡ w'
        → Step w w'
    -- a task of the queue that repeats a disconnect
    disconnect_task :
        {w w' : World} (task : Task)
        → (handle_gateway_disconnect env codec task w).1 ≡ w'
        → Step w w'

  pub data Run : World → World → Type 0 where
    rest : {w : World} → Run w w
    then : {w v u : World} → Step w v → Run v u → Run w u
