-- ===== src/Lib.antt =====
-- Wi-Fi Man, a voucher system for captive portals: the Go services of backend/internal, modelled function
-- by function.
--
-- Parts and files.
--   Common          shared names: tests, lists, byte texts, signed 64-bit integers with Go's wrap-around,
--                   maps as association lists, state with errors, decimal print, the
--                   rounding of a float64.
--   Util            backend/internal/util: Util/Mac.antt is NormalizeMAC, Util/TokenCode.antt the codes of
--                   vouchers (NormalizeTokenCode, HashTokenCode, GenerateTokenCode).
--   Domain          backend/internal/domain/models.go and the sentinel errors of service/errors.go.
--   Store           backend/internal/repository: Store/Memory is memory.go, a definition for each method;
--                   Store/Postgres is postgres.go (the transactions, Scan for what pgx reads into, and Plans,
--                   Tokens, Sessions and Payments for the tables), over the driver of Store/Sql.
--                   Store/Spec.antt is what the services rely on of a store of vouchers, as steps.
--   Config          backend/internal/config/config.go, and the choices that backend/cmd/api/main.go makes.
--   World           the state that the services change: the store, and counters for what is outside of it.
--   Service         backend/internal/service: Service/Gateway.antt is gateway_service.go and the fallback
--                   controller, Service/Audit.antt audit_service.go, Service/Token the parts of
--                   token_service.go (Policy, Expiry, Redeem, Revoke, Generate), Service/Quota,
--                   Service/Session, Service/Plan, Service/Payment and Service/Radius the files of
--                   those names; Service/Radius/Packet.antt is the packet codec of gateway_client.go
--                   and radius_server.go, Service/Radius/Server.antt the handlers of one packet;
--                   Service/Gateway/Controllers.antt is the HTTP and the RADIUS controller.
--   Jobs            backend/internal/jobs: the tasks, the worker's handlers and the producer.
--   Http            backend/internal/http: Http/Router is server.go, from the table of routes to the answer,
--                   Http/Handlers.antt the JSON handlers of handlers/, Http/Portal.antt, Http/Html.antt and
--                   Http/Context.antt handlers/portal_handler.go, Http/Errors.antt handlers/common.go, and
--                   Http/Middleware.antt the role check, the rate limit and the request id.
--   Program         the running program: HTTP requests, RADIUS packets and disconnect tasks as steps in any
--                   order, and what each service keeps of a voucher that shuts a device out.
--   Tests           the theorems at concrete inputs, and runs of the definitions.
--
-- How Go is read. A method that changes state and returns an error is a function from a world to a result
-- and the next world; what was written before an error stays written, as in the memory store. Store methods
-- run under the store's mutex, so each is one step. An `int` and an `int64` are integers with the wrap at
-- 2 ^ 63 written out, a time is a number of nanoseconds, a float64 its bit pattern, a string its bytes. The
-- clock, uuid, crypto/rand, the digests, the formatting of times, the controller of the gateway and the job
-- queue are an `Env`, an argument of every service. A Go map is an association list; the order of `range`
-- is the order of the list, and the theorems hold for every list.
--
-- The driver. pgx and PostgreSQL are a `Driver`: an abstract database with statements as data (a table, its
-- columns and values, conditions, an order), BEGIN and COMMIT. What the theorems rely on is the record
-- IsLawful: the rows of a table, what INSERT, UPDATE and SELECT do when they succeed, the unique columns of
-- backend/migrations, a view that sees what the pool sees, a commit that puts the view in its place, and for
-- each column the values that it keeps exactly. Any statement may fail. Transactions do not interleave:
-- what is proved of two of them is about one after the other. `with_tx` here, and the memory store's in
-- Store/Memory, are the two meanings of `WithTx`; the services are proved over the memory store.
--
-- Requests. gin and the decoders of JSON are arguments: a request comes with the segments of its path, and a
-- body that does not decode is the text of an error. A JSON answer is the value that is encoded, a page the
-- values that its template is given. The HTTP client, the UDP socket and `net.ParseIP` are arguments of the
-- controllers, Redis and asynq of the limits and the jobs.
--
-- Bounds. The loop of a decimal print has as much fuel as its number's value and one, and each round divides
-- by ten. The loop over a packet's attributes has the packet's length as fuel: each attribute takes two bytes.
-- GenerateTokens draws again whatever error the store gives, so its loop may run for ever; its fuel counts the
-- codes drawn, and `none` stands for a loop that is still running. Text beyond ASCII is neither changed by
-- `strings.ToUpper` nor trimmed. `int(d.Seconds())` is rounded as Go's float64 is, to 53 bits and to
-- even, with numbers that count multiples of 2 ^ -82 (Common/Float.antt): a nanosecond, the least rest of a
-- second, has its last bit there. A byte is a number; MD5 is an argument that returns
-- sixteen of them.
--
-- Steps. In Program.antt a step handles one request, packet or task as a whole: the goroutines of two handlers
-- do not interleave inside a handler. The sweep of expired vouchers is modelled and proved in Service/Token/Revoke,
-- and is not a step.
--
-- Not modelled: the templates and the static files of the portal, the logging and metrics middleware, the
-- migration runner, the start and stop of the servers, the job worker and the scheduler, the sockets of the
-- RADIUS server, Close and WithLock of the stores, concurrent transactions, and the admin frontend.
pub mod Common
pub mod Util
pub mod Domain
pub mod Store
pub mod World
pub mod Service
pub mod Http
pub mod Config
pub mod Jobs
mod Tests
pub mod Program
