-- ===== src/Lib.antt =====
-- The backend service of the digital domain (backend-service, in Go): an HTTP API that submits jobs to
-- an algorithm service, keeps them in a MySQL table, follows their progress over gRPC streams, pushes
-- it to browsers over WebSockets, and takes their results by a gRPC callback.
--
-- Models holds the records of backend-service/internal/models/models.go. Storage.Mysql models
-- internal/storage/mysql_store.go: its rows and statements (Table), the writes of one job (Writes), the
-- reads of one job (Reads), lists and statistics (Listing) and the cleanup of stale jobs (Zombies).
-- Storage.Redis models internal/storage/redis_cache.go, Ws.Client and Ws.Hub internal/ws/hub.go, Services
-- internal/services/job_service.go, GrpcServer internal/grpcserver/result_server.go, AlgoClient
-- internal/grpcclient/algo_client.go, Scheduler internal/scheduler/scheduler.go, Config
-- internal/config/config.go, Middleware the files of internal/middleware, and Http internal/http:
-- Server (the state of a Handler, and what submissions share), Jobs, Progress and System (handlers.go),
-- Modules (module_handlers.go), Router and Socket (router.go), Text and Query (the parts of the
-- standard library that they call); Lifecycle follows one job through them. A function keeps its name
-- in snake case; a method takes the state that it changes as its last argument and returns it beside
-- its result.
-- Startup models cmd/server/main.go: the parts started in their order over a Machine, which stands
-- for what main opens, and the steps after the signal. Scheduler.Ticks runs the entries of the cron
-- library second by second, whose reading of a specification is a parameter.
--
-- The handlers work on a Server: the job service (table, cache and hub), the client of the algorithm
-- service, and the watchers that were started. A call of the database or of the cache takes the next
-- entry of a schedule of faults, so a theorem over all states is one over all patterns of failure; a
-- failed statement changes nothing. The clock is an argument, in seconds. The algorithm service
-- (AlgoPeer), the backoff library (Backoff, with the bound on its retries as a law), the form in which
-- the driver hands over a text column, and the JSON printer and parser (Outside) are parameters.
-- Numbers of Go's type int keep their wrap-around where the code multiplies (page offsets) and parses.
-- A panic is `none`. The hub is shared between goroutines: Ws.Steps makes each section under its lock,
-- and each operation on a channel, one step, and follows them in any order;
-- Backend does so for the whole service: a Thread is what is left of the goroutine of a submission, of
-- a watcher, of a report, of a cancellation or of a cleanup, `perform` is its next access of the table,
-- the cache, the hub or the algorithm service, and a run lets them, the hub, the connections and the
-- readers take turns in any order over one shared state. What the middleware and the readers do there
-- is one step each. Board is the view of a client: one card for each job.
-- Middleware.Timeout lets the middleware and the goroutine of the handlers, which are any process on
-- any state, take turns in the same way. Http.Serve hands a request through the middleware of its
-- route, in the order of their registration, to its handler: each layer is a function of the rest of
-- the chain, Timeout with the chain going on behind a 504, and Recovery for a chain that does not
-- panic; Decided has the outcome as one decision, without the chain. Every loop recurs on a list or on the rounds that are
-- left, so no fuel is needed: watchProgress has three rounds, as in the source.
--
-- Not modelled: the transport (sockets, HTTP parsing, JSON text), connection pools, logging but for the
-- entry of a request, streams of progress that never end, the reuse of a gin.Context after a 504, waits
-- without an end at the shutdown (stopping a part is a switch),
-- generated code, and the Python algorithm service. Statements run one at a time;
-- columns compare byte by byte; texts of scheme codes are ASCII.
pub mod Common
pub mod Models
pub mod Storage
pub mod Ws
pub mod Services
pub mod GrpcServer
pub mod Middleware
pub mod AlgoClient
pub mod Scheduler
pub mod Config
pub mod Http
pub mod Startup
mod Tests
pub mod Backend
