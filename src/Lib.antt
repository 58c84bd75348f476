-- ===== src/Lib.antt =====
-- A verification library for eth-custodial, the custodial signing service: what its database, its
-- workers, its subscriber and its HTTP interface do to the nonces, transactions and jobs that they
-- share.
--
-- Parts, and the code that each file models:
--   Prelude, Prelude/Tests, Prelude/Lists, Prelude/Sorting, Prelude/Int: shared names, tests, lists,
--     sorted lists, integers.
--   Jobs: the job arguments (internal/worker/*.go), keys and events.
--   Store: internal/store with queries.sql and migrations/*.sql. Types and Tables are the enum
--     tables and the rows; Queries and Selects hold one function for each query, which returns the
--     new tables or the error that Postgres answers; Queries/Inversion says what a query that
--     succeeded did; Unlocks has the statements of internal/worker/unlocker.go; Sound is the
--     invariant of the tables, Sound/Resent and Sound/Rewrites about new texts of transactions;
--     NonceOrder, Statuses, Selects/Pages, /Accounts and /ByHash are about the nonces, the statuses and
--     the listings.
--   World: the state that all workers share, and the monad M of state and errors; World/Hoare has
--     the triples, World/Inert the actions that nobody can see.
--   Runtime: what the code calls and does not implement, as the record Env: go-ethereum, w3,
--     ethutils, math/big, ge-publish, the chain's answers, the clock, and which calls fail.
--   Pg: the methods of Pg (internal/store), transactions, River's inserts, Pub.Send
--     (internal/pub/pub.go). Pg/Rules, Pg/Safe, Pg/Steps and Pg/Inert are their rules.
--   Pg/Bootstrap: the master key at start-up (Bootstrap in internal/store/pg.go).
--   Chain: internal/worker/chain.go and util.go. Gas: internal/gas.
--   Worker: one function for each Work method of internal/worker: Signing (shared steps), Transfers,
--     System, Pools, Deploys, DispatchError, Dispatch, HealthCheck. Worker/Safety proves the
--     triples of the workers, Worker/Issue the contract of those that sign one transaction,
--     with Calls and Jobs for what is signed and queued, and, in Worker/Issue/Pools, of those that
--     sign three,
--     Worker/Resigner models internal/worker/resigner.go,
--     Worker/Dispatch/Outcome and Worker/Dispatch/Retrier what the two leave behind.
--     Worker/Unlocker models internal/worker/unlocker.go: Refusal, Recovery, Resign; its Scan, Fees,
--     Agreement and Outcome, and Worker/Safety/Unlocks, are about it.
--   Api: internal/api and pkg/api/api.go: Response and Requests, the handlers in Tokens, Pools,
--     Contracts, Accounts, Otx, Auth and Rpc, and the routes in Api itself. Api/Safety has the
--     triples of the handlers and what follows from them.
--   Sub: internal/sub/handler.go and sub.go. EnsClient: internal/ens_client/client.go, which the
--     deployment of a pool calls without looking at the answer.
--   Server: setupWorkers (internal/worker/worker.go) as one function, and histories of jobs,
--     messages and requests; Server/Journey follows one transfer to its final status.
--   Cmd: Service is the start of cmd/service (main.go, init.go), with State for its variables, New
--     for the constructors (internal/worker/worker.go, internal/sub/sub.go, internal/store/pg.go,
--     internal/jetstream) and Load for its functions; Calms, Calm and StartUp are about it.
--     Unlocker with Start, Nodes, Resign and Text is cmd/unlocker/main.go; Safety, DryRun, Count,
--     Tallies, Topup and Whole are about it, and Ascending about the order of texts.
--     ServiceToken is cmd/gen-service-token/main.go.
--   Tests: a concrete service, on which the theorems are applied.
--
-- State: World holds the committed database and the view of the open transaction. A transaction
-- begins with a copy, a commit publishes the view, and a worker that returns early has the view
-- dropped, as the deferred Rollback does. A commit that fails publishes nothing. Sequences are not
-- rolled back. Each call that leaves the process takes one tick of a clock, and Env.fails says
-- which ticks fail; the chain's answers depend on the tick. Events and raw transactions that left
-- the process are kept in lists.
--
-- Bounds: nonces are INT columns of Postgres, so an update or an insert beyond 2147483647 fails. The
-- scan of the unlocker recurses on the number of blocks, at most six; all other loops recurse on
-- lists; there is no fuel.
--
-- Simplifications: texts stand for the uuid columns, so the check that a tracking id is a uuid is
-- not made, and ids are not bounded by their columns. Jobs and messages are worked off one after
-- the other, so concurrent transactions, which Postgres orders by its row locks, are not
-- interleaved. The workers read the gas settings as a value. Logging is left out. A failed
-- statement ends the worker, as the code's early returns do. Where the unlocker begins a second
-- transaction before the end of the first, which is then rolled back, the model drops the first at
-- once. A queued dispatch job keeps the text it was queued with when the unlocker signs a
-- transaction again. The body of a request arrives bound, or not; the token is verified by
-- echo-jwt, whose answer is an argument.
--
-- Not modelled: the router and the other middleware of echo; what the connections, the migrations
-- and the JetStream consumer are set up with; the signals and the shutdown of cmd/service; key
-- generation.
pub mod Prelude
pub mod Jobs
pub mod Store
pub mod World
pub mod Runtime
pub mod Pg
pub mod Chain
pub mod Gas
pub mod Worker
pub mod Sub
pub mod Api
pub mod Cmd
pub mod EnsClient
pub mod Server
pub mod Tests
