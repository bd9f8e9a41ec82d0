-- ===== src/Lib.antt =====
-- chamicore: a node-management system for clusters. Modelled here are the core of its power service
-- (services/chamicore-power), which switches nodes on and off through their baseboard controllers
-- (BMCs), and the guardrails of its tool server (services/chamicore-mcp).
--
-- A syncer derives the topology mappings from the inventory service (SMD) and replaces the stored
-- ones by them. A client asks the power service for a transition: an operation on a list of nodes.
-- The engine looks up the BMC of each node in the topology mappings, stores a transition with one
-- task for each node, and puts the tasks that have a mapping into a bounded queue. Workers take
-- tasks from the queue, wait for a slot of the BMC, run the operation with retries, read the power
-- state back until it is the expected one, and record the outcome. The outcome of the last task
-- ends the transition. The tool server lets a language-model client call tools; before a call it
-- checks the mode, the scopes of the session and, for destructive calls, a confirmation.
--
-- Files:
--   Prelude (with Lists, Int, Results, Tests): names of the library passed on, `length` and the
--     Boolean tests on the native numbers, integers, results, and the case lemmas.
--   Text (with Trim, Fold, Order, Unique, Affix, Quote, Split): strings as lists of code points, and
--     what the code uses of Go's packages strings, sort and of the verb %q.
--   Dict: a Go map with text keys, as an association list.
--   GoError: the error values, with errors.Is and errors.As over their chains.
--   Model: services/chamicore-power/internal/model/mapping.go.
--   Engine: services/chamicore-power/internal/engine.
--     Errors: MarkRetryable and IsRetryable. Config: normalizeConfig. Backoff: retryDelay and
--       cryptoJitter. Retry: executeWithRetry. Types: the records. Verify: verify.go.
--     Progress (with Accounts, Final): markTransitionRunning, recordTaskOutcome,
--       finalTransitionState and AbortTransition, on the map of running transitions.
--     Queue (with Order): queue.go. Tasks (with Outcome): executeTask and completeTask.
--     Start (with Counts, Registered): StartTransition.
--     Limiter (with Slots): acquireBMCLimiter and bmcLimiter, with the channels as cells of a heap.
--     System (with Outstanding, Sound, Invariant, Traces): the runner with its requests,
--       queue, workers and aborts as a step relation, one step for what one goroutine does
--       between two points where another can overtake it.
--     Redfish (with Named, Paths, Cached, Classified, Tests): redfish_executor.go and noop.go.
--     Tests: the engine on concrete inputs.
--   Store: services/chamicore-power/internal/store.
--     Table: a table by its primary key. Mappings (with Transaction, Query, Desired, Replace,
--       Resolve): the topology tables, ReplaceTopologyMappings and ResolveNodeMappings. The foreign
--       key of the links is that of migrations/postgres. These two are about postgres_mapping.go.
--     Transitions (with Events, Create, Told, Inserted, Created, Update, Updated, TaskUpdated, Query,
--       Listed, Latest, Runner, Tests): postgres_transition.go and events_transition.go: the tables
--       of transitions, tasks and events with the keys of migrations/postgres, each operation as a
--       transaction. Runner is about the engine that runs on this store.
--   Sync (with Links, Assigned, Stored, Cycle, Loop, Tests): services/chamicore-power/internal/sync/
--     smd_sync.go: buildDesiredMappings, what its result is once it is stored, SyncOnce with its status, and the
--     loop of Run with its ticker.
--   Server (with Targets, Pagination, Transitions, Status, Tests): services/chamicore-power/internal/
--     server. Targets and Pagination: the nodes that a request names, by themselves and by groups, and
--     the page of a list. Transitions (with Starting, Started): the other handlers of
--     handlers_transitions.go and those of handlers_actions.go. Status (with Asked, Recent, Shown):
--     handlers_status.go; Recent and Shown are about it together with the store of transitions.
--   Mcp: services/chamicore-mcp/internal.
--     Policy (with Scopes, Mode, Confirm, Tests): policy/scopes.go, policy/mode.go and
--       policy/confirm.go. Value: decoded JSON arguments.
--     Server (with Session, Contract, Calls, Results, Http, Tests): server/http_auth.go,
--       server/contract.go, the request handler of server/stdio.go with server/policy.go,
--       server/caller.go and server/http_sse.go. Calls.Gates and Calls.Audit are about the gates and
--       the audit record of a tool call over JSON-RPC, Http.Gates and Http.Audit over HTTP.
--     Audit (with Targets, Redaction, Tests): audit/logger.go.
--
-- Numbers: counters and the clock are natural numbers. Durations are integers of nanoseconds, with
-- the wrap-around of 64 bits written out where the code adds, multiplies or converts; the conversion
-- from floating point that is out of range is a parameter, with the two machines Go runs on.
-- Text is not decoded from UTF-8: it is a list of code points. White space is that of Go's
-- unicode.IsSpace, case folding is that of the letters the code compares with; where both
-- texts may be any, the representative of a case orbit is a parameter (see Text.Fold).
--
-- Loops: retries recurse on the attempts that are left. The polling of Verify has a bound on its
-- rounds; a bound past the end of its window is enough. The loops over lists recurse on the list. The
-- loop of the syncer recurses on the list of what wakes it until its context is canceled.
--
-- Parameters: the store, the executor, the power-state reader, the SMD updater, contexts, the clock
-- and the random source are arguments, since what they answer is decided outside the code modelled;
-- so are the database, statement by statement, the decoders of JSON, base64 and YAML, and the caller
-- that carries a tool out.
--
-- Not modelled: logging, tracing, metrics, HTTP routing, response headers and the text of JSON, SQL
-- text, the tools of the tool server (services/chamicore-mcp/internal/tools), which call clients of
-- other services, its line loop over standard input, the reading of configurations and tokens, the
-- service template and the commands.
pub mod Prelude
pub mod Text
pub mod Dict
pub mod GoError
pub mod Model
pub mod Engine
pub mod Mcp
pub mod Server
pub mod Store
pub mod Sync
