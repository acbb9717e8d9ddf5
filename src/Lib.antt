-- ===== src/Lib.antt =====
-- AegisOps AI: an agent states what it wants to do to infrastructure, and the harness decides
-- whether it is done. Paths are from the root of the repository.
--
-- internal/harness is the core. A tool call passes five gates: the registry (`Gates/Registry`,
-- registry.go) knows the tool and checks the parameters against their schema; the permission gate
-- (`Gates/Permission`, permission.go) resolves the matrix for the kind of agent; the policy gate
-- (`Gates/Policy`, policy.go) finds the tier of the action and who has to say yes; the approval gate
-- (`Gates/Approval`, approval.go) applies a human's ruling; the executor (`Gates/Executor`,
-- executor.go) calls the tool. Both rule engines keep their compiled rules in the same cache
-- (`Gates/Cache`). harness.go puts the gates together (`Harness`): Evaluate is
-- `evaluate_request`, whose stages `gates`, `with_params`, `with_kind`, `with_verdict`,
-- `with_ruling` and `after_ruling` follow its early returns; onToolRequested is
-- `on_tool_requested`, ApplyApproval `apply_approval`, ExpirePending `expire_pending`; execute, deny
-- and record are `run_tool`, `refuse` and `record_audit`.
-- The entities are in `Domain`: `ToolCall`, `Rules`, `Execution`, `Audit` and `Chain`
-- (the hash chain of the ledger) for internal/domain/harness, `Incident` and `Timeline` for
-- internal/domain/incident, `Task` and `Agent` for internal/domain/agent, `User` for
-- internal/domain/user/user.go, `Identifier` for internal/domain/shared/id.go. `Shared` is
-- internal/domain/shared/errors.go, `Rbac` is internal/security/rbac/rbac.go.
--
-- Around the core: `Storage/Ledger` is the table of the ledger (internal/repository/postgres/audit.go:
-- Append is `append`, VerifyChain `verify_range`, LatestSeq `latest_seq`). `Bus` is the event bus
-- (internal/events/inproc/bus.go): `Topic` the matching of patterns, `Queues` Publish, Subscribe,
-- Unsubscribe and Close, `Delivery` deliver and work; `Harness/Subscribed` runs the harness's handler
-- behind it. `Auth` are refresh tokens: `Token` (internal/domain/user/session.go), `Sessions`
-- (internal/repository/postgres/session.go), `Service` and `Login` (Refresh, Logout, LogoutAll and
-- Login of internal/services/auth.go, which write to the ledger by `append`). `Migrate` is
-- internal/database/migrate/migrate.go: `Load`, and `Runner` with Up, Down and Status.
--
-- `Agents` is internal/agents, which proposes the tool calls. `Evidence` is agent.go, `Specialists` the
-- seven agents of specialists.go (an Execute is `execute_monitoring` and so on), `Wording` their texts
-- and the reading of a plan in reasoning.go; `Tools/Catalog` is internal/tools/catalog.go, against which
-- their requests are checked. `Orchestrator` and `Investigation` are orchestrator.go: Investigate is
-- `investigate`, which goes on by its early returns through `loaded`, `gather`, `with_evidence`,
-- `diagnose`, `concluded` and `remediate`; `Admission` is onIncidentDetected with the map of running
-- investigations. `Storage/Incidents` is internal/repository/postgres/incident.go.
--
-- State is passed explicitly. `Harness.World.World` holds the tables (with the SQL of
-- internal/repository/postgres/toolcall.go as updates of lists of rows), the two caches, the ledger,
-- the timeline, the bus and the calls of tools made so far. Every call of a port takes one step, and
-- what the outside answers (clock, fresh identifiers, rules, failures of reads and writes, the tool)
-- is a function of the step in `Env`, so the theorems hold for every pattern of failures. A handler
-- runs without interruption; runs of events are sequences of handlers. Concurrency inside one
-- handler is modelled only as far as the cache: the steps of a lookup and an invalidation. The
-- goroutines of the orchestrator are programs of atomic steps (`Agents/Program`) on the shared tables,
-- bus and evidence; the first wave of agents, and all investigations, interleave step by step in any
-- order. Calls that
-- the code makes under a lock or in one transaction are steps elsewhere too: of the bus, of the table of
-- sessions, of the ledger and of the migration runner, and what runs at the same time is any sequence
-- of them.
--
-- Identifiers and times are natural numbers with 0 for the nil identifier and the zero time;
-- float64 values are exact multiples of 2^-1074 beside the infinities and NaN; Go's int is ℤ
-- without overflow, since the counters and lengths that use it are far below its bounds. A map is the
-- list of its entries. Every loop is structural recursion, so no fuel is needed; the delivery of an
-- event counts the attempts that are left, as many as its configuration has. Texts that the code
-- composes for humans are constructors of `Note` without their wording. regexp.Compile and
-- the conversions to and from float64 are the parameter `Host`, SHA-256, the texts of identifiers and
-- instants and what a TIMESTAMPTZ column keeps of an instant the parameter `Format`; a tool, the hasher of passwords, the signer of access tokens, the
-- handler of an event and the effect of a SQL text on a schema are parameters too.
--
-- The reasoner and json.Unmarshal are parameters of the agents, and an agent is a parameter of the
-- orchestrator.
--
-- Not modelled: the HTTP API, the prompts of the reasoner, the time limits and the shutdown of
-- investigations, the services over incidents and approvals, the hashing of passwords, the rate
-- limiter, the tables beyond the tool calls, the ledger, the sessions, the incidents, the tasks and
-- the users that Login touches, SQL beyond the statements named, configuration, and logging.
pub mod Base
pub mod Shared
pub mod Domain
pub mod Rbac
pub mod Gates
pub mod Harness
pub mod Storage
pub mod Bus
pub mod Tools
pub mod Agents
pub mod Auth
pub mod Migrate
pub mod Examples
