-- ===== src/Lib.antt =====
-- Cann-o-Call: the durable event log, the authority over the semantic state, the controller of the
-- actors, the chain of receipts, the registry of tasks, the capabilities, the quarantine store,
-- the line difference, the way of a source packet through the authority into the context graph and
-- its scores, and the files of a workspace.
--
-- An `Authority` (internal/transition) decides on proposals. What it accepts it hands to a durable
-- writer, the event log `Service` (internal/eventlog), which chains events by hash, has them
-- acknowledged by a Rust ledger over HTTP, and mirrors them in a file of JSON lines. At a restart
-- the log is read again, from the file or from the ledger, its chain is checked, and the authority
-- is rebuilt by replay. The actor `Controller` (internal/actorstub) admits activations under
-- limits on their number, depth and budget; it shares no state with these two. The receipts
-- `Service` (internal/receipts) keeps a second hash chain, of what was delivered, one file to a
-- receipt. The `Registry` (internal/progress) holds the live tasks, which do not survive a
-- restart. The capability `Manager` (internal/capability) runs registered executors on requests
-- and proposes the results of the mutating ones to the authority; its executions are tasks of the
-- registry. The quarantine `Store` (internal/quarantine) keeps refused files and the decisions on
-- them, one file to an item. `Lines` (internal/diff) compares two versions of a text. The
-- `Orchestrator` (internal/orchestrator) takes source packets (internal/ingest) in: the authority
-- accepts a packet as a transition, and only then does the graph `Store` (internal/graph) take it
-- up and draw the context graph again, from all its packets. A `Workspace` (internal/workspace)
-- holds the files of one archive with their directories. Scoring (internal/scoring) ranks the file
-- nodes of the graph for a query and selects those that may wake an actor, which gets a bounded
-- `ContextPacket` (internal/contextpacket).
--
-- Files, and the code that they model:
--   Json, Json/Canonical: `writeCanonical` of internal/transition/authority.go, on decoded
--     values
--   EventLog, EventLog/Service: internal/eventlog/eventlog.go, from `Event` to `Append` and
--     `forward`
--   EventLog/History: `ValidateHistory` of internal/eventlog/list.go, `Verify` of verify.go
--   EventLog/Read: `New` and `load` of eventlog.go; `List`, `CheckedEvents` and
--     `RustAcknowledgedEvents` of list.go
--   Transition, Transition/Encode, Transition/Apply, Transition/Propose:
--     internal/transition/authority.go
--   Transition/Rebuild, Transition/Checkpoint: internal/transition/rebuild.go
--   Actor, Actor/Activate, Actor/Lifecycle: internal/actorstub/actor.go
--   Receipts: internal/receipts/receipts.go
--   Progress: `ProgressPacket` of internal/progress/packet.go, internal/progress/task.go
--   Capability: descriptor.go, errors.go, executor.go, request.go, result.go and registry.go
--     of internal/capability
--   Capability/Manager: internal/capability/manager.go
--   Capability/Integration: internal/capability/progress_integration.go
--   Progress/Registry: internal/progress/registry.go, with `DeterministicTaskID` of packet.go
--   Quarantine: internal/quarantine/store.go
--   Diff: internal/diff/diff.go
--   Ingest: internal/ingest/identity.go and packet.go; Ingest/Propose:
--     internal/ingest/transition.go
--   Graph, Graph/Links, Graph/Build, Graph/Store: internal/graph/graph.go, builder.go and
--     store.go
--   Scoring, Scoring/Select: internal/scoring/scorer.go and selection.go
--   ContextPacket: internal/contextpacket/packet.go
--   Orchestrator, Orchestrator/Context, Orchestrator/Query:
--     internal/orchestrator/orchestrator.go
--   Workspace: internal/workspace/files.go, types of model.go, and `IsSafePath` of parser.go
--   Prelude: `int64` with its wrap-around, texts, sorting, decimals, maps, and results with an
--     error
--   The files below these hold proofs; each Examples holds tests and the theorems at one
--     input.
--
-- Parameters: `strings.ToLower`, `strings.EqualFold`, `strings.Fields`, `path.Dir`,
-- `filepath.Join` and the tables of letters and digits, `json.Marshal` and `json.Unmarshal` at the
-- structs, `json.Decoder`, SHA-256, the policy and the durable writer are arguments, and the
-- theorems hold for every choice that satisfies the hypotheses that they name. The clock, the
-- sidecar, the disk and Proto.Actor answer through a `World`, one for each call; a failed write
-- leaves the file with arbitrary lines. A call is one step, as each operation holds its mutex
-- throughout, but for three. `ExecuteWithProgress` holds none between `Begin` and `Complete`: the
-- calls in between are an argument. `Query` and `Ingest` call several components in turn; they are
-- modelled as runs that no other call comes between.
--
-- Bounds: `ensure_dir` runs on as many steps as the path is long and one, `add_parents` likewise,
-- and `values` on as many as the text has bytes and one; this is what Build/Depth and Links/Enough
-- are about. Scores are whole numbers of a unit, and a threshold the least number of eightieths
-- that reaches the source's float. `decimal` runs on as many steps as the number and one, which is
-- more than it has digits; the limits of 10 MiB and 64 MiB on a line are those of the code. The
-- sequence and the budgets wrap as `int64`, the version as `uint64`. Maps are lists of entries,
-- and random ids, the clock, the order of a directory and the order in which the map of edges is
-- visited are arguments. Controllers name an activation by its id, where the code shares a pointer
-- between the list and the map.
--
-- Not modelled: the HTTP server, the command line, the Rust sidecar, the adapters of ingest, the
-- parser of workspaces and the other packages under internal/, which the parts above do not call.
-- Of a progress packet, the metrics, the throughput and the ETA, which are floating-point or
-- counters that nothing in the registry reads, and `Validate`, which tests one of them; of the
-- tasks, `SetMetrics` and `ClassifyError`, which reads error texts; of the capabilities, the
-- elapsed time and the metadata of a result, the executors themselves, and the code under which an
-- error of the authority is filed, which depends on the words of its message; of the receipts,
-- `Get` and `List`, which only read; of scoring and of a query, the coverage, a quotient of floats
-- that nothing reads. Where lower-casing moves a position into the middle of a character,
-- `extract_links` leaves that character out, where Go keeps its last bytes.
pub mod Prelude
pub mod Graph
pub mod Ingest
pub mod Json
pub mod Actor
pub mod EventLog
pub mod ContextPacket
pub mod Orchestrator
pub mod Scoring
pub mod Transition
pub mod Workspace
pub mod Capability
pub mod Diff
pub mod Progress
pub mod Quarantine
pub mod Receipts
