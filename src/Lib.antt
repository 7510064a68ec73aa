-- ===== src/Lib.antt =====
-- The control plane and the worker of the FootballAI analysis platform (v2/src/footballai_v2): the
-- contract of an analysis attempt, the rules by which a stored attempt may change, the repository on PostgreSQL, the two
-- job queues, the object storage in memory, direct uploads, and the policy for deployments.
--
--   Prelude      shared names: Boolean tests, Python's `==` as an interface, lists, texts, exceptions
--                as values (`Result`, with one constructor of `Error` for each exception class)
--   Contract     contracts/v1/analysis_run.py. `Text` and `Json` hold the validators of texts and JSON
--                values, `References`, `Stage` and `Run` the dataclasses with their `__post_init__`,
--                `Transitions` the constructors and lifecycle methods of `AnalysisRun`.
--                `Run.Shape` and `Run.Manifest` describe a valid run independently of the code,
--                `Operations` treats the lifecycle methods as one family, `Retry` a retry.
--   Lifecycle    storage/lifecycle.py: the transition table and the provenance comparison
--   Repository   storage/postgres/repository.py over the tables of storage/postgres/schema.py (`Tables`), with
--                proofs in `Lookup`, `Saves`, `Locking`, `History` and `Immutability`
--   LocalStore   storage/local_analysis_runs.py. `Tree` is the directory tree, `Runs`, `Files` and `Lists` the methods.
--                `Rules`, `Growth`, `Steps`, `Objects`, `History`, `RoundTrip` and `Listing` are proofs.
--   Queue        execution/contracts.py and execution/queue/local_filesystem.py. `Jobs`, `Files` and `Local`
--                are the code; `Service` is the interface of execution/queue/base.py; `Records`,
--                `Conservation`, `Recovery`, `Invariant`, `Claims`, `Drained`, `Presence`, `Finality`,
--                `Single`, `Settling` and `Handover` are proofs about the file tree, named for what they are about.
--   Bus          execution/queue/azure_service_bus.py (`Broker`, with proofs in `Delivery` and
--                `Settlement`) and execution/queue/lock_renewal.py (`Renewal`, with a proof in `Lifetime`)
--   Storage      storage/object_storage: the artifact paths of the contract (`Paths`), keys.py (`Keys`) and
--                memory.py (`Memory`, `Inputs`). `Lookup`, `Confinement`, `Separation`, `RoundTrip` and `WriteOnce` are
--                proofs.
--   Execution    execution/executor.py. `Action` has the effects (ports, clock, exceptions), `Pipeline` what it
--                asks of a pipeline, `Stages` the stage loop, `Publication` the artifacts, `Executor` the rest.
--                `Triple` is a logic of such actions, `Keeps` and `Rounds` what all of them keep, `Ending`,
--                `Completion`, `Early` and `Gate` how an execution ends. `Worker` is the loop of worker.py over
--                `Queue`, with a proof in `Turns`.
--   Uploads      storage/upload_service.py over `Storage`, `Repository` and `Queue`, with a proof in `Repeats`
--   Coordinator  retry and clone of execution/coordinator.py over `Repository`, `Storage` and `Queue`, with proofs in
--                `Compensation`, `Planned` and `Delivery`
--   Policy       infra/terraform/scripts/plan_policy.py: what a Terraform plan may change, with proofs in
--                `Parts`, `Workloads` and `Verdict`. `Recovery` and its children:
--                infra/terraform/scripts/p6_plan_policy.py, the policy for one reviewed plan.
--   Tests        sample attempts, tests by evaluation, and the theorems at concrete inputs
--
-- A frozen dataclass is a record, and its constructor (`stage_execution`, `analysis_run`) runs the
-- checks of `__post_init__` in the order of the code; `dataclasses.replace` is the constructor at the
-- updated record. A method that reads the clock or makes a UUID takes the value as an argument. A
-- timestamp is a number of microseconds since the epoch in UTC, so naive datetimes do not occur; counts
-- are natural numbers, so negative ones do not occur. A field holds a value of its annotated type: the
-- `isinstance` checks have nothing to refuse. An exception keeps its class and the fixed part of its
-- message. A finite float is a fraction m / 2^k, which is exact.
--
-- A repository method is one transaction from a database to a result and a database: the row locks let
-- no other writer in between, and an exception leaves the database as it was. The manifest column holds
-- the run itself, since the JSON codec (`to_dict`, `from_dict`) is not modelled. The tables carry
-- their primary keys, the unique pair of logical analysis and attempt number, and the foreign key.
--
-- A queue method is one step on a file tree: a list of files, each in one of the five state directories
-- under the name that the code gives it, and the list of reservations. `os.replace` is called on a source
-- that exists, and the five directories differ, so it never raises there. A record's bytes are the entry
-- type: unreadable, or the fields that are handed to the constructor of `ExecutionJob`.
--
-- The local store is a list of the entries of its root, by name. A run's directory has its manifest (absent, a
-- link, a file that raises when it is read and decoded, or a run), the marker of a cancellation, the
-- files of its input directory, and the entries below it by path. `os.replace` and exclusive creation are
-- one step each. Whether a path resolves to one in the directory of its run is a parameter: it depends on
-- the links among the directories. Errors of the file system itself, such as a full disk, are left out.
--
-- The broker and the waits of the renewal thread are environments: the messages that Service Bus delivers
-- and the outcome of each wait are lists, in their order, and the calls on the broker are a result. A
-- message that is not settled comes back in a later list. Seconds of a renewer are natural numbers, for
-- which the sum in floating point is exact as well.
--
-- An execution is an action on a world: the database, the objects, and the executor's local variable that
-- its exception handlers read. The queue is no part of it: a round of the worker holds it still from the
-- claim to the dispatch, so that neither another worker's recover_abandoned nor a cancel of the API comes
-- in between. Before each call of a port other processes act: an environment gives
-- what they call on the repository and what they do to the objects at that turn, and the value of each
-- reading of the clock. A pipeline, which computes the artifacts, is a function from the run, its input
-- and the answers of the cancellation callback; `json.dumps` and `float` of a text are parameters.
--
-- An object's key and its bytes are lists of numbers, its metadata a record, and the SHA-256 digest a
-- parameter of the storage, of which nothing is assumed. The contract's constructor of an artifact
-- reference stands in `Storage.Paths`, with the path rule that it calls.
--
-- Every recursion is structural; the loop of a Service Bus claim counts down the 16 turns of the code,
-- and nothing else runs on fuel.
--
-- Not modelled: the ingestion of uploads by the coordinator, the Azure Blob storage, the weighted progress, the
-- readiness probes, the V1 statistics and tracking, the import of V1 outputs, and everything around machine-learning libraries, Azure SDKs, HTTP and user interfaces.
mod Prelude
pub mod Contract
pub mod Lifecycle
pub mod LocalStore
pub mod Repository
pub mod Queue
pub mod Bus
pub mod Storage
pub mod Uploads
pub mod Policy
pub mod Coordinator
pub mod Execution
pub mod Tests
