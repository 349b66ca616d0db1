-- ===== src/Lib.antt =====
-- Air Sync synchronizes the files of a vault with a remote store. A cycle compares each path on
-- both sides with the record of what was synchronized last, admits actions, executes them, commits
-- one record per finished action, and closes with a checkpoint. Between cycles a tracker collects
-- the reports of the vault, and a scheduler asks for cycles.
--
-- Compare models src/sync/content-identity.ts, src/sync/change-compare.ts and
-- src/sync/decision-engine.ts: compare_content is compareContent, has_changed and
-- has_remote_changed are its two tests.
-- Store models src/sync/state.ts over Store.Interface, a record of the operations of the two object
-- stores and their documented laws; Store.Memory is a database in memory that meets the laws.
-- compare_and_put, compare_and_delete, compare_and_rewrite_paths and compare_and_put_content are
-- the methods of SyncStateStore of these names, each one transaction. A transaction that the unique
-- index would abort is none.
-- Commit models src/sync/state-committer.ts: commit_action is commitAction, its errors are values,
-- and its store is that of Store. The digest, the encoding and the reading of local bytes are
-- parameters in Context.
-- Tracker models src/sync/local-tracker.ts; a cycle takes a snapshot and acknowledges it after more
-- reports.
-- Scheduler models src/sync/scheduler.ts over the tracker: step is one event of the vault or of the
-- app, and the test of the sync scope is a parameter.
-- Cycle.Batch models src/sync/priority-batch-state.ts, Cycle.Finalization models
-- src/sync/sync-cycle-finalization.ts, over the records in Cycle; the calls to the checkpoint are
-- listed in order.
-- Coordinator models src/sync/priority-coordinator.ts, and Pool models
-- src/backend-api/async-queue.ts. An operation is the code between two suspensions, and a step
-- relation lets the operations follow each other in every order that the code allows. The loop of
-- drain has two units of fuel in the coordinator, one for each start of the loop; drain_turn-enough
-- says that one is enough. Decimal digits have 21 units, since the language prints a number below
-- 10^21 without an exponent. The binary search, the retries and the roots of a graph have fuel too;
-- all other loops are structural.
-- Arbitration models src/fs/caching/address-arbitration.ts, and the fold over the claims of one
-- path in src/fs/caching/claim-set-assignment.ts.
-- PathGraph models the class of this name in src/sync/plan-admission-graph.ts: root is its
-- recursive method with its compression, connect its method. Its fuel is the number of the paths in
-- all groups plus one: the heights of PathGraph.Rooted grow by at most one with each union.
-- Prune models src/sync/prune-empty-parents.ts over Directories, the two operations of the file
-- systems that it calls. WakeLock models src/sync/wake-lock.ts, one function for each stretch of
-- code between two suspensions. Retry models src/backend-api/error-classification.ts: the
-- classification by status and the retry decision, with delays as exact fractions.
-- Files models src/fs/interface.ts, the calls of the two file systems: each gives a result and the
-- state after it, so that what other programs do meanwhile is part of it. Resolver models
-- src/sync/content-snapshot.ts in Resolver.Snapshot, src/sync/conflict-policy-admission.ts in
-- Resolver.Policy and src/sync/conflict-resolver.ts in Resolver.Resolve.
-- Executor models src/sync/plan-executor.ts over Files, Store, Commit, Cycle.Batch, Retry and
-- Prune: Executor.Checks has checkPublicationInputs, Executor.Effects runActionIO,
-- Executor.Terminal proveAdmittedTerminal, Executor.Action executeAction with its retries,
-- Executor.Conflict executePreparedConflictEffects with the publication in executeConflictAction of
-- a conflict at one path, and Executor.Plan executePlan, which takes the publication of a conflict
-- as an argument: publish_conflict of Executor.Conflict.Publish, or the preservation cover, which
-- is not modelled. The contract of a conflict at one path is that of
-- src/sync/conflict-action-contract.ts. The retry loop, which the source does not bound, has more
-- fuel than its policy allows attempts, and any fuel from three on gives the same kind of run. The
-- pool of independent actions is a list in the order in which they settle, each action one step;
-- permits, the mutation barrier, the log and the list of conflicts are left out.
-- Conflict models src/sync/conflict.ts: generate_conflict_path is generateConflictPath, over the
-- `stat` of the file systems.
-- Paths models src/utils/path.ts, with the binary search of pathsWithPrefix in Paths.Prefix, whose
-- fuel is the length of the array, and the eligibility test of src/sync/merge.ts. Types holds the
-- data that they share, Prelude the helpers, Samples the data of the tests.
--
-- Numbers are natural numbers: sizes, times and counters are never negative in the code, and where
-- the code subtracts, the invariant says that it does not go below 0. Strings are lists of UTF-16
-- code units. Maps and sets are lists in insertion order. Objects that the code compares by
-- identity carry a number.
--
-- Not modelled: the preservation cover of a conflict, the decision of a component, the remote
-- cache, the backends and the user interface.
pub mod Prelude
pub mod Types
pub mod Paths
pub mod Compare
pub mod Store
pub mod Commit
pub mod Tracker
pub mod Arbitration
pub mod Pool
pub mod Cycle
pub mod Coordinator
pub mod Scheduler
pub mod Conflict
pub mod Files
pub mod Resolver
pub mod Executor
pub mod Prune
pub mod PathGraph
pub mod WakeLock
pub mod Retry
pub mod Samples
