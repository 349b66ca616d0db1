-- ===== src/Executor/Action.antt =====
-- One action of a plan in src/sync/plan-executor.ts: `withIoRetry`, `executeVerifiedAction`,
-- `publishObservedMatch` and `executeAction`. Permits, the mutation barrier and the log are left out.
pub mod Attempts
pub mod Settled
pub mod Recorded
pub mod Success
use obsidian_air_sync.Prelude.{
  ℕ, zero, suc, ◌+◌, Bool, true, false, not, ◌&&◌, ◌||◌, Option, none, some, List, [], ◌∷◌, ◌++◌,
  Eq, ◌==◌, nat_eq, if◌then◌else◌,
}
use obsidian_air_sync.Types.Entity.{FileEntity, SyncRecord}
use obsidian_air_sync.Types.Action.{SyncAction, CompletedAction, TerminalActionProof, is_rename}
use obsidian_air_sync.Retry.{
  ThrownError, ErrorKind, rate_limit, ErrorClassification, RetryDecision, abort, stop, exhausted,
  retry, decide_retry,
}
use obsidian_air_sync.Commit
use obsidian_air_sync.Commit.{commit_action}
use obsidian_air_sync.Cycle.{SupersededAction}
use obsidian_air_sync.Cycle.Batch
use obsidian_air_sync.Cycle.Batch.{
  PriorityBatchState, Begin, run, invalidated, replaced, begin_action,
}
use obsidian_air_sync.Files.{
  Failure, proof_mismatch, terminal_invariant, external_io_failure, external_auth_failure, thrown,
  plain_error, Result, ok, failed, M, next, ◌>>=◌, ◌>>◌, pure, fail,
}
use obsidian_air_sync.Executor.Checks.{Machine, World, check_publication_inputs}
use obsidian_air_sync.Executor.Effects.{Entities, run_action_io}
use obsidian_air_sync.Executor.Terminal.{prove_admitted_terminal}

-- The classifier, the random numbers `draw attempt / denom`, and what waiting and the report of a rate
-- limit do meanwhile.
pub record Retrying (m : Machine) : Type 0 where
  pub classify : ThrownError → ErrorClassification
  pub draw : ℕ → ℕ
  pub denom : ℕ
  pub sleep : ℕ → World m → World m
  pub on_rate_limit : World m → World m

abbrev pub max_action_retries : ℕ
max_action_retries = 3

-- The loop of the source has no bound of its own: any fuel from `max_action_retries` on gives its result.
abbrev retry_fuel : ℕ
retry_fuel = 64

-- `unwrapFailure`
pub unwrap_failure : Failure → Failure
unwrap_failure (external_io_failure t) = thrown t
unwrap_failure (external_auth_failure t) = thrown t
unwrap_failure e = e

abbrev pub is_rate_limit : ErrorKind → Bool
is_rate_limit rate_limit = true
is_rate_limit _ = false

-- The wait before the next attempt, and whether a rate limit is reported; none where there is no next one.
abbrev pub pause_of : ErrorKind → RetryDecision → Option (Bool × ℕ)
pause_of kind (retry delay) = some (is_rate_limit kind, delay)
pause_of kind _ = none

module _ (m : Machine) (r : Retrying m) where
  classified : ℕ → ThrownError → Option (Bool × ℕ)
  classified attempt t =
      pause_of (r.classify t).kind
        (decide_retry (r.classify t) attempt max_action_retries (r.draw attempt) r.denom)

  pub pause : ℕ → Failure → Option (Bool × ℕ)
  unfolding classified
  pause attempt (thrown t) = if t.is_auth_failure then none else classified attempt t
  pause attempt terminal_invariant = classified attempt plain_error
  pause attempt _ = none

  module _ {A : Type 0} where
    after_failure : Option (Bool × ℕ) → Failure → M (World m) A → M (World m) A
    after_failure none e again w = (failed e, w)
    after_failure (some (limited, delay)) e again w =
        again (r.sleep delay (if limited then r.on_rate_limit w else w))

    after_attempt : ℕ → Result A × World m → M (World m) A → Result A × World m
    unfolding after_failure pause unwrap_failure
    after_attempt attempt (ok a, w) again = (ok a, w)
    after_attempt attempt (failed e, w) again =
        after_failure (pause attempt (unwrap_failure e)) (unwrap_failure e) again w

    pub attempts : ℕ → ℕ → M (World m) A → M (World m) A
    unfolding after_attempt
    attempts zero attempt io w = (failed (thrown plain_error), w)
    attempts (suc fuel) attempt io w = after_attempt attempt (io w) (attempts fuel (attempt + 1) io)

    pub with_io_retry : M (World m) A → M (World m) A
    unfolding attempts
    with_io_retry io = attempts retry_fuel 1 io

  abbrev committed :
      Commit.Result (Option SyncRecord) × m.db.State
      → m.fs.State
      → Result (Option SyncRecord) × World m
  committed (Commit.ok rec, d) f = (ok rec, (f, d))
  committed (Commit.err e, d) f = (failed (thrown plain_error), (f, d))

  unfoldable pub commit :
      SyncAction
      → Option FileEntity
      → Option FileEntity
      → Option TerminalActionProof
      → List CompletedAction
      → M (World m) (Option SyncRecord)
  commit a mine theirs proof completed w =
      committed (commit_action m.db m.committer m.now a mine theirs proof completed w.1) w.0

  -- An independent match publishes what was admitted.
  pub publish_observed_match : SyncAction → List CompletedAction → M (World m) CompletedAction
  unfolding commit
  publish_observed_match a completed = do
    rec ← commit a a.local a.remote none []
    pure (record {
      action = a;
      local_entity = a.local;
      remote_entity = a.remote;
      terminal_proof = none;
      terminal_record = rec;
    })

  abbrev local_of : Option TerminalActionProof → Entities → Option FileEntity
  local_of none entities = entities.local_entity
  local_of (some proof) entities = some proof.local_entity

  abbrev remote_of : Option TerminalActionProof → Entities → Option FileEntity
  remote_of none entities = entities.remote_entity
  remote_of (some proof) entities = some proof.remote_entity

  -- A rename cannot be replayed.
  pub action_io : SyncAction → M (World m) Entities
  unfolding with_io_retry
  action_io a = if is_rename a then run_action_io m a else with_io_retry (run_action_io m a)

  unfoldable pub execute_verified_action :
      SyncAction → List CompletedAction → M (World m) CompletedAction
  unfolding action_io commit
  execute_verified_action a completed = do
    check_publication_inputs m a completed
    entities ← action_io a
    proof ← prove_admitted_terminal m a entities completed
    rec ← commit a (local_of proof entities) (remote_of proof entities) proof completed
    pure (record {
      action = a;
      local_entity = local_of proof entities;
      remote_entity = remote_of proof entities;
      terminal_proof = proof;
      terminal_record = rec;
    })

pub data BlockedReason : Type 0 where
  invalidated_pending prefix_failed mismatched unauthenticated : BlockedReason

pub record ExecutionResult : Type 0 where
  pub succeeded : List CompletedAction
  pub superseded : List SupersededAction
  pub failures : List (SyncAction × Failure)
  pub blocked : List (SyncAction × BlockedReason)

abbrev pub no_results : ExecutionResult
no_results = record { succeeded = []; superseded = []; failures = []; blocked = [] }

-- The world, the batch of the cycle, the results and the number of reports of progress.
pub record Execution (m : Machine) : Type 0 where
  pub world : World m
  pub batch : PriorityBatchState
  pub result : ExecutionResult
  pub progress : ℕ

module _ {m : Machine} where
  abbrev pub block : BlockedReason → SyncAction → Execution m → Execution m
  block reason a s = record s {
    result = record s.result { blocked = s.result.blocked ++ (a, reason) ∷ [] };
    progress = s.progress + 1;
  }

  -- A fatal error is thrown once the batch has been aborted.
  abbrev pub fatal : Failure → Execution m → Option Failure × Execution m
  fatal e s = (some e, record s { batch = Batch.abort s.batch; progress = s.progress + 1 })

  abbrev fails : Failure → SyncAction → Execution m → Option Failure × Execution m
  fails e a s = (
    none,
    record s {
      result = record s.result { failures = s.result.failures ++ (a, e) ∷ [] };
      progress = s.progress + 1;
    },
  )

  settle_failure : Failure → SyncAction → Execution m → Option Failure × Execution m
  settle_failure terminal_invariant a s = fatal terminal_invariant s
  settle_failure proof_mismatch a s = (none, block mismatched a s)
  settle_failure (external_auth_failure t) a s = fatal (thrown t) s
  settle_failure (external_io_failure t) a s = fails (external_io_failure t) a s
  settle_failure (thrown t) a s =
      if t.is_auth_failure then fatal (thrown t) s else fails (thrown t) a s

  pub settle_result :
      SyncAction → Result CompletedAction × World m → Execution m → Option Failure × Execution m
  unfolding settle_failure
  settle_result a (ok done, w) s = (
    none,
    record s {
      world = w;
      result = record s.result { succeeded = s.result.succeeded ++ done ∷ [] };
      progress = s.progress + 1;
    },
  )
  settle_result a (failed e, w) s = settle_failure e a (record s { world = w })

  settle_begin :
      (List CompletedAction → M (World m) CompletedAction)
      → SyncAction
      → Begin
      → Execution m
      → Option Failure × Execution m
  unfolding settle_result
  settle_begin publish a (replaced replacement) s = (
    none,
    record s {
      result = record s.result { superseded = s.result.superseded ++ replacement ∷ [] };
      progress = s.progress + 1;
    },
  )
  settle_begin publish a invalidated s = (none, block invalidated_pending a s)
  settle_begin publish a run s = settle_result a (publish s.result.succeeded s.world) s

  -- The error that it throws, if any.
  unfoldable pub execute_action :
      (List CompletedAction → M (World m) CompletedAction)
      → SyncAction
      → Execution m
      → Option Failure × Execution m
  unfolding settle_begin
  execute_action publish a s =
      let (start, batch) = begin_action a s.batch in
      settle_begin publish a start (record s { batch = batch })
