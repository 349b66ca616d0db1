-- ===== src/Cycle/Finalization.antt =====
-- src/sync/sync-cycle-finalization.ts: how a cycle closes. A thrown value is a value, and the calls to
-- the checkpoint are listed in order. A `settle` runs its closeout once, as both of its callers do.
pub mod Closeout
pub mod Verdict
use obsidian_air_sync.Prelude.{
  ℕ, Bool, true, false, not, ◌&&◌, ◌||◌, Option, none, some, List, [], ◌∷◌, ◌++◌, Eq, ◌==◌, nat_eq,
  option_eq, every, any, if◌then◌else◌,
}
use obsidian_air_sync.Prelude.Text.{Str, str_eq}
use obsidian_air_sync.Prelude.Dict
use obsidian_air_sync.Prelude.Dict.{Dict}
use obsidian_air_sync.Types.Entity.{FileEntity, SyncRecord}
use obsidian_air_sync.Types.Action.{
  SyncAction, RecordPublication, CompletedAction, same_action, is_rename, proves,
}
use obsidian_air_sync.Cycle.{AdmissionDisposition, is_authorized, is_failed, SupersededAction}

-- Of a failed or a blocked action the closeout reads only that there is one.
pub record ExecutionResult : Type 0 where
  pub succeeded : List CompletedAction
  pub superseded : List SupersededAction
  pub failed : List SyncAction
  pub blocked : List SyncAction

pub record SyncCycleFinalizationInput : Type 0 where
  pub dispositions : List AdmissionDisposition
  pub result : ExecutionResult
  pub scope_fingerprint : Str
  pub checkpoint_blocked : Bool

pub data SyncCycleCompletion : Type 0 where
  clean follow_up incomplete : SyncCycleCompletion

-- `new Map(result.succeeded.map(...))`: the last receipt of an action counts.
pub succeeded_of : List CompletedAction → Dict ℕ CompletedAction → Dict ℕ CompletedAction
succeeded_of [] m = m
succeeded_of (c ∷ cs) m = succeeded_of cs (Dict.set c.action.ref c m)

pub superseded_of : List SupersededAction → Dict ℕ SyncRecord → Dict ℕ SyncRecord
superseded_of [] m = m
superseded_of (x ∷ xs) m = superseded_of xs (Dict.set x.action.ref x.terminal_record m)

-- `publication?.source !== undefined && publication.source.path !== action.path`
moves_record : SyncAction → Bool
moves_record a = elim a.publication [
  | none ↦ false
  | some p ↦ elim p.source [ none ↦ false | some source ↦ not (source.path == a.path) ]
]

abbrev is_defined {ℓ} : {A : Type ℓ} → Option A → Bool
is_defined none = false
is_defined (some a) = true

pub needs_proof : SyncAction → Bool
unfolding moves_record
needs_proof a =
    moves_record a || (is_rename a && (is_defined a.content || is_defined a.descendant_records))

-- `succeeded.get(action)?.terminalProof?.action === action`
completed : Option CompletedAction → SyncAction → Bool
unfolding needs_proof
completed none a = false
completed (some c) a = not (needs_proof a) || proves c.terminal_proof a

is_pull_of : AdmissionDisposition → SyncAction → Bool
is_pull_of d a = elim d.priority_pull_action [ none ↦ false | some pull ↦ same_action pull a ]

pub remote_key : SyncAction → Option Str
remote_key a = elim a.remote [ none ↦ none | some entity ↦ entity.identity_key ]

replacement_holds : Option SyncRecord → SyncAction → Bool
unfolding remote_key
replacement_holds none a = false
replacement_holds (some r) a = r.path == a.path && some r.remote_identity_key == remote_key a

-- `terminal`
pub terminal : ExecutionResult → AdmissionDisposition → SyncAction → Bool
unfolding succeeded_of superseded_of completed is_pull_of replacement_holds
terminal result d a =
    completed (Dict.get a.ref (succeeded_of result.succeeded [])) a
    || (is_authorized d
        && is_pull_of d a
        && replacement_holds (Dict.get a.ref (superseded_of result.superseded [])) a)

pub is_none_of : List SyncAction → Bool
is_none_of [] = true
is_none_of (a ∷ actions) = false

pub finished_disposition : ExecutionResult → AdmissionDisposition → Bool
unfolding terminal
finished_disposition result d = not (is_authorized d) || every (terminal result d) d.actions

pub every_action_finished : SyncCycleFinalizationInput → Bool
unfolding is_none_of finished_disposition
every_action_finished input =
    is_none_of input.result.failed
    && is_none_of input.result.blocked
    && every (finished_disposition input.result) input.dispositions

unfoldable pub completion_of : SyncCycleFinalizationInput → SyncCycleCompletion
unfolding every_action_finished
completion_of input =
    if not (every_action_finished input)
    then incomplete
    else if input.checkpoint_blocked
    then follow_up
    else if any is_failed input.dispositions
    then incomplete
    else clean

pub data Attempt {ℓ κ} (E : Type ℓ) (A : Type κ) : Type (ℓ ⊔ κ) where
  returned : A → Attempt E A
  threw : E → Attempt E A

-- The working view of a file system; an operation that throws has an error.
pub record Checkpoint {ℓ} (E : Type ℓ) : Type ℓ where
  pub commit_checkpoint : Str → Option E
  pub abort_working_view : Option E

pub data Call : Type 0 where
  commits : Str → Call
  aborts : Call

-- `abort_failed` is `WorkingViewAbortError`.
pub data Closed {ℓ κ} (E : Type ℓ) (T : Type κ) : Type (ℓ ⊔ κ) where
  closed : T → SyncCycleCompletion → Closed E T
  failed_with : E → Closed E T
  abort_failed : E → Closed E T

abbrev pub is_clean : SyncCycleCompletion → Bool
is_clean clean = true
is_clean _ = false

-- `await checkpoint?.commitCheckpoint(...)`
commit {ℓ} : {E : Type ℓ} → Option (Checkpoint E) → Str → Option E × List Call
commit none fingerprint = (none, [])
commit (some c) fingerprint = (c.commit_checkpoint fingerprint, commits fingerprint ∷ [])

module _ {ℓ κ} {E : Type ℓ} {T : Type κ} where
  -- `abortWorkingView`, and then the outcome of the cycle.
  abort_then : Option (Checkpoint E) → Closed E T → Closed E T × List Call
  abort_then none outcome = (outcome, [])
  abort_then (some c) outcome =
      (elim c.abort_working_view [ none ↦ outcome | some e ↦ abort_failed e ], aborts ∷ [])

  after_commit : T → Option E → List Call → Attempt E (T × SyncCycleCompletion) × List Call
  after_commit value none calls = (returned (value, clean), calls)
  after_commit value (some e) calls = (threw e, calls)

  -- `if (completion === "clean") await checkpoint?.commitCheckpoint(...)`
  close_as :
      Option (Checkpoint E)
      → T
      → Str
      → SyncCycleCompletion
      → Attempt E (T × SyncCycleCompletion) × List Call
  unfolding commit after_commit
  close_as checkpoint value fingerprint clean =
      let committed = commit checkpoint fingerprint in after_commit value committed.0 committed.1
  close_as checkpoint value fingerprint follow_up = (returned (value, follow_up), [])
  close_as checkpoint value fingerprint incomplete = (returned (value, incomplete), [])

  close_with :
      Option (Checkpoint E)
      → T
      → Attempt E SyncCycleFinalizationInput
      → Attempt E (T × SyncCycleCompletion) × List Call
  unfolding close_as
  close_with checkpoint value (threw e) = (threw e, [])
  close_with checkpoint value (returned input) =
      close_as checkpoint value input.scope_fingerprint (completion_of input)

  -- The `try` of the closeout.
  close :
      Option (Checkpoint E)
      → Attempt E T
      → (T → Attempt E SyncCycleFinalizationInput)
      → Attempt E (T × SyncCycleCompletion) × List Call
  unfolding close_with
  close checkpoint (threw e) finalization = (threw e, [])
  close checkpoint (returned value) finalization = close_with checkpoint value (finalization value)

  finish_closeout :
      Option (Checkpoint E) → Attempt E (T × SyncCycleCompletion) → Closed E T × List Call
  unfolding abort_then
  finish_closeout checkpoint (threw e) = abort_then checkpoint (failed_with e)
  finish_closeout checkpoint (returned (value, completion)) =
      if is_clean completion
      then (closed value completion, [])
      else abort_then checkpoint (closed value completion)

  pub run_sync_cycle_attempt :
      Option (Checkpoint E)
      → Attempt E T
      → (T → Attempt E SyncCycleFinalizationInput)
      → Closed E T × List Call
  unfolding close finish_closeout
  run_sync_cycle_attempt checkpoint work finalization =
      let closeout = close checkpoint work finalization in
      let outcome = finish_closeout checkpoint closeout.0 in (outcome.0, closeout.1 ++ outcome.1)

pub finalize_sync_cycle {ℓ} :
    {E : Type ℓ}
    → Option (Checkpoint E)
    → SyncCycleFinalizationInput
    → Closed E SyncCycleFinalizationInput × List Call
unfolding run_sync_cycle_attempt
finalize_sync_cycle checkpoint input =
    run_sync_cycle_attempt checkpoint (returned input) (λ value. returned value)
