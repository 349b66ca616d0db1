-- ===== src/Executor/Plan.antt =====
-- `executePlan` of src/sync/plan-executor.ts. The independent actions run in a pool; `order` lists them
-- as they settle, and each is one step. A conflict is resolved by the argument `publish_conflict`.
pub mod Accounted
pub mod Stopped
pub mod Success
use obsidian_air_sync.Prelude.{
  ℕ, ◌+◌, Bool, true, false, not, ◌&&◌, ◌||◌, Option, none, some, List, [], ◌∷◌, ◌++◌, length, map,
  Eq, ◌==◌, nat_eq, if◌then◌else◌,
}
use obsidian_air_sync.Prelude.Text.{Str, str_eq}
use obsidian_air_sync.Types.Action.{
  SyncAction, SyncActionType, push, pull, match, conflict, CompletedAction, RecordPublication,
}
use obsidian_air_sync.Cycle.{AdmissionDisposition}
use obsidian_air_sync.Cycle.Batch
use obsidian_air_sync.Cycle.Batch.{
  PriorityBatchState, Begin, run, invalidated, replaced, begin_action, set_phase, transfer,
  structural,
}
use obsidian_air_sync.Prune.{Directories, prune_emptied_directories}
use obsidian_air_sync.Files.{
  Failure, proof_mismatch, terminal_invariant, external_io_failure, external_auth_failure, thrown,
  Result, ok, failed, M,
}
use obsidian_air_sync.Executor.Checks.{Machine, World}
use obsidian_air_sync.Executor.Action.{
  Retrying, execute_action, execute_verified_action, publish_observed_match, Execution,
  ExecutionResult, BlockedReason, prefix_failed, invalidated_pending, unauthenticated, block, fatal,
  settle_result,
}

abbrev is_simple : SyncAction → Bool
is_simple a = elim a.action [ push ↦ true | pull ↦ true | match ↦ true | _ ↦ false ]

-- No row of another address is continued.
abbrev keeps_address : SyncAction → Option RecordPublication → Bool
keeps_address a none = true
keeps_address a (some publication) = elim publication.source [
  | none ↦ true
  | some source ↦ source.path == a.path
]

only_action : List Str → List SyncAction → Option SyncAction
only_action paths [] = none
only_action paths (a ∷ b ∷ actions) = none
only_action paths (a ∷ []) =
    if length paths == 1 && keeps_address a a.publication && is_simple a then some a else none

-- The action of a component that may run in the pool.
pub independent_action : AdmissionDisposition → Option SyncAction
unfolding only_action
independent_action component = only_action component.paths component.actions

pub independent_actions : List AdmissionDisposition → List SyncAction
unfolding independent_action
independent_actions [] = []
independent_actions (c ∷ components) = elim (independent_action c) [
  | none ↦ independent_actions components
  | some a ↦ a ∷ independent_actions components
]

pub serial_components : List AdmissionDisposition → List AdmissionDisposition
unfolding independent_action
serial_components [] = []
serial_components (c ∷ components) = elim (independent_action c) [
  | none ↦ c ∷ serial_components components
  | some a ↦ serial_components components
]

abbrev is_match : SyncAction → Bool
is_match a = elim a.action [ match ↦ true | _ ↦ false ]

abbrev pub is_conflict : SyncAction → Bool
is_conflict a = elim a.action [ conflict ↦ true | _ ↦ false ]

abbrev pub incomplete : {m : Machine} → Execution m → ℕ
incomplete s = length s.result.failures + length s.result.blocked

abbrev first_of : Option Failure → Option Failure → Option Failure
first_of none later = later
first_of (some e) later = some e

module _ (m : Machine) (r : Retrying m)
    (publish_conflict : SyncAction → List CompletedAction → M (World m) CompletedAction) where
  abbrev directories : Directories {0}
  directories = record {
    State = m.fs.State;
    has_children = m.fs.has_children;
    delete = λ side path s. (
      elim (m.fs.delete side path s).0 [ ok done ↦ true | failed e ↦ false ],
      (m.fs.delete side path s).1,
    );
  }

  abbrev publish_independent : SyncAction → List CompletedAction → M (World m) CompletedAction
  publish_independent a completed w =
      if is_match a
      then publish_observed_match m r a completed w
      else execute_verified_action m r a completed w

  -- All run, and the first error is thrown when they have settled.
  execute_independent :
      List SyncAction → Option Failure → Execution m → Option Failure × Execution m
  execute_independent [] first s = (first, s)
  execute_independent (a ∷ actions) first s =
      let (e, t) = execute_action (publish_independent a) a s in
      execute_independent actions (first_of first e) t

  -- A lost authentication blocks a conflict before it is thrown.
  settle_conflict :
      SyncAction → Result CompletedAction × World m → Execution m → Option Failure × Execution m
  settle_conflict a (failed (external_auth_failure t), w) s = (
    some (thrown t),
    block unauthenticated a (record s { world = w; batch = Batch.abort s.batch }),
  )
  settle_conflict a outcome s = settle_result a outcome s

  begin_conflict : SyncAction → Begin → Execution m → Option Failure × Execution m
  unfolding settle_conflict
  begin_conflict a (replaced replacement) s = (
    none,
    record s {
      result = record s.result { superseded = s.result.superseded ++ replacement ∷ [] };
      progress = s.progress + 1;
    },
  )
  begin_conflict a invalidated s = (none, block invalidated_pending a s)
  begin_conflict a run s = settle_conflict a (publish_conflict a s.result.succeeded s.world) s

  execute_conflict_action : SyncAction → Execution m → Option Failure × Execution m
  unfolding begin_conflict
  execute_conflict_action a s =
      let (start, batch) = begin_action a s.batch in
      begin_conflict a start (record s { batch = batch })

  unfoldable pub execute_serial : SyncAction → Execution m → Option Failure × Execution m
  unfolding execute_conflict_action
  execute_serial a s =
      if is_conflict a
      then execute_conflict_action a s
      else execute_action (execute_verified_action m r a) a s

  -- After an action of a component failed or was blocked, the rest of the component is blocked.
  unfoldable pub execute_component :
      List SyncAction → Bool → Execution m → Option Failure × Execution m
  execute_component [] prefix_failed' s = (none, s)
  execute_component (a ∷ actions) true s = execute_component actions true (block prefix_failed a s)
  execute_component (a ∷ actions) false s =
      let (e, t) = execute_serial a s in
      elim e [
        | some fault ↦ (some fault, t)
        | none ↦ execute_component actions (not (incomplete t == incomplete s)) t
      ]

  execute_components : List AdmissionDisposition → Execution m → Option Failure × Execution m
  unfolding execute_component
  execute_components [] s = (none, s)
  execute_components (c ∷ components) s =
      let (e, t) = execute_component c.actions false s in
      elim e [ some fault ↦ (some fault, t) | none ↦ execute_components components t ]

  abbrev completed_actions : List CompletedAction → List SyncAction
  completed_actions [] = []
  completed_actions (c ∷ completed) = c.action ∷ completed_actions completed

  pruned : Option Failure × Execution m → Option Failure × Execution m
  pruned (some fault, s) = (some fault, s)
  pruned (none, s) = (
    none,
    record s {
      world = (
        prune_emptied_directories directories (completed_actions s.result.succeeded) s.world.0,
        s.world.1,
      );
    },
  )

  execute_rest :
      List AdmissionDisposition → Option Failure × Execution m → Option Failure × Execution m
  unfolding execute_components pruned
  execute_rest serial (some fault, s) = (some fault, s)
  execute_rest [] (none, s) = (none, s)
  execute_rest (c ∷ serial) (none, s) =
      pruned (execute_components (c ∷ serial) (record s { batch = set_phase structural s.batch }))

  unfoldable pub execute_plan :
      (List SyncAction → List SyncAction)
      → List AdmissionDisposition
      → Execution m
      → Option Failure × Execution m
  unfolding independent_actions serial_components execute_independent execute_rest
  execute_plan order components s = execute_rest (serial_components components) (
      execute_independent (order (independent_actions components)) none
        (record s { batch = set_phase transfer s.batch }))
