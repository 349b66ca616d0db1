-- ===== src/Cycle/Batch.antt =====
-- src/sync/priority-batch-state.ts: which of the admitted actions still run. A set of action objects is
-- the list of their identities.
pub mod Fates
use obsidian_air_sync.Prelude.{
  ℕ, Bool, true, false, not, ◌&&◌, ◌||◌, Option, none, some, List, [], ◌∷◌, Eq, ◌==◌, nat_eq,
  option_eq, contains, any, if◌then◌else◌,
}
use obsidian_air_sync.Prelude.Text.{Str, str_eq}
use obsidian_air_sync.Prelude.Dict
use obsidian_air_sync.Prelude.Dict.{Dict, add, remove}
use obsidian_air_sync.Types.Entity.{FileEntity, SyncRecord}
use obsidian_air_sync.Types.Action.{SyncAction, same_action}
use obsidian_air_sync.Cycle.{
  AdmissionDisposition, is_authorized, executable_components, executable_actions, SupersededAction,
}

pub data BatchPhase : Type 0 where
  transfer conflict structural finalizing aborting : BatchPhase

pub data PriorityBatchTarget : Type 0 where
  independent : PriorityBatchTarget
  superseding : SyncAction → PriorityBatchTarget
  defer : PriorityBatchTarget

pub data Begin : Type 0 where
  run invalidated : Begin
  replaced : SupersededAction → Begin

pub record PriorityBatchState : Type 0 where
  pub dispositions : List AdmissionDisposition
  pub pending : List ℕ
  pub superseded : Dict ℕ SupersededAction
  pub invalidated : List ℕ
  pub phase : BatchPhase
  pub checkpoint_blocked : Bool

set_of : List SyncAction → List ℕ
set_of [] = []
set_of (a ∷ actions) = add a.ref (set_of actions)

unfoldable pub new_batch : List AdmissionDisposition → PriorityBatchState
unfolding set_of
new_batch dispositions = record {
  dispositions = dispositions;
  pending = set_of (executable_actions dispositions);
  superseded = [];
  invalidated = [];
  phase = transfer;
  checkpoint_blocked = false;
}

abbrev pub is_aborting : BatchPhase → Bool
is_aborting aborting = true
is_aborting _ = false

abbrev pub is_transfer : BatchPhase → Bool
is_transfer transfer = true
is_transfer _ = false

unfoldable pub set_phase : BatchPhase → PriorityBatchState → PriorityBatchState
set_phase phase s = if is_aborting s.phase then s else record s { phase = phase }

abbrev pub abort : PriorityBatchState → PriorityBatchState
abort s = record s { phase = aborting }

abbrev pub block_checkpoint : PriorityBatchState → PriorityBatchState
block_checkpoint s = record s { checkpoint_blocked = true }

-- `dispositions.find((item) => item.paths.includes(path))`
pub find_disposition : Str → List AdmissionDisposition → Option AdmissionDisposition
find_disposition path [] = none
find_disposition path (d ∷ ds) = if contains d.paths path then some d else find_disposition path ds

target_of : AdmissionDisposition → Str → PriorityBatchState → PriorityBatchTarget
target_of d path s = if not (is_authorized d) then defer else elim d.priority_pull_action [
  | none ↦ defer
  | some action ↦
      if not (action.path == path) || not (contains s.pending action.ref)
      then defer
      else superseding action
]

pub priority_target : Str → PriorityBatchState → PriorityBatchTarget
unfolding find_disposition target_of
priority_target path s =
    if not (is_transfer s.phase) then defer else elim (find_disposition path s.dispositions) [
      | none ↦ independent
      | some d ↦ target_of d path s
    ]

unfoldable pub begin_action : SyncAction → PriorityBatchState → Begin × PriorityBatchState
begin_action action s =
    if is_aborting s.phase then (invalidated, s) else elim (Dict.get action.ref s.superseded) [
      | some replacement ↦ (replaced replacement, s)
      | none ↦
          if contains s.invalidated action.ref
          then (invalidated, s)
          else if contains s.pending action.ref
          then (run, record s { pending = remove action.ref s.pending })
          else (invalidated, s)
    ]

abbrev pub remove_blocked : SyncAction → PriorityBatchState → PriorityBatchState
remove_blocked action s = record s { pending = remove action.ref s.pending }

-- `component.priorityPullAction === action`
abbrev pub is_priority_pull : SyncAction → AdmissionDisposition → Bool
is_priority_pull action component = elim component.priority_pull_action [
  | none ↦ false
  | some pull ↦ same_action pull action
]

abbrev pub identity_key_of : Option FileEntity → Option Str
identity_key_of none = none
identity_key_of (some entity) = entity.identity_key

-- The guard of `supersede`.
replaces : SyncAction → SyncRecord → PriorityBatchState → Bool
replaces action terminal_record s =
    any (is_priority_pull action) (executable_components s.dispositions)
    && terminal_record.path == action.path
    && some terminal_record.remote_identity_key == identity_key_of action.remote

unfoldable pub supersede : SyncAction → SyncRecord → PriorityBatchState → Bool × PriorityBatchState
unfolding replaces
supersede action terminal_record s =
    if not (replaces action terminal_record s)
    then (false, s)
    else if not (contains s.pending action.ref)
    then (false, s)
    else (
      true,
      record s {
        pending = remove action.ref s.pending;
        superseded =
            Dict.set action.ref (record { action = action; terminal_record = terminal_record })
              s.superseded;
      },
    )

pub invalidate : SyncAction → PriorityBatchState → Bool × PriorityBatchState
invalidate action s = if not (contains s.pending action.ref) then (false, s) else (
  true,
  record s { pending = remove action.ref s.pending; invalidated = add action.ref s.invalidated },
)

-- The operations that change the state, in any order.
pub data Event : Type 0 where
  phase_set : BatchPhase → Event
  aborted checkpoint_blocks : Event
  begins blocked invalidates : SyncAction → Event
  supersedes : SyncAction → SyncRecord → Event

unfoldable pub step : Event → PriorityBatchState → PriorityBatchState
unfolding set_phase begin_action supersede invalidate
step (phase_set phase) s = set_phase phase s
step aborted s = abort s
step checkpoint_blocks s = block_checkpoint s
step (begins action) s = (begin_action action s).1
step (blocked action) s = remove_blocked action s
step (invalidates action) s = (invalidate action s).1
step (supersedes action terminal_record) s = (supersede action terminal_record s).1

unfoldable pub steps : List Event → PriorityBatchState → PriorityBatchState
steps [] s = s
steps (e ∷ es) s = steps es (step e s)
