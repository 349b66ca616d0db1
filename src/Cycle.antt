-- ===== src/Cycle.antt =====
-- What one sync cycle does with its admitted actions: the records of src/sync/plan-admission.ts and
-- src/sync/execution-result.ts that the batch and the closeout read.
pub mod Batch
pub mod Finalization
mod Tests
use obsidian_air_sync.Prelude.{
  ℕ, Bool, true, false, Option, none, some, List, [], ◌∷◌, ◌++◌, if◌then◌else◌,
}
use obsidian_air_sync.Prelude.Text.{Str}
use obsidian_air_sync.Types.Entity.{SyncRecord}
use obsidian_air_sync.Types.Action.{SyncAction, CompletedAction}

pub data DispositionKind : Type 0 where
  authorized resolved_no_action failed : DispositionKind

-- The evidence and the reasons of a disposition are not read after admission.
pub record AdmissionDisposition : Type 0 where
  pub kind : DispositionKind
  pub paths : List Str
  pub actions : List SyncAction
  pub priority_pull_action : Option SyncAction

abbrev pub is_authorized : AdmissionDisposition → Bool
is_authorized d = elim d.kind [ authorized ↦ true | _ ↦ false ]

abbrev pub is_failed : AdmissionDisposition → Bool
is_failed d = elim d.kind [ failed ↦ true | _ ↦ false ]

-- `executable.components`: the authorized dispositions.
abbrev pub executable_components : List AdmissionDisposition → List AdmissionDisposition
executable_components [] = []
executable_components (d ∷ ds) =
    let rest = executable_components ds in if is_authorized d then d ∷ rest else rest

-- `executable.actions`
abbrev pub executable_actions : List AdmissionDisposition → List SyncAction
executable_actions [] = []
executable_actions (d ∷ ds) =
    let rest = executable_actions ds in if is_authorized d then d.actions ++ rest else rest

pub record SupersededAction : Type 0 where
  pub action : SyncAction
  pub terminal_record : SyncRecord
