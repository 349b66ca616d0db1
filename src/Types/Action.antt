-- ===== src/Types/Action.antt =====
-- `SyncAction` of src/sync/types.ts. The engine compares actions as objects, so an action carries the
-- identity of its object, `ref`. Fields that no modelled operation reads are left out.
use obsidian_air_sync.Prelude.{ℕ, Option, none, some, List, nat_eq, ◌==◌, Bool, true, false}
use obsidian_air_sync.Prelude.Text.{Str}
use obsidian_air_sync.Types.Entity.{FileEntity, SyncRecord, SyncSide}

pub data SyncActionType : Type 0 where
  push pull delete_local delete_remote rename_remote rename_local conflict match cleanup :
      SyncActionType

pub record RecordPublication : Type 0 where
  pub source : Option SyncRecord
  pub destination : Option SyncRecord

pub record ObservedEndpoint : Type 0 where
  pub side : SyncSide
  pub entity : FileEntity

pub data RenameContent : Type 0 where
  equal : RenameContent
  copy : ObservedEndpoint → SyncSide → Str → RenameContent

-- `after` is the object that the child waits for.
pub record DescendantRecord : Type 0 where
  pub old_path : Str
  pub new_path : Str
  pub source : Option SyncRecord
  pub destination : Option SyncRecord
  pub after : Option ℕ

pub data ConflictStrategy : Type 0 where
  auto_merge prefer_local duplicate : ConflictStrategy

-- The mode, and the strategy where the mode does not fix it.
pub data ConflictExecutionPolicy : Type 0 where
  merges local_wins : ConflictExecutionPolicy
  preserve : ConflictStrategy → ConflictExecutionPolicy

-- `old_path` and what follows it up to `descendant_records` belong to a rename.
pub record SyncAction : Type 0 where
  pub ref : ℕ
  pub action : SyncActionType
  pub path : Str
  pub local : Option FileEntity
  pub remote : Option FileEntity
  pub publication : Option RecordPublication
  pub baseline : Option SyncRecord
  pub local_path : Option Str
  pub remote_path : Option Str
  pub remote_identity_source : Option FileEntity
  pub additional_remote : Option FileEntity
  pub additional_local : Option FileEntity
  pub conflict_policy : Option ConflictExecutionPolicy
  pub old_path : Str
  pub descendants : Option (List (Str × Str))
  pub content : Option RenameContent
  pub descendant_records : Option (List DescendantRecord)
  pub prune_empty_ancestors : Option (List Str)

-- `===` on two action objects.
abbrev pub same_action : SyncAction → SyncAction → Bool
same_action a b = a.ref == b.ref

-- `VerifiedConflictOutput` of src/sync/conflict.ts.
pub data Role : Type 0 where
  primary_copy additional_copy local_copy : Role

pub record VerifiedConflictOutput : Type 0 where
  pub role : Role
  pub path : Str
  pub source_path : Str
  pub source_entity : FileEntity
  pub source_content : List ℕ

-- `TerminalActionProof` of src/sync/plan-executor.ts; `action` is the object that it is about.
pub record TerminalActionProof : Type 0 where
  pub action : ℕ
  pub local_entity : FileEntity
  pub remote_entity : FileEntity
  pub intended_content : Option (List ℕ)
  pub verified_outputs : List VerifiedConflictOutput

-- `CompletedAction` of src/sync/execution-result.ts.
pub record CompletedAction : Type 0 where
  pub action : SyncAction
  pub local_entity : Option FileEntity
  pub remote_entity : Option FileEntity
  pub terminal_proof : Option TerminalActionProof
  pub terminal_record : Option SyncRecord

abbrev pub is_rename : SyncAction → Bool
is_rename a = elim a.action [ rename_local ↦ true | rename_remote ↦ true | _ ↦ false ]

abbrev pub is_removal : SyncAction → Bool
is_removal a = elim a.action [
  | cleanup ↦ true
  | delete_local ↦ true
  | delete_remote ↦ true
  | _ ↦ false
]

-- `proof?.action === action`
abbrev pub proves : Option TerminalActionProof → SyncAction → Bool
proves none a = false
proves (some p) a = p.action == a.ref
