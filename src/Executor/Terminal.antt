-- ===== src/Executor/Terminal.antt =====
-- `proveAdmittedTerminal` and `proveFolderDescendants` of src/sync/plan-executor.ts: what has to hold of
-- both sides before an action is committed.
pub mod Proved
pub mod Kept
use obsidian_air_sync.Prelude.{
  ℕ, Bool, true, false, not, ◌&&◌, ◌||◌, Option, none, some, List, [], ◌∷◌, ◌++◌, length, drop,
  contains, Eq, ◌==◌, nat_eq, bool_eq, option_eq, if◌then◌else◌,
}
use obsidian_air_sync.Prelude.Text.{Str, str_eq, codes}
use obsidian_air_sync.Prelude.Dict.{add}
use obsidian_air_sync.Types.Entity.{FileEntity, SyncRecord, SyncSide, local, remote, side_eq}
use obsidian_air_sync.Types.Action.{
  SyncAction, SyncActionType, push, rename_local, rename_remote, conflict, cleanup, delete_local,
  delete_remote, DescendantRecord, CompletedAction, TerminalActionProof, VerifiedConflictOutput,
  is_rename, is_removal,
}
use obsidian_air_sync.Compare.{
  content_key, same_synchronized_content, has_changed, has_remote_changed,
}
use obsidian_air_sync.Paths.{starts_with}
use obsidian_air_sync.Commit.{ordered_child_receipts, child_source}
use obsidian_air_sync.Files.{
  proof_mismatch, Result, ok, failed, M, next, ◌>>=◌, ◌>>◌, pure, fail, guard,
}
use obsidian_air_sync.Executor.Checks.{
  Machine, World, or_else, is_given, is_named, is_exact_path, bytes_match, address_of,
  folder_children, on_files, stat, has_bytes,
}
use obsidian_air_sync.Executor.Effects.{Entities, moving_side}

abbrev pub terminal_local_path : SyncAction → Str
terminal_local_path a = or_else a.local_path (
    if is_rename a || (elim a.action [ conflict ↦ true | _ ↦ false ])
    then a.path
    else (elim a.local [ none ↦ a.path | some e ↦ e.path ]))

-- `action.remoteIdentitySource?.identityKey ?? action.remote?.identityKey`
abbrev pub key_of : Option FileEntity → Option Str
key_of none = none
key_of (some e) = e.identity_key

abbrev pub expected_identity : SyncAction → Option Str
expected_identity a = elim (key_of a.remote_identity_source) [
  | none ↦ key_of a.remote
  | some key ↦ some key
]

module _ (m : Machine) where
  -- An entity of the action that is at its path, or else a lookup.
  exact_or_stat : SyncSide → Str → Option FileEntity → M (World m) (Option FileEntity)
  exact_or_stat side path known = if is_exact_path known path then pure known else stat m side path

  -- The lookup gave an exact entity.
  exact : Str → Option FileEntity → M (World m) FileEntity
  exact path none = fail proof_mismatch
  exact path (some e) = if is_exact_path (some e) path then pure e else fail proof_mismatch

  both_have : Bool → FileEntity → FileEntity → List ℕ → M (World m) (Unit {0})
  both_have true mine theirs bytes = has_bytes m remote theirs.path bytes theirs
  both_have false mine theirs bytes = do
    has_bytes m local mine.path bytes mine
    has_bytes m remote theirs.path bytes theirs

  -- With no intended bytes, both sides have one content: by their keys and the baseline, or by the bytes.
  same_by_reading : FileEntity → FileEntity → SyncAction → M (World m) (Unit {0})
  same_by_reading mine theirs a =
      if same_synchronized_content mine theirs a.baseline then pure tt else (do
        bytes ← on_files m (m.fs.read local (terminal_local_path a))
        has_bytes m remote (address_of remote a) bytes theirs)

  abbrev is_push : SyncAction → Bool
  is_push a = elim a.action [ push ↦ true | _ ↦ false ]

  same_bytes : SyncAction → FileEntity → FileEntity → Option (List ℕ) → M (World m) (Unit {0})
  unfolding both_have same_by_reading
  same_bytes a mine theirs (some bytes) = both_have (is_push a) mine theirs bytes
  same_bytes a mine theirs none = same_by_reading mine theirs a

  prove_content : SyncAction → FileEntity → FileEntity → Option (List ℕ) → M (World m) (Unit {0})
  unfolding same_bytes
  prove_content a mine theirs intended =
      if mine.is_directory && theirs.is_directory
      then pure tt
      else (do guard (mine.size == theirs.size) proof_mismatch; same_bytes a mine theirs intended)

  -- A child that moved with its folder is still what its record says.
  abbrev child_holds :
      DescendantRecord → Option SyncRecord → Option FileEntity → Option FileEntity → Bool
  child_holds child (some row) (some mine) (some theirs) =
      is_exact_path (some mine) child.new_path
      && is_exact_path (some theirs) child.new_path
      && not mine.is_directory
      && not theirs.is_directory
      && theirs.identity_key == some row.remote_identity_key
      && not (has_changed mine row)
      && not (has_remote_changed theirs row)
      && same_synchronized_content mine theirs (some row)
  child_holds child _ _ _ = false

  -- Where a preserved copy is after the folder moved on one side.
  moved_output : SyncAction → SyncSide → Str → Str
  moved_output a side path =
      if side == moving_side a && starts_with path (a.old_path ++ codes "/")
      then a.path ++ drop (length a.old_path) path
      else path

  output_on : SyncSide → Str → List ℕ → Option FileEntity → M (World m) (Unit {0})
  output_on side path bytes none = fail proof_mismatch
  output_on side path bytes (some e) =
      if e.is_directory then fail proof_mismatch else has_bytes m side path bytes e

  check_outputs : SyncAction → List VerifiedConflictOutput → M (World m) (Unit {0})
  unfolding moved_output output_on
  check_outputs a [] = pure tt
  check_outputs a (o ∷ outputs) = do
    mine ← stat m local (moved_output a local o.path)
    output_on local (moved_output a local o.path) o.source_content mine
    theirs ← stat m remote (moved_output a remote o.path)
    output_on remote (moved_output a remote o.path) o.source_content theirs
    check_outputs a outputs

  abbrev outputs_of : Option CompletedAction → List VerifiedConflictOutput
  outputs_of none = []
  outputs_of (some c) = elim c.terminal_proof [ none ↦ [] | some proof ↦ proof.verified_outputs ]

  -- The paths of the children that stay are collected.
  check_retained :
      SyncAction
      → List (DescendantRecord × Option CompletedAction)
      → List Str
      → M (World m) (List Str)
  unfolding check_outputs
  check_retained a [] retained = pure retained
  check_retained a ((child, receipt) ∷ rest) retained = do
    mine ← stat m local child.new_path
    theirs ← stat m remote child.new_path
    guard (child_holds child (child_source child receipt) mine theirs) proof_mismatch
    check_outputs a (outputs_of receipt)
    check_retained a rest (add child.new_path retained)

  -- A child with no row is absent on both sides.
  check_deleted : List (Str × Str) → List Str → M (World m) (Unit {0})
  check_deleted [] retained = pure tt
  check_deleted ((old_path, new_path) ∷ rest) retained =
      if contains retained new_path then check_deleted rest retained else (do
        mine ← stat m local new_path
        theirs ← stat m remote new_path
        guard (not (is_given mine) && not (is_given theirs)) proof_mismatch
        check_deleted rest retained)

  pub prove_folder_descendants :
      SyncAction → Option (List DescendantRecord) → List CompletedAction → M (World m) (Unit {0})
  unfolding check_retained check_deleted
  prove_folder_descendants a none completed = pure tt
  prove_folder_descendants a (some children) completed = do
    retained ← check_retained a (ordered_child_receipts children completed) []
    check_deleted (or_else a.descendants []) retained

  abbrev needs_no_proof : SyncAction → Bool
  needs_no_proof a = is_removal a

  prove_endpoints : SyncAction → Entities → List CompletedAction → M (World m) TerminalActionProof
  unfolding exact_or_stat exact prove_content prove_folder_descendants
  prove_endpoints a entities completed = do
    found ← exact_or_stat local (terminal_local_path a) entities.local_entity
    found' ← exact_or_stat remote (address_of remote a) entities.remote_entity
    mine ← exact (terminal_local_path a) found
    theirs ← exact (address_of remote a) found'
    guard (not (is_named (expected_identity a)) || theirs.identity_key == expected_identity a)
        proof_mismatch
    guard (mine.is_directory == theirs.is_directory) proof_mismatch
    prove_folder_descendants a (folder_children a) completed
    prove_content a mine theirs entities.intended_content
    pure (record {
      action = a.ref;
      local_entity = mine;
      remote_entity = theirs;
      intended_content = entities.intended_content;
      verified_outputs = [];
    })

  unfoldable pub prove_admitted_terminal :
      SyncAction → Entities → List CompletedAction → M (World m) (Option TerminalActionProof)
  unfolding prove_endpoints
  prove_admitted_terminal a entities completed =
      if needs_no_proof a
      then pure none
      else (do proof ← prove_endpoints a entities completed; pure (some proof))
