-- ===== src/Executor/Conflict/Effects.antt =====
-- `executePreparedConflictEffects` of src/sync/plan-executor.ts: the resolved bytes of a conflict are installed
-- on both sides and proved.
pub mod Kept
pub mod Installed
use obsidian_air_sync.Prelude.{
  ℕ, Bool, true, false, not, ◌&&◌, ◌||◌, Option, none, some, List, [], ◌∷◌, ◌++◌, length, contains,
  Eq, ◌==◌, nat_eq, option_eq, if◌then◌else◌,
}
use obsidian_air_sync.Prelude.Text.{Str, str_eq, truthy}
use obsidian_air_sync.Types.Entity.{FileEntity, SyncRecord, SyncSide, local, remote}
use obsidian_air_sync.Types.Action.{
  SyncAction, CompletedAction, TerminalActionProof, VerifiedConflictOutput, Role, primary_copy,
  additional_copy, local_copy, auto_merge, prefer_local, duplicate, ConflictExecutionPolicy, merges,
  local_wins, preserve,
}
use obsidian_air_sync.Compare.{content_key}
use obsidian_air_sync.Files.{
  Failure, proof_mismatch, terminal_invariant, Result, ok, failed, M, next, ◌>>=◌, ◌>>◌, pure, fail,
  guard,
}
use obsidian_air_sync.Resolver.Snapshot.{ExactSnapshot}
use obsidian_air_sync.Resolver.Resolve.{
  ConflictResolverContext, Services, ResolutionAction, duplicated, ConflictResolutionResult,
  resolve_conflict,
}
use obsidian_air_sync.Executor.Checks.{
  Machine, World, or_else, is_given, is_named, address_of, on_files, stat, has_bytes,
  unchanged_endpoint, check_publication_inputs,
}
use obsidian_air_sync.Executor.Terminal.{key_of, prove_admitted_terminal}
use obsidian_air_sync.Executor.Action.{Retrying, commit}
use obsidian_air_sync.Executor.Conflict.{
  local_win_holds, policy_holds, moved_from, is_duplicated, requires_copies, copy_of,
  expected_copies, role_eq, covers, distinct_paths, find_output, snapshot_output, if_moved,
}

module _ (m : Machine) (services : Services) where
  holds_on :
      SyncSide
      → Str
      → Option Str
      → VerifiedConflictOutput
      → Option FileEntity
      → M (World m) (Unit {0})
  holds_on side path expected o none = fail proof_mismatch
  holds_on side path expected o (some current) = do
    guard
        (o.source_path == path
          && current.identity_key == expected
          && o.source_entity.identity_key == expected)
        proof_mismatch
    has_bytes m side path o.source_content current

  pub assert_preserved_source_unchanged :
      SyncSide → Str → Option Str → VerifiedConflictOutput → M (World m) (Unit {0})
  unfolding holds_on
  assert_preserved_source_unchanged side path expected o = do
    current ← stat m side path
    holds_on side path expected o current

  check_admitted : SyncSide → Option FileEntity → M (World m) (Unit {0})
  check_admitted side none = pure tt
  check_admitted side (some e) = do current ← unchanged_endpoint m side e; pure tt

  check_captured : SyncSide → Option FileEntity → Option ExactSnapshot → M (World m) (Unit {0})
  unfolding assert_preserved_source_unchanged
  check_captured side none snap = pure tt
  check_captured side (some e) none = fail terminal_invariant
  check_captured side (some e) (some snap) =
      assert_preserved_source_unchanged side e.path e.identity_key
        (snapshot_output primary_copy snap)

  abbrev is_vacant_for : Str → Option FileEntity → Bool
  is_vacant_for from none = true
  is_vacant_for from (some occupant) = occupant.path == from

  check_local_target : Str → Option Str → M (World m) (Unit {0})
  check_local_target target none = pure tt
  check_local_target target (some from) = do
    occupant ← stat m local target
    guard (is_vacant_for from occupant) proof_mismatch

  check_preserved :
      SyncSide → Str → FileEntity → Option VerifiedConflictOutput → M (World m) (Unit {0})
  unfolding assert_preserved_source_unchanged
  check_preserved side path e none = fail terminal_invariant
  check_preserved side path e (some o) =
      assert_preserved_source_unchanged side path e.identity_key o

  check_additional_local : List VerifiedConflictOutput → Option FileEntity → M (World m) (Unit {0})
  unfolding check_preserved
  check_additional_local outputs none = pure tt
  check_additional_local outputs (some e) =
      check_preserved local e.path e (find_output local_copy outputs)

  -- The destination is the occupant that was preserved, or is vacant.
  check_remote_target :
      SyncAction → List VerifiedConflictOutput → Option FileEntity → M (World m) (Unit {0})
  unfolding check_preserved
  check_remote_target a outputs (some e) =
      check_preserved remote (address_of remote a) e (find_output additional_copy outputs)
  check_remote_target a outputs none =
      if moved_from a.remote_identity_source a.path || not (is_given a.remote)
      then (do
        found ← stat m remote (address_of remote a)
        guard (not (is_given found)) proof_mismatch)
      else pure tt

  delete_occupant : SyncAction → M (World m) (Unit {0})
  delete_occupant a =
      if is_given a.additional_remote then on_files m (m.fs.delete remote a.path) else pure tt

  rotate : SyncAction → Option Str → M (World m) (Unit {0})
  unfolding delete_occupant
  rotate a none = pure tt
  rotate a (some from) = do delete_occupant a; on_files m (m.fs.rename remote from a.path)

  move_local : SyncAction → Option Str → M (World m) (Unit {0})
  move_local a none = pure tt
  move_local a (some from) = on_files m (m.fs.rename local from (address_of local a))

  stat_source : Option Str → M (World m) (Option FileEntity)
  stat_source none = pure none
  stat_source (some from) = stat m remote from

  output_holds : SyncSide → VerifiedConflictOutput → Option FileEntity → M (World m) (Unit {0})
  output_holds side o none = fail proof_mismatch
  output_holds side o (some e) =
      if e.is_directory then fail proof_mismatch else has_bytes m side o.path o.source_content e

  outputs_hold : List VerifiedConflictOutput → M (World m) (Unit {0})
  unfolding output_holds
  outputs_hold [] = pure tt
  outputs_hold (o ∷ outputs) = do
    mine ← stat m local o.path
    output_holds local o mine
    theirs ← stat m remote o.path
    output_holds remote o theirs
    outputs_hold outputs

  prove_conflict :
      SyncAction
      → List ℕ
      → List VerifiedConflictOutput
      → FileEntity
      → FileEntity
      → M (World m) TerminalActionProof
  unfolding outputs_hold
  prove_conflict a intended outputs mine theirs = do
    guard
        (not (is_named (key_of a.remote_identity_source))
          || theirs.identity_key == key_of a.remote_identity_source)
        proof_mismatch
    proved ←
        prove_admitted_terminal m a
          (record {
            local_entity = some mine;
            remote_entity = some theirs;
            intended_content = some intended;
          })
          []
    outputs_hold outputs
    pure (record {
      action = a.ref;
      local_entity = mine;
      remote_entity = theirs;
      intended_content = some intended;
      verified_outputs = outputs;
    })

  prove_found :
      SyncAction
      → List ℕ
      → List VerifiedConflictOutput
      → Option FileEntity
      → Option FileEntity
      → Option FileEntity
      → M (World m) TerminalActionProof
  unfolding prove_conflict
  prove_found a intended outputs (some mine) (some theirs) none =
      prove_conflict a intended outputs mine theirs
  prove_found a intended outputs _ _ _ = fail proof_mismatch

  -- The original addresses change only after all that was captured has been found unchanged.
  check_inputs : SyncAction → ConflictResolutionResult → M (World m) (Unit {0})
  unfolding check_admitted check_captured check_local_target check_additional_local
      check_remote_target
  check_inputs a r = do
    check_admitted local a.local
    check_admitted remote a.remote
    check_captured local a.local r.captured_local
    check_captured remote a.remote r.captured_remote
    check_local_target (address_of local a) (if_moved a.local (address_of local a))
    check_additional_local r.verified_outputs a.additional_local
    check_remote_target a r.verified_outputs a.additional_remote

  install : SyncAction → ConflictResolutionResult → List ℕ → M (World m) TerminalActionProof
  unfolding rotate move_local stat_source prove_found
  install a r intended = do
    rotate a (if_moved a.remote_identity_source a.path)
    move_local a (if_moved a.local (address_of local a))
    on_files m (m.fs.write local (address_of local a) intended r.target_mtime)
    on_files m (m.fs.write remote (address_of remote a) intended r.target_mtime)
    mine ← stat m local (address_of local a)
    theirs ← stat m remote (address_of remote a)
    source ← stat_source (if_moved a.remote_identity_source a.path)
    prove_found a intended r.verified_outputs mine theirs source

  install_target :
      SyncAction → ConflictResolutionResult → Option (List ℕ) → M (World m) TerminalActionProof
  unfolding check_inputs install
  install_target a r none = fail terminal_invariant
  install_target a r (some intended) = do check_inputs a r; install a r intended

  unfoldable pub execute_prepared_conflict_effects :
      SyncAction → ConflictResolutionResult → M (World m) TerminalActionProof
  unfolding requires_copies covers distinct_paths install_target
  execute_prepared_conflict_effects a r = do
    guard
        (covers (expected_copies a a.remote (requires_copies a r)) r.verified_outputs
          && distinct_paths r.verified_outputs [])
        proof_mismatch
    install_target a r r.target_content
