-- ===== src/Executor/Conflict/Publish.antt =====
-- The publication of a conflict in `executeConflictAction` of src/sync/plan-executor.ts.
pub mod Kept
pub mod Settled
use obsidian_air_sync.Prelude.{
  ℕ, Bool, true, false, not, ◌&&◌, ◌||◌, Option, none, some, List, [], ◌∷◌, ◌++◌, length, contains,
  Eq, ◌==◌, nat_eq, option_eq, if◌then◌else◌,
}
use obsidian_air_sync.Prelude.Text.{Str, str_eq, truthy}
use obsidian_air_sync.Types.Entity.{FileEntity, SyncRecord, SyncSide, local, remote}
use obsidian_air_sync.Types.Action.{
  SyncAction, CompletedAction, TerminalActionProof, VerifiedConflictOutput, Role, primary_copy,
  additional_copy, local_copy, auto_merge, prefer_local, duplicate, ConflictExecutionPolicy, merges,
  local_wins, preserve,
}
use obsidian_air_sync.Compare.{content_key}
use obsidian_air_sync.Files.{
  Failure, proof_mismatch, terminal_invariant, Result, ok, failed, M, next, ◌>>=◌, ◌>>◌, pure, fail,
  guard,
}
use obsidian_air_sync.Resolver.Snapshot.{ExactSnapshot}
use obsidian_air_sync.Resolver.Resolve.{
  ConflictResolverContext, Services, ResolutionAction, duplicated, ConflictResolutionResult,
  resolve_conflict,
}
use obsidian_air_sync.Executor.Checks.{
  Machine, World, or_else, is_given, is_named, address_of, on_files, stat, has_bytes,
  unchanged_endpoint, check_publication_inputs,
}
use obsidian_air_sync.Executor.Terminal.{key_of, prove_admitted_terminal}
use obsidian_air_sync.Executor.Action.{Retrying, commit}
use obsidian_air_sync.Executor.Conflict.Effects.{execute_prepared_conflict_effects}
use obsidian_air_sync.Executor.Conflict.{
  local_win_holds, policy_holds, moved_from, is_duplicated, requires_copies, copy_of,
  expected_copies, role_eq, covers, distinct_paths, find_output, snapshot_output, if_moved,
}

module _ (m : Machine) (services : Services) where
  abbrev path_of : Option FileEntity → Option Str
  path_of none = none
  path_of (some e) = some e.path

  -- The resolver reads a merge base only where the baseline is of the present remote object.
  abbrev reads_base : SyncAction → Option SyncRecord → Bool
  reads_base a none = false
  reads_base a (some row) = key_of a.remote == some row.remote_identity_key

  abbrev pub context_of : SyncAction → ConflictResolverContext
  context_of a = record {
    path = a.path;
    local = a.local;
    remote = a.remote;
    baseline = a.baseline;
    local_path = path_of a.local;
    remote_path = path_of a.remote;
    remote_identity_source = a.remote_identity_source;
    additional_remote = a.additional_remote;
    additional_local = a.additional_local;
  }

  abbrev pub services_of : SyncAction → Services
  services_of a = record services {
    get_content = λ key. if reads_base a a.baseline then services.get_content key else none;
  }

  unfoldable pub resolve :
      SyncAction → ConflictExecutionPolicy → M (World m) ConflictResolutionResult
  resolve a policy =
      on_files m (resolve_conflict (services_of a) (context_of a) m.fs m.registry policy)

module _ (m : Machine) (r : Retrying m) (services : Services) where
  publish_with :
      SyncAction
      → List CompletedAction
      → Option ConflictExecutionPolicy
      → M (World m) CompletedAction
  unfolding policy_holds
  publish_with a completed none = fail terminal_invariant
  publish_with a completed (some policy) = do
    guard (policy_holds a policy) terminal_invariant
    check_publication_inputs m a completed
    resolution ← resolve m services a policy
    proof ← execute_prepared_conflict_effects m services a resolution
    rec ← commit m r a (some proof.local_entity) (some proof.remote_entity) (some proof) completed
    pure (record {
      action = a;
      local_entity = some proof.local_entity;
      remote_entity = some proof.remote_entity;
      terminal_proof = some proof;
      terminal_record = rec;
    })

  -- The publication of a conflict whose protocol is the same path.
  unfoldable pub publish_conflict : SyncAction → List CompletedAction → M (World m) CompletedAction
  unfolding publish_with
  publish_conflict a completed = publish_with a completed a.conflict_policy
