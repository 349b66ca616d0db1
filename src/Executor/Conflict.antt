-- ===== src/Executor/Conflict.antt =====
-- What a same-path conflict of src/sync/plan-executor.ts owes: the contract of its policy, of
-- src/sync/conflict-action-contract.ts, and the copies of `verifiedConflictOutputs`.
pub mod Effects
pub mod Publish
use obsidian_air_sync.Prelude.{
  ℕ, Bool, true, false, not, ◌&&◌, ◌||◌, Option, none, some, List, [], ◌∷◌, ◌++◌, length, contains,
  Eq, ◌==◌, nat_eq, option_eq, if◌then◌else◌,
}
use obsidian_air_sync.Prelude.Text.{Str, str_eq, truthy}
use obsidian_air_sync.Types.Entity.{FileEntity, SyncRecord, SyncSide, local, remote}
use obsidian_air_sync.Types.Action.{
  SyncAction, CompletedAction, TerminalActionProof, VerifiedConflictOutput, Role, primary_copy,
  additional_copy, local_copy, auto_merge, prefer_local, duplicate, ConflictExecutionPolicy, merges,
  local_wins, preserve,
}
use obsidian_air_sync.Compare.{content_key}
use obsidian_air_sync.Files.{
  Failure, proof_mismatch, terminal_invariant, Result, ok, failed, M, next, ◌>>=◌, ◌>>◌, pure, fail,
  guard,
}
use obsidian_air_sync.Resolver.Snapshot.{ExactSnapshot}
use obsidian_air_sync.Resolver.Resolve.{
  ConflictResolverContext, Services, ResolutionAction, duplicated, ConflictResolutionResult,
  resolve_conflict,
}
use obsidian_air_sync.Executor.Checks.{
  Machine, World, or_else, is_given, is_named, address_of, on_files, stat, has_bytes,
  unchanged_endpoint, check_publication_inputs,
}
use obsidian_air_sync.Executor.Terminal.{key_of, prove_admitted_terminal}
use obsidian_air_sync.Executor.Action.{Retrying, commit}

-- `hasLocalWinProof`: a plain edit of both sides at one address.
local_win_holds : SyncAction → Option FileEntity → Option FileEntity → Option SyncRecord → Bool
local_win_holds a (some mine) (some theirs) (some row) =
    not mine.is_directory
    && not theirs.is_directory
    && truthy row.hash
    && row.path == a.path
    && mine.path == a.path
    && theirs.path == a.path
    && (not (is_named theirs.identity_key) || some row.remote_identity_key == theirs.identity_key)
    && truthy mine.hash
    && truthy theirs.hash
    && not (mine.hash == row.hash)
    && not (theirs.hash == row.hash)
    && not (mine.hash == theirs.hash)
    && not (is_given a.remote_identity_source)
    && not (is_given a.additional_remote)
    && not (is_given a.additional_local)
    && not (is_named a.local_path)
    && not (is_named a.remote_path)
local_win_holds a _ _ _ = false

-- The contract of a conflict whose protocol is the same path.
pub policy_holds : SyncAction → ConflictExecutionPolicy → Bool
unfolding local_win_holds
policy_holds a merges = true
policy_holds a local_wins = local_win_holds a a.local a.remote a.baseline
policy_holds a (preserve auto_merge) = false
policy_holds a (preserve prefer_local) = true
policy_holds a (preserve duplicate) = true

abbrev moved_from : Option FileEntity → Str → Bool
moved_from none path = false
moved_from (some e) path = not (e.path == path)

abbrev is_duplicated : ResolutionAction → Bool
is_duplicated duplicated = true
is_duplicated _ = false

pub requires_copies : SyncAction → ConflictResolutionResult → Bool
requires_copies a r =
    (is_duplicated r.action && is_given a.local)
    || moved_from a.remote_identity_source a.path
    || is_given a.additional_remote
    || is_given a.additional_local
    || moved_from a.local a.path
    || moved_from a.remote a.path

abbrev copy_of : Role → Option FileEntity → List (Role × Str)
copy_of role none = []
copy_of role (some e) = (role, e.path) ∷ []

-- The copies that the action obliges the resolver to make.
abbrev pub expected_copies : SyncAction → Option FileEntity → Bool → List (Role × Str)
expected_copies a none required = []
expected_copies a (some theirs) false = []
expected_copies a (some theirs) true =
    (primary_copy, or_else a.remote_path theirs.path)
    ∷ (copy_of additional_copy a.additional_remote ++ copy_of local_copy a.additional_local)

abbrev role_eq : Role → Role → Bool
role_eq primary_copy primary_copy = true
role_eq additional_copy additional_copy = true
role_eq local_copy local_copy = true
role_eq _ _ = false

-- Position by position, and as many.
pub covers : List (Role × Str) → List VerifiedConflictOutput → Bool
covers [] [] = true
covers [] (o ∷ outputs) = false
covers (e ∷ expected) [] = false
covers ((role, path) ∷ expected) (o ∷ outputs) =
    role_eq o.role role && o.source_path == path && covers expected outputs

pub distinct_paths : List VerifiedConflictOutput → List Str → Bool
distinct_paths [] seen = true
distinct_paths (o ∷ outputs) seen =
    not (contains seen o.path) && distinct_paths outputs (o.path ∷ seen)

pub find_output : Role → List VerifiedConflictOutput → Option VerifiedConflictOutput
find_output role [] = none
find_output role (o ∷ outputs) = if role_eq o.role role then some o else find_output role outputs

-- The admitted entity is still the one of the snapshot, by identity and bytes.
abbrev snapshot_output : Role → ExactSnapshot → VerifiedConflictOutput
snapshot_output role snap = record {
  role = role;
  path = snap.path;
  source_path = snap.path;
  source_entity = snap.entity;
  source_content = snap.content;
}

abbrev if_moved : Option FileEntity → Str → Option Str
if_moved none target = none
if_moved (some e) target = if e.path == target then none else some e.path
