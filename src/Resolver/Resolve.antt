-- ===== src/Resolver/Resolve.antt =====
-- `prepareConflict` and `resolveConflict` of src/sync/conflict-resolver.ts.
pub mod Outcome
pub mod Kept
use obsidian_air_sync.Prelude.{
  ℕ, zero, suc, ◌+◌, max, Bool, true, false, not, ◌&&◌, ◌||◌, Option, none, some, List, [], ◌∷◌,
  ◌++◌, length, ltb, Eq, ◌==◌, nat_eq, option_eq, if◌then◌else◌,
}
use obsidian_air_sync.Prelude.Text.{Str, str_eq, codes}
use obsidian_air_sync.Types.Entity.{FileEntity, RemoteChecksum, SyncRecord, SyncSide, local, remote}
use obsidian_air_sync.Types.Action.{
  Role, primary_copy, additional_copy, local_copy, VerifiedConflictOutput,
}
use obsidian_air_sync.Compare.{content_key}
use obsidian_air_sync.Paths.{get_file_extension, is_merge_eligible, number, insert_conflict_suffix}
use obsidian_air_sync.Files.{
  Failure, proof_mismatch, thrown, plain_error, Result, ok, failed, M, next, ◌>>=◌, ◌>>◌, pure,
  fail, guard, FileSystems, ChecksumRegistry,
}
use obsidian_air_sync.Resolver.Snapshot.{
  StableVersionWitness, ExactSnapshot, capture_content_snapshot,
}
use obsidian_air_sync.Types.Action.{ConflictExecutionPolicy, merges, local_wins, preserve}

pub record ConflictResolverContext : Type 0 where
  pub path : Str
  pub local : Option FileEntity
  pub remote : Option FileEntity
  pub baseline : Option SyncRecord
  pub local_path : Option Str
  pub remote_path : Option Str
  pub remote_identity_source : Option FileEntity
  pub additional_remote : Option FileEntity
  pub additional_local : Option FileEntity

-- What else the resolver calls: the merge base of an identity, the merge of three texts with whether it
-- left conflict markers, `JSON.parse`, `toLowerCase` and the clock.
pub record Services : Type 0 where
  pub get_content : Str → Option (List ℕ)
  pub three_way_merge : List ℕ → List ℕ → List ℕ → List ℕ × Bool
  pub is_valid_json : List ℕ → Bool
  pub to_lower_case : Str → Str
  pub now : ℕ

pub data ResolutionAction : Type 0 where
  kept_local kept_remote duplicated merged : ResolutionAction

pub record ConflictResolutionResult : Type 0 where
  pub action : ResolutionAction
  pub has_conflict_markers : Bool
  pub target_content : Option (List ℕ)
  pub target_mtime : ℕ
  pub verified_outputs : List VerifiedConflictOutput
  pub captured_local : Option ExactSnapshot
  pub captured_remote : Option ExactSnapshot

-- The identity source, where the primary has to move to the address of the conflict first.
pub record PreparedConflict : Type 0 where
  pub primary : ExactSnapshot
  pub additional : Option ExactSnapshot
  pub local : Option ExactSnapshot
  pub rotation : Option FileEntity

abbrev pub or_else {ℓ} : {A : Type ℓ} → Option A → A → A
or_else none d = d
or_else (some a) d = a

-- A result that is not yet joined with its outputs and captures.
abbrev pub resolution : ResolutionAction → List ℕ → ℕ → ConflictResolutionResult
resolution action content mtime = record {
  action = action;
  has_conflict_markers = false;
  target_content = some content;
  target_mtime = mtime;
  verified_outputs = [];
  captured_local = none;
  captured_remote = none;
}

module _ (services : Services) (ctx : ConflictResolverContext) where
  abbrev pub extension_is_json : Bool
  extension_is_json =
      let extension = get_file_extension services.to_lower_case ctx.path in
      extension == codes ".json" || extension == codes ".canvas"

  by_time : FileEntity → List ℕ → ExactSnapshot → ConflictResolutionResult
  by_time own content primary =
      if ltb 0 own.mtime && ltb 0 primary.entity.mtime && ltb own.mtime primary.entity.mtime
      then resolution kept_remote primary.content primary.entity.mtime
      else if ltb 0 own.mtime && ltb 0 primary.entity.mtime && ltb primary.entity.mtime own.mtime
      then resolution kept_local content own.mtime
      else if content == primary.content
      then resolution kept_local content own.mtime
      else resolution duplicated content own.mtime

  by_merge : FileEntity → List ℕ → ExactSnapshot → List ℕ → ConflictResolutionResult
  by_merge own content primary base =
      let (text, has_conflicts) = services.three_way_merge base content primary.content in
      if extension_is_json && (has_conflicts || not (services.is_valid_json text))
      then resolution duplicated content own.mtime
      else record (resolution merged text services.now) { has_conflict_markers = has_conflicts }

  pub merge_base : Option SyncRecord → Option (List ℕ)
  merge_base none = none
  merge_base (some baseline) = services.get_content baseline.remote_identity_key

  auto_merged : FileEntity → List ℕ → ExactSnapshot → Option (List ℕ) → ConflictResolutionResult
  unfolding by_time by_merge
  auto_merged own content primary none = by_time own content primary
  auto_merged own content primary (some base) =
      if is_merge_eligible services.to_lower_case ctx.path (max own.size primary.entity.size)
      then by_merge own content primary base
      else by_time own content primary

  abbrev content_of : Option ExactSnapshot → Option (List ℕ)
  content_of none = none
  content_of (some snap) = some snap.content

  abbrev mtime_of : Option FileEntity → ℕ → ℕ
  mtime_of none d = d
  mtime_of (some e) d = e.mtime

  -- The bytes of the local side count only with its entity.
  abbrev both : Option FileEntity → Option (List ℕ) → Option (FileEntity × List ℕ)
  both (some own) (some content) = some (own, content)
  both _ _ = none

  local_win_of : Option (FileEntity × List ℕ) → Result ConflictResolutionResult
  local_win_of none = failed (thrown plain_error)
  local_win_of (some (own, content)) = ok (resolution kept_local content own.mtime)

  merge_of : ExactSnapshot → Option (FileEntity × List ℕ) → ConflictResolutionResult
  unfolding auto_merged merge_base
  merge_of primary none = resolution kept_remote primary.content primary.entity.mtime
  merge_of primary (some (own, content)) = auto_merged own content primary (merge_base ctx.baseline)

  pub resolve_prepared_with_policy :
      ConflictExecutionPolicy
      → ExactSnapshot
      → Option ExactSnapshot
      → Result ConflictResolutionResult
  unfolding local_win_of merge_of
  resolve_prepared_with_policy (preserve strategy) primary captured = ok (
      resolution duplicated (or_else (content_of captured) primary.content)
        (mtime_of ctx.local primary.entity.mtime))
  resolve_prepared_with_policy local_wins primary captured =
      local_win_of (both ctx.local (content_of captured))
  resolve_prepared_with_policy merges primary captured =
      ok (merge_of primary (both ctx.local (content_of captured)))

  abbrev differs_from : Option FileEntity → Str → Bool
  differs_from none path = false
  differs_from (some e) path = not (e.path == path)

  abbrev is_given {ℓ} : {A : Type ℓ} → Option A → Bool
  is_given none = false
  is_given (some a) = true

  abbrev pub compound : FileEntity → Bool
  compound other =
      differs_from ctx.remote_identity_source ctx.path
      || is_given ctx.additional_remote
      || is_given ctx.additional_local
      || differs_from ctx.local ctx.path
      || not (other.path == ctx.path)

  abbrev is_duplicated : ResolutionAction → Bool
  is_duplicated duplicated = true
  is_duplicated _ = false

  module _ {ℓ} (fs : FileSystems {ℓ}) (registry : ChecksumRegistry) where
    capture_optional : SyncSide → Option Str → Option FileEntity → M fs.State (Option ExactSnapshot)
    capture_optional side path none = pure none
    capture_optional side path (some e) = do
      snap ← capture_content_snapshot fs registry side (or_else path e.path) e
      pure (some snap)

    -- The rotation source has to be the primary itself.
    check_rotation : Option FileEntity → ExactSnapshot → M fs.State (Option FileEntity)
    check_rotation none snap = pure none
    check_rotation (some source) snap =
        if source.path == ctx.path
        then pure none
        else if not (source.path == snap.path)
            || not (source.identity_key == snap.entity.identity_key)
        then fail proof_mismatch
        else pure (some source)

    pub prepare_conflict : FileEntity → M fs.State PreparedConflict
    unfolding capture_optional check_rotation
    prepare_conflict other = do
      first ← capture_content_snapshot fs registry remote (or_else ctx.remote_path other.path) other
      second ← capture_optional remote none ctx.additional_remote
      third ← capture_optional local none ctx.additional_local
      rotation ← check_rotation ctx.remote_identity_source first
      pure (record { primary = first; additional = second; local = third; rotation = rotation })

    -- `generateConflictPath`, over file systems that change meanwhile.
    on_side : SyncSide → Str → M fs.State Bool
    on_side side path = do found ← fs.stat side path; pure (is_given found)

    on_remote_unless : Bool → Str → M fs.State Bool
    unfolding on_side
    on_remote_unless true path = pure true
    on_remote_unless false path = on_side remote path

    free_path : ℕ → ℕ → M fs.State Str
    unfolding on_remote_unless
    free_path zero i = pure (insert_conflict_suffix ctx.path (number services.now))
    free_path (suc turns) i = do
      here ← on_side local (insert_conflict_suffix ctx.path (number i))
      found ← on_remote_unless here (insert_conflict_suffix ctx.path (number i))
      elim found [
        | true ↦ free_path turns (i + 1)
        | false ↦ pure (insert_conflict_suffix ctx.path (number i))
      ]

    -- `bytesMatch`
    abbrev bytes_match : List ℕ → FileEntity → Option RemoteChecksum → Bool
    bytes_match content e none = false
    bytes_match content e (some key) =
        length content == e.size
        && registry.has key.algo
        && registry.compute content key.algo == key.value

    -- The readback of one side.
    check_copy : SyncSide → Str → List ℕ → Option FileEntity → M fs.State (Unit {0})
    check_copy side path content none = fail proof_mismatch
    check_copy side path content (some e) =
        if bytes_match content e (content_key e)
        then pure tt
        else (do bytes ← fs.read side path; guard (content == bytes) proof_mismatch)

    preserve_one : Role → ExactSnapshot → M fs.State VerifiedConflictOutput
    unfolding free_path check_copy
    preserve_one role snap = do
      path ← free_path 100 1
      fs.write local path snap.content snap.entity.mtime
      fs.write remote path snap.content snap.entity.mtime
      mine ← fs.stat local path
      check_copy local path snap.content mine
      theirs ← fs.stat remote path
      check_copy remote path snap.content theirs
      pure (record {
        role = role;
        path = path;
        source_path = snap.path;
        source_entity = snap.entity;
        source_content = snap.content;
      })

    pub preserve_each : List (Role × ExactSnapshot) → M fs.State (List VerifiedConflictOutput)
    unfolding preserve_one
    preserve_each [] = pure []
    preserve_each ((role, snap) ∷ snaps) = do
      output ← preserve_one role snap
      outputs ← preserve_each snaps
      pure (output ∷ outputs)

    abbrev as_list : Role → Option ExactSnapshot → List (Role × ExactSnapshot)
    as_list role none = []
    as_list role (some snap) = (role, snap) ∷ []

    abbrev pub snapshots_of : PreparedConflict → List (Role × ExactSnapshot)
    snapshots_of prepared =
        (primary_copy, prepared.primary)
        ∷ (as_list additional_copy prepared.additional ++ as_list local_copy prepared.local)

    -- The outputs of a conflict whose remote side is there.
    preserve_needed :
        FileEntity
        → Option ExactSnapshot
        → PreparedConflict
        → ConflictResolutionResult
        → M fs.State (List VerifiedConflictOutput)
    unfolding preserve_each
    preserve_needed other captured prepared decided =
        if compound other || (is_duplicated decided.action && is_given captured)
        then preserve_each (snapshots_of prepared)
        else pure []

    resolve_present :
        ConflictExecutionPolicy
        → FileEntity
        → Option ExactSnapshot
        → M fs.State ConflictResolutionResult
    unfolding prepare_conflict resolve_prepared_with_policy preserve_needed
    resolve_present policy other captured = do
      prepared ← prepare_conflict other
      decided ← (λ s. (resolve_prepared_with_policy policy prepared.primary captured, s))
      outputs ← preserve_needed other captured prepared decided
      pure (record decided {
        verified_outputs = outputs;
        captured_local = captured;
        captured_remote = some prepared.primary;
      })

    resolve_absent : Option ExactSnapshot → ConflictResolutionResult
    resolve_absent captured = record {
      action = if is_given captured then duplicated else kept_local;
      has_conflict_markers = false;
      target_content = content_of captured;
      target_mtime = mtime_of ctx.local 0;
      verified_outputs = [];
      captured_local = captured;
      captured_remote = none;
    }

    resolve_captured :
        ConflictExecutionPolicy
        → Option ExactSnapshot
        → Option FileEntity
        → M fs.State ConflictResolutionResult
    unfolding resolve_present resolve_absent
    resolve_captured policy captured none = pure (resolve_absent captured)
    resolve_captured policy captured (some other) = resolve_present policy other captured

    unfoldable pub resolve_conflict : ConflictExecutionPolicy → M fs.State ConflictResolutionResult
    unfolding capture_optional resolve_captured
    resolve_conflict policy = do
      captured ← capture_optional local ctx.local_path ctx.local
      resolve_captured policy captured ctx.remote
