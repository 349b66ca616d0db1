-- ===== src/Commit/Safety.antt =====
-- The records that src/sync/state-committer.ts builds, and its commits that throw.
use obsidian_air_sync.Prelude.{
  ℕ, ◌<◌, ◌≡◌, refl, ◌≢◌, ◌⊎◌, inl, inr, true, false, Option, none, some, List, [], arith,
  option_eq, if◌then◌else◌, Option-cases,
}
use obsidian_air_sync.Prelude.Text.{Str, str_eq, truthy}
use obsidian_air_sync.Types.Entity.{FileEntity, SyncRecord, RemoteChecksum}
use obsidian_air_sync.Types.Action.{
  SyncAction, RecordPublication, DescendantRecord, CompletedAction, TerminalActionProof,
}
use obsidian_air_sync.Compare.{
  has_changed, has_remote_changed, compare_content, changed_by_metadata,
}
use obsidian_air_sync.Store.{RecordRelocation, compare_and_put, compare_and_rewrite_paths}
use obsidian_air_sync.Store.Interface.{Database}
use obsidian_air_sync.Store.Refusals.{
  compare_and_put_refused, compare_and_delete_refused, compare_and_rewrite_paths_refused,
}
use obsidian_air_sync.Commit.{
  CommitError, Result, ok, err, build_sync_record, Context, commit_action, commit_folder,
  commit_publication, publish, publish_built, rewrite_records, relocations, ordered_child_receipts,
}

-- A record is built only where the remote entity names an identity, and it carries that identity,
-- which is not empty, and the path that was asked for.
pub build_sync_record_iff :
    (now : ℕ) (local remote : Option FileEntity) (path : Str) (rec : SyncRecord)
    → build_sync_record now local remote path ≡ ok rec
    → (r : FileEntity) × (remote ≡ some r)
      × (r.identity_key ≡ some rec.remote_identity_key)
      × (rec.remote_identity_key ≢ [])
      × (rec.path ≡ path)
unfolding build_sync_record
build_sync_record_iff now local none path rec h = cc
build_sync_record_iff now local (some r) path rec h = elim (Option-cases r.identity_key) [
  | inl p ↦ absurd (ground arith)
  | inr (k, p) ↦ (r, refl, ground arith, ground arith, ground arith)
]

-- The record that is built, whatever identity it has.
abbrev built : ℕ → FileEntity → FileEntity → Str → Str → SyncRecord
built now local remote path key = record {
  path = path;
  hash = if truthy local.hash then local.hash else remote.hash;
  local_mtime = local.mtime;
  remote_mtime = remote.mtime;
  local_size = local.size;
  remote_size = remote.size;
  remote_checksum = remote.remote_checksum;
  remote_identity_key = key;
  synced_at = now;
}

build_sync_record_fields :
    (now : ℕ) (local remote : FileEntity) (path : Str) (rec : SyncRecord)
    → build_sync_record now (some local) (some remote) path ≡ ok rec
    → rec ≡ built now local remote path rec.remote_identity_key
unfolding build_sync_record
build_sync_record_fields now local remote path rec h = elim (Option-cases remote.identity_key) [
  | inl p ↦ absurd (ground arith)
  | inr (k, p) ↦ ground arith
]

module _ (now : ℕ) (local remote : FileEntity) (path key : Str) (bare : remote.hash ≡ []) where
  has_changed-built :
      (local.hash ≢ []) ⊎ (0 < local.mtime)
      → has_changed local (built now local remote path key) ≡ false
  unfolding has_changed
  has_changed-built l = ground arith

  has_remote_changed-built :
      (remote.remote_checksum ≢ none) ⊎ (0 < remote.mtime)
      → has_remote_changed remote (built now local remote path key) ≡ false
  unfolding has_remote_changed changed_by_metadata
  has_remote_changed-built m = go remote.remote_checksum refl
    where
      go :
          (c : Option RemoteChecksum)
          → remote.remote_checksum ≡ c
          → has_remote_changed remote (built now local remote path key) ≡ false
      go none e = rw (e, has_remote_changed) (ground arith)
      go (some c) e = rw (e, has_remote_changed) (ground arith)

-- For a record just built from a local and a remote file, the comparison of the same two files
-- finds nothing to do, if the local file has a hash or a known time, and the remote one has no
-- hash, and a checksum or a known time.
pub compare_content-build_sync_record :
    (now : ℕ) (local remote : FileEntity) (path : Str) (rec : SyncRecord)
    → build_sync_record now (some local) (some remote) path ≡ ok rec
    → (local.hash ≢ []) ⊎ (0 < local.mtime)
    → remote.hash ≡ []
    → (remote.remote_checksum ≢ none) ⊎ (0 < remote.mtime)
    → compare_content
        (record { path = path; local = some local; remote = some remote; prev_sync = some rec })
      ≡ none
unfolding compare_content
compare_content-build_sync_record now local remote path rec h l r m =
    rw (build_sync_record_fields now local remote path rec h) (
      ground (
        arith,
        has_changed-built now local remote path rec.remote_identity_key r l,
        has_remote_changed-built now local remote path rec.remote_identity_key r m,
      ))

module _ (db : Database) (ctx : Context db) where
  publish_unchanged :
      (action : SyncAction) (p : RecordPublication) (rec : SyncRecord) (local : Option FileEntity)
      (proof : Option TerminalActionProof) (s : db.State) (e : CommitError)
      → (publish db ctx action p rec local proof s).0 ≡ err e
      → (publish db ctx action p rec local proof s).1 ≡ s
  unfolding publish
  publish_unchanged action p rec local proof s e h =
      elim (Option-cases (compare_and_put db p.source rec p.destination s)) [
        | inl q ↦ ground arith
        | inr ((true, t), q) ↦ absurd (ground arith)
        | inr ((false, t), q) ↦
            ground (arith, compare_and_put_refused db p.source rec p.destination s q)
      ]

  publish_built_unchanged :
      (action : SyncAction) (p : RecordPublication) (r : Result SyncRecord)
      (local : Option FileEntity) (proof : Option TerminalActionProof) (s : db.State)
      (e : CommitError)
      → (publish_built db ctx action p r local proof s).0 ≡ err e
      → (publish_built db ctx action p r local proof s).1 ≡ s
  unfolding publish_built
  publish_built_unchanged action p (err e') local proof s e h = refl
  publish_built_unchanged action p (ok rec) local proof s e h =
      publish_unchanged action p rec local proof s e h

  commit_publication_unchanged :
      (now : ℕ) (action : SyncAction) (p : RecordPublication) (local remote : Option FileEntity)
      (proof : Option TerminalActionProof) (s : db.State) (e : CommitError)
      → (commit_publication db ctx now action p local remote proof s).0 ≡ err e
      → (commit_publication db ctx now action p local remote proof s).1 ≡ s
  unfolding commit_publication
  commit_publication_unchanged now action p local remote proof s e h = ground (
    arith,
    compare_and_delete_refused db action.path p.destination s,
    publish_built_unchanged action p (build_sync_record now local remote action.path) local proof s
        e,
  )

  rewrite_records_unchanged :
      (o : Option (List RecordRelocation)) (s : db.State) (e : CommitError)
      → (rewrite_records db ctx o s).0 ≡ err e
      → (rewrite_records db ctx o s).1 ≡ s
  unfolding rewrite_records
  rewrite_records_unchanged none s e h = refl
  rewrite_records_unchanged (some items) s e h =
      elim (Option-cases (compare_and_rewrite_paths db items s)) [
        | inl q ↦ ground arith
        | inr ((true, t), q) ↦ absurd (ground arith)
        | inr ((false, t), q) ↦ ground (arith, compare_and_rewrite_paths_refused db items s q)
      ]

  commit_folder_unchanged :
      (action : SyncAction) (children : List DescendantRecord) (proof : Option TerminalActionProof)
      (completed : List CompletedAction) (s : db.State) (e : CommitError)
      → (commit_folder db ctx action children proof completed s).0 ≡ err e
      → (commit_folder db ctx action children proof completed s).1 ≡ s
  unfolding commit_folder
  commit_folder_unchanged action children proof completed s e h = ground (
    arith,
    rewrite_records_unchanged (relocations (ordered_child_receipts children completed)) s e,
  )

  -- A commit that throws, on any branch, leaves the rows and the merge bases as they were.
  pub commit_action_unchanged :
      (now : ℕ) (action : SyncAction) (local remote : Option FileEntity)
      (proof : Option TerminalActionProof) (completed : List CompletedAction) (s : db.State)
      (e : CommitError)
      → (commit_action db ctx now action local remote proof completed s).0 ≡ err e
      → (commit_action db ctx now action local remote proof completed s).1 ≡ s
  unfolding commit_action
  commit_action_unchanged now action local remote proof completed s e h =
      elim (Option-cases action.publication) [
        | inl q ↦ elim (Option-cases action.descendant_records) [
          | inl d ↦ ground arith
          | inr (c, d) ↦ ground (arith, commit_folder_unchanged action c proof completed s e)
        ]
        | inr (p, q) ↦ elim (Option-cases action.descendant_records) [
          | inl d ↦ ground (arith, commit_publication_unchanged now action p local remote proof s e)
          | inr (c, d) ↦ ground (
            arith,
            commit_folder_unchanged action c proof completed s e,
            commit_publication_unchanged now action p local remote proof s e,
          )
        ]
      ]
