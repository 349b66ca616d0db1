-- ===== src/Commit/Records.antt =====
-- `buildSyncRecord` of src/sync/state-committer.ts, and the errors that a commit throws.
use obsidian_air_sync.Prelude.{ℕ, Option, none, some, if◌then◌else◌}
use obsidian_air_sync.Prelude.Text.{Str, truthy, codes}
use obsidian_air_sync.Types.Entity.{FileEntity, SyncRecord}

pub data CommitError : Type 0 where
  identity_missing folder_proof_missing child_record_missing folder_records_changed : CommitError
  changed_before_deletion terminal_proof_missing changed_before_publication : CommitError
  publication_missing changed_before_cleanup aborted : CommitError

pub data Result (A : Type 0) : Type 0 where
  ok : A → Result A
  err : CommitError → Result A

abbrev hash_of : Option FileEntity → Str
hash_of none = codes ""
hash_of (some e) = e.hash

abbrev number_of : (FileEntity → ℕ) → Option FileEntity → ℕ
number_of f none = 0
number_of f (some e) = f e

-- An absent and an empty identity are refused alike; `now` is `Date.now()`.
unfoldable pub build_sync_record :
    ℕ → Option FileEntity → Option FileEntity → Str → Result SyncRecord
build_sync_record now local none path = err identity_missing
build_sync_record now local (some remote) path = elim remote.identity_key [
  | none ↦ err identity_missing
  | some key ↦
      if truthy key
      then ok (record {
        path = path;
        hash = if truthy (hash_of local) then hash_of local else remote.hash;
        local_mtime = number_of (λ e. e.mtime) local;
        remote_mtime = remote.mtime;
        local_size = number_of (λ e. e.size) local;
        remote_size = remote.size;
        remote_checksum = remote.remote_checksum;
        remote_identity_key = key;
        synced_at = now;
      })
      else err identity_missing
]
