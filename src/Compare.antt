-- ===== src/Compare.antt =====
-- Has a file changed, and do two entities hold the same content: src/sync/content-identity.ts,
-- src/sync/change-compare.ts and src/sync/decision-engine.ts.
pub mod Verdicts
mod Tests
use obsidian_air_sync.Prelude.{
  ℕ, Bool, true, false, not, ◌&&◌, ◌||◌, Option, none, some, ltb, Eq, ◌==◌, nat_eq, if◌then◌else◌,
}
use obsidian_air_sync.Prelude.Text.{Str, codes, truthy, str_eq}
use obsidian_air_sync.Types.Entity.{RemoteChecksum, FileEntity, SyncRecord, MixedEntity}
use obsidian_air_sync.Types.Action.{
  SyncActionType, push, pull, delete_local, delete_remote, conflict, match, cleanup,
}

abbrev pub sha256 : Str
sha256 = codes "sha256"

-- A populated hash is SHA-256; otherwise the checksum that the remote provides, if any.
unfoldable pub content_key : FileEntity → Option RemoteChecksum
content_key e =
    if truthy e.hash then some (record { algo = sha256; value = e.hash }) else e.remote_checksum

unfoldable pub checksums_equal : RemoteChecksum → RemoteChecksum → Bool
checksums_equal a b = a.algo == b.algo && a.value == b.value

abbrev pub both_equal : Option RemoteChecksum → Option RemoteChecksum → Bool
both_equal none kb = false
both_equal (some a) none = false
both_equal (some a) (some b) = checksums_equal a b

unfoldable pub same_content : FileEntity → FileEntity → Bool
unfolding content_key checksums_equal
same_content a b = both_equal (content_key a) (content_key b)

-- The last test of `sameSynchronizedContent`: each side still has the fingerprint of the baseline.
still_synchronized : FileEntity → FileEntity → Option SyncRecord → Bool
still_synchronized local remote none = false
still_synchronized local remote (some baseline) =
    truthy local.hash
    && local.hash == baseline.hash
    && local.size == baseline.local_size
    && remote.size == baseline.remote_size
    && both_equal remote.remote_checksum baseline.remote_checksum

unfoldable pub same_synchronized_content : FileEntity → FileEntity → Option SyncRecord → Bool
unfolding same_content still_synchronized
same_synchronized_content local remote baseline =
    if not (local.size == remote.size)
    then false
    else if same_content local remote
    then true
    else if truthy remote.hash
    then false
    else still_synchronized local remote baseline

unfoldable pub has_changed : FileEntity → SyncRecord → Bool
has_changed file rec =
    if truthy file.hash && truthy rec.hash
    then not (file.hash == rec.hash)
    else if ltb 0 file.mtime && ltb 0 rec.local_mtime
    then not (file.mtime == rec.local_mtime) || not (file.size == rec.local_size)
    else true

-- `none` where the two checksums are not comparable.
unfoldable pub checksum_changed : Option RemoteChecksum → Option RemoteChecksum → Option Bool
unfolding checksums_equal
checksum_changed none rc = none
checksum_changed (some fc) none = none
checksum_changed (some fc) (some rc) =
    if fc.algo == rc.algo then some (not (checksums_equal fc rc)) else none

-- The tests that apply where no checksum is comparable.
unfoldable pub changed_by_metadata : FileEntity → SyncRecord → Bool
changed_by_metadata file rec =
    if ltb 0 file.mtime && ltb 0 rec.remote_mtime
    then (if file.mtime == rec.remote_mtime && file.size == rec.remote_size
        then (if truthy file.hash && truthy rec.hash then not (file.hash == rec.hash) else false)
        else true)
    else if truthy file.hash && truthy rec.hash
    then not (file.hash == rec.hash)
    else true

unfoldable pub has_remote_changed : FileEntity → SyncRecord → Bool
unfolding checksum_changed changed_by_metadata
has_remote_changed file rec = elim (checksum_changed file.remote_checksum rec.remote_checksum) [
  | some changed ↦ changed
  | none ↦ changed_by_metadata file rec
]

-- `compareContent` with a baseline, both sides present.
compare_both : FileEntity → FileEntity → SyncRecord → Option SyncActionType
compare_both local remote prev =
    let local_diff = has_changed local prev in
    let remote_diff = has_remote_changed remote prev in
    if (local_diff || remote_diff) && local.size == remote.size && same_content local remote
    then some match
    else if local_diff && remote_diff
    then some conflict
    else if local_diff
    then some push
    else if remote_diff
    then some pull
    else none

compare_known : Option FileEntity → Option FileEntity → SyncRecord → Option SyncActionType
unfolding compare_both
compare_known (some local) (some remote) prev = compare_both local remote prev
compare_known (some local) none prev =
    some (if has_changed local prev then conflict else delete_local)
compare_known none (some remote) prev =
    some (if has_remote_changed remote prev then conflict else delete_remote)
compare_known none none prev = some cleanup

compare_unknown : Option FileEntity → Option FileEntity → Option SyncActionType
compare_unknown (some local) none = some push
compare_unknown none (some remote) = some pull
compare_unknown (some local) (some remote) =
    some (if local.size == remote.size && same_content local remote then match else conflict)
compare_unknown none none = none

unfoldable pub compare_content : MixedEntity → Option SyncActionType
unfolding compare_known compare_unknown
compare_content entry = elim entry.prev_sync [
  | some prev ↦ compare_known entry.local entry.remote prev
  | none ↦ compare_unknown entry.local entry.remote
]
