-- ===== src/Resolver/Snapshot.antt =====
-- src/sync/content-snapshot.ts: the bytes of a file, with a proof that they are one version of it.
pub mod Captured
use obsidian_air_sync.Prelude.{
  ℕ, Bool, true, false, not, ◌&&◌, ◌||◌, Option, none, some, List, length, ltb, Eq, ◌==◌, nat_eq,
  option_eq, if◌then◌else◌,
}
use obsidian_air_sync.Prelude.Text.{Str, str_eq}
use obsidian_air_sync.Types.Entity.{FileEntity, RemoteChecksum, SyncSide}
use obsidian_air_sync.Compare.{content_key, checksums_equal}
use obsidian_air_sync.Files.{
  Failure, proof_mismatch, external_io_failure, external_auth_failure, thrown, Result, ok, failed,
  M, next, ◌>>=◌, ◌>>◌, pure, fail, guard, FileSystems, ChecksumRegistry,
}

pub data StableVersionWitness : Type 0 where
  content_version : RemoteChecksum → StableVersionWitness
  mtime_version : ℕ → ℕ → StableVersionWitness
  exact_bytes : ℕ → StableVersionWitness

pub record ExactSnapshot : Type 0 where
  pub path : Str
  pub entity : FileEntity
  pub content : List ℕ
  pub witness : StableVersionWitness

-- The parameters are what `assertSameIdentity` is given; the result is the entity that it asserts.
pub assert_same_identity {ℓ} :
    {S : Type ℓ} → Option FileEntity → FileEntity → Str → S → Result FileEntity × S
assert_same_identity none previous path s = (failed proof_mismatch, s)
assert_same_identity (some current) previous path s =
    if not (current.path == path)
      || not (current.identity_key == previous.identity_key)
      || not (current.size == previous.size)
    then (failed proof_mismatch, s)
    else (ok current, s)

-- Two keys of one algorithm that differ.
pub contradict : Option RemoteChecksum → Option RemoteChecksum → Bool
contradict none b = false
contradict (some a) none = false
contradict (some a) (some b) = a.algo == b.algo && not (checksums_equal a b)

pub common_key :
    Option RemoteChecksum → Option RemoteChecksum → Option RemoteChecksum → Option RemoteChecksum
common_key (some observed) (some before) (some after) =
    if checksums_equal observed before && checksums_equal before after then some after else none
common_key _ _ _ = none

pub stable_content_key {ℓ} :
    {S : Type ℓ} → FileEntity → FileEntity → FileEntity → S → Result (Option RemoteChecksum) × S
unfolding contradict common_key
stable_content_key observed before after s =
    let (o, (b, a)) : Option RemoteChecksum × (Option RemoteChecksum × Option RemoteChecksum) =
      (content_key observed, (content_key before, content_key after)) in
    if contradict o b || contradict o a || contradict b a
    then (failed proof_mismatch, s)
    else (ok (common_key o b a), s)

-- The bytes have the size of the observed file, and its digest where the algorithm is known.
abbrev pub is_admitted : ChecksumRegistry → FileEntity → Option RemoteChecksum → List ℕ → Bool
is_admitted registry observed none bytes = length bytes == observed.size
is_admitted registry observed (some key) bytes =
    length bytes == observed.size
    && (not (registry.has key.algo) || registry.compute bytes key.algo == key.value)

abbrev pub has_stable_mtime : FileEntity → FileEntity → FileEntity → Bool
has_stable_mtime observed before after =
    ltb 0 observed.mtime
    && observed.mtime == before.mtime
    && before.mtime == after.mtime
    && observed.size == before.size
    && before.size == after.size

-- The catch: a failure of the file system becomes one of its two kinds.
abbrev pub as_proof_error : Failure → Failure
as_proof_error (thrown t) =
    if t.is_auth_failure then external_auth_failure t else external_io_failure t
as_proof_error e = e

abbrev pub caught {ℓ} : {S : Type ℓ} {A : Type 0} → Result A × S → Result A × S
caught (ok a, s) = (ok a, s)
caught (failed e, s) = (failed (as_proof_error e), s)

module _ {ℓ} (fs : FileSystems {ℓ}) (registry : ChecksumRegistry) where
  -- The second read, where neither a key nor a time names the version.
  read_again : SyncSide → Str → FileEntity → List ℕ → M fs.State ExactSnapshot
  read_again side path after first = do
    second ← fs.read side path
    found ← fs.stat side path
    final ← assert_same_identity found after path
    guard (first == second) proof_mismatch
    pure (record {
      path = path;
      entity = final;
      content = second;
      witness = exact_bytes (length second);
    })

  by_version :
      SyncSide
      → Str
      → FileEntity
      → FileEntity
      → FileEntity
      → List ℕ
      → Option RemoteChecksum
      → M fs.State ExactSnapshot
  unfolding read_again
  by_version side path observed before after first (some key) =
      pure (record { path = path; entity = after; content = first; witness = content_version key })
  by_version side path observed before after first none =
      if has_stable_mtime observed before after
      then pure (record {
        path = path;
        entity = after;
        content = first;
        witness = mtime_version after.mtime after.size;
      })
      else read_again side path after first

  capture_inner : SyncSide → Str → FileEntity → M fs.State ExactSnapshot
  unfolding assert_same_identity stable_content_key by_version
  capture_inner side path observed = do
    found ← fs.stat side path
    before ← assert_same_identity found observed path
    first ← fs.read side path
    refound ← fs.stat side path
    after ← assert_same_identity refound before path
    key ← stable_content_key observed before after
    guard (is_admitted registry observed key first) proof_mismatch
    by_version side path observed before after first key

  unfoldable pub capture_content_snapshot : SyncSide → Str → FileEntity → M fs.State ExactSnapshot
  unfolding capture_inner
  capture_content_snapshot side path observed s = caught (capture_inner side path observed s)
