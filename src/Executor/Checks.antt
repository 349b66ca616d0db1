-- ===== src/Executor/Checks.antt =====
-- What src/sync/plan-executor.ts tests before it changes a file or a record, and what an action needs.
pub mod Held
pub mod Kept
use obsidian_air_sync.Prelude.{
  ℕ, Bool, true, false, not, ◌&&◌, ◌||◌, Option, none, some, List, [], ◌∷◌, length, Eq, ◌==◌,
  nat_eq, bool_eq, option_eq, if◌then◌else◌,
}
use obsidian_air_sync.Prelude.Text.{Str, str_eq, truthy}
use obsidian_air_sync.Types.Entity.{
  PathAuthority, actual_resolved, requested_echo, FileEntity, RemoteChecksum, SyncRecord, record_eq,
  SyncSide, local, remote,
}
use obsidian_air_sync.Types.Action.{
  SyncAction, RecordPublication, DescendantRecord, CompletedAction, is_rename,
}
use obsidian_air_sync.Compare.{content_key, checksums_equal}
use obsidian_air_sync.Commit.{Context, ordered_child_receipts, child_source}
use obsidian_air_sync.Store.Interface.{Database}
use obsidian_air_sync.Files.{
  Failure, proof_mismatch, Result, ok, failed, M, next, ◌>>=◌, ◌>>◌, pure, fail, guard, FileSystems,
  ChecksumRegistry,
}

-- What an execution stands on: the file systems, the record store, the checksums, the committer and the
-- clock.
pub record Machine : Type 1 where
  pub fs : FileSystems {0}
  pub db : Database
  pub registry : ChecksumRegistry
  pub committer : Context db
  pub now : ℕ

abbrev pub World : Machine → Type 0
World m = m.fs.State × m.db.State

abbrev pub or_else {ℓ} : {A : Type ℓ} → Option A → A → A
or_else none d = d
or_else (some a) d = a

abbrev pub is_given {ℓ} : {A : Type ℓ} → Option A → Bool
is_given none = false
is_given (some a) = true

abbrev pub is_resolved : Option PathAuthority → Bool
is_resolved none = false
is_resolved (some requested_echo) = false
is_resolved (some actual_resolved) = true

unfoldable pub is_exact_path : Option FileEntity → Str → Bool
is_exact_path none path = false
is_exact_path (some e) path = e.path == path && is_resolved e.path_authority

-- A key in a condition: an absent or an empty one is falsy.
abbrev pub is_named : Option Str → Bool
is_named none = false
is_named (some key) = truthy key

abbrev pub checksums_differ : Option RemoteChecksum → Option RemoteChecksum → Bool
checksums_differ (some a) (some b) = not (a.algo == b.algo) || not (a.value == b.value)
checksums_differ _ _ = false

abbrev pub both_given {ℓ} : {A : Type ℓ} → Option A → Option A → Bool
both_given (some a) (some b) = true
both_given _ _ = false

-- The last disjunct of `unchangedEndpoint`: of two files, the strongest key that both have.
pub version_changed : FileEntity → FileEntity → Bool
version_changed expected current =
    if truthy expected.hash && truthy current.hash
    then not (expected.hash == current.hash)
    else if both_given expected.remote_checksum current.remote_checksum
    then checksums_differ expected.remote_checksum current.remote_checksum
    else not (current.mtime == expected.mtime)

pub endpoint_changed : FileEntity → FileEntity → Bool
unfolding version_changed is_exact_path
endpoint_changed expected current =
    not (is_exact_path (some current) expected.path)
    || not (current.is_directory == expected.is_directory)
    || (is_named expected.identity_key && not (current.identity_key == expected.identity_key))
    || checksums_differ expected.remote_checksum current.remote_checksum
    || (not expected.is_directory
        && (not (current.size == expected.size) || version_changed expected current))

-- `bytesMatch`
abbrev pub bytes_match : ChecksumRegistry → List ℕ → FileEntity → Option RemoteChecksum → Bool
bytes_match registry content e none = false
bytes_match registry content e (some key) =
    length content == e.size
    && registry.has key.algo
    && registry.compute content key.algo == key.value

-- The children of a folder rename.
abbrev pub folder_children : SyncAction → Option (List DescendantRecord)
folder_children a = if is_rename a then a.descendant_records else none

-- The addresses of an action on each side.
abbrev pub address_of : SyncSide → SyncAction → Str
address_of local a = or_else a.local_path a.path
address_of remote a = or_else a.remote_path a.path

module _ (m : Machine) where
  -- A call of a file system, beside the store.
  abbrev pub on_files : {A : Type 0} → M m.fs.State A → M (World m) A
  on_files call w = ((call w.0).0, ((call w.0).1, w.1))

  abbrev pub stat : SyncSide → Str → M (World m) (Option FileEntity)
  stat side path = on_files (m.fs.stat side path)

  -- The bytes of a file are `content`, by its checksum or by reading it.
  unfoldable pub has_bytes : SyncSide → Str → List ℕ → FileEntity → M (World m) (Unit {0})
  has_bytes side path content e =
      if bytes_match m.registry content e (content_key e)
      then pure tt
      else (do bytes ← on_files (m.fs.read side path); guard (content == bytes) proof_mismatch)

  check_current : FileEntity → Option FileEntity → M (World m) FileEntity
  unfolding endpoint_changed
  check_current expected none = fail proof_mismatch
  check_current expected (some current) =
      if endpoint_changed expected current then fail proof_mismatch else pure current

  unfoldable pub unchanged_endpoint : SyncSide → FileEntity → M (World m) FileEntity
  unfolding check_current
  unchanged_endpoint side expected = do
    current ← stat side expected.path
    check_current expected current

  check_record : Str → Option SyncRecord → M (World m) (Unit {0})
  check_record path expected w = guard (m.db.at_path path w.1 == expected) proof_mismatch w

  -- The row that a publication continues, at an address of its own.
  check_source : Str → Option SyncRecord → M (World m) (Unit {0})
  unfolding check_record
  check_source path none = pure tt
  check_source path (some source) =
      if source.path == path then pure tt else check_record source.path (some source)

  check_endpoint : SyncSide → Option FileEntity → Str → M (World m) (Unit {0})
  unfolding unchanged_endpoint
  check_endpoint side (some expected) address = do
    current ← unchanged_endpoint side expected
    pure tt
  check_endpoint side none address = do
    found ← stat side address
    guard (not (is_given found)) proof_mismatch

  check_publication : SyncAction → Option RecordPublication → M (World m) (Unit {0})
  unfolding check_record check_source check_endpoint
  check_publication a none = pure tt
  check_publication a (some publication) = do
    check_record a.path publication.destination
    check_source a.path publication.source
    check_endpoint local a.local (address_of local a)
    check_endpoint remote a.remote (address_of remote a)

  check_child : DescendantRecord → Option SyncRecord → M (World m) (Unit {0})
  unfolding check_record
  check_child child none = fail proof_mismatch
  check_child child (some source) = do
    check_record source.path (some source)
    (if source.path == child.new_path
        then pure tt
        else check_record child.new_path child.destination)

  check_children : List (DescendantRecord × Option CompletedAction) → M (World m) (Unit {0})
  unfolding check_child
  check_children [] = pure tt
  check_children ((child, receipt) ∷ rest) = do
    check_child child (child_source child receipt)
    check_children rest

  abbrev check_folder :
      Option (List DescendantRecord) → List CompletedAction → M (World m) (Unit {0})
  check_folder none completed = pure tt
  check_folder (some children) completed =
      check_children (ordered_child_receipts children completed)

  unfoldable pub check_publication_inputs :
      SyncAction → List CompletedAction → M (World m) (Unit {0})
  unfolding check_publication check_children
  check_publication_inputs a completed = do
    guard (is_given a.publication || is_given (folder_children a)) proof_mismatch
    check_publication a a.publication
    check_folder (folder_children a) completed
