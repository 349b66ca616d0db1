-- ===== src/Samples/Disk.antt =====
-- A file system in memory, and the checksums of no algorithm, for the tests.
use obsidian_air_sync.Prelude.{
  ℕ, false, Option, none, some, List, [], ◌∷◌, ◌==◌, ◌&&◌, if◌then◌else◌, length,
}
use obsidian_air_sync.Prelude.Text.{Str, str_eq}
use obsidian_air_sync.Types.Entity.{FileEntity, SyncSide, local, remote, side_eq, actual_resolved}
use obsidian_air_sync.Samples.{note_remote}
use obsidian_air_sync.Files.{thrown, plain_error, Result, ok, failed, FileSystems, ChecksumRegistry}

pub record StoredFile : Type 0 where
  pub side : SyncSide
  pub entity : FileEntity
  pub bytes : List ℕ

-- A disk that nobody else changes; the last write of a path comes first.
abbrev find : SyncSide → Str → List StoredFile → Option StoredFile
find side path [] = none
find side path (f ∷ files) =
    if f.side == side && f.entity.path == path then some f else find side path files

abbrev remove_path : SyncSide → Str → List StoredFile → List StoredFile
remove_path side path [] = []
remove_path side path (f ∷ files) =
    let rest = remove_path side path files in
    if f.side == side && f.entity.path == path then rest else f ∷ rest

abbrev stat_of : Option StoredFile → Option FileEntity
stat_of none = none
stat_of (some f) = some f.entity

abbrev read_of : Option StoredFile → Result (List ℕ)
read_of none = failed (thrown plain_error)
read_of (some f) = ok f.bytes

-- A remote file that is written gets the identity of the note.
abbrev written : SyncSide → Str → List ℕ → ℕ → FileEntity
written side path bytes mtime = record {
  path = path;
  path_authority = some actual_resolved;
  identity_key = elim side [ local ↦ none | remote ↦ note_remote.identity_key ];
  is_directory = false;
  size = length bytes;
  mtime = mtime;
  hash = [];
  remote_checksum = none;
}

abbrev pub disk : FileSystems {0}
disk = record {
  State = List StoredFile;
  stat = λ side path files. (ok (stat_of (find side path files)), files);
  read = λ side path files. (read_of (find side path files), files);
  write = λ side path bytes mtime files. (
    ok tt,
    record { side = side; entity = written side path bytes mtime; bytes = bytes } ∷ files,
  );
  delete = λ side path files. (ok tt, remove_path side path files);
  rename = λ side from to files. (failed (thrown plain_error), files);
  has_children = λ side path files. (some false, files);
}

abbrev pub no_checksums : ChecksumRegistry
no_checksums = record { has = λ algo. false; compute = λ bytes algo. [] }
