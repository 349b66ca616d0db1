-- ===== src/Executor/Effects.antt =====
-- The input and output of an action in src/sync/plan-executor.ts: `runActionIO` and
-- `runAdmittedRenameIO`. Two calls that are awaited together are made one after the other.
pub mod Kept
pub mod Intended
use obsidian_air_sync.Prelude.{
  ℕ, Bool, true, false, not, ◌&&◌, ◌||◌, Option, none, some, List, [], Eq, ◌==◌, option_eq,
  if◌then◌else◌,
}
use obsidian_air_sync.Prelude.Text.{Str, str_eq}
use obsidian_air_sync.Types.Entity.{FileEntity, SyncSide, local, remote}
use obsidian_air_sync.Types.Action.{
  SyncAction, SyncActionType, push, pull, delete_local, delete_remote, rename_remote, rename_local,
  conflict, match, cleanup, RenameContent, equal, copy, ObservedEndpoint, is_rename,
}
use obsidian_air_sync.Files.{
  proof_mismatch, thrown, plain_error, Result, ok, failed, M, next, ◌>>=◌, ◌>>◌, pure, fail, guard,
}
use obsidian_air_sync.Resolver.Snapshot.{ExactSnapshot, capture_content_snapshot}
use obsidian_air_sync.Executor.Checks.{
  Machine, World, or_else, is_given, is_named, is_exact_path, address_of, on_files, stat,
  unchanged_endpoint, check_publication_inputs,
}

-- What an action leaves: the entities that it looked up, and the bytes that it meant to write.
pub record Entities : Type 0 where
  pub local_entity : Option FileEntity
  pub remote_entity : Option FileEntity
  pub intended_content : Option (List ℕ)

abbrev pub no_entities : Entities
no_entities = record { local_entity = none; remote_entity = none; intended_content = none }

abbrev pub entity_at : SyncSide → SyncAction → Option FileEntity
entity_at local a = a.local
entity_at remote a = a.remote

abbrev pub opposite : SyncSide → SyncSide
opposite local = remote
opposite remote = local

-- Where the terminal entity of a transfer is looked up.
abbrev pub terminal_path : SyncSide → SyncAction → Str
terminal_path local a = or_else a.local_path (elim a.local [ none ↦ a.path | some e ↦ e.path ])
terminal_path remote a = or_else a.remote_path (elim a.remote [ none ↦ a.path | some e ↦ e.path ])

abbrev pub moving_side : SyncAction → SyncSide
moving_side a = elim a.action [ rename_local ↦ local | _ ↦ remote ]

module _ (m : Machine) where
  pub capture : SyncSide → FileEntity → M (World m) ExactSnapshot
  capture side expected =
      on_files m (capture_content_snapshot m.fs m.registry side expected.path expected)

  -- A push keeps the entity that was captured; a pull looks the written file up.
  local_terminal : SyncSide → SyncAction → ExactSnapshot → M (World m) (Option FileEntity)
  local_terminal local a captured = pure (some captured.entity)
  local_terminal remote a captured = stat m local (terminal_path local a)

  -- The bytes of `source` go to the other side.
  transfer : SyncSide → SyncAction → Option FileEntity → M (World m) Entities
  unfolding capture local_terminal
  transfer source a none = fail (thrown plain_error)
  transfer source a (some expected) = do
    captured ← capture source expected
    check_publication_inputs m a []
    on_files m (
        m.fs.write (opposite source) (address_of (opposite source) a) captured.content
          expected.mtime)
    mine ← local_terminal source a captured
    theirs ← stat m remote (terminal_path remote a)
    guard (is_given mine && is_given theirs) proof_mismatch
    pure (record {
      local_entity = mine;
      remote_entity = theirs;
      intended_content = some captured.content;
    })

  -- The destination of a rename is free, or is the moved object under another spelling.
  abbrev is_free_for : SyncAction → Option FileEntity → Bool
  is_free_for a none = true
  is_free_for a (some occupant) = occupant.path == a.old_path

  -- `content?.mode === "copy"`: the bytes are captured before anything moves.
  copied_bytes : Option RenameContent → M (World m) (Option (List ℕ))
  unfolding capture
  copied_bytes none = pure none
  copied_bytes (some equal) = pure none
  copied_bytes (some (copy from side path)) = do
    captured ← capture from.side from.entity
    again ← unchanged_endpoint m from.side from.entity
    pure (some captured.content)

  write_copy :
      Option RenameContent → Option (List ℕ) → FileEntity → FileEntity → M (World m) (Unit {0})
  write_copy (some (copy from local path)) (some bytes) mine theirs = do
    moved ← unchanged_endpoint m local (record mine { path = path })
    on_files m (m.fs.write local path bytes from.entity.mtime)
  write_copy (some (copy from remote path)) (some bytes) mine theirs = do
    moved ← unchanged_endpoint m remote (record theirs { path = path })
    on_files m (m.fs.write remote path bytes from.entity.mtime)
  write_copy _ _ mine theirs = pure tt

  -- The remote object is still the one that moved.
  abbrev same_object : FileEntity → Option FileEntity → Bool
  same_object theirs none = false
  same_object theirs (some now) =
      not (is_named theirs.identity_key) || now.identity_key == theirs.identity_key

  abbrev moved_endpoint : SyncSide → FileEntity → FileEntity → FileEntity
  moved_endpoint local mine theirs = mine
  moved_endpoint remote mine theirs = theirs

  rename_endpoints : SyncAction → FileEntity → FileEntity → M (World m) Entities
  unfolding copied_bytes write_copy
  rename_endpoints a mine theirs = do
    before ← unchanged_endpoint m local mine
    before' ← unchanged_endpoint m remote theirs
    destination ← stat m (moving_side a) a.path
    guard (is_free_for a destination) proof_mismatch
    bytes ← copied_bytes a.content
    still ← unchanged_endpoint m (moving_side a) (moved_endpoint (moving_side a) mine theirs)
    on_files m (m.fs.rename (moving_side a) a.old_path a.path)
    write_copy a.content bytes mine theirs
    found ← stat m local a.path
    found' ← stat m remote a.path
    guard (is_exact_path found a.path && is_exact_path found' a.path && same_object theirs found')
        proof_mismatch
    pure (record { local_entity = found; remote_entity = found'; intended_content = bytes })

  run_admitted_rename_io : SyncAction → Option FileEntity → Option FileEntity → M (World m) Entities
  unfolding rename_endpoints
  run_admitted_rename_io a (some mine) (some theirs) = rename_endpoints a mine theirs
  run_admitted_rename_io a _ _ = fail proof_mismatch

  delete_at : SyncSide → SyncAction → M (World m) Entities
  delete_at side a = do on_files m (m.fs.delete side (address_of side a)); pure no_entities

  rename_io : SyncAction → M (World m) Entities
  unfolding run_admitted_rename_io
  rename_io a =
      if is_given a.content || is_given a.descendant_records
      then run_admitted_rename_io a a.local a.remote
      else fail (thrown plain_error)

  io_of : SyncActionType → SyncAction → M (World m) Entities
  unfolding transfer delete_at rename_io
  io_of push a = transfer local a a.local
  io_of pull a = transfer remote a a.remote
  io_of delete_local a = delete_at local a
  io_of delete_remote a = delete_at remote a
  io_of rename_remote a = rename_io a
  io_of rename_local a = rename_io a
  io_of conflict a = pure no_entities
  io_of match a = pure no_entities
  io_of cleanup a = pure no_entities

  unfoldable pub run_action_io : SyncAction → M (World m) Entities
  unfolding io_of
  run_action_io a = io_of a.action a
