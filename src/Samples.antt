-- ===== src/Samples.antt =====
-- Concrete entities, records and actions for the tests of the modules.
pub mod Disk
use obsidian_air_sync.Prelude.{false, none, some, []}
use obsidian_air_sync.Prelude.Text.{Str, codes}
use obsidian_air_sync.Types.Entity.{FileEntity, SyncRecord}
use obsidian_air_sync.Types.Action.{push, pull, SyncAction, CompletedAction}

abbrev pub note : Str
note = codes "a.md"

abbrev pub draft : Str
draft = codes "b.md"

abbrev pub note_local : FileEntity
note_local = record {
  path = note;
  path_authority = none;
  identity_key = none;
  is_directory = false;
  size = 3;
  mtime = 10;
  hash = codes "h1";
  remote_checksum = none;
}

abbrev pub note_remote : FileEntity
note_remote = record {
  path = note;
  path_authority = none;
  identity_key = some (codes "id1");
  is_directory = false;
  size = 3;
  mtime = 20;
  hash = [];
  remote_checksum = none;
}

abbrev pub note_record : SyncRecord
note_record = record {
  path = note;
  hash = codes "h1";
  local_mtime = 10;
  remote_mtime = 20;
  local_size = 3;
  remote_size = 3;
  remote_checksum = none;
  remote_identity_key = codes "id1";
  synced_at = 7;
}

abbrev pub note_push : SyncAction
note_push = record {
  ref = 1;
  action = push;
  path = note;
  local = some note_local;
  remote = some note_remote;
  publication = some (record { source = none; destination = none });
  baseline = none;
  local_path = none;
  remote_path = none;
  remote_identity_source = none;
  additional_remote = none;
  additional_local = none;
  conflict_policy = none;
  old_path = [];
  descendants = none;
  content = none;
  descendant_records = none;
  prune_empty_ancestors = none;
}

abbrev pub note_pull : SyncAction
note_pull = record note_push { ref = 2; action = pull }

abbrev pub note_pushed : CompletedAction
note_pushed = record {
  action = note_push;
  local_entity = some note_local;
  remote_entity = some note_remote;
  terminal_proof = none;
  terminal_record = some note_record;
}
