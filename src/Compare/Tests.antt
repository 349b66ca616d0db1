-- ===== src/Compare/Tests.antt =====
-- The verdicts on concrete files.
use obsidian_air_sync.Prelude.{refl, none, some, nat_eq}
use obsidian_air_sync.Prelude.Text.{str_eq}
use obsidian_air_sync.Types.Entity.{MixedEntity}
use obsidian_air_sync.Types.Action.{delete_local}
use obsidian_air_sync.Compare.{
  compare_content, has_changed, has_remote_changed, changed_by_metadata, checksum_changed,
}
use obsidian_air_sync.Compare.Verdicts.{
  DeletionIsSafe, compare_content-DeletionIsSafe, RemoteIntact, has_remote_changed-RemoteIntact,
}
use obsidian_air_sync.Samples.{note, note_local, note_remote, note_record}

-- The remote file is gone, and the local one is as it was synchronized.
abbrev gone_remotely : MixedEntity
gone_remotely = record {
  path = note;
  local = some note_local;
  remote = none;
  prev_sync = some note_record;
}

compare_content-DeletionIsSafe_example : DeletionIsSafe gone_remotely delete_local
unfolding compare_content has_changed str_eq
compare_content-DeletionIsSafe_example =
    compare_content-DeletionIsSafe gone_remotely delete_local refl

has_remote_changed-RemoteIntact_example : RemoteIntact note_remote note_record
unfolding has_remote_changed changed_by_metadata checksum_changed nat_eq
has_remote_changed-RemoteIntact_example =
    has_remote_changed-RemoteIntact note_remote note_record refl
