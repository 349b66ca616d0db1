-- ===== src/Commit/Tests.antt =====
-- The committer on a database in memory.
use obsidian_air_sync.Prelude.{◌≡◌, refl, false, none, some, [], inr, option_eq, arith}
use obsidian_air_sync.Prelude.Text.{codes, str_eq}
use obsidian_air_sync.Types.Entity.{record_eq}
use obsidian_air_sync.Types.Action.{is_removal}
use obsidian_air_sync.Compare.{compare_content}
use obsidian_air_sync.Store.{
  compare_and_put, publish_record, expectations_hold, ended_row, end_correspondence,
  refresh_content, invalidates_merge_base, read_at,
}
use obsidian_air_sync.Store.Memory.{
  no_rows, at_path, put, memory, memory-IsLawful, no_rows-HasUniquePaths,
}
use obsidian_air_sync.Commit.{publication_missing, ok, build_sync_record, Context, commit_action}
use obsidian_air_sync.Commit.Safety.{commit_action_unchanged, compare_content-build_sync_record}
use obsidian_air_sync.Commit.Published.{commit_action-rows}
use obsidian_air_sync.Samples.{note, note_local, note_remote, note_record, note_push}

-- No merge bases are kept.
abbrev plain : Context memory
plain = record {
  enable_three_way_merge = false;
  read_local = none;
  sha256 = λ bytes. none;
  encode = λ bytes. bytes;
  is_merge_eligible = λ path size. false;
}

commit_action_unchanged_example :
    (commit_action memory plain 7
      (record note_push { publication = none })
      none
      none
      none
      []
      no_rows).1
    ≡ no_rows
unfolding commit_action
commit_action_unchanged_example =
    commit_action_unchanged memory plain 7 (record note_push { publication = none }) none none none
      [] no_rows publication_missing refl

compare_content-build_sync_record_example :
    compare_content (record {
      path = note;
      local = some note_local;
      remote = some note_remote;
      prev_sync = some note_record;
    })
    ≡ none
unfolding build_sync_record
compare_content-build_sync_record_example =
    compare_content-build_sync_record 7 note_local note_remote note note_record refl
      (inr (omega arith)) refl (inr (omega arith))

commit_action-rows_example :
    (build_sync_record 7 (some note_local) (some note_remote) note ≡ ok note_record)
    × (memory.get
          (codes "id1")
          (commit_action memory plain 7 note_push
            (some note_local)
            (some note_remote)
            none
            []
            no_rows).1
        ≡ some note_record)
    × (is_removal note_push ≡ false)
unfolding commit_action compare_and_put publish_record expectations_hold build_sync_record at_path
    put str_eq ended_row end_correspondence refresh_content invalidates_merge_base record_eq
    option_eq read_at
commit_action-rows_example =
    commit_action-rows memory memory-IsLawful plain 7 note_push (some note_local) (some note_remote)
      none [] no_rows note_record no_rows-HasUniquePaths refl
