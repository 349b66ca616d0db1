-- ===== src/Tracker/Tests.antt =====
-- Reports on a new tracker.
use obsidian_air_sync.Prelude.{◌≡◌, refl, some, List, [], ◌∷◌, contains, inl}
use obsidian_air_sync.Prelude.Text.{str_eq}
use obsidian_air_sync.Prelude.Dict
use obsidian_air_sync.Prelude.Dict.{get, set, delete}
use obsidian_air_sync.Tracker.{
  new_tracker, snapshot, acknowledge, acknowledge_relations, mark_renamed, mark_dirty,
  mark_endpoints, Report, dirty, renamed, reports,
}
use obsidian_air_sync.Tracker.Survival.{touched, dirty-acknowledge}
use obsidian_air_sync.Tracker.Renames.{late_rename_survives}
use obsidian_air_sync.Samples.{note, draft}

abbrev edits : List Report
edits = dirty note ∷ renamed draft note ∷ []

dirty-acknowledge_example :
    contains (acknowledge (snapshot new_tracker) (reports edits new_tracker)).dirty_paths draft
    ≡ touched edits new_tracker draft
dirty-acknowledge_example = dirty-acknowledge new_tracker edits draft

late_rename_survives_example :
    (Dict.get draft (acknowledge (snapshot new_tracker) (reports edits new_tracker)).rename_pairs
      ≡ some note)
    × (Dict.get draft
          (acknowledge_relations (snapshot new_tracker) (reports edits new_tracker)).rename_pairs
        ≡ some note)
unfolding get set delete reports mark_renamed mark_dirty mark_endpoints touched str_eq
late_rename_survives_example = late_rename_survives new_tracker edits draft note refl (inl refl)
