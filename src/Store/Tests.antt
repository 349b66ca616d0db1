-- ===== src/Store/Tests.antt =====
-- The updates on a database in memory.
use obsidian_air_sync.Prelude.{◌≡◌, ◌↔◌, refl, Bool, true, false, none, some, option_eq}
use obsidian_air_sync.Prelude.Text.{Str, str_eq}
use obsidian_air_sync.Types.Entity.{record_eq}
use obsidian_air_sync.Store.{compare_and_put, compare_and_delete, expectations_hold, ended_row}
use obsidian_air_sync.Store.Updates.{
  Expected, PutEffect, compare_and_put-total, compare_and_put-PutEffect, compare_and_delete_effect,
}
use obsidian_air_sync.Store.Memory.{
  Rows, no_rows, at_path, memory, memory-IsLawful, HasUniquePaths, no_rows-HasUniquePaths,
}
use obsidian_air_sync.Samples.{note, note_record}

compare_and_put-total_example :
    (b : Bool) × (t : Rows) × (compare_and_put memory none note_record none no_rows ≡ some (b, t))
    × HasUniquePaths t
    × ((b ≡ true) ↔ Expected memory none note_record none no_rows)
compare_and_put-total_example =
    compare_and_put-total memory memory-IsLawful none note_record none no_rows
      no_rows-HasUniquePaths

-- The captured occupant is not there, so the put is refused.
compare_and_put-PutEffect_example :
    PutEffect memory none note_record (some note_record) false no_rows no_rows
unfolding compare_and_put expectations_hold at_path str_eq record_eq option_eq ended_row
compare_and_put-PutEffect_example =
    compare_and_put-PutEffect memory memory-IsLawful none note_record (some note_record) no_rows
      no_rows-HasUniquePaths refl

compare_and_delete_effect_example :
    let (b, t) = compare_and_delete memory note none no_rows in
    ((b ≡ true) ↔ (memory.at_path note no_rows ≡ none))
    × (b ≡ true → memory.at_path note t ≡ none)
    × (b ≡ true → (k : Str) → memory.get k t ≡ memory.get k no_rows)
    × (b ≡ false → t ≡ no_rows)
    × HasUniquePaths t
compare_and_delete_effect_example =
    compare_and_delete_effect memory memory-IsLawful note none no_rows no_rows-HasUniquePaths
