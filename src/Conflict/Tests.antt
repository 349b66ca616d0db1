-- ===== src/Conflict/Tests.antt =====
-- A note whose first conflict copy is there already.
use obsidian_air_sync.Prelude.{◌≡◌, refl, ◌∷◌, [], some, nat_eq, ◌==◌}
use obsidian_air_sync.Prelude.Text.{codes, str_eq}
use obsidian_air_sync.Paths.{insert_conflict_suffix}
use obsidian_air_sync.Conflict.{Stat, generate_conflict_path}
use obsidian_air_sync.Conflict.Fresh.{IsChoice, generate_conflict_path-IsChoice}

abbrev one_copy : Stat
one_copy candidate = some (candidate == codes "a.conflict.md")

second_copy :
    generate_conflict_path 7 (one_copy ∷ []) (codes "a.md") ≡ some (codes "a.conflict-2.md")
unfolding generate_conflict_path insert_conflict_suffix str_eq nat_eq
second_copy = refl

generate_conflict_path-IsChoice_example :
    IsChoice 7
      (one_copy ∷ [])
      (codes "a.md")
      1
      101
      (generate_conflict_path 7 (one_copy ∷ []) (codes "a.md"))
generate_conflict_path-IsChoice_example =
    generate_conflict_path-IsChoice 7 (one_copy ∷ []) (codes "a.md")
