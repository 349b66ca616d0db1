-- ===== src/PathGraph/Tests.antt =====
-- Two groups that share a path, and one apart.
use obsidian_air_sync.Prelude.{◌≡◌, ◌↔◌, refl, List, [], ◌∷◌}
use obsidian_air_sync.Prelude.Text.{Str, codes}
use obsidian_air_sync.Samples.{note, draft}
use obsidian_air_sync.PathGraph.{root_of}
use obsidian_air_sync.PathGraph.Closure.{Joined, root_of_iff}

abbrev old_note : Str
old_note = codes "c.md"

abbrev groups : List (List Str)
groups = (note ∷ draft ∷ []) ∷ (draft ∷ old_note ∷ []) ∷ (codes "d.md" ∷ []) ∷ []

root_of_iff_example : (root_of groups note ≡ root_of groups old_note) ↔ Joined groups note old_note
root_of_iff_example =
    root_of_iff groups note old_note ((refl, (refl, tt)), ((refl, (refl, tt)), ((refl, tt), tt)))
      refl refl
