-- ===== src/Paths/Tests.antt =====
-- A folder among its neighbours.
use obsidian_air_sync.Prelude.{◌≡◌, refl, ◌∷◌, [], List, arith, nat_eq}
use obsidian_air_sync.Paths.{starts_with}
use obsidian_air_sync.Prelude.Text.{Str, codes, str_eq, str_ltb}
use obsidian_air_sync.Paths.Prefix.{paths_with_prefix, having, IsSorted}
use obsidian_air_sync.Paths.Prefix.Search.{paths_with_prefix-having}

abbrev listing : List Str
listing = codes "a.md" ∷ codes "b/1.md" ∷ codes "b/2.md" ∷ codes "c.md" ∷ []

abbrev folder : Str
folder = codes "b/"

listing-IsSorted : IsSorted listing
unfolding str_ltb
listing-IsSorted = ((refl, (refl, (refl, tt))), ((refl, (refl, tt)), ((refl, tt), (tt, tt))))

in_folder : having folder listing ≡ codes "b/1.md" ∷ codes "b/2.md" ∷ []
unfolding having starts_with nat_eq
in_folder = refl

paths_with_prefix-having_example : paths_with_prefix listing folder ≡ having folder listing
paths_with_prefix-having_example =
    paths_with_prefix-having listing folder listing-IsSorted (omega arith)
