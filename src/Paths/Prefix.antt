-- ===== src/Paths/Prefix.antt =====
-- pathsWithPrefix of src/utils/path.ts: the entries of a sorted array that begin with a prefix.
pub mod Search
use Prim.Native.Nat.{◌%◌}
use obsidian_air_sync.Prelude.{
  ℕ, zero, suc, ◌+◌, ◌*◌, ◌/◌, ◌^◌, ◌-◌, ◌≤◌, ◌<◌, ◌≡◌, refl, ◌∙◌, sym, ap, inl, inr, Bool, true,
  false, not, ◌&&◌, List, [], ◌∷◌, length, drop, ltb, All, arith, ◌==◌, nat_eq, if◌then◌else◌,
  Bool-cases,
}
use obsidian_air_sync.Prelude.Text.{Str, str_ltb, str_ltb_irrefl, str_ltb_trans, str_ltb_connex}
use obsidian_air_sync.Paths.{starts_with}

-- `sortedPaths[i]`, which the search reads within the bounds only.
element : ℕ → List Str → Str
element i [] = []
element zero (x ∷ xs) = x
element (suc i) (x ∷ xs) = element i xs

-- `(low + high) >>> 1` on 32 bits.
middle : ℕ → ℕ → ℕ
middle low high = (low + high) % 2 ^ 32 / 2

-- The loop of the binary search.
lower_bound : ℕ → List Str → Str → ℕ → ℕ → ℕ
unfolding element middle
lower_bound zero sorted_paths prefix low high = low
lower_bound (suc fuel) sorted_paths prefix low high =
    let is_below = str_ltb (element (middle low high) sorted_paths) prefix in
    elim (ltb low high) [
      | true ↦
          lower_bound fuel sorted_paths prefix (if is_below then middle low high + 1 else low)
            (if is_below then high else middle low high)
      | false ↦ low
    ]

-- The loop that ends at the first entry without the prefix.
matches_from : Str → List Str → List Str
matches_from prefix [] = []
matches_from prefix (path ∷ paths) =
    let rest = matches_from prefix paths in if starts_with path prefix then path ∷ rest else []

pub paths_with_prefix : List Str → Str → List Str
unfolding lower_bound matches_from
paths_with_prefix sorted_paths prefix =
    let low = lower_bound (length sorted_paths) sorted_paths prefix 0 (length sorted_paths) in
    matches_from prefix (drop low sorted_paths)

-- No entry comes before an earlier one.
abbrev pub IsSorted : List Str → Type 0
IsSorted [] = Unit
IsSorted (x ∷ xs) = All (λ y. str_ltb y x ≡ false) xs × IsSorted xs

-- All entries with the prefix, in their order.
unfoldable pub having : Str → List Str → List Str
having prefix [] = []
having prefix (path ∷ paths) =
    let rest = having prefix paths in if starts_with path prefix then path ∷ rest else rest
