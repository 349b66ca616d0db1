-- ===== src/PathGraph.antt =====
-- `PathGraph` of src/sync/plan-admission-graph.ts: which paths belong to one component.
pub mod Rooted
pub mod Union
pub mod Partition
pub mod Closure
mod Tests
use obsidian_air_sync.Prelude.{
  ℕ, zero, suc, ◌+◌, Bool, true, false, not, ◌||◌, Option, none, some, List, [], ◌∷◌, length, ◌==◌,
  if◌then◌else◌,
}
use obsidian_air_sync.Prelude.Text.{Str, str_eq, truthy}
use obsidian_air_sync.Prelude.Dict.{Dict, get, has, set}

-- `parent`
abbrev pub PathGraph : Type 0
PathGraph = Dict Str Str

compress : Str → Str × PathGraph → Str × PathGraph
compress path (top, g) = (top, set path top g)

-- An empty parent counts as none.
climb : Str → PathGraph → Option Str → (Str → Str × PathGraph) → Str × PathGraph
unfolding compress
climb path g none again = (path, g)
climb path g (some parent) again = elim (not (truthy parent) || parent == path) [
  | true ↦ (path, g)
  | false ↦ compress path (again parent)
]

-- The root, and the graph in which the path and those above it point to it.
unfoldable pub root : ℕ → Str → PathGraph → Str × PathGraph
unfolding climb
root zero path g = (path, g)
root (suc fuel) path g = climb path g (get path g) (λ parent. root fuel parent g)

pub add_path : Str → PathGraph → PathGraph
add_path path g = if has path g then g else set path path g

pub join_roots : Str → Str → PathGraph → PathGraph
join_roots left right g = if left == right then g else set right left g

pub union : ℕ → Str → Str → PathGraph → PathGraph
unfolding join_roots
union fuel left right g =
    let (left_root, h) = root fuel left g in
    let (right_root, k) = root fuel right h in join_roots left_root right_root k

pub add_all : List Str → PathGraph → PathGraph
unfolding add_path
add_all [] g = g
add_all (path ∷ paths) g = add_all paths (add_path path g)

pub union_all : ℕ → Str → List Str → PathGraph → PathGraph
unfolding union
union_all fuel first [] g = g
union_all fuel first (path ∷ paths) g = union_all fuel first paths (union fuel first path g)

pub connect : ℕ → List Str → PathGraph → PathGraph
unfolding add_all union_all
connect fuel [] g = g
connect fuel (first ∷ paths) g = union_all fuel first paths (add_all (first ∷ paths) g)

pub connect_all : ℕ → List (List Str) → PathGraph → PathGraph
unfolding connect
connect_all fuel [] g = g
connect_all fuel (group ∷ groups) g = connect_all fuel groups (connect fuel group g)

-- The number of the paths in the groups, which is fuel enough.
abbrev pub total : List (List Str) → ℕ
total [] = 0
total (group ∷ groups) = length group + total groups

-- The root of a path in the graph of the groups.
unfoldable pub root_of : List (List Str) → Str → Str
unfolding connect_all
root_of groups path = (root (total groups + 1) path (connect_all (total groups + 1) groups [])).0
