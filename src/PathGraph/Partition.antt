-- ===== src/PathGraph/Partition.antt =====
-- The graph of src/sync/plan-admission-graph.ts against a table of representatives.
use mathlib.Core.Path.{subst}
use obsidian_air_sync.Prelude.{ℕ, ◌+◌, ◌<◌, ◌≡◌, refl, true, List, [], ◌∷◌, length, All, arith}
use obsidian_air_sync.Prelude.Text.{Str, str_eq, truthy}
use obsidian_air_sync.Prelude.Dict.{get}
use obsidian_air_sync.PathGraph.{
  PathGraph, add_path, add_all, union, union_all, connect, connect_all, total, root_of,
}
use obsidian_air_sync.PathGraph.Rooted.{Rooted, add_path-Rooted, root-FindsRoot}
use obsidian_air_sync.PathGraph.Union.{merge, weaken-Rooted, Represents, union-Represents}

-- The table of representatives: each further path of a group is merged with the first.
abbrev pub merge_all : Str → List Str → (Str → Str) → Str → Str
merge_all first [] rep = rep
merge_all first (path ∷ paths) rep = merge_all first paths (merge rep first path)

abbrev pub merge_group : List Str → (Str → Str) → Str → Str
merge_group [] rep = rep
merge_group (first ∷ paths) rep = merge_all first paths rep

abbrev pub merge_groups : List (List Str) → (Str → Str) → Str → Str
merge_groups [] rep = rep
merge_groups (group ∷ groups) rep = merge_groups groups (merge_group group rep)

-- The paths have at least one character.
abbrev pub AreNamed : List Str → Type 0
AreNamed paths = All (λ path. truthy path ≡ true) paths

add_all-Represents :
    (paths : List Str) (g : PathGraph) (rep : Str → Str) (depth : ℕ)
    → AreNamed paths
    → Represents g rep depth
    → Represents (add_all paths g) rep depth
unfolding add_all
add_all-Represents [] g rep depth named G = G
add_all-Represents (path ∷ paths) g rep depth (t, named) (height, G) =
    add_all-Represents paths (add_path path g) rep depth named
      (height, add_path-Rooted rep height depth path g G t)

union_all-Represents :
    (fuel : ℕ) (first : Str) (paths : List Str) (g : PathGraph) (rep : Str → Str) (depth : ℕ)
    → truthy first ≡ true
    → AreNamed paths
    → depth + length paths < fuel
    → Represents g rep depth
    → Represents (union_all fuel first paths g) (merge_all first paths rep) (depth + length paths)
unfolding union_all
union_all-Represents fuel first [] g rep depth t named l G =
    subst (λ d. Represents g rep d) (omega arith) G
union_all-Represents fuel first (path ∷ paths) g rep depth t (u, named) l G =
    subst
      (λ d.
        Represents (union_all fuel first paths (union fuel first path g))
          (merge_all first paths (merge rep first path)) d)
      (omega arith)
      (union_all-Represents fuel first paths (union fuel first path g) (merge rep first path)
        (depth + 1) t named (omega (arith, l))
        (union-Represents fuel first path g rep depth G t u (omega (arith, l))))

connect-Represents :
    (fuel : ℕ) (group : List Str) (g : PathGraph) (rep : Str → Str) (depth : ℕ)
    → AreNamed group
    → depth + length group < fuel
    → Represents g rep depth
    → Represents (connect fuel group g) (merge_group group rep) (depth + length group)
unfolding connect
connect-Represents fuel [] g rep depth named l G = subst (λ d. Represents g rep d) (omega arith) G
connect-Represents fuel (first ∷ paths) g rep depth (t, named) l G =
    let (height, H) =
      union_all-Represents fuel first paths (add_all (first ∷ paths) g) rep depth t named
        (omega (arith, l)) (add_all-Represents (first ∷ paths) g rep depth (t, named) G) in
    (
      height,
      subst
          (λ d.
            Rooted (union_all fuel first paths (add_all (first ∷ paths) g))
              (merge_all first paths rep) height d)
          (omega arith)
          (weaken-Rooted (union_all fuel first paths (add_all (first ∷ paths) g))
            (merge_all first paths rep) height (depth + length paths) H),
    )

connect_all-Represents :
    (fuel : ℕ) (groups : List (List Str)) (g : PathGraph) (rep : Str → Str) (depth : ℕ)
    → All AreNamed groups
    → depth + total groups < fuel
    → Represents g rep depth
    → Represents (connect_all fuel groups g) (merge_groups groups rep) (depth + total groups)
unfolding connect_all
connect_all-Represents fuel [] g rep depth named l G =
    subst (λ d. Represents g rep d) (omega arith) G
connect_all-Represents fuel (group ∷ groups) g rep depth (t, named) l G =
    subst
      (λ d.
        Represents (connect_all fuel groups (connect fuel group g))
          (merge_groups groups (merge_group group rep)) d)
      (omega arith)
      (connect_all-Represents fuel groups (connect fuel group g) (merge_group group rep)
        (depth + length group) named (omega (arith, l))
        (connect-Represents fuel group g rep depth t (omega (arith, l)) G))

empty-Represents : Represents [] (λ x. x) 0
unfolding get
empty-Represents = (
  λ x. 0,
  record {
    lone = λ p h. refl;
    parent = λ p q h. absurd (cc);
    named = λ p q h. absurd (cc);
    whole = λ p t. t;
    idem = λ p. refl;
    flat = λ p h. refl;
    deep = λ p n. absurd (n refl);
    bounded = λ p. omega arith;
  },
)

-- The root in the graph is the representative in the table.
pub root_of-merge_groups :
    (groups : List (List Str)) (path : Str)
    → All AreNamed groups
    → truthy path ≡ true
    → root_of groups path ≡ merge_groups groups (λ x. x) path
unfolding root_of
root_of-merge_groups groups path named t =
    let (height, G) =
      connect_all-Represents (total groups + 1) groups [] (λ x. x) 0 named (omega arith)
        empty-Represents in
    (root-FindsRoot (merge_groups groups (λ x. x)) height (total groups) (total groups + 1) path
      (connect_all (total groups + 1) groups [])
      (subst
        (λ d.
          Rooted (connect_all (total groups + 1) groups []) (merge_groups groups (λ x. x)) height d)
        (omega arith) G)
      t (omega (arith, G.bounded path))).0
