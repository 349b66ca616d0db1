-- ===== src/PathGraph/Closure.antt =====
-- The graph of src/sync/plan-admission-graph.ts against the equivalence that its groups generate.
use mathlib.Core.Path.{subst}
use obsidian_air_sync.Prelude.{
  ◌≡◌, ◌↔◌, ◌⊎◌, refl, ap, sym, ◌∙◌, Bool, true, false, ◌&&◌, List, [], ◌∷◌, All, any, contains,
  ◌==◌, arith, Bool-cases, inl, inr, ==_iff, ==_refl, if◌then◌else◌,
}
use obsidian_air_sync.Prelude.Text.{Str, str_eq, truthy}
use obsidian_air_sync.PathGraph.{root_of}
use obsidian_air_sync.PathGraph.Union.{merge}
use obsidian_air_sync.PathGraph.Partition.{
  merge_all, merge_group, merge_groups, AreNamed, root_of-merge_groups,
}

-- Some group has both paths.
abbrev pub together : List (List Str) → Str → Str → Bool
together groups p q = any (λ group. contains group p && contains group q) groups

-- The equivalence that the groups generate.
pub data Joined (groups : List (List Str)) : Str → Str → Type 0 where
  grouped : {p q : Str} → together groups p q ≡ true → Joined groups p q
  itself : {p : Str} → Joined groups p p
  back : {p q : Str} → Joined groups p q → Joined groups q p
  through : {p q s : Str} → Joined groups p q → Joined groups q s → Joined groups p s

-- What is merged stays so.
merge_all-keeps :
    (first : Str) (paths : List Str) (rep : Str → Str) (p q : Str)
    → rep p ≡ rep q
    → merge_all first paths rep p ≡ merge_all first paths rep q
merge_all-keeps first [] rep p q h = h
merge_all-keeps first (path ∷ paths) rep p q h =
    merge_all-keeps first paths (merge rep first path) p q
      (ap (λ x. if x == rep path then rep first else x) h)

merge_group-keeps :
    (group : List Str) (rep : Str → Str) (p q : Str)
    → rep p ≡ rep q
    → merge_group group rep p ≡ merge_group group rep q
merge_group-keeps [] rep p q h = h
merge_group-keeps (first ∷ paths) rep p q h = merge_all-keeps first paths rep p q h

merge_groups-keeps :
    (groups : List (List Str)) (rep : Str → Str) (p q : Str)
    → rep p ≡ rep q
    → merge_groups groups rep p ≡ merge_groups groups rep q
merge_groups-keeps [] rep p q h = h
merge_groups-keeps (group ∷ groups) rep p q h =
    merge_groups-keeps groups (merge_group group rep) p q (merge_group-keeps group rep p q h)

-- A group is merged with its first path.
merge_all-joins :
    (first : Str) (paths : List Str) (rep : Str → Str) (p : Str)
    → contains paths p ≡ true
    → merge_all first paths rep p ≡ merge_all first paths rep first
merge_all-joins first [] rep p h = absurd (cc)
merge_all-joins first (path ∷ paths) rep p h = elim (Bool-cases (p == path)) [
  | inl e ↦
      merge_all-keeps first paths (merge rep first path) p first
        (now e (Bool-cases (rep first == rep path)))
  | inr e ↦ merge_all-joins first paths (merge rep first path) p (ground (arith, e, h))
]
  where
    now :
        (p == path) ≡ true
        → ((rep first == rep path) ≡ true) ⊎ ((rep first == rep path) ≡ false)
        → merge rep first path p ≡ merge rep first path first
    now e (inl k) = ground (arith, k, (==_iff p path).0 e)
    now e (inr k) = ground (arith, k, (==_iff p path).0 e, ==_refl (rep path))

merge_group-joins :
    (group : List Str) (rep : Str → Str) (p q : Str)
    → contains group p ≡ true
    → contains group q ≡ true
    → merge_group group rep p ≡ merge_group group rep q
merge_group-joins [] rep p q h k = absurd (cc)
merge_group-joins (first ∷ paths) rep p q h k = to_first p h ∙ sym (to_first q k)
  where
    to_first :
        (x : Str)
        → contains (first ∷ paths) x ≡ true
        → merge_all first paths rep x ≡ merge_all first paths rep first
    to_first x h = elim (Bool-cases (x == first)) [
      | inl e ↦ ap (merge_all first paths rep) ((==_iff x first).0 e)
      | inr e ↦ merge_all-joins first paths rep x (ground (arith, e, h))
    ]

merge_groups-joins :
    (groups : List (List Str)) (rep : Str → Str) (p q : Str)
    → together groups p q ≡ true
    → merge_groups groups rep p ≡ merge_groups groups rep q
merge_groups-joins [] rep p q h = absurd (cc)
merge_groups-joins (group ∷ groups) rep p q h =
    elim (Bool-cases (contains group p && contains group q)) [
      | inl e ↦
          merge_groups-keeps groups (merge_group group rep) p q
            (merge_group-joins group rep p q (ground (arith, e)) (ground (arith, e)))
      | inr e ↦ merge_groups-joins groups (merge_group group rep) p q (ground (arith, e, h))
    ]

Joined-merge_groups :
    (groups : List (List Str)) (p q : Str)
    → Joined groups p q
    → merge_groups groups (λ x. x) p ≡ merge_groups groups (λ x. x) q
Joined-merge_groups groups p q (grouped h) = merge_groups-joins groups (λ x. x) p q h
Joined-merge_groups groups p q itself = refl
Joined-merge_groups groups p q (back {p = s} j) = sym (Joined-merge_groups groups q p j)
Joined-merge_groups groups p q (through {q = s} j k) =
    Joined-merge_groups groups p s j ∙ Joined-merge_groups groups s q k

module _ (all : List (List Str)) where
  -- Each path is joined with its representative.
  abbrev Linked : (Str → Str) → Type 0
  Linked rep = (x : Str) → Joined all x (rep x)

  merge-Linked :
      (rep : Str → Str) (first path : Str)
      → Linked rep
      → Joined all first path
      → Linked (merge rep first path)
  merge-Linked rep first path L j x = chosen (rep x == rep path) refl
    where
      chosen : (b : Bool) → (rep x == rep path) ≡ b → Joined all x (if b then rep first else rep x)
      chosen true e = through (L x) (
          subst (λ y. Joined all y (rep first)) (sym ((==_iff (rep x) (rep path)).0 e))
            (through (back (L path)) (through (back j) (L first))))
      chosen false e = L x

  merge_all-Linked :
      (first : Str) (paths : List Str) (rep : Str → Str)
      → Linked rep
      → ((p : Str) → contains paths p ≡ true → Joined all first p)
      → Linked (merge_all first paths rep)
  merge_all-Linked first [] rep L f = L
  merge_all-Linked first (path ∷ paths) rep L f =
      merge_all-Linked first paths (merge rep first path)
        (merge-Linked rep first path L (f path (ground (arith, ==_refl path))))
        (λ p h. f p (ground (arith, h)))

  merge_group-Linked :
      (group : List Str) (rep : Str → Str)
      → Linked rep
      → ((p q : Str) → contains group p ≡ true → contains group q ≡ true → Joined all p q)
      → Linked (merge_group group rep)
  merge_group-Linked [] rep L f = L
  merge_group-Linked (first ∷ paths) rep L f =
      merge_all-Linked first paths rep L
        (λ p h. f first p (ground (arith, ==_refl first)) (ground (arith, h)))

  merge_groups-Linked :
      (groups : List (List Str)) (rep : Str → Str)
      → Linked rep
      → ((p q : Str) → together groups p q ≡ true → Joined all p q)
      → Linked (merge_groups groups rep)
  merge_groups-Linked [] rep L f = L
  merge_groups-Linked (group ∷ groups) rep L f =
      merge_groups-Linked groups (merge_group group rep)
        (merge_group-Linked group rep L (λ p q h k. f p q (ground (arith, h, k))))
        (λ p q h. f p q (ground (arith, h)))

-- Two paths have one root in the graph of some groups of paths exactly where they are one path or
-- are joined by a chain of groups in which neighbours share a path, if no path is empty. So the
-- components are the classes of the least equivalence that has each group in one class.
pub root_of_iff :
    (groups : List (List Str)) (p q : Str)
    → All AreNamed groups
    → truthy p ≡ true
    → truthy q ≡ true
    → (root_of groups p ≡ root_of groups q) ↔ Joined groups p q
root_of_iff groups p q named t u =
    let a = root_of-merge_groups groups p named t in
    let b = root_of-merge_groups groups q named u in
    let linked = merge_groups-Linked groups groups (λ x. x) (λ x. itself) (λ x y h. grouped h) in
    (
      λ h.
          through (linked p)
            (subst (λ x. Joined groups x q) (sym (sym a ∙ h ∙ b)) (back (linked q))),
      λ j. a ∙ Joined-merge_groups groups p q j ∙ sym b,
    )
