-- ===== src/PathGraph/Union.antt =====
-- A union in src/sync/plan-admission-graph.ts hangs one root below the other.
use mathlib.Core.Path.{subst, fun_ext}
use mathlib.Core.Option.{some-injective}
use obsidian_air_sync.Prelude.{
  ℕ, suc, ◌+◌, ◌<◌, ◌≡◌, ◌≢◌, ◌⊎◌, refl, ap, sym, ◌∙◌, Bool, true, false, none, some, ◌==◌, arith,
  Bool-cases, inl, inr, ==_iff, ==_apart, ==_refl, if◌then◌else◌,
}
use obsidian_air_sync.Prelude.Text.{Str, str_eq, truthy}
use obsidian_air_sync.Prelude.Dict.{get, set}
use obsidian_air_sync.PathGraph.{PathGraph, root, join_roots, union}
use obsidian_air_sync.PathGraph.Rooted.{Rooted, get-set_same, get-set_other, root-FindsRoot}

-- What a union does to the representatives: those of the second path become those of the first.
abbrev pub merge : (Str → Str) → Str → Str → Str → Str
merge rep p q x = if rep x == rep q then rep p else rep x

module _ (rep : Str → Str) (height : Str → ℕ) (depth : ℕ) (p q : Str) where
  abbrev raised : Str → ℕ
  raised x = if rep x == rep q then suc (height x) else height x

  -- The two branches of a merge.
  merge_below :
      (x : Str) → (rep x == rep q) ≡ true → (merge rep p q x ≡ rep p) × (raised x ≡ suc (height x))
  merge_below x e = (ground (arith, e), ground (arith, e))

  merge_beside :
      (x : Str) → (rep x == rep q) ≡ false → (merge rep p q x ≡ rep x) × (raised x ≡ height x)
  merge_beside x e = (ground (arith, e), ground (arith, e))

  module _ (g : PathGraph) (G : Rooted g rep height depth) (t : truthy p ≡ true)
      (apart : rep p ≢ rep q) where
    below : (x y : Str) → rep x ≡ rep y → (rep y == rep q) ≡ true → (rep x == rep q) ≡ true
    below x y e h = ap (λ z. z == rep q) e ∙ h

    beside : (x : Str) → rep x ≢ rep q → (rep x == rep q) ≡ false
    beside x n = ground (arith, n)

    first_stays : (merge rep p q (rep p) ≡ rep p) × (raised (rep p) ≡ 0)
    first_stays =
        let (a, b) = merge_beside (rep p) (beside (rep p) (λ e. apart (sym (G.idem p) ∙ e))) in
        (a ∙ G.idem p, b ∙ G.flat (rep p) (G.idem p))

    at_second : (x : Str) → (x == rep q) ≡ true → get x (set (rep q) (rep p) g) ≡ some (rep p)
    at_second x e =
        subst (λ y. get y (set (rep q) (rep p) g) ≡ some (rep p)) (sym ((==_iff x (rep q)).0 e))
          (get-set_same (rep q) (rep p) g)

    -- A representative that is not the second one stays.
    own_stays : (x : Str) → rep x ≡ x → (x == rep q) ≡ false → merge rep p q x ≡ x
    own_stays x e n = (merge_beside x (ap (λ y. y == rep q) e ∙ n)).0 ∙ e

    lone_at : (x : Str) → get x (set (rep q) (rep p) g) ≡ none → merge rep p q x ≡ x
    lone_at x h = elim (Bool-cases (x == rep q)) [
      | inl e ↦ absurd (cc (h, at_second x e))
      | inr e ↦ own_stays x (G.lone x (sym (get-set_other x (rep q) (rep p) g e) ∙ h)) e
    ]

    abbrev Up : Str → Str → Type 0
    Up x y =
        ((y ≡ x) × (merge rep p q x ≡ x))
        ⊎ ((y ≢ x) × (raised y < raised x) × (merge rep p q y ≡ merge rep p q x))

    second_hangs : Up (rep q) (rep p)
    second_hangs =
        let (a, b) = merge_below (rep q) (ap (λ y. y == rep q) (G.idem q) ∙ ==_refl (rep q)) in
        inr (apart, omega (arith, first_stays.1, b), first_stays.0 ∙ sym a)

    within_hangs : (x y : Str) → y ≢ x → height y < height x → rep y ≡ rep x → Up x y
    within_hangs x y n l e = elim (Bool-cases (rep x == rep q)) [
      | inl h ↦
          let (a, b) = merge_below x h in
          let (c, d) = merge_below y (below y x e h) in inr (n, omega (arith, b, d, l), c ∙ sym a)
      | inr h ↦
          let (a, b) = merge_beside x h in
          let (c, d) = merge_beside y (ap (λ z. z == rep q) e ∙ h) in
          inr (n, omega (arith, b, d, l), c ∙ e ∙ sym a)
    ]

    parent_at : (x y : Str) → get x (set (rep q) (rep p) g) ≡ some y → Up x y
    parent_at x y h = elim (Bool-cases (x == rep q)) [
      | inl e ↦
          subst (λ z. Up z y) (sym ((==_iff x (rep q)).0 e))
            (subst (λ z. Up (rep q) z) (some-injective (rep p) y (sym (at_second x e) ∙ h))
              second_hangs)
      | inr e ↦ elim (G.parent x y (sym (get-set_other x (rep q) (rep p) g e) ∙ h)) [
        | inl (same, own) ↦ inl (same, own_stays x own e)
        | inr (n, l, k) ↦ within_hangs x y n l k
      ]
    ]

    named_at : (x y : Str) → get x (set (rep q) (rep p) g) ≡ some y → truthy y ≡ true
    named_at x y h = elim (Bool-cases (x == rep q)) [
      | inl e ↦
          subst (λ z. truthy z ≡ true) (some-injective (rep p) y (sym (at_second x e) ∙ h))
            (G.whole p t)
      | inr e ↦ G.named x y (sym (get-set_other x (rep q) (rep p) g e) ∙ h)
    ]

    whole_at : (x : Str) → truthy x ≡ true → truthy (merge rep p q x) ≡ true
    whole_at x h = elim (Bool-cases (rep x == rep q)) [
      | inl e ↦ ap truthy (merge_below x e).0 ∙ G.whole p t
      | inr e ↦ ap truthy (merge_beside x e).0 ∙ G.whole x h
    ]

    idem_at : (x : Str) → merge rep p q (merge rep p q x) ≡ merge rep p q x
    idem_at x = elim (Bool-cases (rep x == rep q)) [
      | inl e ↦ ap (merge rep p q) (merge_below x e).0 ∙ first_stays.0 ∙ sym (merge_below x e).0
      | inr e ↦
          let (a, b) = merge_beside x e in
          ap (merge rep p q) a ∙ own_stays (rep x) (G.idem x) e ∙ sym a
    ]

    flat_at : (x : Str) → merge rep p q x ≡ x → raised x ≡ 0
    flat_at x h = elim (Bool-cases (rep x == rep q)) [
      | inl e ↦
          let own = sym (merge_below x e).0 ∙ h in
          absurd (apart (sym (G.idem p) ∙ ap rep own ∙ (==_iff (rep x) (rep q)).0 e))
      | inr e ↦ (merge_beside x e).1 ∙ G.flat x (sym (merge_beside x e).0 ∙ h)
    ]

    deep_at : (x : Str) → merge rep p q x ≢ x → 0 < raised x
    deep_at x n = elim (Bool-cases (rep x == rep q)) [
      | inl e ↦ omega (arith, (merge_below x e).1)
      | inr e ↦
          omega (arith, (merge_beside x e).1, G.deep x (λ own. n ((merge_beside x e).0 ∙ own)))
    ]

    set-merge-Rooted : Rooted (set (rep q) (rep p) g) (merge rep p q) raised (depth + 1)
    set-merge-Rooted = record {
      lone = lone_at;
      parent = parent_at;
      named = named_at;
      whole = whole_at;
      idem = idem_at;
      flat = flat_at;
      deep = deep_at;
      bounded = λ x. ground (arith, G.bounded x);
    }

pub weaken-Rooted :
    (g : PathGraph) (rep : Str → Str) (height : Str → ℕ) (depth : ℕ)
    → Rooted g rep height depth
    → Rooted g rep height (depth + 1)
weaken-Rooted g rep height depth G = record {
  lone = G.lone;
  parent = G.parent;
  named = G.named;
  whole = G.whole;
  idem = G.idem;
  flat = G.flat;
  deep = G.deep;
  bounded = λ x. omega (arith, G.bounded x);
}

-- Some heights below the depth lead to the representatives.
abbrev pub Represents : PathGraph → (Str → Str) → ℕ → Type 0
Represents g rep depth = (height : Str → ℕ) × Rooted g rep height depth

module _ (rep : Str → Str) (height : Str → ℕ) (depth : ℕ) (p q : Str) where
  same_merge : rep p ≡ rep q → rep ≡ merge rep p q
  same_merge e = fun_ext pointwise
    where
      pointwise : (x : Str) → rep x ≡ merge rep p q x
      pointwise x = elim (Bool-cases (rep x == rep q)) [
        | inl h ↦
            (==_iff (rep x) (rep q)).0 h ∙ sym e ∙ sym (merge_below rep height depth p q x h).0
        | inr h ↦ sym (merge_beside rep height depth p q x h).0
      ]

  join_roots-Represents :
      (g : PathGraph)
      → Rooted g rep height depth
      → truthy p ≡ true
      → Represents (join_roots (rep p) (rep q) g) (merge rep p q) (depth + 1)
  unfolding join_roots
  join_roots-Represents g G t = joined (rep p == rep q) refl
    where
      joined :
          (b : Bool)
          → (rep p == rep q) ≡ b
          → Represents (if b then g else set (rep q) (rep p) g) (merge rep p q) (depth + 1)
      joined true e = (
        height,
        subst (λ f. Rooted g f height (depth + 1)) (same_merge ((==_iff (rep p) (rep q)).0 e))
            (weaken-Rooted g rep height depth G),
      )
      joined false e = (
        raised rep height depth p q,
        set-merge-Rooted rep height depth p q g G t (==_apart (rep p) (rep q) e),
      )

-- With more fuel than the depth, a union merges the representatives.
pub union-Represents :
    (fuel : ℕ) (p q : Str) (g : PathGraph) (rep : Str → Str) (depth : ℕ)
    → Represents g rep depth
    → truthy p ≡ true
    → truthy q ≡ true
    → depth < fuel
    → Represents (union fuel p q g) (merge rep p q) (depth + 1)
unfolding union
union-Represents fuel p q g rep depth (height, G) t u l =
    let (a, H) = root-FindsRoot rep height depth fuel p g G t (omega (arith, l, G.bounded p)) in
    let (b, K) =
      root-FindsRoot rep height depth fuel q (root fuel p g).1 H u
        (omega (arith, l, G.bounded q)) in
    subst
      (λ left.
        Represents
          (join_roots left (root fuel q (root fuel p g).1).0 (root fuel q (root fuel p g).1).1)
          (merge rep p q) (depth + 1))
      (sym a)
      (subst
        (λ right.
          Represents (join_roots (rep p) right (root fuel q (root fuel p g).1).1) (merge rep p q)
            (depth + 1))
        (sym b) (join_roots-Represents rep height depth p q (root fuel q (root fuel p g).1).1 K t))
