-- ===== src/PathGraph/Rooted.antt =====
-- The parents of a graph of src/sync/plan-admission-graph.ts lead to the representatives, by ever smaller
-- heights.
use mathlib.Core.Path.{subst}
use mathlib.Core.Option.{some-injective}
use obsidian_air_sync.Prelude.{
  ℕ, zero, suc, ◌≤◌, ◌<◌, ◌≡◌, ◌≢◌, ◌⊎◌, refl, ap, sym, ◌∙◌, Bool, true, false, not, ◌||◌, Option,
  none, some, ◌==◌, arith, Bool-cases, Option-cases, inl, inr, ==_iff, ==_apart, ==_refl,
  if◌then◌else◌,
}
use obsidian_air_sync.Prelude.Text.{Str, str_eq, truthy}
use obsidian_air_sync.Prelude.Dict.{get, has, set, get-set, has-get}
use obsidian_air_sync.PathGraph.{PathGraph, compress, climb, root, add_path}

pub record Rooted (g : PathGraph) (rep : Str → Str) (height : Str → ℕ) (depth : ℕ) : Type 0 where
  pub lone : (p : Str) → get p g ≡ none → rep p ≡ p
  pub parent :
      (p q : Str)
      → get p g ≡ some q
      → ((q ≡ p) × (rep p ≡ p)) ⊎ ((q ≢ p) × (height q < height p) × (rep q ≡ rep p))
  pub named : (p q : Str) → get p g ≡ some q → truthy q ≡ true
  pub whole : (p : Str) → truthy p ≡ true → truthy (rep p) ≡ true
  pub idem : (p : Str) → rep (rep p) ≡ rep p
  pub flat : (p : Str) → rep p ≡ p → height p ≡ 0
  pub deep : (p : Str) → rep p ≢ p → 0 < height p
  pub bounded : (p : Str) → height p ≤ depth

pub get-set_same : (p v : Str) (g : PathGraph) → get p (set p v g) ≡ some v
get-set_same p v g = ground (arith, get-set p p v g, ==_refl p)

pub get-set_other : (x p v : Str) (g : PathGraph) → (x == p) ≡ false → get x (set p v g) ≡ get x g
get-set_other x p v g h = ground (arith, get-set x p v g, h)

module _ (rep : Str → Str) (height : Str → ℕ) (depth : ℕ) where
  -- A path may point to its representative.
  pub set-Rooted :
      (p : Str) (g : PathGraph)
      → Rooted g rep height depth
      → truthy p ≡ true
      → Rooted (set p (rep p) g) rep height depth
  set-Rooted p g G t = record {
    lone = λ x h. lone_at x h (Bool-cases (x == p));
    parent = λ x q h. parent_at x q h (Bool-cases (x == p));
    named = λ x q h. named_at x q h (Bool-cases (x == p));
    whole = G.whole;
    idem = G.idem;
    flat = G.flat;
    deep = G.deep;
    bounded = G.bounded;
  }
    where
      at_path : (x : Str) → (x == p) ≡ true → get x (set p (rep p) g) ≡ some (rep p)
      at_path x e =
          subst (λ y. get y (set p (rep p) g) ≡ some (rep p)) (sym ((==_iff x p).0 e))
            (get-set_same p (rep p) g)

      lone_at :
          (x : Str)
          → get x (set p (rep p) g) ≡ none
          → ((x == p) ≡ true) ⊎ ((x == p) ≡ false)
          → rep x ≡ x
      lone_at x h (inl e) = absurd (cc (h, at_path x e))
      lone_at x h (inr e) = G.lone x (sym (get-set_other x p (rep p) g e) ∙ h)

      up :
          (q : Str)
          → rep p ≡ q
          → ((rep p == p) ≡ true) ⊎ ((rep p == p) ≡ false)
          → ((q ≡ p) × (rep p ≡ p)) ⊎ ((q ≢ p) × (height q < height p) × (rep q ≡ rep p))
      up q h (inl e) = inl (sym h ∙ (==_iff (rep p) p).0 e, (==_iff (rep p) p).0 e)
      up q h (inr e) =
          let apart = ==_apart (rep p) p e in
          inr (
            λ k. apart (h ∙ k),
            omega (arith, ap height h, G.flat (rep p) (G.idem p), G.deep p apart),
            ap rep (sym h) ∙ G.idem p,
          )

      parent_at :
          (x q : Str)
          → get x (set p (rep p) g) ≡ some q
          → ((x == p) ≡ true) ⊎ ((x == p) ≡ false)
          → ((q ≡ x) × (rep x ≡ x)) ⊎ ((q ≢ x) × (height q < height x) × (rep q ≡ rep x))
      parent_at x q h (inl e) =
          subst (λ y. ((q ≡ y) × (rep y ≡ y)) ⊎ ((q ≢ y) × (height q < height y) × (rep q ≡ rep y)))
            (sym ((==_iff x p).0 e))
            (up q (some-injective (rep p) q (sym (at_path x e) ∙ h)) (Bool-cases (rep p == p)))
      parent_at x q h (inr e) = G.parent x q (sym (get-set_other x p (rep p) g e) ∙ h)

      named_at :
          (x q : Str)
          → get x (set p (rep p) g) ≡ some q
          → ((x == p) ≡ true) ⊎ ((x == p) ≡ false)
          → truthy q ≡ true
      named_at x q h (inl e) =
          subst (λ y. truthy y ≡ true) (some-injective (rep p) q (sym (at_path x e) ∙ h))
            (G.whole p t)
      named_at x q h (inr e) = G.named x q (sym (get-set_other x p (rep p) g e) ∙ h)

  abbrev pub FindsRoot : Str → Str × PathGraph → Type 0
  FindsRoot p outcome = (outcome.0 ≡ rep p) × Rooted outcome.1 rep height depth

  climb-FindsRoot :
      (p : Str) (g : PathGraph) (o : Option Str) (again : Str → Str × PathGraph)
      → Rooted g rep height depth
      → truthy p ≡ true
      → get p g ≡ o
      → ((q : Str) → truthy q ≡ true → height q < height p → FindsRoot q (again q))
      → FindsRoot p (climb p g o again)
  unfolding climb compress
  climb-FindsRoot p g none again G t h f = (sym (G.lone p h), G)
  climb-FindsRoot p g (some q) again G t h f =
      above (not (truthy q) || q == p) refl (G.parent p q h)
    where
      q_named : truthy q ≡ true
      q_named = G.named p q h

      above :
          (b : Bool)
          → (not (truthy q) || q == p) ≡ b
          → ((q ≡ p) × (rep p ≡ p)) ⊎ ((q ≢ p) × (height q < height p) × (rep q ≡ rep p))
          → FindsRoot p (elim b [ true ↦ (p, g) | false ↦ compress p (again q) ])
      above true e (inl (same, own)) = (sym own, G)
      above true e (inr (apart, lower, up)) =
          absurd (apart ((==_iff q p).0 (ground (arith, e, q_named))))
      above false e (inl (same, own)) = absurd (==_apart q p (ground (arith, e)) same)
      above false e (inr (apart, lower, up)) =
          let (found, R) = f q q_named lower in
          (
            found ∙ up,
            subst (λ v. Rooted (set p v (again q).1) rep height depth) (sym (found ∙ up))
                (set-Rooted p (again q).1 R t),
          )

  -- With more fuel than the height of the path, its root is the representative, and compression changes
  -- nothing of it.
  pub root-FindsRoot :
      (n : ℕ) (p : Str) (g : PathGraph)
      → Rooted g rep height depth
      → truthy p ≡ true
      → height p < n
      → FindsRoot p (root n p g)
  unfolding root
  root-FindsRoot zero p g G t l = absurd (omega arith)
  root-FindsRoot (suc n) p g G t l =
      climb-FindsRoot p g (get p g) (λ q. root n q g) G t refl
        (λ q named lower. root-FindsRoot n q g G named (omega (arith, l, lower)))

  pub add_path-Rooted :
      (p : Str) (g : PathGraph)
      → Rooted g rep height depth
      → truthy p ≡ true
      → Rooted (add_path p g) rep height depth
  unfolding add_path
  add_path-Rooted p g G t = added (has p g) refl
    where
      absent : has p g ≡ false → get p g ≡ none
      absent e = elim (Option-cases (get p g)) [
        | inl h ↦ h
        | inr (v, h) ↦ absurd (ground (arith, has-get p g, h, e))
      ]

      added : (b : Bool) → has p g ≡ b → Rooted (if b then g else set p p g) rep height depth
      added true e = G
      added false e =
          subst (λ v. Rooted (set p v g) rep height depth) (G.lone p (absent e))
            (set-Rooted p g G t)
