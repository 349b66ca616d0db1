-- ===== src/Paths/Prefix/Search.antt =====
-- The binary search of pathsWithPrefix in src/utils/path.ts, and the run of entries that it finds.
use obsidian_air_sync.Prelude.{
  ℕ, zero, suc, ◌+◌, ◌^◌, ◌≤◌, ◌<◌, ◌≡◌, refl, ◌∙◌, sym, ap, inl, inr, true, false, List, [], ◌∷◌,
  length, drop, ltb, All, arith, nat_eq, if◌then◌else◌, Bool-cases,
}
use obsidian_air_sync.Prelude.Text.{Str, str_ltb, str_ltb_trans, str_ltb_connex}
use obsidian_air_sync.Paths.{starts_with}
use obsidian_air_sync.Paths.Prefix.{
  middle, element, lower_bound, matches_from, paths_with_prefix, IsSorted, having,
}

-- How many entries come before the prefix.
below : Str → List Str → ℕ
below prefix [] = 0
below prefix (x ∷ xs) = let rest = below prefix xs in if str_ltb x prefix then suc rest else 0

starts_with-not_below : (x prefix : Str) → starts_with x prefix ≡ true → str_ltb x prefix ≡ false
unfolding starts_with str_ltb
starts_with-not_below [] [] h = refl
starts_with-not_below (c ∷ x) [] h = refl
starts_with-not_below [] (d ∷ p) h = ground arith
starts_with-not_below (c ∷ x) (d ∷ p) h = ground (arith, starts_with-not_below x p)

starts_with-after :
    (prefix x y : Str)
    → str_ltb x prefix ≡ false
    → starts_with x prefix ≡ false
    → str_ltb y x ≡ false
    → starts_with y prefix ≡ false
unfolding starts_with str_ltb
starts_with-after [] x y a b c = ground arith
starts_with-after (d ∷ p) [] y a b c = ground arith
starts_with-after (d ∷ p) (e ∷ x) [] a b c = refl
starts_with-after (d ∷ p) (e ∷ x) (f ∷ y) a b c = ground (arith, starts_with-after p x y)

not_below_trans :
    (prefix x y : Str) → str_ltb x prefix ≡ false → str_ltb y x ≡ false → str_ltb y prefix ≡ false
not_below_trans prefix x y a b = elim (Bool-cases (str_ltb y prefix)) [
  | inr e ↦ e
  | inl e ↦ elim (Bool-cases (str_ltb prefix x)) [
    | inl f ↦ absurd (ground (arith, str_ltb_trans y prefix x e f))
    | inr f ↦ rw⁻¹ (str_ltb_connex x prefix a f) b
  ]
]

none_having :
    (prefix x : Str) (ys : List Str)
    → str_ltb x prefix ≡ false
    → starts_with x prefix ≡ false
    → All (λ y. str_ltb y x ≡ false) ys
    → having prefix ys ≡ []
unfolding having
none_having prefix x [] a b h = refl
none_having prefix x (y ∷ ys) a b (h, hs) =
    ground (arith, starts_with-after prefix x y a b h, none_having prefix x ys a b hs)

matches_from-having :
    (prefix : Str) (xs : List Str)
    → All (λ x. str_ltb x prefix ≡ false) xs
    → IsSorted xs
    → matches_from prefix xs ≡ having prefix xs
unfolding matches_from having
matches_from-having prefix [] a s = refl
matches_from-having prefix (x ∷ xs) (a, rest) (h, s) = elim (Bool-cases (starts_with x prefix)) [
  | inl e ↦ ground (arith, e, matches_from-having prefix xs rest s)
  | inr e ↦ ground (arith, e, none_having prefix x xs a e h)
]

All-not_below :
    (prefix x : Str) (ys : List Str)
    → str_ltb x prefix ≡ false
    → All (λ y. str_ltb y x ≡ false) ys
    → All (λ y. str_ltb y prefix ≡ false) ys
All-not_below prefix x [] a h = tt
All-not_below prefix x (y ∷ ys) a (h, hs) =
    (not_below_trans prefix x y a h, All-not_below prefix x ys a hs)

drop-below :
    (prefix : Str) (xs : List Str)
    → IsSorted xs
    → matches_from prefix (drop (below prefix xs) xs) ≡ having prefix xs
unfolding below having
drop-below prefix [] s = matches_from-having prefix [] tt tt
drop-below prefix (x ∷ xs) (h, s) = elim (Bool-cases (str_ltb x prefix)) [
  | inl e ↦ ground (arith, e, starts_with-not_below x prefix, drop-below prefix xs s)
  | inr e ↦ rw e (matches_from-having prefix (x ∷ xs) (e, All-not_below prefix x xs e h) (h, s))
]

element-not_below :
    (prefix : Str) (xs : List Str) (i : ℕ)
    → All (λ y. str_ltb y prefix ≡ false) xs
    → i < length xs
    → str_ltb (element i xs) prefix ≡ false
unfolding element
element-not_below prefix [] i a l = absurd (omega arith)
element-not_below prefix (x ∷ xs) zero (a, rest) l = a
element-not_below prefix (x ∷ xs) (suc i) (a, rest) l =
    element-not_below prefix xs i rest (omega arith)

element-below :
    (prefix : Str) (xs : List Str) (i : ℕ)
    → IsSorted xs
    → i < length xs
    → str_ltb (element i xs) prefix ≡ ltb i (below prefix xs)
unfolding element below
element-below prefix [] i s l = absurd (omega arith)
element-below prefix (x ∷ xs) zero (h, s) l = ground arith
element-below prefix (x ∷ xs) (suc i) (h, s) l = elim (Bool-cases (str_ltb x prefix)) [
  | inl e ↦ ground (arith, e, element-below prefix xs i s)
  | inr e ↦ ground (arith, e, element-not_below prefix xs i (All-not_below prefix x xs e h))
]

below-bounded : (prefix : Str) (xs : List Str) → below prefix xs ≤ length xs
unfolding below
below-bounded prefix [] = omega arith
below-bounded prefix (x ∷ xs) = ground (arith, below-bounded prefix xs)

middle-within :
    (low high : ℕ) → low < high → high < 2 ^ 31 → (low ≤ middle low high) × (middle low high < high)
unfolding middle
middle-within low high a b = omega arith

search_above :
    (fuel : ℕ) (xs : List Str) (prefix : Str) (low high : ℕ)
    → low < high
    → str_ltb (element (middle low high) xs) prefix ≡ true
    → lower_bound (suc fuel) xs prefix low high
      ≡ lower_bound fuel xs prefix (middle low high + 1) high
unfolding lower_bound middle
search_above fuel xs prefix low high l g = ground (arith, g)

search_under :
    (fuel : ℕ) (xs : List Str) (prefix : Str) (low high : ℕ)
    → low < high
    → str_ltb (element (middle low high) xs) prefix ≡ false
    → lower_bound (suc fuel) xs prefix low high ≡ lower_bound fuel xs prefix low (middle low high)
unfolding lower_bound middle
search_under fuel xs prefix low high l g = ground (arith, g)

lower_bound-below :
    (fuel : ℕ) (xs : List Str) (prefix : Str) (low high : ℕ)
    → IsSorted xs
    → length xs < 2 ^ 31
    → high ≤ length xs
    → high ≤ low + fuel
    → low ≤ below prefix xs
    → below prefix xs ≤ high
    → lower_bound fuel xs prefix low high ≡ below prefix xs
unfolding lower_bound
lower_bound-below zero xs prefix low high s n l f a b = omega arith
lower_bound-below (suc fuel) xs prefix low high s n l f a b = elim (Bool-cases (ltb low high)) [
  | inr e ↦ ground arith
  | inl e ↦
      let m = middle low high in
      let inside : low < high = ground arith in
      let w = middle-within low high inside (omega arith) in
      let at = element-below prefix xs m s (omega (arith, w.1)) in
      elim (Bool-cases (str_ltb (element m xs) prefix)) [
        | inl g ↦
            search_above fuel xs prefix low high inside g
            ∙ (lower_bound-below fuel xs prefix (m + 1) high s n l (omega (arith, w.0))
                (up_to m (sym at ∙ g)) b)
        | inr g ↦
            search_under fuel xs prefix low high inside g
            ∙ (lower_bound-below fuel xs prefix low m s n (omega (arith, w.1)) (omega (arith, w.1))
                a (down_to m (sym at ∙ g)))
      ]
]
  where
    up_to : (m : ℕ) → ltb m (below prefix xs) ≡ true → m + 1 ≤ below prefix xs
    up_to m h = ground arith

    down_to : (m : ℕ) → ltb m (below prefix xs) ≡ false → below prefix xs ≤ m
    down_to m h = ground arith

-- On a sorted array of fewer than 2^31 paths, the binary search and the loop after it return all
-- paths with the prefix, in their order, and no other.
pub paths_with_prefix-having :
    (sorted_paths : List Str) (prefix : Str)
    → IsSorted sorted_paths
    → length sorted_paths < 2 ^ 31
    → paths_with_prefix sorted_paths prefix ≡ having prefix sorted_paths
unfolding paths_with_prefix
paths_with_prefix-having xs prefix s n =
    ap (λ low. matches_from prefix (drop low xs))
      (lower_bound-below (length xs) xs prefix 0 (length xs) s n (omega arith) (omega arith)
        (omega arith) (below-bounded prefix xs))
    ∙ drop-below prefix xs s
