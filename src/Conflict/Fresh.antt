-- ===== src/Conflict/Fresh.antt =====
-- The candidate that generateConflictPath of src/sync/conflict.ts takes.
use mathlib.Core.Path.{subst}
use obsidian_air_sync.Prelude.{
  ℕ, zero, suc, ◌+◌, ◌≤◌, ◌<◌, ◌≡◌, ◌⊎◌, inl, inr, refl, Bool, true, false, Option, none, some,
  List, arith, nat_eq, ap, ◌∙◌,
}
use obsidian_air_sync.Prelude.Text.{Str}
use obsidian_air_sync.Paths.{number, insert_conflict_suffix}
use obsidian_air_sync.Conflict.{Stat, exists_on_any, numbered, generate_conflict_path}

module _ (now : ℕ) (filesystems : List Stat) (path : Str) where
  abbrev probe : ℕ → Option Bool
  probe i = exists_on_any filesystems (insert_conflict_suffix path (number i))

  -- The candidates from `i` up to `j` were found on some file system.
  abbrev Taken : ℕ → ℕ → Type 0
  Taken i j = (m : ℕ) → i ≤ m → m < j → probe m ≡ some true

  -- The first candidate that is free, or the one with the time if all are taken, or the error of the
  -- first look that throws.
  abbrev pub IsChoice : ℕ → ℕ → Option Str → Type 0
  IsChoice i j result =
      ((k : ℕ) × (i ≤ k)
        × (k < j)
        × Taken i k
        × (probe k ≡ some false)
        × (result ≡ some (insert_conflict_suffix path (number k))))
      ⊎ (Taken i j × (result ≡ some (insert_conflict_suffix path (number now))))
      ⊎ ((k : ℕ) × (i ≤ k) × (k < j) × Taken i k × (probe k ≡ none) × (result ≡ none))

  none-Taken : (i j : ℕ) → j ≤ i → Taken i j
  none-Taken i j l m a b = absurd (omega arith)

  Taken-extend : (i j : ℕ) → probe i ≡ some true → Taken (i + 1) j → Taken i j
  Taken-extend i j e h m a b = elim (nat_eq.dec m i) [
    | yes p ↦ ap probe p ∙ e
    | no n ↦ h m (omega arith) b
  ]

  IsChoice-later :
      (i j : ℕ) (result : Option Str)
      → i < j
      → probe i ≡ some true
      → IsChoice (i + 1) j result
      → IsChoice i j result
  IsChoice-later i j result b e (inl (k, l, u, t, f, r)) =
      inl (k, omega arith, u, Taken-extend i k e t, f, r)
  IsChoice-later i j result b e (inr (inl (t, r))) = inr (inl (Taken-extend i j e t, r))
  IsChoice-later i j result b e (inr (inr (k, l, u, t, f, r))) =
      inr (inr (k, omega arith, u, Taken-extend i k e t, f, r))

  choose :
      (i j : ℕ) (later : Option Str) (seen : Option Bool)
      → i < j
      → probe i ≡ seen
      → IsChoice (i + 1) j later
      → IsChoice i j (elim seen as (λ _. Option Str) [
        | none ↦ none
        | some false ↦ some (insert_conflict_suffix path (number i))
        | some true ↦ later
      ])
  choose i j later none b e h = inr (inr (i, omega arith, b, none-Taken i i (omega arith), e, refl))
  choose i j later (some false) b e h =
      inl (i, omega arith, b, none-Taken i i (omega arith), e, refl)
  choose i j later (some true) b e h = IsChoice-later i j later b e h

  numbered-IsChoice : (turns i : ℕ) → IsChoice i (turns + i) (numbered now filesystems path turns i)
  unfolding numbered
  numbered-IsChoice zero i = inr (inl (none-Taken i (0 + i) (omega arith), refl))
  numbered-IsChoice (suc turns) i =
      choose i (suc turns + i) (numbered now filesystems path turns (i + 1)) (probe i) (omega arith)
        refl
        (subst (λ j. IsChoice (i + 1) j (numbered now filesystems path turns (i + 1))) (omega arith)
          (numbered-IsChoice turns (i + 1)))

  -- The path of a conflict copy is the first of the 100 numbered candidates that is on none of the
  -- file systems; if all 100 are found, the candidate with the time; and if a file system throws
  -- before one of these is decided, the call fails.
  pub generate_conflict_path-IsChoice : IsChoice 1 101 (generate_conflict_path now filesystems path)
  unfolding generate_conflict_path
  generate_conflict_path-IsChoice =
      choose 1 101 (numbered now filesystems path 99 2) (probe 1) (omega arith) refl
        (numbered-IsChoice 99 2)
