-- ===== src/Conflict.antt =====
-- src/sync/conflict.ts: the path of a conflict copy. A file system is its `stat` as a test that may
-- throw, which is none; the clock is an argument.
pub mod Fresh
mod Tests
use obsidian_air_sync.Prelude.{
  ℕ, zero, suc, ◌+◌, Bool, true, false, Option, none, some, List, [], ◌∷◌,
}
use obsidian_air_sync.Prelude.Text.{Str}
use obsidian_air_sync.Paths.{Sequence, number, insert_conflict_suffix}

abbrev pub Stat : Type 0
Stat = Str → Option Bool

pub exists_on_any : List Stat → Str → Option Bool
exists_on_any [] candidate = some false
exists_on_any (stat ∷ filesystems) candidate = elim (stat candidate) [
  | none ↦ none
  | some true ↦ some true
  | some false ↦ exists_on_any filesystems candidate
]

-- The loop over the numbered candidates from `i` on, `turns` of them; then the candidate with the time.
numbered : ℕ → List Stat → Str → ℕ → ℕ → Option Str
unfolding exists_on_any
numbered now filesystems path zero i = some (insert_conflict_suffix path (number now))
numbered now filesystems path (suc turns) i =
    let candidate = insert_conflict_suffix path (number i) in
    elim (exists_on_any filesystems candidate) [
      | none ↦ none
      | some false ↦ some candidate
      | some true ↦ numbered now filesystems path turns (i + 1)
    ]

pub generate_conflict_path : ℕ → List Stat → Str → Option Str
unfolding numbered
generate_conflict_path now filesystems path =
    let candidate = insert_conflict_suffix path (number 1) in
    elim (exists_on_any filesystems candidate) [
      | none ↦ none
      | some false ↦ some candidate
      | some true ↦ numbered now filesystems path 99 2
    ]
