-- ===== src/Prune/EmptyOnly.antt =====
-- What the cleanup of src/sync/prune-empty-parents.ts deletes.
use obsidian_air_sync.Prelude.{
  ◌≡◌, refl, Bool, true, false, Option, none, some, List, [], ◌∷◌, All, ◌==◌, contains, ltb, length,
  if◌then◌else◌,
}
use obsidian_air_sync.Prelude.Text.{Str, str_eq}
use obsidian_air_sync.Prelude.Dict.{Dict, set}
use obsidian_air_sync.Types.Entity.{SyncSide}
use obsidian_air_sync.Types.Action.{SyncAction}
use obsidian_air_sync.Prune.{
  Directories, Candidate, key_of, side_of, chain_of, add_chain, candidates_of, insert_deep,
  deepest_first, prune_one, prune_all, prune_emptied_directories,
}

-- Every chain of the actions names allowed directories only.
abbrev pub Admits {κ} : (SyncSide → Str → Type κ) → List SyncAction → Type κ
Admits Allowed completed = All (λ a. All (Allowed (side_of a)) (chain_of a)) completed

module _ {κ} (Allowed : SyncSide → Str → Type κ) where
  abbrev Sound : List (Str × Candidate) → Type κ
  Sound entries = All (λ entry. Allowed entry.1.0 entry.1.1) entries

  set-Sound :
      (key : Str) (side : SyncSide) (directory : Str) (m : Dict Str Candidate)
      → Allowed side directory
      → Sound m
      → Sound (set key (side, directory) m)
  unfolding set
  set-Sound key side directory [] o h = (o, h)
  set-Sound key side directory ((j, c) ∷ m) o (h, hs) =
      elim (key == j)
        as (λ b.
          Sound
            (if b then (key, (side, directory)) ∷ m else (j, c) ∷ set key (side, directory) m)) [
              | true ↦ (o, hs)
              | false ↦ (h, set-Sound key side directory m o hs)
            ]

  add_chain-Sound :
      (side : SyncSide) (chain : List Str) (m : Dict Str Candidate)
      → All (Allowed side) chain
      → Sound m
      → Sound (add_chain side chain m)
  unfolding add_chain
  add_chain-Sound side [] m o h = h
  add_chain-Sound side (directory ∷ chain) m (o, os) h =
      add_chain-Sound side chain (set (key_of side directory) (side, directory) m) os
        (set-Sound (key_of side directory) side directory m o h)

  candidates_of-Sound :
      (completed : List SyncAction) (m : Dict Str Candidate)
      → Admits Allowed completed
      → Sound m
      → Sound (candidates_of completed m)
  unfolding candidates_of
  candidates_of-Sound [] m o h = h
  candidates_of-Sound (a ∷ completed) m (o, os) h =
      candidates_of-Sound completed (add_chain (side_of a) (chain_of a) m) os
        (add_chain-Sound (side_of a) (chain_of a) m o h)

  insert_deep-Sound :
      (entry : Str × Candidate) (entries : List (Str × Candidate))
      → Allowed entry.1.0 entry.1.1
      → Sound entries
      → Sound (insert_deep entry entries)
  unfolding insert_deep
  insert_deep-Sound entry [] o h = (o, h)
  insert_deep-Sound entry (next ∷ entries) o (h, hs) =
      elim (ltb (length entry.1.1) (length next.1.1))
        as (λ b. Sound (if b then next ∷ insert_deep entry entries else entry ∷ next ∷ entries)) [
          | true ↦ (h, insert_deep-Sound entry entries o hs)
          | false ↦ (o, (h, hs))
        ]

  deepest_first-Sound :
      (entries : List (Str × Candidate)) → Sound entries → Sound (deepest_first entries)
  unfolding deepest_first
  deepest_first-Sound [] h = h
  deepest_first-Sound (entry ∷ entries) (o, h) =
      insert_deep-Sound entry (deepest_first entries) o (deepest_first-Sound entries h)

  module _ {ℓ ι} (fs : Directories {ℓ}) (P : fs.State → Type ι)
      (read : (side : SyncSide) (directory : Str) (s : fs.State)
        → Allowed side directory
        → P s
        → P (fs.has_children side directory s).1)
      (kept : (side : SyncSide) (directory : Str) (s t u : fs.State) (deleted : Bool)
        → Allowed side directory
        → fs.has_children side directory s ≡ (some false, t)
        → fs.delete side directory t ≡ (deleted, u)
        → P t
        → P u) where
    prune_one-kept :
        (candidates : Dict Str Candidate) (side : SyncSide) (directory : Str) (blocked : List Str)
        (s : fs.State) (outcome : Option Bool × fs.State)
        → Allowed side directory
        → fs.has_children side directory s ≡ outcome
        → P outcome.1
        → P (prune_one fs candidates side directory blocked outcome).1
    unfolding prune_one
    prune_one-kept candidates side directory blocked s (none, t) o e h = h
    prune_one-kept candidates side directory blocked s (some true, t) o e h = h
    prune_one-kept candidates side directory blocked s (some false, t) o e h =
        kept side directory s t (fs.delete side directory t).1 (fs.delete side directory t).0 o e
          refl h

    prune_all-kept :
        (candidates : Dict Str Candidate) (entries : List (Str × Candidate)) (blocked : List Str)
        (s : fs.State)
        → Sound entries
        → P s
        → P (prune_all fs candidates entries (blocked, s)).1
    unfolding prune_all
    prune_all-kept candidates [] blocked s o h = h
    prune_all-kept candidates ((key, (side, directory)) ∷ entries) blocked s (o, os) h =
        let next =
          prune_one fs candidates side directory blocked (fs.has_children side directory s) in
        elim (contains blocked key)
          as (λ b. P (prune_all fs candidates entries (if b then (blocked, s) else next)).1) [
            | true ↦ prune_all-kept candidates entries blocked s os h
            | false ↦ prune_all-kept candidates entries next.0 next.1 os (
                prune_one-kept candidates side directory blocked s
                  (fs.has_children side directory s) o refl (read side directory s o h))
          ]

    -- If the chains of the completed actions name allowed directories only, the cleanup changes the
    -- file systems only by asking whether allowed directories have children, and by deletions,
    -- successful or not, of allowed directories that were just read as empty: a property of the
    -- file systems that each such call keeps, failing ones included, holds after the cleanup if it
    -- held before.
    pub prune_emptied_directories-kept :
        (completed : List SyncAction) (s : fs.State)
        → Admits Allowed completed
        → P s
        → P (prune_emptied_directories fs completed s)
    unfolding prune_emptied_directories
    prune_emptied_directories-kept completed s o h =
        prune_all-kept (candidates_of completed []) (deepest_first (candidates_of completed [])) []
          s
          (deepest_first-Sound (candidates_of completed []) (candidates_of-Sound completed [] o tt))
          h
