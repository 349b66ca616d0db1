-- ===== src/Prune.antt =====
-- src/sync/prune-empty-parents.ts: the directories that a cycle's removals left empty. The two file
-- systems are an interface. The log is left out.
pub mod EmptyOnly
mod Tests
use obsidian_air_sync.Prelude.{
  ℕ, Bool, true, false, not, ◌&&◌, ◌||◌, Option, none, some, List, [], ◌∷◌, ◌++◌, length, ltb, Eq,
  ◌==◌, nat_eq, contains, if◌then◌else◌,
}
use obsidian_air_sync.Prelude.Text.{Str, str_eq, codes, is_empty}
use obsidian_air_sync.Prelude.Dict
use obsidian_air_sync.Prelude.Dict.{Dict, add}
use obsidian_air_sync.Types.Entity.{SyncSide, local, remote}
use obsidian_air_sync.Types.Action.{SyncAction, delete_local, rename_local}

-- `hasChildren` and `delete` of the file system of a side, with the state after the call, also where it
-- throws: there the occupancy is none, and the deletion false.
pub record Directories {ℓ} : Type (ℓ + 1) where
  pub State : Type ℓ
  pub has_children : SyncSide → Str → State → Option Bool × State
  pub delete : SyncSide → Str → State → Bool × State

abbrev pub Candidate : Type 0
Candidate = SyncSide × Str

abbrev side_name : SyncSide → Str
side_name local = codes "local"
side_name remote = codes "remote"

-- `${side}\\0${directory}`
key_of : SyncSide → Str → Str
key_of side directory = side_name side ++ (0 ∷ directory)

abbrev pub side_of : SyncAction → SyncSide
side_of a = elim a.action [ delete_local ↦ local | rename_local ↦ local | _ ↦ remote ]

add_chain : SyncSide → List Str → Dict Str Candidate → Dict Str Candidate
unfolding key_of
add_chain side [] m = m
add_chain side (directory ∷ chain) m =
    add_chain side chain (Dict.set (key_of side directory) (side, directory) m)

abbrev pub chain_of : SyncAction → List Str
chain_of a = elim a.prune_empty_ancestors [ none ↦ [] | some chain ↦ chain ]

candidates_of : List SyncAction → Dict Str Candidate → Dict Str Candidate
unfolding add_chain
candidates_of [] m = m
candidates_of (a ∷ completed) m = candidates_of completed (add_chain (side_of a) (chain_of a) m)

-- The stable sort by the length of the directory, the longest first.
insert_deep : Str × Candidate → List (Str × Candidate) → List (Str × Candidate)
insert_deep entry [] = entry ∷ []
insert_deep entry (next ∷ entries) =
    let rest = insert_deep entry entries in
    if ltb (length entry.1.1) (length next.1.1) then next ∷ rest else entry ∷ next ∷ entries

deepest_first : List (Str × Candidate) → List (Str × Candidate)
unfolding insert_deep
deepest_first [] = []
deepest_first (entry ∷ entries) = insert_deep entry (deepest_first entries)

-- The ancestors that `lastIndexOf` finds, the longest first; a slash at the start ends the search.
ancestors_from : Str → Str → List Str
ancestors_from taken [] = []
ancestors_from taken (c ∷ rest) =
    let longer = ancestors_from (taken ++ c ∷ []) rest in
    if c == b'/' && not (is_empty taken) then longer ++ taken ∷ [] else longer

block_each : Dict Str Candidate → SyncSide → List Str → List Str → List Str
unfolding key_of
block_each candidates side [] blocked = blocked
block_each candidates side (ancestor ∷ ancestors) blocked = block_each candidates side ancestors (
    if Dict.has (key_of side ancestor) candidates
    then add (key_of side ancestor) blocked
    else blocked)

block_prune_ancestors : Dict Str Candidate → List Str → SyncSide → Str → List Str
unfolding block_each ancestors_from
block_prune_ancestors candidates blocked side directory =
    block_each candidates side (ancestors_from [] directory) blocked

module _ {ℓ} (fs : Directories {ℓ}) where
  -- One turn of the loop: the blocked keys, and the file systems.
  prune_one :
      Dict Str Candidate → SyncSide → Str → List Str → Option Bool × fs.State → List Str × fs.State
  unfolding block_prune_ancestors
  prune_one candidates side directory blocked (none, s) =
      (block_prune_ancestors candidates blocked side directory, s)
  prune_one candidates side directory blocked (some true, s) =
      (block_prune_ancestors candidates blocked side directory, s)
  prune_one candidates side directory blocked (some false, s) =
      let (deleted, t) = fs.delete side directory s in
      (if deleted then blocked else block_prune_ancestors candidates blocked side directory, t)

  prune_all :
      Dict Str Candidate → List (Str × Candidate) → List Str × fs.State → List Str × fs.State
  unfolding prune_one
  prune_all candidates [] (blocked, s) = (blocked, s)
  prune_all candidates ((key, (side, directory)) ∷ entries) (blocked, s) =
      prune_all candidates entries (
        if contains blocked key
        then (blocked, s)
        else prune_one candidates side directory blocked (fs.has_children side directory s))

  pub prune_emptied_directories : List SyncAction → fs.State → fs.State
  unfolding candidates_of deepest_first prune_all
  prune_emptied_directories completed s =
      let candidates = candidates_of completed [] in
      (prune_all candidates (deepest_first candidates) ([], s)).1
