-- ===== src/Tracker.antt =====
-- src/sync/local-tracker.ts: the changes that the vault reports between two sync cycles. Sets and
-- maps are in insertion order; `generations` counts the reports of each path.
pub mod Survival
pub mod Renames
mod Tests
use mathlib.Core.Option
use obsidian_air_sync.Prelude.{
  ℕ, ◌+◌, Bool, true, false, not, ◌&&◌, ◌||◌, Option, none, some, List, [], ◌∷◌, map, Eq, ◌==◌,
  nat_eq, option_eq, contains, if◌then◌else◌,
}
use obsidian_air_sync.Prelude.Text.{Str, str_eq}
use obsidian_air_sync.Prelude.Dict
use obsidian_air_sync.Prelude.Dict.{Dict, add, remove}

pub record LocalChangeTracker : Type 0 where
  pub dirty_paths : List Str
  -- new path → old path
  pub rename_pairs : Dict Str Str
  pub folder_rename_pairs : Dict Str Str
  pub generations : Dict Str ℕ
  pub initialized : Bool

-- A snapshot copies every collection. Its generations are optional in the source; a cycle always
-- captures them.
pub record TrackerSnapshot : Type 0 where
  pub dirty_paths : List Str
  pub rename_pairs : Dict Str Str
  pub folder_rename_pairs : Dict Str Str
  pub generations : Option (Dict Str ℕ)
  pub initialized : Bool

abbrev pub new_tracker : LocalChangeTracker
new_tracker = record {
  dirty_paths = [];
  rename_pairs = [];
  folder_rename_pairs = [];
  generations = [];
  initialized = false;
}

-- `generations.get(path) ?? 0`
abbrev pub count_of : Dict Str ℕ → Str → ℕ
count_of d path = elim (Dict.get path d) [ none ↦ 0 | some n ↦ n ]

pub generation : LocalChangeTracker → Str → ℕ
generation t path = count_of t.generations path

bump : Str → LocalChangeTracker → LocalChangeTracker
unfolding generation
bump path t = record t { generations = Dict.set path (generation t path + 1) t.generations }

unfoldable pub mark_dirty : Str → LocalChangeTracker → LocalChangeTracker
unfolding bump
mark_dirty path t =
    let bumped = bump path t in record bumped { dirty_paths = add path bumped.dirty_paths }

-- `for (const path of new Set([oldPath, resolved, newPath])) this.markDirty(path)`
unfoldable pub mark_endpoints : Str → Str → Str → LocalChangeTracker → LocalChangeTracker
mark_endpoints old_path resolved new_path t =
    let t1 = mark_dirty old_path t in
    let t2 = if resolved == old_path then t1 else mark_dirty resolved t1 in
    if new_path == old_path || new_path == resolved then t2 else mark_dirty new_path t2

-- `pairs.get(path) ?? path`
abbrev pub resolve : Dict Str Str → Str → Str
resolve pairs path = elim (Dict.get path pairs) [ none ↦ path | some first ↦ first ]

unfoldable pub mark_renamed : Str → Str → LocalChangeTracker → LocalChangeTracker
mark_renamed new_path old_path t =
    let resolved = resolve t.rename_pairs old_path in
    let cut = record t { rename_pairs = Dict.delete old_path t.rename_pairs } in
    let marked = mark_endpoints old_path resolved new_path cut in
    if resolved == new_path
    then marked
    else record marked { rename_pairs = Dict.set new_path resolved marked.rename_pairs }

unfoldable pub mark_folder_renamed : Str → Str → LocalChangeTracker → LocalChangeTracker
mark_folder_renamed new_path old_path t =
    let resolved = resolve t.folder_rename_pairs old_path in
    let cut = record t { folder_rename_pairs = Dict.delete old_path t.folder_rename_pairs } in
    let marked = mark_endpoints old_path resolved new_path cut in
    if resolved == new_path then marked else record marked {
      folder_rename_pairs = Dict.set new_path resolved marked.folder_rename_pairs;
    }

pub snapshot : LocalChangeTracker → TrackerSnapshot
snapshot t = record {
  dirty_paths = t.dirty_paths;
  rename_pairs = t.rename_pairs;
  folder_rename_pairs = t.folder_rename_pairs;
  generations = some t.generations;
  initialized = t.initialized;
}

-- The path was not reported since the capture.
abbrev pub unchanged : Dict Str ℕ → Option (Dict Str ℕ) → Str → Bool
unchanged generations none path = true
unchanged generations (some captured) path = count_of generations path == count_of captured path

-- The test of `deleteMatching` on one captured pair.
still_captured : Dict Str Str → Dict Str ℕ → Option (Dict Str ℕ) → Str → Str → Bool
still_captured live generations captured key value =
    Dict.get key live == some value
    && unchanged generations captured key
    && unchanged generations captured value

-- `deleteMatching`
pub delete_matching : Dict Str Str → Dict Str Str → Dict Str ℕ → Option (Dict Str ℕ) → Dict Str Str
unfolding still_captured
delete_matching live [] generations captured = live
delete_matching live ((key, value) ∷ pairs) generations captured =
    delete_matching
      (if still_captured live generations captured key value then Dict.delete key live else live)
      pairs generations captured

clean_paths : List Str → List Str → Dict Str ℕ → Option (Dict Str ℕ) → List Str
clean_paths dirty [] generations captured = dirty
clean_paths dirty (p ∷ paths) generations captured =
    clean_paths (if unchanged generations captured p then remove p dirty else dirty) paths
      generations captured

pub acknowledge_relations : TrackerSnapshot → LocalChangeTracker → LocalChangeTracker
unfolding delete_matching
acknowledge_relations snap t = record t {
  rename_pairs = delete_matching t.rename_pairs snap.rename_pairs t.generations snap.generations;
  folder_rename_pairs =
      delete_matching t.folder_rename_pairs snap.folder_rename_pairs t.generations snap.generations;
}

pub acknowledge : TrackerSnapshot → LocalChangeTracker → LocalChangeTracker
unfolding clean_paths acknowledge_relations
acknowledge snap t = record (acknowledge_relations snap t) {
  dirty_paths = clean_paths t.dirty_paths snap.dirty_paths t.generations snap.generations;
  initialized = true;
}

pub acknowledge_path : Str → ℕ → LocalChangeTracker → LocalChangeTracker
unfolding generation
acknowledge_path path expected t = if not (generation t path == expected) then t else record t {
  dirty_paths = remove path t.dirty_paths;
  rename_pairs = Dict.delete path t.rename_pairs;
}

-- The reports of the vault.
pub data Report : Type 0 where
  dirty : Str → Report
  renamed folder_renamed : Str → Str → Report

abbrev pub report : Report → LocalChangeTracker → LocalChangeTracker
report (dirty p) t = mark_dirty p t
report (renamed new_path old_path) t = mark_renamed new_path old_path t
report (folder_renamed new_path old_path) t = mark_folder_renamed new_path old_path t

unfoldable pub reports : List Report → LocalChangeTracker → LocalChangeTracker
reports [] t = t
reports (r ∷ rs) t = reports rs (report r t)
