-- ===== src/Store.antt =====
-- The store of sync records, src/sync/state.ts: the methods of `SyncStateStore`. A method is one
-- transaction. `none` is a transaction that the unique index aborts, which leaves the database as it
-- was.
pub mod Interface
pub mod Effects
pub mod Updates
pub mod Refusals
pub mod Memory
mod Tests
use mathlib.Core.Option
use obsidian_air_sync.Prelude.{
  Bool, true, false, not, ◌&&◌, ◌||◌, Option, none, some, List, [], ◌∷◌, length, map, every, any,
  Eq, ◌==◌, contains, nat_eq, option_eq, if◌then◌else◌,
}
use obsidian_air_sync.Prelude.Text.{Str, str_eq, truthy}
use obsidian_air_sync.Prelude.Dict.{Dict, add}
use obsidian_air_sync.Types.Entity.{SyncRecord, record_eq}
use Interface.{Database}

pub record RecordRelocation : Type 0 where
  pub source : SyncRecord
  pub destination : Option SyncRecord
  pub terminal : SyncRecord

-- `same`: the whole rows are compared.
abbrev pub same : Option SyncRecord → Option SyncRecord → Bool
same current expected = current == expected

unfoldable pub invalidates_merge_base : Option SyncRecord → SyncRecord → Bool
invalidates_merge_base none rec = true
invalidates_merge_base (some expected) rec =
    not (truthy rec.hash)
    || not (expected.hash == rec.hash)
    || not (expected.local_size == rec.local_size)
    || not (expected.remote_identity_key == rec.remote_identity_key)

-- The compared row that the terminal does not continue.
unfoldable pub ended_row : Option SyncRecord → SyncRecord → Option SyncRecord
ended_row none rec = none
ended_row (some expected) rec =
    if expected.remote_identity_key == rec.remote_identity_key then none else some expected

-- `new Set(items).size`
pub distinct : List Str → List Str
distinct [] = []
distinct (x ∷ xs) = add x (distinct xs)

module _ (db : Database) where
  -- One turn of the loop of `publishRecord`.
  unfoldable pub end_correspondence : Option SyncRecord → SyncRecord → db.State → db.State
  end_correspondence none rec s = s
  end_correspondence (some ended) rec s =
      if ended.remote_identity_key == rec.remote_identity_key
      then s
      else db.delete_content ended.remote_identity_key (db.delete ended.remote_identity_key s)

  unfoldable pub refresh_content : Option SyncRecord → SyncRecord → db.State → db.State
  refresh_content expected rec s =
      if invalidates_merge_base expected rec then db.delete_content rec.remote_identity_key s else s

  unfoldable pub publish_record :
      Option SyncRecord → SyncRecord → Option SyncRecord → db.State → Option db.State
  publish_record row rec occupant s =
      Option.map (refresh_content row rec)
        (db.put rec (end_correspondence row rec (end_correspondence occupant rec s)))

  -- What the transaction reads under a key that may be missing.
  unfoldable pub read_at : Option SyncRecord → db.State → Option SyncRecord
  read_at none s = none
  read_at (some r) s = db.get r.remote_identity_key s

  -- The comparison of `compareAndPut`.
  unfoldable pub expectations_hold :
      Option SyncRecord → SyncRecord → Option SyncRecord → db.State → Bool
  unfolding read_at
  expectations_hold row rec occupant s =
      let ended = ended_row row rec in
      same (db.get rec.remote_identity_key s) (elim ended [ none ↦ row | some e ↦ none ])
      && same (read_at ended s) ended
      && same (db.at_path rec.path s) occupant

  unfoldable pub compare_and_put :
      Option SyncRecord → SyncRecord → Option SyncRecord → db.State → Option (Bool × db.State)
  compare_and_put row rec occupant s =
      if expectations_hold row rec occupant s
      then Option.map (λ t. (true, t)) (publish_record row rec occupant s)
      else some (false, s)

  delete_row : Option SyncRecord → db.State → db.State
  delete_row none s = s
  delete_row (some r) s =
      db.delete_content r.remote_identity_key (db.delete r.remote_identity_key s)

  -- The comparison of `compareAndDelete`.
  deletion_holds : Str → Option SyncRecord → db.State → Bool
  unfolding read_at
  deletion_holds path expected s =
      same (read_at expected s) expected && same (db.at_path path s) expected

  pub compare_and_delete : Str → Option SyncRecord → db.State → Bool × db.State
  unfolding deletion_holds delete_row
  compare_and_delete path expected s =
      if deletion_holds path expected s then (true, delete_row expected s) else (false, s)

  -- `put`, uncompared
  pub put_record : SyncRecord → db.State → Option db.State
  put_record rec s = db.put rec s

  -- `delete(path)`
  pub delete_path : Str → db.State → db.State
  unfolding delete_row
  delete_path path s = delete_row (db.at_path path s) s

  pub compare_and_put_content : SyncRecord → db.Content → db.State → Bool × db.State
  compare_and_put_content expected encoded s =
      if same (db.get expected.remote_identity_key s) (some expected)
      then (true, db.put_content expected.remote_identity_key encoded s)
      else (false, s)

  -- `getMany`: the records at the paths that have one.
  pub get_many : List Str → db.State → Dict Str SyncRecord
  get_many [] s = []
  get_many (p ∷ paths) s =
      let rest = get_many paths s in elim (db.at_path p s) [ none ↦ rest | some r ↦ (p, r) ∷ rest ]

  -- The comparisons of `compareAndRewritePaths`, all before the first write.
  relocation_holds : db.State → RecordRelocation → Bool
  relocation_holds s item =
      same (db.get item.source.remote_identity_key s) (some item.source)
      && same (db.at_path item.terminal.path s) item.destination

  publish_all : List RecordRelocation → db.State → Option db.State
  publish_all [] s = some s
  publish_all (item ∷ items) s =
      elim (publish_record (some item.source) item.terminal item.destination s) [
        | none ↦ none
        | some t ↦ publish_all items t
      ]

-- The refusals of `compareAndRewritePaths` before its transaction.
abbrev source_path : RecordRelocation → Str
source_path item = item.source.path

abbrev terminal_path : RecordRelocation → Str
terminal_path item = item.terminal.path

pub relocations_admissible : List RecordRelocation → Bool
unfolding distinct
relocations_admissible items =
    let sources = map source_path items in
    let targets = map terminal_path items in
    length (distinct sources) == length items
    && length (distinct targets) == length items
    && not (
        any
          (λ item.
            not (source_path item == terminal_path item) && contains sources (terminal_path item))
          items)

pub compare_and_rewrite_paths :
    (db : Database) → List RecordRelocation → db.State → Option (Bool × db.State)
unfolding relocation_holds publish_all
compare_and_rewrite_paths db items s =
    if not (relocations_admissible items)
    then some (false, s)
    else if length items == 0
    then some (true, s)
    else if every (relocation_holds db s) items
    then Option.map (λ t. (true, t)) (publish_all db items s)
    else some (false, s)
