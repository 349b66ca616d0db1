-- ===== src/Store/Refusals.antt =====
-- The refusals of the updates of src/sync/state.ts; they need no law of the database.
use mathlib.Core.Option
use obsidian_air_sync.Prelude.{
  ◌≡◌, Bool, true, false, Option, none, some, List, arith, Bool-cases, inl, inr,
}
use obsidian_air_sync.Prelude.Text.{Str}
use obsidian_air_sync.Types.Entity.{SyncRecord}
use obsidian_air_sync.Store.Interface.{Database}
use obsidian_air_sync.Store.{
  RecordRelocation, publish_record, expectations_hold, compare_and_put, compare_and_delete,
  compare_and_rewrite_paths, publish_all,
}

module _ (db : Database) where
  map-true-ne-false :
      (o : Option db.State) (t : db.State)
      → Option.map {B = Bool × db.State} (λ u. (true, u)) o ≡ some (false, t)
      → ⊥
  map-true-ne-false none t h = cc
  map-true-ne-false (some u) t h = cc

  pub compare_and_put_refused :
      (row : Option SyncRecord) (rec : SyncRecord) (occ : Option SyncRecord) (s : db.State)
      {t : db.State}
      → compare_and_put db row rec occ s ≡ some (false, t)
      → t ≡ s
  unfolding compare_and_put
  compare_and_put_refused row rec occ s {t} h =
      elim (Bool-cases (expectations_hold db row rec occ s)) [
        | inl e ↦ absurd (map-true-ne-false (publish_record db row rec occ s) t (ground arith))
        | inr e ↦ ground arith
      ]

  pub compare_and_delete_refused :
      (path : Str) (e : Option SyncRecord) (s : db.State)
      → (compare_and_delete db path e s).0 ≡ false
      → (compare_and_delete db path e s).1 ≡ s
  unfolding compare_and_delete
  compare_and_delete_refused path e s h = ground arith

  pub compare_and_rewrite_paths_refused :
      (items : List RecordRelocation) (s : db.State) {t : db.State}
      → compare_and_rewrite_paths db items s ≡ some (false, t)
      → t ≡ s
  unfolding compare_and_rewrite_paths
  compare_and_rewrite_paths_refused items s {t} h =
      ground (arith, map-true-ne-false (publish_all db items s) t)
