-- ===== src/Tracker/Survival.antt =====
-- The acknowledgement of a snapshot in src/sync/local-tracker.ts: dirty paths and generations.
use obsidian_air_sync.Prelude.{
  ℕ, ◌+◌, ◌≤◌, ◌<◌, ◌≡◌, refl, ◌∙◌, Bool, true, false, not, ◌&&◌, ◌||◌, Option, some, List, [], ◌∷◌,
  arith, ◌==◌, nat_eq, option_eq, contains, if◌then◌else◌, Bool-cases, inl, inr,
}
use obsidian_air_sync.Prelude.Text.{Str, str_eq}
use obsidian_air_sync.Prelude.Dict
use obsidian_air_sync.Prelude.Dict.{
  Dict, remove, contains-add, contains-remove, get-set, get-delete,
}
use obsidian_air_sync.Tracker.{
  LocalChangeTracker, generation, mark_dirty, mark_endpoints, resolve, mark_renamed,
  mark_folder_renamed, snapshot, unchanged, clean_paths, acknowledge, Report, dirty, renamed,
  folder_renamed, report, reports, count_of,
}

-- The paths that a report names, the origin of a rename chain included.
abbrev pub endpoints : Str → Str → Str → Str → Bool
endpoints old_path resolved new_path p = p == old_path || p == resolved || p == new_path

abbrev pub touches : Report → LocalChangeTracker → Str → Bool
touches (dirty q) t p = p == q
touches (renamed new_path old_path) t p =
    endpoints old_path (resolve t.rename_pairs old_path) new_path p
touches (folder_renamed new_path old_path) t p =
    endpoints old_path (resolve t.folder_rename_pairs old_path) new_path p

-- Some report of the run names the path.
unfoldable pub touched : List Report → LocalChangeTracker → Str → Bool
touched [] t p = false
touched (r ∷ rs) t p = touches r t p || touched rs (report r t) p

generation-mark_dirty :
    (q p : Str) (t : LocalChangeTracker)
    → generation (mark_dirty q t) p ≡ (if p == q then generation t p + 1 else generation t p)
unfolding generation mark_dirty
generation-mark_dirty q p t =
    ground (arith, get-set p q (count_of t.generations q + 1) t.generations)

dirty-mark_dirty :
    (q p : Str) (t : LocalChangeTracker)
    → contains (mark_dirty q t).dirty_paths p ≡ (p == q || contains t.dirty_paths p)
unfolding mark_dirty
dirty-mark_dirty q p t = contains-add q p t.dirty_paths

generation-mark_endpoints :
    (o r n p : Str) (t : LocalChangeTracker)
    → generation (mark_endpoints o r n t) p
      ≡ (if endpoints o r n p then generation t p + 1 else generation t p)
unfolding mark_endpoints
generation-mark_endpoints o r n p t = ground (
  arith,
  generation-mark_dirty o p t,
  generation-mark_dirty r p (mark_dirty o t),
  generation-mark_dirty n p (mark_dirty o t),
  generation-mark_dirty n p (mark_dirty r (mark_dirty o t)),
)

dirty-mark_endpoints :
    (o r n p : Str) (t : LocalChangeTracker)
    → contains (mark_endpoints o r n t).dirty_paths p
      ≡ (endpoints o r n p || contains t.dirty_paths p)
unfolding mark_endpoints
dirty-mark_endpoints o r n p t = ground (
  arith,
  dirty-mark_dirty o p t,
  dirty-mark_dirty r p (mark_dirty o t),
  dirty-mark_dirty n p (mark_dirty o t),
  dirty-mark_dirty n p (mark_dirty r (mark_dirty o t)),
)

generation-report :
    (r : Report) (t : LocalChangeTracker) (p : Str)
    → generation (report r t) p ≡ (if touches r t p then generation t p + 1 else generation t p)
unfolding generation mark_renamed mark_folder_renamed
generation-report (dirty q) t p = generation-mark_dirty q p t
generation-report (renamed n o) t p = elim (Bool-cases (resolve t.rename_pairs o == n)) [
  | inl e ↦ rw e (
      generation-mark_endpoints o (resolve t.rename_pairs o) n p
        (record t { rename_pairs = Dict.delete o t.rename_pairs }))
  | inr e ↦ rw e (
      generation-mark_endpoints o (resolve t.rename_pairs o) n p
        (record t { rename_pairs = Dict.delete o t.rename_pairs }))
]
generation-report (folder_renamed n o) t p =
    elim (Bool-cases (resolve t.folder_rename_pairs o == n)) [
      | inl e ↦ rw e (
          generation-mark_endpoints o (resolve t.folder_rename_pairs o) n p
            (record t { folder_rename_pairs = Dict.delete o t.folder_rename_pairs }))
      | inr e ↦ rw e (
          generation-mark_endpoints o (resolve t.folder_rename_pairs o) n p
            (record t { folder_rename_pairs = Dict.delete o t.folder_rename_pairs }))
    ]

pub dirty-report :
    (r : Report) (t : LocalChangeTracker) (p : Str)
    → contains (report r t).dirty_paths p ≡ (touches r t p || contains t.dirty_paths p)
unfolding mark_renamed mark_folder_renamed
dirty-report (dirty q) t p = dirty-mark_dirty q p t
dirty-report (renamed n o) t p = elim (Bool-cases (resolve t.rename_pairs o == n)) [
  | inl e ↦ rw e (
      dirty-mark_endpoints o (resolve t.rename_pairs o) n p
        (record t { rename_pairs = Dict.delete o t.rename_pairs }))
  | inr e ↦ rw e (
      dirty-mark_endpoints o (resolve t.rename_pairs o) n p
        (record t { rename_pairs = Dict.delete o t.rename_pairs }))
]
dirty-report (folder_renamed n o) t p = elim (Bool-cases (resolve t.folder_rename_pairs o == n)) [
  | inl e ↦ rw e (
      dirty-mark_endpoints o (resolve t.folder_rename_pairs o) n p
        (record t { folder_rename_pairs = Dict.delete o t.folder_rename_pairs }))
  | inr e ↦ rw e (
      dirty-mark_endpoints o (resolve t.folder_rename_pairs o) n p
        (record t { folder_rename_pairs = Dict.delete o t.folder_rename_pairs }))
]

-- The generation of a path stays as it is under reports that do not name the path, grows under
-- those that do, and never shrinks.
pub generation-reports :
    (rs : List Report) (t : LocalChangeTracker) (p : Str)
    → (touched rs t p ≡ false → generation (reports rs t) p ≡ generation t p)
      × (touched rs t p ≡ true → generation t p < generation (reports rs t) p)
      × (generation t p ≤ generation (reports rs t) p)
unfolding touched reports
generation-reports [] t p = (λ h. refl, λ h. cc, omega arith)
generation-reports (r ∷ rs) t p =
    ground (arith, generation-report r t p, generation-reports rs (report r t) p)

pub dirty-reports :
    (rs : List Report) (t : LocalChangeTracker) (p : Str)
    → contains (reports rs t).dirty_paths p ≡ (touched rs t p || contains t.dirty_paths p)
unfolding touched reports
dirty-reports [] t p = refl
dirty-reports (r ∷ rs) t p = ground (arith, dirty-report r t p, dirty-reports rs (report r t) p)

contains-clean_paths :
    (live captured : List Str) (g : Dict Str ℕ) (c : Option (Dict Str ℕ)) (p : Str)
    → contains (clean_paths live captured g c) p
      ≡ (contains live p && not (contains captured p && unchanged g c p))
unfolding clean_paths
contains-clean_paths live [] g c p = ground arith
contains-clean_paths live (q ∷ captured) g c p = ground (
  arith,
  contains-clean_paths (remove q live) captured g c p,
  contains-clean_paths live captured g c p,
  contains-remove q p live,
)

-- After a cycle acknowledges the snapshot that it took, a path is dirty exactly where a report that
-- arrived after the snapshot names it, as a changed path, as an end of a rename or as the origin of
-- its chain, whether or not the path was dirty before.
pub dirty-acknowledge :
    (t : LocalChangeTracker) (rs : List Report) (p : Str)
    → contains (acknowledge (snapshot t) (reports rs t)).dirty_paths p ≡ touched rs t p
unfolding acknowledge snapshot generation
dirty-acknowledge t rs p =
    let t' = reports rs t in
    contains-clean_paths t'.dirty_paths t.dirty_paths t'.generations (some t.generations) p
    ∙ ground (arith, generation-reports rs t p, dirty-reports rs t p)
