-- ===== src/Tracker/Renames.antt =====
-- The rename pairs of src/sync/local-tracker.ts.
use obsidian_air_sync.Prelude.{
  ℕ, ◌≡◌, ◌≢◌, ◌⊎◌, refl, ◌∙◌, true, false, not, ◌&&◌, Option, none, some, List, [], ◌∷◌, arith,
  ◌==◌, nat_eq, option_eq, if◌then◌else◌, Bool-cases, inl, inr, and_iff, ==_iff,
}
use obsidian_air_sync.Prelude.Text.{Str, str_eq}
use obsidian_air_sync.Prelude.Dict
use obsidian_air_sync.Prelude.Dict.{Dict, get-set, get-delete}
use obsidian_air_sync.Tracker.{
  LocalChangeTracker, mark_dirty, mark_endpoints, resolve, mark_renamed, generation,
  mark_folder_renamed, snapshot, unchanged, delete_matching, still_captured, acknowledge,
  acknowledge_relations, Report, dirty, renamed, folder_renamed, report, reports,
}
use obsidian_air_sync.Tracker.Survival.{touched, generation-reports}

pairs-mark_endpoints :
    (o r n : Str) (t : LocalChangeTracker)
    → ((mark_endpoints o r n t).rename_pairs ≡ t.rename_pairs)
      × ((mark_endpoints o r n t).folder_rename_pairs ≡ t.folder_rename_pairs)
unfolding mark_endpoints mark_dirty
pairs-mark_endpoints o r n t = ground arith

-- The pairs after a report of a rename, for one kind of pair.
pub collapse : Dict Str Str → Str → Str → Dict Str Str
collapse pairs new_path old_path =
    let first = resolve pairs old_path in
    if first == new_path
    then Dict.delete old_path pairs
    else Dict.set new_path first (Dict.delete old_path pairs)

pub pairs-mark_renamed :
    (n o : Str) (t : LocalChangeTracker)
    → ((mark_renamed n o t).rename_pairs ≡ collapse t.rename_pairs n o)
      × ((mark_renamed n o t).folder_rename_pairs ≡ t.folder_rename_pairs)
unfolding mark_renamed collapse
pairs-mark_renamed n o t =
    let cut = record t { rename_pairs = Dict.delete o t.rename_pairs } in
    ground (arith, pairs-mark_endpoints o (resolve t.rename_pairs o) n cut)

pub pairs-mark_folder_renamed :
    (n o : Str) (t : LocalChangeTracker)
    → ((mark_folder_renamed n o t).folder_rename_pairs ≡ collapse t.folder_rename_pairs n o)
      × ((mark_folder_renamed n o t).rename_pairs ≡ t.rename_pairs)
unfolding mark_folder_renamed collapse
pairs-mark_folder_renamed n o t =
    let cut = record t { folder_rename_pairs = Dict.delete o t.folder_rename_pairs } in
    ground (arith, pairs-mark_endpoints o (resolve t.folder_rename_pairs o) n cut)

pub get-collapse :
    (pairs : Dict Str Str) (n o k : Str)
    → Dict.get k (collapse pairs n o) ≡ (
        if k == n && not (resolve pairs o == n)
        then some (resolve pairs o)
        else if k == o
        then none
        else Dict.get k pairs)
unfolding collapse
get-collapse pairs n o k =
    ground (arith, get-set k n (resolve pairs o) (Dict.delete o pairs), get-delete k o pairs)

abbrev pub HasNoLoops : Dict Str Str → Type 0
HasNoLoops pairs = (k : Str) → Dict.get k pairs ≢ some k

collapse-HasNoLoops :
    (pairs : Dict Str Str) (n o : Str) → HasNoLoops pairs → HasNoLoops (collapse pairs n o)
collapse-HasNoLoops pairs n o h k e = ground (arith, get-collapse pairs n o k, h k)

abbrev pub NoLoops : LocalChangeTracker → Type 0
NoLoops t = HasNoLoops t.rename_pairs × HasNoLoops t.folder_rename_pairs

report-NoLoops : (r : Report) (t : LocalChangeTracker) → NoLoops t → NoLoops (report r t)
unfolding mark_dirty
report-NoLoops (dirty p) t h = h
report-NoLoops (renamed n o) t h = (
  rw (pairs-mark_renamed n o t).0 (collapse-HasNoLoops t.rename_pairs n o h.0),
  rw (pairs-mark_renamed n o t).1 h.1,
)
report-NoLoops (folder_renamed n o) t h = (
  rw (pairs-mark_folder_renamed n o t).1 h.0,
  rw (pairs-mark_folder_renamed n o t).0 (collapse-HasNoLoops t.folder_rename_pairs n o h.1),
)

-- No run of reports on a tracker without a pair from a path to itself makes such a pair: a rename
-- that comes back to its origin cancels.
pub reports-NoLoops :
    (rs : List Report) (t : LocalChangeTracker) → NoLoops t → NoLoops (reports rs t)
unfolding reports
reports-NoLoops [] t h = h
reports-NoLoops (r ∷ rs) t h = reports-NoLoops rs (report r t) (report-NoLoops r t h)

resolve-collapse :
    (pairs : Dict Str Str) (b a : Str)
    → resolve pairs a ≢ b
    → resolve (collapse pairs b a) b ≡ resolve pairs a
resolve-collapse pairs b a q = ground (arith, get-collapse pairs b a b)

module _ (pairs : Dict Str Str) (a b c : Str) (away : b ≢ c) (forth : resolve pairs a ≢ b) where
  get_chain :
      (k : Str)
      → Dict.get k (collapse (collapse pairs b a) c b) ≡ (
          if k == c && not (resolve pairs a == c)
          then some (resolve pairs a)
          else if k == b
          then none
          else if k == a
          then none
          else Dict.get k pairs)
  get_chain k = ground (
    arith,
    resolve-collapse pairs b a forth,
    get-collapse (collapse pairs b a) c b k,
    get-collapse pairs b a k,
  )

-- Two renames in a row, from A to B and from B to C, with B other than C and other than the origin
-- of A, leave one pair, from C to the origin of A, or none where that is C; no pair at B or at A;
-- and every other pair as it was.
pub rename_chain :
    (a b c : Str) (t : LocalChangeTracker)
    → b ≢ c
    → resolve t.rename_pairs a ≢ b
    → (k : Str)
    → Dict.get k (mark_renamed c b (mark_renamed b a t)).rename_pairs ≡ (
        if k == c && not (resolve t.rename_pairs a == c)
        then some (resolve t.rename_pairs a)
        else if k == b
        then none
        else if k == a
        then none
        else Dict.get k t.rename_pairs)
rename_chain a b c t away forth k =
    rw (pairs-mark_renamed c b (mark_renamed b a t)).0
      (rw (pairs-mark_renamed b a t).0 (get_chain t.rename_pairs a b c away forth k))

still_captured_lem :
    (live : Dict Str Str) (g : Dict Str ℕ) (s : Option (Dict Str ℕ)) (j v : Str)
    → still_captured live g s j v ≡ true
    → (Dict.get j live ≡ some v) × (unchanged g s j ≡ true) × (unchanged g s v ≡ true)
unfolding still_captured
still_captured_lem live g s j v h =
    let (pq, r) = (and_iff _ _).0 h in
    let (p, q) = (and_iff _ _).0 pq in ((==_iff (Dict.get j live) (some v)).0 p, q, r)

-- What `deleteMatching` does at a key: nothing, or it removes a pair whose two ends are unchanged.
abbrev Swept : Dict Str Str → Dict Str ℕ → Option (Dict Str ℕ) → Str → Option Str → Type 0
Swept live g s k o =
    (o ≡ Dict.get k live)
    ⊎ ((o ≡ none)
        × (unchanged g s k ≡ true)
        × (v : Str) × (Dict.get k live ≡ some v)
        × (unchanged g s v ≡ true))

delete_matching-Swept :
    (live captured : Dict Str Str) (g : Dict Str ℕ) (s : Option (Dict Str ℕ)) (k : Str)
    → Swept live g s k (Dict.get k (delete_matching live captured g s))
unfolding delete_matching
delete_matching-Swept live [] g s k = inl refl
delete_matching-Swept live ((j, v) ∷ captured) g s k =
    elim (Bool-cases (still_captured live g s j v)) [
      | inr e ↦ rw (e, delete_matching) (delete_matching-Swept live captured g s k)
      | inl e ↦
          rw (e, delete_matching)
            (again (still_captured_lem live g s j v e)
              (delete_matching-Swept (Dict.delete j live) captured g s k))
    ]
  where
    again :
        (Dict.get j live ≡ some v) × (unchanged g s j ≡ true) × (unchanged g s v ≡ true)
        → Swept
            (Dict.delete j live)
            g
            s
            k
            (Dict.get k (delete_matching (Dict.delete j live) captured g s))
        → Swept live g s k (Dict.get k (delete_matching (Dict.delete j live) captured g s))
    again (p, q, r) (inl x) = elim (str_eq.dec k j) [
      | yes same ↦ inr (ground (arith, get-delete k j live), ground arith, v, ground arith, r)
      | no differ ↦ inl (ground (arith, get-delete k j live))
    ]
    again (p, q, r) (inr (x, y, w, z, u)) = inr (x, y, w, ground (arith, get-delete k j live), u)

Swept-survives :
    (live : Dict Str Str) (g : Dict Str ℕ) (s : Option (Dict Str ℕ)) (k v : Str) (o : Option Str)
    → Swept live g s k o
    → Dict.get k live ≡ some v
    → (unchanged g s k ≡ false) ⊎ (unchanged g s v ≡ false)
    → o ≡ some v
Swept-survives live g s k v o (inl x) h late = x ∙ h
Swept-survives live g s k v o (inr (x, y, w, z, u)) h (inl late) = cc
Swept-survives live g s k v o (inr (x, y, w, z, u)) h (inr late) = absurd (ground arith)

touched-unchanged :
    (t : LocalChangeTracker) (rs : List Report) (p : Str)
    → touched rs t p ≡ true
    → unchanged (reports rs t).generations (some t.generations) p ≡ false
unfolding generation
touched-unchanged t rs p h = ground (arith, generation-reports rs t p)

-- A rename pair that is on record when the cycle acknowledges its snapshot stays there if either
-- end was reported after the snapshot, whether all is acknowledged or the relations only.
pub late_rename_survives :
    (t : LocalChangeTracker) (rs : List Report) (k v : Str)
    → Dict.get k (reports rs t).rename_pairs ≡ some v
    → (touched rs t k ≡ true) ⊎ (touched rs t v ≡ true)
    → (Dict.get k (acknowledge (snapshot t) (reports rs t)).rename_pairs ≡ some v)
      × (Dict.get k (acknowledge_relations (snapshot t) (reports rs t)).rename_pairs ≡ some v)
unfolding acknowledge snapshot
late_rename_survives t rs k v h late = (kept, kept)
  where
    stale :
        (touched rs t k ≡ true) ⊎ (touched rs t v ≡ true)
        → (unchanged (reports rs t).generations (some t.generations) k ≡ false)
          ⊎ (unchanged (reports rs t).generations (some t.generations) v ≡ false)
    stale (inl x) = inl (touched-unchanged t rs k x)
    stale (inr x) = inr (touched-unchanged t rs v x)

    kept :
        Dict.get k (
          delete_matching
            (reports rs t).rename_pairs
            t.rename_pairs
            (reports rs t).generations
            (some t.generations))
        ≡ some v
    kept =
        Swept-survives (reports rs t).rename_pairs (reports rs t).generations (some t.generations) k
          v
          (Dict.get k (
            delete_matching (reports rs t).rename_pairs t.rename_pairs (reports rs t).generations
              (some t.generations)))
          (delete_matching-Swept (reports rs t).rename_pairs t.rename_pairs
            (reports rs t).generations (some t.generations) k)
          h (stale late)
