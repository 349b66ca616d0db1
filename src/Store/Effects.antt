-- ===== src/Store/Effects.antt =====
-- The effect of one publication of src/sync/state.ts on the rows and the merge bases.
use obsidian_air_sync.Prelude.{
  ◌≡◌, refl, ◌≢◌, Bool, false, ◌&&◌, ◌||◌, Option, none, some, arith, ◌==◌, option_eq,
  if◌then◌else◌, Option-cases, sym, ◌∙◌, inl, inr,
}
use obsidian_air_sync.Prelude.Text.{Str, str_eq}
use obsidian_air_sync.Types.Entity.{SyncRecord, record_eq}
use obsidian_air_sync.Store.Interface.{Database, IsLawful}
use obsidian_air_sync.Store.{
  invalidates_merge_base, publish_record, end_correspondence, refresh_content,
}

-- The publication of `rec` ends the row under `k` that was captured as `captured`.
abbrev pub ends : Option SyncRecord → SyncRecord → Str → Bool
ends none rec k = false
ends (some e) rec k =
    if e.remote_identity_key == rec.remote_identity_key then false else k == e.remote_identity_key

-- The database before the terminal row is written.
abbrev cleared :
    (db : Database) → Option SyncRecord → SyncRecord → Option SyncRecord → db.State → db.State
cleared db row rec occ s = end_correspondence db row rec (end_correspondence db occ rec s)

module _ (db : Database) (L : IsLawful db) where
  get-end_correspondence :
      (e : Option SyncRecord) (rec : SyncRecord) (k : Str) (s : db.State)
      → db.get k (end_correspondence db e rec s) ≡ (if ends e rec k then none else db.get k s)
  unfolding end_correspondence
  get-end_correspondence none rec k s = refl
  get-end_correspondence (some e) rec k s = ground (
    arith,
    L.get-delete_content k e.remote_identity_key (db.delete e.remote_identity_key s),
    L.get-delete k e.remote_identity_key s,
  )

  content-end_correspondence :
      (e : Option SyncRecord) (rec : SyncRecord) (k : Str) (s : db.State)
      → db.content k (end_correspondence db e rec s)
        ≡ (if ends e rec k then none else db.content k s)
  unfolding end_correspondence
  content-end_correspondence none rec k s = refl
  content-end_correspondence (some e) rec k s = ground (
    arith,
    L.content-delete_content k e.remote_identity_key (db.delete e.remote_identity_key s),
    L.content-delete k e.remote_identity_key s,
  )

  end_correspondence-IsConsistent :
      (e : Option SyncRecord) (rec : SyncRecord) (s : db.State)
      → db.IsConsistent s
      → db.IsConsistent (end_correspondence db e rec s)
  unfolding end_correspondence
  end_correspondence-IsConsistent none rec s h = h
  end_correspondence-IsConsistent (some e) rec s h = ground (
    arith,
    L.delete_content-IsConsistent e.remote_identity_key (db.delete e.remote_identity_key s),
    L.delete-IsConsistent e.remote_identity_key s,
  )

  module _ (row : Option SyncRecord) (rec : SyncRecord) (occ : Option SyncRecord)
      (s : db.State) where
    get-cleared :
        (k : Str)
        → db.get k (cleared db row rec occ s)
          ≡ (if ends row rec k || ends occ rec k then none else db.get k s)
    get-cleared k = ground (
      arith,
      get-end_correspondence row rec k (end_correspondence db occ rec s),
      get-end_correspondence occ rec k s,
    )

    cleared-IsConsistent : db.IsConsistent s → db.IsConsistent (cleared db row rec occ s)
    cleared-IsConsistent h =
        end_correspondence-IsConsistent row rec _ (end_correspondence-IsConsistent occ rec s h)

    -- After the ended rows are gone, the index has room for the terminal row.
    put-cleared :
        db.IsConsistent s
        → db.at_path rec.path s ≡ occ
        → db.put rec (cleared db row rec occ s) ≢ none
    put-cleared h o p =
        let (other, found, differ) = (L.put-eq-none rec _ (cleared-IsConsistent h)).0 p in
        let (stored, place) = (L.at_path_iff rec.path other _ (cleared-IsConsistent h)).0 found in
        let before : db.get other.remote_identity_key s ≡ some other =
          ground (arith, get-cleared other.remote_identity_key) in
        let occupant : occ ≡ some other =
          sym o ∙ (L.at_path_iff rec.path other s h).1 (before, place) in
        ground (arith, get-cleared other.remote_identity_key)

    pub publish_record-total :
        db.IsConsistent s
        → db.at_path rec.path s ≡ occ
        → (t : db.State) × (publish_record db row rec occ s ≡ some t)
    unfolding publish_record
    publish_record-total h o = elim (Option-cases (db.put rec (cleared db row rec occ s))) [
      | inl p ↦ absurd (put-cleared h o p)
      | inr (u, p) ↦ (refresh_content db row rec u, rw p)
    ]

    module _ {t : db.State} (done : publish_record db row rec occ s ≡ some t) where
      published :
          (u : db.State) × (db.put rec (cleared db row rec occ s) ≡ some u)
          × (t ≡ refresh_content db row rec u)
      unfolding publish_record
      published = elim (Option-cases (db.put rec (cleared db row rec occ s))) [
        | inl p ↦ absurd (ground arith)
        | inr (u, p) ↦ (u, p, ground arith)
      ]

      pub publish_record-IsConsistent : db.IsConsistent s → db.IsConsistent t
      unfolding refresh_content
      publish_record-IsConsistent h =
          let (u, p, e) = published in
          let kept = L.put-IsConsistent rec _ u (cleared-IsConsistent h) p in
          rw e (ground (arith, L.delete_content-IsConsistent rec.remote_identity_key u kept))

      -- The terminal row is there, the ended rows are gone, and every other row is as it was.
      pub get-publish_record :
          (k : Str)
          → db.get k t ≡ (
              if k == rec.remote_identity_key
              then some rec
              else if ends row rec k || ends occ rec k
              then none
              else db.get k s)
      unfolding refresh_content
      get-publish_record k =
          let (u, p, e) = published in
          ground (
            arith,
            L.get-delete_content k rec.remote_identity_key u,
            L.get-put k rec _ u p,
            get-cleared k,
          )

      -- A merge base is gone with its ended row, and with the content that it was the base of.
      pub content-publish_record :
          (k : Str)
          → db.content k t ≡ (
              if (k == rec.remote_identity_key && invalidates_merge_base row rec)
                || ends row rec k
                || ends occ rec k
              then none
              else db.content k s)
      unfolding refresh_content
      content-publish_record k =
          let (u, p, e) = published in
          ground (
            arith,
            L.content-delete_content k rec.remote_identity_key u,
            L.content-put k rec _ u p,
            content-end_correspondence row rec k (end_correspondence db occ rec s),
            content-end_correspondence occ rec k s,
          )

      pub at_path-publish_record : db.IsConsistent s → db.at_path rec.path t ≡ some rec
      at_path-publish_record h =
          (L.at_path_iff rec.path rec t (publish_record-IsConsistent h)).1
            (ground (arith, get-publish_record rec.remote_identity_key), refl)
