-- ===== src/Store/Updates.antt =====
-- The compared updates of src/sync/state.ts.
use obsidian_air_sync.Prelude.{
  ◌≡◌, refl, ◌≢◌, ◌↔◌, ◌⊎◌, inl, inr, Bool, true, false, ◌&&◌, ◌||◌, Option, none, some, arith,
  ◌==◌, option_eq, if◌then◌else◌, Option-cases, Bool-cases, ◌∙◌, and_iff, ==_iff,
}
use obsidian_air_sync.Prelude.Text.{Str, str_eq}
use obsidian_air_sync.Types.Entity.{SyncRecord, record_eq}
use obsidian_air_sync.Store.Interface.{Database, IsLawful}
use obsidian_air_sync.Store.{
  invalidates_merge_base, ended_row, publish_record, expectations_hold, compare_and_put, read_at,
  compare_and_delete, deletion_holds, delete_row, compare_and_put_content,
}
use obsidian_air_sync.Store.Effects.{
  ends, publish_record-total, publish_record-IsConsistent, get-publish_record,
  content-publish_record, at_path-publish_record,
}

-- The captured row, the terminal's own row and the occupant of its path are stored as captured.
abbrev pub Expected :
    (db : Database) → Option SyncRecord → SyncRecord → Option SyncRecord → db.State → Type 0
Expected db row rec occ s =
    (elim row [
      | none ↦ db.get rec.remote_identity_key s ≡ none
      | some e ↦
          (e.remote_identity_key ≡ rec.remote_identity_key
            × (db.get rec.remote_identity_key s ≡ some e))
          ⊎ ((e.remote_identity_key ≢ rec.remote_identity_key)
              × (db.get rec.remote_identity_key s ≡ none)
              × (db.get e.remote_identity_key s ≡ some e))
    ])
    × (db.at_path rec.path s ≡ occ)

-- The effect of `compareAndPut` with its answer. A refusal changes nothing. Otherwise the terminal row is stored, the
-- ended rows are gone with their merge bases, the merge base of the row is gone where its content or
-- identity changed, and no other row or merge base is touched.
abbrev pub PutEffect :
    (db : Database)
    → Option SyncRecord
    → SyncRecord
    → Option SyncRecord
    → Bool
    → db.State
    → db.State
    → Type 0
PutEffect db row rec occ false s t = t ≡ s
PutEffect db row rec occ true s t =
    (db.at_path rec.path t ≡ some rec)
    × ((k : Str)
        → db.get k t ≡ (
            if k == rec.remote_identity_key
            then some rec
            else if ends row rec k || ends occ rec k
            then none
            else db.get k s))
    × ((k : Str)
        → db.content k t ≡ (
            if (k == rec.remote_identity_key && invalidates_merge_base row rec)
              || ends row rec k
              || ends occ rec k
            then none
            else db.content k s))

module _ (db : Database) where
  all_three_iff :
      (a b c d x y : Option SyncRecord)
      → (a == b && c == d && x == y ≡ true) ↔ ((a ≡ b) × (c ≡ d) × (x ≡ y))
  all_three_iff a b c d x y = (
    λ h.
        let (pq, r) = (and_iff _ _).0 h in
        let (p, q) = (and_iff _ _).0 pq in ((==_iff a b).0 p, (==_iff c d).0 q, (==_iff x y).0 r),
    λ (p, q, r).
        (and_iff _ _).1 ((and_iff _ _).1 ((==_iff a b).1 p, (==_iff c d).1 q), (==_iff x y).1 r),
  )

  ended_row-none :
      (e rec : SyncRecord)
      → e.remote_identity_key ≡ rec.remote_identity_key
      → ended_row (some e) rec ≡ none
  unfolding ended_row
  ended_row-none e rec p = ground arith

  ended_row-some :
      (e rec : SyncRecord)
      → e.remote_identity_key ≢ rec.remote_identity_key
      → ended_row (some e) rec ≡ some e
  unfolding ended_row
  ended_row-some e rec p = ground arith

  expectations_hold_iff :
      (row : Option SyncRecord) (rec : SyncRecord) (occ : Option SyncRecord) (s : db.State)
      → (expectations_hold db row rec occ s ≡ true) ↔ Expected db row rec occ s
  unfolding expectations_hold ended_row
  expectations_hold_iff none rec occ s =
      let t =
        all_three_iff (db.get rec.remote_identity_key s) none none none (db.at_path rec.path s)
          occ in
      (λ h. ((t.0 h).0, (t.0 h).2), λ (p, q). t.1 (p, refl, q))
  expectations_hold_iff (some e) rec occ s =
      elim (str_eq.dec e.remote_identity_key rec.remote_identity_key) [
        | yes p ↦
            rw (ended_row-none e rec p, expectations_hold)
              (let t =
                  all_three_iff (db.get rec.remote_identity_key s) (some e) none none
                    (db.at_path rec.path s) occ in
                (
                  λ h. (inl (p, (t.0 h).0), (t.0 h).2),
                  λ (q, r). t.1 (elim q [ inl (x, y) ↦ y | inr (x, y, z) ↦ absurd (x p) ], refl, r),
                ))
        | no p ↦
            rw (ended_row-some e rec p, expectations_hold)
              (let t =
                  all_three_iff (db.get rec.remote_identity_key s) none
                    (db.get e.remote_identity_key s) (some e) (db.at_path rec.path s) occ in
                (
                  λ h. (inr (p, (t.0 h).0, (t.0 h).1), (t.0 h).2),
                  λ (q, r). elim q [ inl (x, y) ↦ absurd (p x) | inr (x, y, z) ↦ t.1 (y, z, r) ],
                ))
      ]

  module _ (L : IsLawful db) (row : Option SyncRecord) (rec : SyncRecord) (occ : Option SyncRecord)
      (s : db.State) (consistent : db.IsConsistent s) where
    -- On a consistent lawful database `compareAndPut` returns a result, whatever it is given: it
    -- never meets the unique index of the paths, it leaves a consistent database, and it says true
    -- exactly where the captured row, the row of the terminal's identity and the occupant of its
    -- path are stored as captured.
    pub compare_and_put-total :
        (b : Bool) × (t : db.State) × (compare_and_put db row rec occ s ≡ some (b, t))
        × db.IsConsistent t
        × ((b ≡ true) ↔ Expected db row rec occ s)
    unfolding compare_and_put
    compare_and_put-total = elim (Bool-cases (expectations_hold db row rec occ s)) [
      | inl h ↦
          let (t, done) =
            publish_record-total db L row rec occ s consistent
              ((expectations_hold_iff row rec occ s).0 h).1 in
          (
            true,
            t,
            rw (h, done),
            publish_record-IsConsistent db L row rec occ s done consistent,
            (λ _. (expectations_hold_iff row rec occ s).0 h, λ _. refl),
          )
      | inr h ↦ (
        false,
        s,
        rw h,
        consistent,
        (λ p. cc, λ x. cc ((expectations_hold_iff row rec occ s).1 x)),
      )
    ]

    publish-PutEffect :
        {t : db.State}
        → publish_record db row rec occ s ≡ some t
        → PutEffect db row rec occ true s t
    publish-PutEffect done = (
      at_path-publish_record db L row rec occ s done consistent,
      get-publish_record db L row rec occ s done,
      content-publish_record db L row rec occ s done,
    )

    -- On a consistent lawful database a `compareAndPut` that says false changes nothing. One that
    -- says true stores the terminal row, removes the ended rows with their merge bases, removes the
    -- merge base of the row where its content or identity changed, and leaves every other row and
    -- merge base as it was.
    pub compare_and_put-PutEffect :
        {b : Bool} {t : db.State}
        → compare_and_put db row rec occ s ≡ some (b, t)
        → PutEffect db row rec occ b s t
    unfolding compare_and_put
    compare_and_put-PutEffect {b} {t} h = go b (expectations_hold db row rec occ s) refl h
      where
        go :
            (b ok : Bool)
            → expectations_hold db row rec occ s ≡ ok
            → compare_and_put db row rec occ s ≡ some (b, t)
            → PutEffect db row rec occ b s t
        go true true e h = publish-PutEffect (ground arith)
        go false true e h = absurd (ground arith)
        go true false e h = absurd (ground arith)
        go false false e h = ground arith

  module _ (L : IsLawful db) (path : Str) (expected : Option SyncRecord) (s : db.State)
      (consistent : db.IsConsistent s) where
    deletion_holds_iff : (deletion_holds db path expected s ≡ true) ↔ (db.at_path path s ≡ expected)
    unfolding deletion_holds
    deletion_holds_iff = (
      λ h. (==_iff _ _).0 ((and_iff _ _).0 h).1,
      λ h. (and_iff _ _).1 (go expected h, (==_iff _ _).1 h),
    )
      where
        go : (e : Option SyncRecord) → db.at_path path s ≡ e → (read_at db e s == e) ≡ true
        go none h = (==_iff {A = Option SyncRecord} none none).1 refl
        go (some r) h = (==_iff _ _).1 ((L.at_path_iff path r s consistent).0 h).0

    get-delete_row :
        (k : Str)
        → db.get k (delete_row db expected s) ≡ (elim expected [
          | none ↦ db.get k s
          | some r ↦ if k == r.remote_identity_key then none else db.get k s
        ])
    unfolding delete_row
    get-delete_row k = go expected
      where
        go :
            (e : Option SyncRecord)
            → db.get k (delete_row db e s) ≡ (elim e [
              | none ↦ db.get k s
              | some r ↦ if k == r.remote_identity_key then none else db.get k s
            ])
        go none = refl
        go (some r) = L.get-delete_content k _ _ ∙ L.get-delete k r.remote_identity_key s

    delete_row-IsConsistent : db.IsConsistent (delete_row db expected s)
    unfolding delete_row
    delete_row-IsConsistent = go expected
      where
        go : (e : Option SyncRecord) → db.IsConsistent (delete_row db e s)
        go none = consistent
        go (some r) = L.delete_content-IsConsistent _ _ (L.delete-IsConsistent _ s consistent)

    at_path-delete_row :
        db.at_path path s ≡ expected → db.at_path path (delete_row db expected s) ≡ none
    at_path-delete_row found = elim (Option-cases (db.at_path path (delete_row db expected s))) [
      | inl gone ↦ gone
      | inr (o, still) ↦
          let (row, place) = (L.at_path_iff path o _ delete_row-IsConsistent).0 still in
          let before = get-delete_row o.remote_identity_key in
          absurd (go expected found refl o row place before)
    ]
      where
        go :
            (e : Option SyncRecord)
            → db.at_path path s ≡ e
            → expected ≡ e
            → (o : SyncRecord) → db.get o.remote_identity_key (delete_row db expected s) ≡ some o
            → o.path ≡ path
            → db.get o.remote_identity_key (delete_row db expected s) ≡ (elim expected [
              | none ↦ db.get o.remote_identity_key s
              | some r ↦
                  if o.remote_identity_key == r.remote_identity_key
                  then none
                  else db.get o.remote_identity_key s
            ])
            → ⊥
        go none f q o row place before = ground (arith, (L.at_path_iff path o s consistent).1)
        go (some r) f q o row place before = ground (arith, (L.at_path_iff path o s consistent).1)

    -- On a consistent lawful database `compareAndDelete` says true exactly where the captured row,
    -- or no row, is at the path. Then the path is vacant, the captured row is gone, and every other
    -- row is as it was. After a refusal nothing has changed. The database stays consistent.
    pub compare_and_delete_effect :
        let (b, t) = compare_and_delete db path expected s in
        ((b ≡ true) ↔ (db.at_path path s ≡ expected))
        × (b ≡ true → db.at_path path t ≡ none)
        × (b ≡ true
            → (k : Str)
            → db.get k t ≡ (elim expected [
              | none ↦ db.get k s
              | some r ↦ if k == r.remote_identity_key then none else db.get k s
            ]))
        × (b ≡ false → t ≡ s)
        × db.IsConsistent t
    unfolding compare_and_delete
    compare_and_delete_effect = elim (Bool-cases (deletion_holds db path expected s)) [
      | inl h ↦
          rw (h, compare_and_delete)
            (
              (λ _. deletion_holds_iff.0 h, λ _. refl),
              λ _. at_path-delete_row (deletion_holds_iff.0 h),
              λ _. get-delete_row,
              λ p. cc,
              delete_row-IsConsistent,
            )
      | inr h ↦
          rw (h, compare_and_delete)
            ((λ p. cc, λ p. cc (deletion_holds_iff.1 p)), λ p. cc, λ p. cc, λ _. refl, consistent)
    ]

-- A compared content write keeps the rows.
pub compare_and_put_content-rows :
    (db : Database) (L : IsLawful db) (rec : SyncRecord) (c : db.Content) (k : Str) (s : db.State)
    → db.get k (compare_and_put_content db rec c s).1 ≡ db.get k s
unfolding compare_and_put_content
compare_and_put_content-rows db L rec c k s =
    ground (arith, L.get-put_content k rec.remote_identity_key c s)
