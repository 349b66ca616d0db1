-- ===== src/Compare/Verdicts.antt =====
-- The meaning of the verdicts of src/sync/change-compare.ts and src/sync/decision-engine.ts.
use obsidian_air_sync.Prelude.{
  ◌<◌, ◌≡◌, refl, ◌≢◌, ◌↔◌, ◌⊎◌, inl, inr, true, false, Option, none, some, [], arith, nat_eq,
}
use obsidian_air_sync.Prelude.Text.{str_eq}
use obsidian_air_sync.Types.Entity.{RemoteChecksum, FileEntity, SyncRecord, MixedEntity}
use obsidian_air_sync.Types.Action.{SyncActionType, delete_local, delete_remote}
use obsidian_air_sync.Compare.{
  content_key, checksums_equal, both_equal, same_content, has_changed, has_remote_changed,
  compare_content, changed_by_metadata,
}

checksums_equal_iff : (a b : RemoteChecksum) → (checksums_equal a b ≡ true) ↔ (a ≡ b)
unfolding checksums_equal
checksums_equal_iff a b = ground arith

both_equal_iff :
    (ka kb : Option RemoteChecksum)
    → (both_equal ka kb ≡ true) ↔ ((k : RemoteChecksum) × (ka ≡ some k) × (kb ≡ some k))
both_equal_iff none kb = (λ h. cc, λ e. cc e.1)
both_equal_iff (some a) none = (λ h. cc, λ e. cc e.2)
both_equal_iff (some a) (some b) = (
  λ h. (a, refl, ground (arith, checksums_equal_iff a b)),
  λ (k, p, q). (checksums_equal_iff a b).1 (cc),
)

-- Two files count as having the same content exactly where both have a content key and the keys
-- agree in algorithm and value.
pub same_content_iff :
    (a b : FileEntity)
    → (same_content a b ≡ true)
      ↔ ((k : RemoteChecksum) × (content_key a ≡ some k) × (content_key b ≡ some k))
unfolding same_content
same_content_iff a b = both_equal_iff (content_key a) (content_key b)

-- The fingerprint of a local file is that of the baseline: by hash where both have one, otherwise by
-- a known time and the size.
abbrev pub LocalIntact : FileEntity → SyncRecord → Type 0
LocalIntact f r =
    ((f.hash ≢ []) × (r.hash ≢ []) × (f.hash ≡ r.hash))
    ⊎ ((((f.hash ≡ []) ⊎ (r.hash ≡ []))
        × (0 < f.mtime)
        × (f.mtime ≡ r.local_mtime)
        × (f.size ≡ r.local_size)))

-- A local file counts as unchanged exactly where its hash is that of the record, if both have one,
-- and otherwise where its time is known and its time and size are those of the record.
pub has_changed_iff :
    (f : FileEntity) (r : SyncRecord) → (has_changed f r ≡ false) ↔ LocalIntact f r
unfolding has_changed
has_changed_iff f r = ground arith

-- The checksum of a remote file is that of the baseline, or the two are not comparable and time and
-- size agree, or no time is known and the hashes agree. A hash that both have must agree too where
-- no checksum is comparable.
abbrev pub Comparable : FileEntity → SyncRecord → Type 0
Comparable f r =
    (a : RemoteChecksum) × (b : RemoteChecksum) × (f.remote_checksum ≡ some a)
    × (r.remote_checksum ≡ some b)
    × (a.algo ≡ b.algo)

abbrev pub MetadataIntact : FileEntity → SyncRecord → Type 0
MetadataIntact f r =
    ((f.hash ≢ []) × (f.hash ≡ r.hash))
    ⊎ ((0 < f.mtime)
        × (f.mtime ≡ r.remote_mtime)
        × (f.size ≡ r.remote_size)
        × ((f.hash ≡ []) ⊎ (r.hash ≡ []) ⊎ (f.hash ≡ r.hash)))

abbrev pub RemoteIntact : FileEntity → SyncRecord → Type 0
RemoteIntact f r =
    ((c : RemoteChecksum) × (f.remote_checksum ≡ some c) × (r.remote_checksum ≡ some c))
    ⊎ (¬ Comparable f r × MetadataIntact f r)

changed_by_metadata-MetadataIntact :
    (f : FileEntity) (r : SyncRecord) → changed_by_metadata f r ≡ false → MetadataIntact f r
unfolding changed_by_metadata
changed_by_metadata-MetadataIntact f r h = ground arith

-- A remote file that counts as unchanged has the checksum of the record; or no checksum of both is
-- of one algorithm, and its hash is that of the record, or its time is known and its time and size
-- are those of the record, with no other hash on both sides.
pub has_remote_changed-RemoteIntact :
    (f : FileEntity) (r : SyncRecord) → has_remote_changed f r ≡ false → RemoteIntact f r
unfolding has_remote_changed
has_remote_changed-RemoteIntact f r h = go f.remote_checksum r.remote_checksum refl refl
  where
    by_metadata : ¬ Comparable f r → changed_by_metadata f r ≡ false → RemoteIntact f r
    by_metadata n m = inr (n, changed_by_metadata-MetadataIntact f r m)

    go :
        (fc rc : Option RemoteChecksum)
        → f.remote_checksum ≡ fc
        → r.remote_checksum ≡ rc
        → RemoteIntact f r
    go none rc p q = by_metadata (λ (a, b, x, y, z). cc) (ground arith)
    go (some a) none p q = by_metadata (λ (a, b, x, y, z). cc) (ground arith)
    go (some a) (some b) p q = elim (str_eq.dec a.algo b.algo) [
      | yes same ↦ inl (a, p, ground arith)
      | no differ ↦ by_metadata (λ (a', b', x, y, z). differ (ground arith)) (ground arith)
    ]

-- There is a baseline, one side is gone and the other one has the fingerprint of the baseline.
abbrev pub DeletionIsSafe : MixedEntity → SyncActionType → Type 0
DeletionIsSafe e delete_local =
    (l : FileEntity) × (p : SyncRecord) × (e.local ≡ some l)
    × (e.remote ≡ none)
    × (e.prev_sync ≡ some p)
    × LocalIntact l p
DeletionIsSafe e delete_remote =
    (r : FileEntity) × (p : SyncRecord) × (e.remote ≡ some r)
    × (e.local ≡ none)
    × (e.prev_sync ≡ some p)
    × RemoteIntact r p
DeletionIsSafe e _ = Unit

-- Where the decision for a path is to delete one side, there is a baseline, the other side is gone,
-- and the side to delete still has the fingerprint of the baseline; so an edit never loses against
-- a deletion, and without a baseline nothing is deleted.
pub compare_content-DeletionIsSafe :
    (e : MixedEntity) (a : SyncActionType) → compare_content e ≡ some a → DeletionIsSafe e a
unfolding compare_content
compare_content-DeletionIsSafe e delete_local h = go e.local e.remote e.prev_sync h
  where
    go :
        (l r : Option FileEntity) (p : Option SyncRecord)
        → compare_content (record e { local = l; remote = r; prev_sync = p }) ≡ some delete_local
        → DeletionIsSafe (record e { local = l; remote = r; prev_sync = p }) delete_local
    go (some l) none (some p) h = (l, p, refl, refl, refl, (has_changed_iff l p).0 (ground arith))
    go (some l) (some r) (some p) h = absurd (ground arith)
    go none r (some p) h = absurd (ground arith)
    go l r none h = absurd (ground arith)
compare_content-DeletionIsSafe e delete_remote h = go e.local e.remote e.prev_sync h
  where
    go :
        (l r : Option FileEntity) (p : Option SyncRecord)
        → compare_content (record e { local = l; remote = r; prev_sync = p }) ≡ some delete_remote
        → DeletionIsSafe (record e { local = l; remote = r; prev_sync = p }) delete_remote
    go none (some r) (some p) h =
        (r, p, refl, refl, refl, has_remote_changed-RemoteIntact r p (ground arith))
    go (some l) (some r) (some p) h = absurd (ground arith)
    go (some l) none (some p) h = absurd (ground arith)
    go none none (some p) h = absurd (ground arith)
    go l r none h = absurd (ground arith)
compare_content-DeletionIsSafe e _ h = tt
