-- ===== src/Resolver/Snapshot/Captured.antt =====
-- What a capture of src/sync/content-snapshot.ts proves about the bytes that it returns.
use mathlib.Core.Path.{subst}
use obsidian_air_sync.Prelude.{
  ℕ, ◌<◌, ◌≡◌, refl, ap, sym, ◌∙◌, true, false, Option, none, some, List, length, ◌==◌, nat_eq,
  option_eq, arith, Bool-cases, inl, inr, ==_iff,
}
use obsidian_air_sync.Prelude.Text.{Str, str_eq}
use obsidian_air_sync.Types.Entity.{FileEntity, RemoteChecksum, SyncSide}
use obsidian_air_sync.Compare.{content_key, checksums_equal}
use obsidian_air_sync.Files.{
  proof_mismatch, Result, ok, failed, guard, FileSystems, ChecksumRegistry, next-eq-ok, guard-eq-ok,
}
use obsidian_air_sync.Resolver.Snapshot.{
  StableVersionWitness, content_version, mtime_version, exact_bytes, ExactSnapshot,
  assert_same_identity, stable_content_key, common_key, is_admitted, has_stable_mtime, caught,
  read_again, by_version, capture_inner, capture_content_snapshot,
}

-- The object that was observed, at the path and with its size.
abbrev pub IsSameObject : Str → FileEntity → FileEntity → Type 0
IsSameObject path previous current =
    (current.path ≡ path)
    × (current.identity_key ≡ previous.identity_key)
    × (current.size ≡ previous.size)

-- The key of the last entity, which the other two have as well.
abbrev pub IsCommonKey : FileEntity → FileEntity → FileEntity → RemoteChecksum → Type 0
IsCommonKey observed before after key =
    (o : RemoteChecksum) × (b : RemoteChecksum) × (content_key observed ≡ some o)
    × (content_key before ≡ some b)
    × (content_key after ≡ some key)
    × (checksums_equal o b ≡ true)
    × (checksums_equal b key ≡ true)

module _ {ℓ} (fs : FileSystems {ℓ}) (registry : ChecksumRegistry) (side : SyncSide) (path : Str)
    (observed : FileEntity) where
  -- What the witness says of the two lookups and the bytes between them, from the state after them: the
  -- bytes have the key of all three entities; or these have one known time; or the bytes were read again.
  abbrev pub IsVersion :
      FileEntity
      → FileEntity
      → fs.State
      → fs.State
      → FileEntity
      → List ℕ
      → StableVersionWitness
      → Type ℓ
  IsVersion before after w t entity content (content_version key) =
      (entity ≡ after)
      × (w ≡ t)
      × IsCommonKey observed before after key
      × (registry.has key.algo ≡ true → registry.compute content key.algo ≡ key.value)
  IsVersion before after w t entity content (mtime_version time size) =
      (entity ≡ after)
      × (w ≡ t)
      × (0 < time)
      × (observed.mtime ≡ time)
      × (before.mtime ≡ time)
      × (after.mtime ≡ time)
      × (after.size ≡ size)
  IsVersion before after w t entity content (exact_bytes size) =
      (length content ≡ size)
      × ((x : fs.State) × (fs.read side path w ≡ (ok content, x))
          × (fs.stat side path x ≡ (ok (some entity), t))
          × IsSameObject path after entity)

  -- The calls from the first state to the last one: the file was looked up, read and looked up again, each
  -- time the observed object with as many bytes as it has, and the witness of the version holds.
  abbrev pub IsCaptured : fs.State → fs.State → ExactSnapshot → Type ℓ
  IsCaptured s t snap =
      (before : FileEntity) × (after : FileEntity) × (u : fs.State) × (v : fs.State)
      × (w : fs.State) × (fs.stat side path s ≡ (ok (some before), u))
      × (fs.read side path u ≡ (ok snap.content, v))
      × (fs.stat side path v ≡ (ok (some after), w))
      × IsSameObject path observed before
      × IsSameObject path before after
      × (snap.path ≡ path)
      × (length snap.content ≡ observed.size)
      × IsVersion before after w t snap.entity snap.content snap.witness

assert_same_identity-eq-ok {ℓ} :
    {S : Type ℓ} (found : Option FileEntity) (previous : FileEntity) (path : Str) (s t : S)
    (current : FileEntity)
    → assert_same_identity found previous path s ≡ (ok current, t)
    → (found ≡ some current) × (s ≡ t) × IsSameObject path previous current
unfolding assert_same_identity
assert_same_identity-eq-ok none previous path s t current h = absurd (cc)
assert_same_identity-eq-ok (some found) previous path s t current h = ground arith

-- A lookup whose entity was asserted.
found_again {ℓ} :
    {S : Type ℓ} (r : Result (Option FileEntity) × S) (found : Option FileEntity)
    (previous : FileEntity) (path : Str) (s t : S) (current : FileEntity)
    → r ≡ (ok found, s)
    → assert_same_identity found previous path s ≡ (ok current, t)
    → (r ≡ (ok (some current), t)) × IsSameObject path previous current
found_again r found previous path s t current h k =
    let (e, q, same) = assert_same_identity-eq-ok found previous path s t current k in
    (subst (λ z. r ≡ (ok z, t)) e (subst (λ z. r ≡ (ok found, z)) q h), same)

common_key-eq-some :
    (o b a : Option RemoteChecksum) (key : RemoteChecksum)
    → common_key o b a ≡ some key
    → (x : RemoteChecksum) × (y : RemoteChecksum) × (o ≡ some x)
      × (b ≡ some y)
      × (a ≡ some key)
      × (checksums_equal x y ≡ true)
      × (checksums_equal y key ≡ true)
unfolding common_key
common_key-eq-some (some o) (some b) (some a) key h =
    (o, b, refl, refl, ground arith, ground arith, ground arith)
common_key-eq-some (some o) (some b) none key h = absurd (cc)
common_key-eq-some (some o) none a key h = absurd (cc)
common_key-eq-some none b a key h = absurd (cc)

stable_content_key-eq-ok {ℓ} :
    {S : Type ℓ} (observed before after : FileEntity) (s t : S) (found : Option RemoteChecksum)
    → stable_content_key observed before after s ≡ (ok found, t)
    → (found ≡ common_key (content_key observed) (content_key before) (content_key after)) × (s ≡ t)
unfolding stable_content_key
stable_content_key-eq-ok observed before after s t found h = ground arith

is_admitted-length :
    (registry : ChecksumRegistry) (observed : FileEntity) (key : Option RemoteChecksum)
    (bytes : List ℕ)
    → is_admitted registry observed key bytes ≡ true
    → length bytes ≡ observed.size
is_admitted-length registry observed none bytes h = ground arith
is_admitted-length registry observed (some key) bytes h = ground arith

is_admitted-digest :
    (registry : ChecksumRegistry) (observed : FileEntity) (key : RemoteChecksum) (bytes : List ℕ)
    → is_admitted registry observed (some key) bytes ≡ true
    → registry.has key.algo ≡ true
    → registry.compute bytes key.algo ≡ key.value
is_admitted-digest registry observed key bytes h k = ground arith

caught-eq-ok {ℓ} :
    {S : Type ℓ} {A : Type 0} (r : Result A × S) (a : A) (t : S)
    → caught r ≡ (ok a, t)
    → r ≡ (ok a, t)
caught-eq-ok (ok b, s) a t h = h
caught-eq-ok (failed e, s) a t h = absurd (cc)

pub ok_state {ℓ} :
    {S : Type ℓ} {A : Type 0} (a b : A) (s t : S)
    → ◌≡◌ {A = Result A × S} (ok a, s) (ok b, t)
    → s ≡ t
ok_state a b s t h = ap (λ x. x.1) h

pub ok_injective {ℓ} :
    {S : Type ℓ} {A : Type 0} (a b : A) (s t : S)
    → ◌≡◌ {A = Result A × S} (ok a, s) (ok b, t)
    → a ≡ b
ok_injective a b s t h = ground (arith, h)

-- What is left to show of a snapshot once the two lookups and the first read are known.
module _ {ℓ} (fs : FileSystems {ℓ}) (registry : ChecksumRegistry) (side : SyncSide) (path : Str)
    (observed before after : FileEntity) (first : List ℕ) where
  abbrev IsTaken : fs.State → fs.State → ExactSnapshot → Type ℓ
  IsTaken w t snap =
      (snap.path ≡ path)
      × (first ≡ snap.content)
      × IsVersion fs registry side path observed before after w t snap.entity snap.content
          snap.witness

  read_again-IsTaken :
      (w t : fs.State) (snap : ExactSnapshot)
      → read_again fs registry side path after first w ≡ (ok snap, t)
      → IsTaken w t snap
  unfolding read_again
  read_again-IsTaken w t snap h =
      let r = next-eq-ok (fs.read side path w) _ h in
      let q = next-eq-ok (fs.stat side path r.1) _ r.3 in
      let p = next-eq-ok (assert_same_identity q.0 after path q.1) _ q.3 in
      let g = next-eq-ok (guard (first == r.0) proof_mismatch p.1) _ p.3 in
      let found = found_again (fs.stat side path r.1) q.0 after path q.1 p.1 p.0 q.2 p.2 in
      let same = guard-eq-ok (first == r.0) proof_mismatch p.1 g.1 g.2 in
      subst (IsTaken w t) (ok_injective _ snap g.1 t g.3) (
        refl,
        (==_iff first r.0).0 same.0,
        (
          refl,
          (
            r.1,
            r.2,
            subst (λ x. fs.stat side path r.1 ≡ (ok (some p.0), x))
                (same.1 ∙ ok_state _ snap g.1 t g.3) found.0,
            found.1,
          ),
        ),
      )

  by_version-IsTaken :
      (key : Option RemoteChecksum) (w t : fs.State) (snap : ExactSnapshot)
      → ((k : RemoteChecksum)
          → key ≡ some k
          → IsCommonKey observed before after k
            × (registry.has k.algo ≡ true → registry.compute first k.algo ≡ k.value))
      → by_version fs registry side path observed before after first key w ≡ (ok snap, t)
      → IsTaken w t snap
  unfolding by_version
  by_version-IsTaken (some key) w t snap k h =
      let (common, digest) = k key refl in
      subst (IsTaken w t) (ok_injective _ snap w t h)
        (refl, refl, (refl, ok_state _ snap w t h, common, digest))
  by_version-IsTaken none w t snap k h =
      elim (Bool-cases (has_stable_mtime observed before after)) [
        | inl e ↦
            let q = times e in
            let g = sym (timed e) ∙ h in
            subst (IsTaken w t) (ok_injective _ snap w t g)
              (refl, refl, (refl, ok_state _ snap w t g, q.0, q.1, q.2, q.3, q.4))
        | inr e ↦ read_again-IsTaken w t snap (sym (untimed e) ∙ h)
      ]
    where
      times :
          has_stable_mtime observed before after ≡ true
          → (0 < after.mtime)
            × (observed.mtime ≡ after.mtime)
            × (before.mtime ≡ after.mtime)
            × (after.mtime ≡ after.mtime)
            × (after.size ≡ after.size)
      times e = ground (arith, e)

      timed :
          has_stable_mtime observed before after ≡ true
          → by_version fs registry side path observed before after first none w ≡ (
            ok (record {
              path = path;
              entity = after;
              content = first;
              witness = mtime_version after.mtime after.size;
            }),
            w,
          )
      timed e = ground (arith, e)

      untimed :
          has_stable_mtime observed before after ≡ false
          → by_version fs registry side path observed before after first none w
            ≡ read_again fs registry side path after first w
      untimed e = ground (arith, e)

module _ {ℓ} (fs : FileSystems {ℓ}) (registry : ChecksumRegistry) (side : SyncSide) (path : Str)
    (observed : FileEntity) where
  taken-IsCaptured :
      (before after : FileEntity) (s u v w x y t : fs.State) (key : Option RemoteChecksum)
      (first : List ℕ) (snap : ExactSnapshot)
      → (fs.stat side path s ≡ (ok (some before), u)) × IsSameObject path observed before
      → fs.read side path u ≡ (ok first, v)
      → (fs.stat side path v ≡ (ok (some after), w)) × IsSameObject path before after
      → stable_content_key observed before after w ≡ (ok key, x)
      → guard (is_admitted registry observed key first) proof_mismatch x ≡ (ok tt, y)
      → by_version fs registry side path observed before after first key y ≡ (ok snap, t)
      → IsCaptured fs registry side path observed s t snap
  taken-IsCaptured before after s u v w x y t key first snap a b c k g h =
      let common = stable_content_key-eq-ok observed before after w x key k in
      let admitted = guard-eq-ok (is_admitted registry observed key first) proof_mismatch x y g in
      let taken =
        by_version-IsTaken fs registry side path observed before after first key y t snap
          (λ found p. (
            common_key-eq-some (content_key observed) (content_key before) (content_key after) found
                (sym common.0 ∙ p),
            is_admitted-digest registry observed found first
                (subst (λ o. is_admitted registry observed o first ≡ true) p admitted.0),
          ))
          h in
      (
        before,
        after,
        u,
        v,
        y,
        a.0,
        subst (λ z. fs.read side path u ≡ (ok z, v)) taken.1 b,
        subst (λ z. fs.stat side path v ≡ (ok (some after), z)) (common.1 ∙ admitted.1) c.0,
        a.1,
        c.1,
        taken.0,
        subst (λ z. length z ≡ observed.size) taken.1
            (is_admitted-length registry observed key first admitted.0),
        taken.2,
      )

  -- A snapshot that is taken without an error is of the admitted object, with its version.
  pub capture_content_snapshot-IsCaptured :
      (s t : fs.State) (snap : ExactSnapshot)
      → capture_content_snapshot fs registry side path observed s ≡ (ok snap, t)
      → IsCaptured fs registry side path observed s t snap
  unfolding capture_content_snapshot capture_inner
  capture_content_snapshot-IsCaptured s t snap h =
      let a = next-eq-ok (fs.stat side path s) _ (caught-eq-ok _ snap t h) in
      let b = next-eq-ok (assert_same_identity a.0 observed path a.1) _ a.3 in
      let c = next-eq-ok (fs.read side path b.1) _ b.3 in
      let d = next-eq-ok (fs.stat side path c.1) _ c.3 in
      let e = next-eq-ok (assert_same_identity d.0 b.0 path d.1) _ d.3 in
      let k = next-eq-ok (stable_content_key observed b.0 e.0 e.1) _ e.3 in
      let g = next-eq-ok (guard (is_admitted registry observed k.0 c.0) proof_mismatch k.1) _ k.3 in
      taken-IsCaptured b.0 e.0 s b.1 c.1 e.1 k.1 g.1 t k.0 c.0 snap
        (found_again (fs.stat side path s) a.0 observed path a.1 b.1 b.0 a.2 b.2) c.2
        (found_again (fs.stat side path c.1) d.0 b.0 path d.1 e.1 e.0 d.2 e.2) k.2 g.2 g.3
