-- ===== src/Executor/Checks/Held.antt =====
-- What holds where a check of src/sync/plan-executor.ts passes.
use mathlib.Core.Path.{subst}
use obsidian_air_sync.Prelude.{
  ℕ, ◌≡◌, ◌⊎◌, ap, sym, true, false, Option, List, ◌==◌, nat_eq, bool_eq, option_eq, arith,
  Bool-cases, inl, inr, ==_iff,
}
use obsidian_air_sync.Prelude.Text.{Str, str_eq}
use obsidian_air_sync.Types.Entity.{FileEntity, SyncRecord, record_eq, SyncSide}
use obsidian_air_sync.Compare.{content_key}
use obsidian_air_sync.Files.{proof_mismatch, ok, next, guard, next-eq-ok, guard-eq-ok}
use obsidian_air_sync.Executor.Checks.{
  Machine, World, bytes_match, on_files, stat, has_bytes, check_record,
}

module _ (m : Machine) where
  -- From the first world to the second: the checksum of the entity names the bytes, or they were read at
  -- the path.
  abbrev pub HasBytes : SyncSide → Str → List ℕ → FileEntity → World m → World m → Type 0
  HasBytes side path bytes e w t =
      (bytes_match m.registry bytes e (content_key e) ≡ true) × (w ≡ t)
      ⊎ on_files m (m.fs.read side path) w ≡ (ok bytes, t)

  pub has_bytes-HasBytes :
      (side : SyncSide) (path : Str) (bytes : List ℕ) (e : FileEntity) (w t : World m)
      → has_bytes m side path bytes e w ≡ (ok tt, t)
      → HasBytes side path bytes e w t
  unfolding has_bytes
  has_bytes-HasBytes side path bytes e w t h =
      elim (Bool-cases (bytes_match m.registry bytes e (content_key e))) [
        | inl p ↦ inl (p, matched_branch p h)
        | inr p ↦
            let a = next-eq-ok (on_files m (m.fs.read side path) w) _ (read_branch p h) in
            let same = guard-eq-ok (bytes == a.0) proof_mismatch a.1 t a.3 in
            inr (
              subst (λ x. on_files m (m.fs.read side path) w ≡ (ok bytes, x)) same.1
                (subst (λ b. on_files m (m.fs.read side path) w ≡ (ok b, a.1))
                  (sym ((==_iff bytes a.0).0 same.0)) a.2))
      ]
    where
      matched_branch :
          bytes_match m.registry bytes e (content_key e) ≡ true
          → has_bytes m side path bytes e w ≡ (ok tt, t)
          → w ≡ t
      matched_branch p h = ground (arith, p, h)

      read_branch :
          bytes_match m.registry bytes e (content_key e) ≡ false
          → has_bytes m side path bytes e w ≡ (ok tt, t)
          → next
              (on_files m (m.fs.read side path) w)
              (λ found u. guard (bytes == found) proof_mismatch u)
            ≡ (ok tt, t)
      read_branch p h = ground (arith, p, h)

  stat_store :
      (side : SyncSide) (path : Str) (w t : World m) (e : Option FileEntity)
      → stat m side path w ≡ (ok e, t)
      → t.1 ≡ w.1
  stat_store side path w t e h = ap (λ x. x.1.1) (sym h)

  check_record_sound :
      (path : Str) (expected : Option SyncRecord) (w t : World m)
      → check_record m path expected w ≡ (ok tt, t)
      → (m.db.at_path path w.1 ≡ expected) × (t.1 ≡ w.1)
  unfolding check_record
  check_record_sound path expected w t h =
      let g = guard-eq-ok (m.db.at_path path w.1 == expected) proof_mismatch w t h in
      ((==_iff (m.db.at_path path w.1) expected).0 g.0, ap (λ x. x.1) (sym g.1))
