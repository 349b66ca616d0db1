-- ===== src/Executor/Effects/Intended.antt =====
-- The bytes that `runActionIO` and `runAdmittedRenameIO` of src/sync/plan-executor.ts mean to write.
use mathlib.Core.Path.{subst}
use obsidian_air_sync.Prelude.{
  ℕ, ◌≡◌, ap, sym, Bool, true, false, ◌&&◌, ◌||◌, Option, none, some, List, [], option_eq,
  if◌then◌else◌,
}
use obsidian_air_sync.Prelude.Text.{str_eq}
use obsidian_air_sync.Types.Entity.{FileEntity, SyncSide, local, remote}
use obsidian_air_sync.Types.Action.{
  SyncAction, SyncActionType, push, pull, delete_local, delete_remote, rename_remote, rename_local,
  conflict, match, cleanup, RenameContent, equal, copy,
}
use obsidian_air_sync.Files.{
  proof_mismatch, thrown, plain_error, Result, ok, fail, guard, next-eq-ok,
}
use obsidian_air_sync.Resolver.Snapshot.{ExactSnapshot}
use obsidian_air_sync.Resolver.Snapshot.Captured.{
  IsCaptured, capture_content_snapshot-IsCaptured, ok_injective,
}
use obsidian_air_sync.Executor.Checks.{
  Machine, World, is_given, is_exact_path, address_of, on_files, stat, unchanged_endpoint,
  check_publication_inputs,
}
use obsidian_air_sync.Executor.Effects.{
  Entities, no_entities, opposite, terminal_path, moving_side, capture, local_terminal, transfer,
  is_free_for, copied_bytes, write_copy, same_object, moved_endpoint, rename_endpoints,
  run_admitted_rename_io, delete_at, rename_io, io_of, run_action_io,
}

module _ (m : Machine) where
  -- The source was captured, its inputs were checked again, and its bytes were written to the other side.
  abbrev pub IsTransferred : SyncSide → SyncAction → Option FileEntity → Option (List ℕ) → Type 0
  IsTransferred source a none intended = ⊥
  IsTransferred source a (some expected) intended =
      (snap : ExactSnapshot) × (u : World m) × (v : World m) × (w : World m) × (x : World m)
      × IsCaptured m.fs m.registry source expected.path expected u.0 v.0 snap
      × (check_publication_inputs m a [] v ≡ (ok tt, w))
      × (on_files m
            (m.fs.write (opposite source) (address_of (opposite source) a) snap.content
              expected.mtime)
            w
          ≡ (ok tt, x))
      × (intended ≡ some snap.content)

  -- A rename means to write only where its content is a copy, and then what it captured at the source.
  abbrev pub IsCopied : Option RenameContent → Option (List ℕ) → Type 0
  IsCopied none intended = intended ≡ none
  IsCopied (some equal) intended = intended ≡ none
  IsCopied (some (copy from side path)) intended =
      (snap : ExactSnapshot) × (u : World m) × (v : World m) × IsCaptured m.fs m.registry from.side
        from.entity.path from.entity u.0 v.0 snap
      × (intended ≡ some snap.content)

  abbrev pub IsIntended : SyncActionType → SyncAction → Option (List ℕ) → Type 0
  IsIntended push a intended = IsTransferred local a a.local intended
  IsIntended pull a intended = IsTransferred remote a a.remote intended
  IsIntended rename_remote a intended = IsCopied a.content intended
  IsIntended rename_local a intended = IsCopied a.content intended
  IsIntended delete_local a intended = intended ≡ none
  IsIntended delete_remote a intended = intended ≡ none
  IsIntended conflict a intended = intended ≡ none
  IsIntended match a intended = intended ≡ none
  IsIntended cleanup a intended = intended ≡ none

  capture-IsCaptured :
      (side : SyncSide) (expected : FileEntity) (w t : World m) (snap : ExactSnapshot)
      → capture m side expected w ≡ (ok snap, t)
      → IsCaptured m.fs m.registry side expected.path expected w.0 t.0 snap
  unfolding capture
  capture-IsCaptured side expected w t snap h =
      capture_content_snapshot-IsCaptured m.fs m.registry side expected.path expected w.0 t.0 snap
        (ap (λ o. (o.0, o.1.0)) h)

  transfer-IsTransferred :
      (source : SyncSide) (a : SyncAction) (expected : Option FileEntity) (w t : World m)
      (entities : Entities)
      → transfer m source a expected w ≡ (ok entities, t)
      → IsTransferred source a expected entities.intended_content
  unfolding transfer
  transfer-IsTransferred source a none w t entities h = absurd (cc)
  transfer-IsTransferred source a (some expected) w t entities h =
      let b = next-eq-ok (capture m source expected w) _ h in
      let c = next-eq-ok (check_publication_inputs m a [] b.1) _ b.3 in
      let d =
        next-eq-ok
          (on_files m
            (m.fs.write (opposite source) (address_of (opposite source) a) b.0.content
              expected.mtime)
            c.1)
          _ c.3 in
      let e = next-eq-ok (local_terminal m source a b.0 d.1) _ d.3 in
      let f = next-eq-ok (stat m remote (terminal_path remote a) e.1) _ e.3 in
      let g = next-eq-ok (guard (is_given e.0 && is_given f.0) proof_mismatch f.1) _ f.3 in
      (
        b.0,
        w,
        b.1,
        c.1,
        d.1,
        capture-IsCaptured source expected w b.1 b.0 b.2,
        c.2,
        d.2,
        ap (λ x. x.intended_content) (sym (ok_injective _ entities g.1 t g.3)),
      )

  copied_bytes-IsCopied :
      (content : Option RenameContent) (w t : World m) (bytes : Option (List ℕ))
      → copied_bytes m content w ≡ (ok bytes, t)
      → IsCopied content bytes
  unfolding copied_bytes
  copied_bytes-IsCopied none w t bytes h = sym (ok_injective none bytes w t h)
  copied_bytes-IsCopied (some equal) w t bytes h = sym (ok_injective none bytes w t h)
  copied_bytes-IsCopied (some (copy from side path)) w t bytes h =
      let b = next-eq-ok (capture m from.side from.entity w) _ h in
      let c = next-eq-ok (unchanged_endpoint m from.side from.entity b.1) _ b.3 in
      (
        b.0,
        w,
        b.1,
        capture-IsCaptured from.side from.entity w b.1 b.0 b.2,
        sym (ok_injective (some b.0.content) bytes c.1 t c.3),
      )

  rename_endpoints-IsCopied :
      (a : SyncAction) (mine theirs : FileEntity) (w t : World m) (entities : Entities)
      → rename_endpoints m a mine theirs w ≡ (ok entities, t)
      → IsCopied a.content entities.intended_content
  unfolding rename_endpoints
  rename_endpoints-IsCopied a mine theirs w t entities h =
      let b = next-eq-ok (unchanged_endpoint m local mine w) _ h in
      let c = next-eq-ok (unchanged_endpoint m remote theirs b.1) _ b.3 in
      let d = next-eq-ok (stat m (moving_side a) a.path c.1) _ c.3 in
      let e = next-eq-ok (guard (is_free_for m a d.0) proof_mismatch d.1) _ d.3 in
      let f = next-eq-ok (copied_bytes m a.content e.1) _ e.3 in
      let g =
        next-eq-ok
          (unchanged_endpoint m (moving_side a) (moved_endpoint m (moving_side a) mine theirs) f.1)
          _ f.3 in
      let i = next-eq-ok (on_files m (m.fs.rename (moving_side a) a.old_path a.path) g.1) _ g.3 in
      let j = next-eq-ok (write_copy m a.content f.0 mine theirs i.1) _ i.3 in
      let k = next-eq-ok (stat m local a.path j.1) _ j.3 in
      let l = next-eq-ok (stat m remote a.path k.1) _ k.3 in
      let n =
        next-eq-ok
          (guard (is_exact_path k.0 a.path && is_exact_path l.0 a.path && same_object m theirs l.0)
            proof_mismatch l.1)
          _ l.3 in
      subst (IsCopied a.content) (ap (λ x. x.intended_content) (ok_injective _ entities n.1 t n.3))
        (copied_bytes-IsCopied a.content e.1 f.1 f.0 f.2)

  rename-IsCopied :
      (a : SyncAction) (mine theirs : Option FileEntity) (w t : World m) (entities : Entities)
      → run_admitted_rename_io m a mine theirs w ≡ (ok entities, t)
      → IsCopied a.content entities.intended_content
  unfolding run_admitted_rename_io
  rename-IsCopied a (some mine) (some theirs) w t entities h =
      rename_endpoints-IsCopied a mine theirs w t entities h
  rename-IsCopied a (some mine) none w t entities h = absurd (cc)
  rename-IsCopied a none theirs w t entities h = absurd (cc)

  rename_io-IsCopied :
      (a : SyncAction) (w t : World m) (entities : Entities)
      → rename_io m a w ≡ (ok entities, t)
      → IsCopied a.content entities.intended_content
  unfolding rename_io
  rename_io-IsCopied a w t entities h =
      under (is_given a.content || is_given a.descendant_records) h
    where
      under :
          (b : Bool)
          → (if b then run_admitted_rename_io m a a.local a.remote else fail (thrown plain_error)) w
            ≡ (ok entities, t)
          → IsCopied a.content entities.intended_content
      under true k = rename-IsCopied a a.local a.remote w t entities k
      under false k = absurd (cc)

  delete_at-none :
      (side : SyncSide) (a : SyncAction) (w t : World m) (entities : Entities)
      → delete_at m side a w ≡ (ok entities, t)
      → entities.intended_content ≡ none
  unfolding delete_at
  delete_at-none side a w t entities h =
      let b = next-eq-ok (on_files m (m.fs.delete side (address_of side a)) w) _ h in
      ap (λ x. x.intended_content) (sym (ok_injective no_entities entities b.1 t b.3))

  idle-none :
      (w t : World m) (entities : Entities)
      → ◌≡◌ {A = Result Entities × World m} (ok no_entities, w) (ok entities, t)
      → entities.intended_content ≡ none
  idle-none w t entities h =
      ap (λ x. x.intended_content) (sym (ok_injective no_entities entities w t h))

  io_of-IsIntended :
      (kind : SyncActionType) (a : SyncAction) (w t : World m) (entities : Entities)
      → io_of m kind a w ≡ (ok entities, t)
      → IsIntended kind a entities.intended_content
  unfolding io_of
  io_of-IsIntended push a w t entities h = transfer-IsTransferred local a a.local w t entities h
  io_of-IsIntended pull a w t entities h = transfer-IsTransferred remote a a.remote w t entities h
  io_of-IsIntended rename_remote a w t entities h = rename_io-IsCopied a w t entities h
  io_of-IsIntended rename_local a w t entities h = rename_io-IsCopied a w t entities h
  io_of-IsIntended delete_local a w t entities h = delete_at-none local a w t entities h
  io_of-IsIntended delete_remote a w t entities h = delete_at-none remote a w t entities h
  io_of-IsIntended conflict a w t entities h = idle-none w t entities h
  io_of-IsIntended match a w t entities h = idle-none w t entities h
  io_of-IsIntended cleanup a w t entities h = idle-none w t entities h

  pub run_action_io-IsIntended :
      (a : SyncAction) (w t : World m) (entities : Entities)
      → run_action_io m a w ≡ (ok entities, t)
      → IsIntended a.action a entities.intended_content
  unfolding run_action_io
  run_action_io-IsIntended a w t entities h = io_of-IsIntended a.action a w t entities h
