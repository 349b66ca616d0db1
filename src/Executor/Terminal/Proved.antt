-- ===== src/Executor/Terminal/Proved.antt =====
-- What a terminal proof of src/sync/plan-executor.ts says of the two sides.
use mathlib.Core.Path.{subst}
use obsidian_air_sync.Prelude.{
  ℕ, ◌≡◌, refl, ap, ◌⊎◌, sym, ◌∙◌, Bool, true, false, not, ◌||◌, Option, none, some, List, ◌==◌,
  nat_eq, bool_eq, option_eq, if◌then◌else◌, arith, inl, inr, ==_iff,
}
use obsidian_air_sync.Prelude.Text.{Str, str_eq}
use obsidian_air_sync.Types.Entity.{FileEntity, SyncSide, local, remote}
use obsidian_air_sync.Types.Action.{SyncAction, CompletedAction, TerminalActionProof, is_removal}
use obsidian_air_sync.Compare.{same_synchronized_content}
use obsidian_air_sync.Files.{
  proof_mismatch, Result, ok, next, ◌>>=◌, pure, fail, guard, next-eq-ok, guard-eq-ok,
}
use obsidian_air_sync.Resolver.Snapshot.Captured.{ok_injective, ok_state}
use obsidian_air_sync.Executor.Checks.{
  Machine, World, is_named, is_exact_path, address_of, folder_children, on_files, stat, has_bytes,
}
use obsidian_air_sync.Executor.Checks.Held.{HasBytes, has_bytes-HasBytes}
use obsidian_air_sync.Executor.Effects.{Entities}
use obsidian_air_sync.Executor.Terminal.{
  terminal_local_path, expected_identity, exact_or_stat, exact, both_have, is_push, same_by_reading,
  same_bytes, prove_content, prove_folder_descendants, prove_endpoints, prove_admitted_terminal,
}

module _ (m : Machine) where
  -- The entity is the one that was known to be exact at the path, or was looked up there.
  abbrev pub IsFound : SyncSide → Str → Option FileEntity → FileEntity → World m → World m → Type 0
  IsFound side path known e w t =
      (is_exact_path known path ≡ true) × (known ≡ some e) × (w ≡ t)
      ⊎ stat m side path w ≡ (ok (some e), t)

  -- The intended bytes: on the remote side, and, unless it is a push, on the local one before.
  abbrev pub BothHave : Bool → FileEntity → FileEntity → List ℕ → World m → World m → Type 0
  BothHave true mine theirs bytes w t = HasBytes m remote theirs.path bytes theirs w t
  BothHave false mine theirs bytes w t =
      (u : World m) × HasBytes m local mine.path bytes mine w u
      × HasBytes m remote theirs.path bytes theirs u t

  -- Where none were intended, the two files are the same by what is known of them, or by reading.
  abbrev pub HasContent :
      SyncAction → FileEntity → FileEntity → Option (List ℕ) → World m → World m → Type 0
  HasContent a mine theirs (some bytes) w t = BothHave (is_push m a) mine theirs bytes w t
  HasContent a mine theirs none w t =
      (same_synchronized_content mine theirs a.baseline ≡ true) × (w ≡ t)
      ⊎ ((bytes : List ℕ) × (u : World m) × (on_files m (m.fs.read local (terminal_local_path a)) w
            ≡ (ok bytes, u))
          × HasBytes m remote (address_of remote a) bytes theirs u t)

  -- The calls from the first world to the last one: both entities were found, exact at their addresses, the
  -- remote one the expected object, the children of a folder held, and two files have one size, and the
  -- content that the action meant to write.
  abbrev pub IsProved :
      SyncAction
      → Entities
      → List CompletedAction
      → World m
      → World m
      → TerminalActionProof
      → Type 0
  IsProved a entities completed w t proof =
      (proof.action ≡ a.ref)
      × (proof.intended_content ≡ entities.intended_content)
      × (is_exact_path (some proof.local_entity) (terminal_local_path a) ≡ true)
      × (is_exact_path (some proof.remote_entity) (address_of remote a) ≡ true)
      × (is_named (expected_identity a) ≡ true
          → proof.remote_entity.identity_key ≡ expected_identity a)
      × (proof.local_entity.is_directory ≡ proof.remote_entity.is_directory)
      × ((u : World m) × (v : World m) × (x : World m) × IsFound local (terminal_local_path a)
            entities.local_entity proof.local_entity w u
          × IsFound remote (address_of remote a) entities.remote_entity proof.remote_entity u v
          × (prove_folder_descendants m a (folder_children a) completed v ≡ (ok tt, x))
          × (proof.local_entity.is_directory ≡ false
              → (proof.local_entity.size ≡ proof.remote_entity.size)
                × HasContent a proof.local_entity proof.remote_entity entities.intended_content x
                    t))

  exact-eq-ok :
      (path : Str) (found : Option FileEntity) (w t : World m) (e : FileEntity)
      → exact m path found w ≡ (ok e, t)
      → (found ≡ some e) × (w ≡ t) × (is_exact_path (some e) path ≡ true)
  unfolding exact
  exact-eq-ok path none w t e h = absurd (cc)
  exact-eq-ok path (some f) w t e h = under (is_exact_path (some f) path) refl h
    where
      under :
          (b : Bool)
          → is_exact_path (some f) path ≡ b
          → ◌≡◌ {A = Result FileEntity × World m}
              ((if b then pure f else fail proof_mismatch) w)
              (ok e, t)
          → (some f ≡ some e) × (w ≡ t) × (is_exact_path (some e) path ≡ true)
      under true p k =
          let same = ok_injective f e w t k in
          (ap some same, ok_state f e w t k, subst (λ x. is_exact_path (some x) path ≡ true) same p)
      under false p k = absurd (cc)

  -- The entity that was found, and the worlds around its lookup.
  exact_or_stat-IsFound :
      (side : SyncSide) (path : Str) (known found : Option FileEntity) (e : FileEntity)
      (w t : World m)
      → exact_or_stat m side path known w ≡ (ok found, t)
      → found ≡ some e
      → IsFound side path known e w t
  unfolding exact_or_stat
  exact_or_stat-IsFound side path known found e w t h q =
      under (is_exact_path known path) refl
        (subst (λ o. exact_or_stat m side path known w ≡ (ok o, t)) q h)
    where
      under :
          (b : Bool)
          → is_exact_path known path ≡ b
          → (if b then pure known else stat m side path) w ≡ (ok (some e), t)
          → IsFound side path known e w t
      under true p k = inl (p, ok_injective known (some e) w t k, ok_state known (some e) w t k)
      under false p k = inr k

  both_have-BothHave :
      (one_sided : Bool) (mine theirs : FileEntity) (bytes : List ℕ) (w t : World m)
      → both_have m one_sided mine theirs bytes w ≡ (ok tt, t)
      → BothHave one_sided mine theirs bytes w t
  unfolding both_have
  both_have-BothHave true mine theirs bytes w t h =
      has_bytes-HasBytes m remote theirs.path bytes theirs w t h
  both_have-BothHave false mine theirs bytes w t h =
      let a = next-eq-ok (has_bytes m local mine.path bytes mine w) _ h in
      (
        a.1,
        has_bytes-HasBytes m local mine.path bytes mine w a.1 a.2,
        has_bytes-HasBytes m remote theirs.path bytes theirs a.1 t a.3,
      )

  same_bytes-HasContent :
      (a : SyncAction) (mine theirs : FileEntity) (intended : Option (List ℕ)) (w t : World m)
      → same_bytes m a mine theirs intended w ≡ (ok tt, t)
      → HasContent a mine theirs intended w t
  unfolding same_bytes same_by_reading
  same_bytes-HasContent a mine theirs (some bytes) w t h =
      both_have-BothHave (is_push m a) mine theirs bytes w t h
  same_bytes-HasContent a mine theirs none w t h =
      under (same_synchronized_content mine theirs a.baseline) refl h
    where
      under :
          (b : Bool)
          → same_synchronized_content mine theirs a.baseline ≡ b
          → (if b then pure tt else (do
            bytes ← on_files m (m.fs.read local (terminal_local_path a))
            has_bytes m remote (address_of remote a) bytes theirs))
              w
            ≡ (ok tt, t)
          → HasContent a mine theirs none w t
      under true p k = inl (p, ok_state tt tt w t k)
      under false p k =
          let r = next-eq-ok (on_files m (m.fs.read local (terminal_local_path a)) w) _ k in
          inr
            (r.0, r.1, r.2, has_bytes-HasBytes m remote (address_of remote a) r.0 theirs r.1 t r.3)

  prove_content-HasContent :
      (a : SyncAction) (mine theirs : FileEntity) (intended : Option (List ℕ)) (w t : World m)
      → prove_content m a mine theirs intended w ≡ (ok tt, t)
      → mine.is_directory ≡ false
      → (mine.size ≡ theirs.size) × HasContent a mine theirs intended w t
  unfolding prove_content
  prove_content-HasContent a mine theirs intended w t h d =
      let g = next-eq-ok (guard (mine.size == theirs.size) proof_mismatch w) _ (files d h) in
      let sizes = guard-eq-ok (mine.size == theirs.size) proof_mismatch w g.1 g.2 in
      (
        (==_iff mine.size theirs.size).0 sizes.0,
        subst (λ x. HasContent a mine theirs intended x t) (sym sizes.1)
            (same_bytes-HasContent a mine theirs intended g.1 t g.3),
      )
    where
      files :
          mine.is_directory ≡ false
          → prove_content m a mine theirs intended w ≡ (ok tt, t)
          → next
              (guard (mine.size == theirs.size) proof_mismatch w)
              (λ _ u. same_bytes m a mine theirs intended u)
            ≡ (ok tt, t)
      files d h = ground (arith, d, h)

  prove_endpoints-IsProved :
      (a : SyncAction) (entities : Entities) (completed : List CompletedAction) (w t : World m)
      (proof : TerminalActionProof)
      → prove_endpoints m a entities completed w ≡ (ok proof, t)
      → IsProved a entities completed w t proof
  unfolding prove_endpoints
  prove_endpoints-IsProved a entities completed w t proof h =
      let b =
        next-eq-ok (exact_or_stat m local (terminal_local_path a) entities.local_entity w) _ h in
      let c =
        next-eq-ok (exact_or_stat m remote (address_of remote a) entities.remote_entity b.1) _
          b.3 in
      let d = next-eq-ok (exact m (terminal_local_path a) b.0 c.1) _ c.3 in
      let e = next-eq-ok (exact m (address_of remote a) c.0 d.1) _ d.3 in
      let test = not (is_named (expected_identity a)) || e.0.identity_key == expected_identity a in
      let f = next-eq-ok (guard test proof_mismatch e.1) _ e.3 in
      let g = next-eq-ok (guard (d.0.is_directory == e.0.is_directory) proof_mismatch f.1) _ f.3 in
      let i = next-eq-ok (prove_folder_descendants m a (folder_children a) completed g.1) _ g.3 in
      let j = next-eq-ok (prove_content m a d.0 e.0 entities.intended_content i.1) _ i.3 in
      let mine = exact-eq-ok (terminal_local_path a) b.0 c.1 d.1 d.0 d.2 in
      let theirs = exact-eq-ok (address_of remote a) c.0 d.1 e.1 e.0 e.2 in
      let identity = guard-eq-ok test proof_mismatch e.1 f.1 f.2 in
      let kind = guard-eq-ok (d.0.is_directory == e.0.is_directory) proof_mismatch f.1 g.1 g.2 in
      subst (λ x. IsProved a entities completed w x proof) (ok_state _ proof j.1 t j.3)
        (subst (IsProved a entities completed w j.1) (ok_injective _ proof j.1 t j.3) (
          refl,
          refl,
          mine.2,
          theirs.2,
          identified a e.0 identity.0,
          (==_iff d.0.is_directory e.0.is_directory).0 kind.0,
          (
            b.1,
            g.1,
            i.1,
            exact_or_stat-IsFound local (terminal_local_path a) entities.local_entity b.0 d.0 w b.1
                b.2 mine.0,
            subst (IsFound remote (address_of remote a) entities.remote_entity e.0 b.1)
                (joined mine.1 theirs.1 identity.1 kind.1)
                (exact_or_stat-IsFound remote (address_of remote a) entities.remote_entity c.0 e.0
                  b.1 c.1 c.2 theirs.0),
            i.2,
            prove_content-HasContent a d.0 e.0 entities.intended_content i.1 j.1 j.2,
          ),
        ))
    where
      joined : {p q r s u : World m} → p ≡ q → q ≡ r → r ≡ s → s ≡ u → p ≡ u
      joined f g h k = f ∙ g ∙ h ∙ k

      identified :
          (a : SyncAction) (theirs : FileEntity)
          → not (is_named (expected_identity a)) || theirs.identity_key == expected_identity a
            ≡ true
          → is_named (expected_identity a) ≡ true
          → theirs.identity_key ≡ expected_identity a
      identified a theirs h k = ground (arith, h, k)

  -- A terminal proof holds of the two sides; only a removal has none.
  pub prove_admitted_terminal-IsProved :
      (a : SyncAction) (entities : Entities) (completed : List CompletedAction) (w t : World m)
      (proof : Option TerminalActionProof)
      → prove_admitted_terminal m a entities completed w ≡ (ok proof, t)
      → is_removal a ≡ false
      → (p : TerminalActionProof) × (proof ≡ some p) × IsProved a entities completed w t p
  unfolding prove_admitted_terminal
  prove_admitted_terminal-IsProved a entities completed w t proof h k =
      let b = next-eq-ok (prove_endpoints m a entities completed w) _ (kept k h) in
      (
        b.0,
        sym (ok_injective (some b.0) proof b.1 t b.3),
        subst (λ x. IsProved a entities completed w x b.0) (ok_state (some b.0) proof b.1 t b.3)
            (prove_endpoints-IsProved a entities completed w b.1 b.0 b.2),
      )
    where
      kept :
          is_removal a ≡ false
          → prove_admitted_terminal m a entities completed w ≡ (ok proof, t)
          → next (prove_endpoints m a entities completed w) (λ p u. (ok (some p), u))
            ≡ (ok proof, t)
      kept k h =
          subst
            (λ c.
              (if c
                  then pure none
                  else (do p ← prove_endpoints m a entities completed; pure (some p)))
                w
              ≡ (ok proof, t))
            k h
