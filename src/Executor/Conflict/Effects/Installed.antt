-- ===== src/Executor/Conflict/Effects/Installed.antt =====
-- What holds after the effects of a conflict in src/sync/plan-executor.ts.
use mathlib.Core.Path.{subst}
use obsidian_air_sync.Prelude.{
  ℕ, nat_eq, ◌≡◌, refl, ap, sym, Bool, true, false, not, ◌&&◌, ◌||◌, Option, none, some, List, [],
  ◌∷◌, ◌==◌, option_eq, if◌then◌else◌, arith,
}
use obsidian_air_sync.Prelude.Text.{Str, str_eq}
use obsidian_air_sync.Types.Entity.{FileEntity, SyncSide, local, remote}
use obsidian_air_sync.Types.Action.{
  SyncAction, TerminalActionProof, VerifiedConflictOutput, is_removal,
}
use obsidian_air_sync.Files.{proof_mismatch, Result, ok, fail, guard, next-eq-ok, guard-eq-ok}
use obsidian_air_sync.Resolver.Snapshot.Captured.{ok_injective, ok_state}
use obsidian_air_sync.Resolver.Resolve.{Services, ConflictResolutionResult}
use obsidian_air_sync.Executor.Checks.{
  Machine, World, is_named, address_of, on_files, stat, has_bytes,
}
use obsidian_air_sync.Executor.Checks.Held.{HasBytes, has_bytes-HasBytes}
use obsidian_air_sync.Executor.Effects.{Entities}
use obsidian_air_sync.Executor.Terminal.{key_of, prove_admitted_terminal}
use obsidian_air_sync.Executor.Terminal.Proved.{IsProved, prove_admitted_terminal-IsProved}
use obsidian_air_sync.Executor.Conflict.{
  requires_copies, expected_copies, covers, distinct_paths, if_moved,
}
use obsidian_air_sync.Executor.Conflict.Effects.{
  rotate, move_local, stat_source, output_holds, outputs_hold, prove_conflict, prove_found,
  check_inputs, install, install_target, execute_prepared_conflict_effects,
}

module _ (m : Machine) (services : Services) where
  -- From the first world to the second, a file with the bytes of the source of the copy was looked up at
  -- the path of the copy.
  abbrev pub IsHeld : SyncSide → VerifiedConflictOutput → World m → World m → Type 0
  IsHeld side o w t =
      (e : FileEntity) × (u : World m) × (stat m side o.path w ≡ (ok (some e), u))
      × (e.is_directory ≡ false)
      × HasBytes m side o.path o.source_content e u t

  -- Each copy was found on both sides, one after the other.
  abbrev pub AreHeld : List VerifiedConflictOutput → World m → World m → Type 0
  AreHeld [] w t = w ≡ t
  AreHeld (o ∷ outputs) w t =
      (u : World m) × (v : World m) × IsHeld local o w u × IsHeld remote o u v × AreHeld outputs v t

  output_holds-HasBytes :
      (side : SyncSide) (o : VerifiedConflictOutput) (found : Option FileEntity) (w u t : World m)
      → stat m side o.path w ≡ (ok found, u)
      → output_holds m services side o found u ≡ (ok tt, t)
      → IsHeld side o w t
  unfolding output_holds
  output_holds-HasBytes side o none w u t q h = absurd (cc)
  output_holds-HasBytes side o (some e) w u t q h = of_file e.is_directory refl h
    where
      of_file :
          (b : Bool)
          → e.is_directory ≡ b
          → ◌≡◌ {A = Result Unit × World m}
              ((if b then fail proof_mismatch else has_bytes m side o.path o.source_content e) u)
              (ok tt, t)
          → IsHeld side o w t
      of_file true d h = absurd (cc)
      of_file false d h = (e, u, q, d, has_bytes-HasBytes m side o.path o.source_content e u t h)

  outputs_hold-AreHeld :
      (outputs : List VerifiedConflictOutput) (w t : World m)
      → outputs_hold m services outputs w ≡ (ok tt, t)
      → AreHeld outputs w t
  unfolding outputs_hold
  outputs_hold-AreHeld [] w t h = ok_state tt tt w t h
  outputs_hold-AreHeld (o ∷ outputs) w t h =
      let a = next-eq-ok (stat m local o.path w) _ h in
      let b = next-eq-ok (output_holds m services local o a.0 a.1) _ a.3 in
      let c = next-eq-ok (stat m remote o.path b.1) _ b.3 in
      let d = next-eq-ok (output_holds m services remote o c.0 c.1) _ c.3 in
      (
        b.1,
        d.1,
        output_holds-HasBytes local o a.0 w a.1 b.1 a.2 b.2,
        output_holds-HasBytes remote o c.0 b.1 c.1 d.1 c.2 d.2,
        outputs_hold-AreHeld outputs d.1 t d.3,
      )

  abbrev pub found_pair : TerminalActionProof → Entities
  found_pair proof = record {
    local_entity = some proof.local_entity;
    remote_entity = some proof.remote_entity;
    intended_content = proof.intended_content;
  }

  -- From the lookup of the two sides on: the remote one is the expected object, a terminal proof of the
  -- two entities was made, and then all copies were found.
  abbrev pub IsChecked :
      SyncAction
      → List ℕ
      → List VerifiedConflictOutput
      → World m
      → World m
      → TerminalActionProof
      → Type 0
  IsChecked a intended outputs w t proof =
      (proof.action ≡ a.ref)
      × (proof.intended_content ≡ some intended)
      × (proof.verified_outputs ≡ outputs)
      × (is_named (key_of a.remote_identity_source) ≡ true
          → proof.remote_entity.identity_key ≡ key_of a.remote_identity_source)
      × ((q : TerminalActionProof) × (u : World m) × IsProved m a (found_pair proof) [] w u q
          × AreHeld outputs u t)

  prove_conflict-IsChecked :
      (a : SyncAction) (intended : List ℕ) (outputs : List VerifiedConflictOutput)
      (mine theirs : FileEntity) (w t : World m) (proof : TerminalActionProof)
      → is_removal a ≡ false
      → prove_conflict m services a intended outputs mine theirs w ≡ (ok proof, t)
      → (proof.local_entity ≡ mine)
        × (proof.remote_entity ≡ theirs)
        × IsChecked a intended outputs w t proof
  unfolding prove_conflict
  prove_conflict-IsChecked a intended outputs mine theirs w t proof k h =
      let test =
        not (is_named (key_of a.remote_identity_source))
        || theirs.identity_key == key_of a.remote_identity_source in
      let entities : Entities = record {
        local_entity = some mine;
        remote_entity = some theirs;
        intended_content = some intended;
      } in
      let b = next-eq-ok (guard test proof_mismatch w) _ h in
      let c = next-eq-ok (prove_admitted_terminal m a entities [] b.1) _ b.3 in
      let d = next-eq-ok (outputs_hold m services outputs c.1) _ c.3 in
      let g = guard-eq-ok test proof_mismatch w b.1 b.2 in
      let q = prove_admitted_terminal-IsProved m a entities [] b.1 c.1 c.0 c.2 k in
      subst
        (λ x.
          (x.local_entity ≡ mine) × (x.remote_entity ≡ theirs) × IsChecked a intended outputs w t x)
        (ok_injective _ proof d.1 t d.3)
        (
          refl,
          refl,
          (
            refl,
            refl,
            refl,
            named g.0,
            (
              q.0,
              c.1,
              subst (λ x. IsProved m a entities [] x c.1 q.0) (sym g.1) q.2,
              subst (AreHeld outputs c.1) (ok_state _ proof d.1 t d.3)
                  (outputs_hold-AreHeld outputs c.1 d.1 d.2),
            ),
          ),
        )
    where
      named :
          not (is_named (key_of a.remote_identity_source))
              || theirs.identity_key == key_of a.remote_identity_source
            ≡ true
          → is_named (key_of a.remote_identity_source) ≡ true
          → theirs.identity_key ≡ key_of a.remote_identity_source
      named h k = ground (arith, h, k)

  prove_found-IsChecked :
      (a : SyncAction) (intended : List ℕ) (outputs : List VerifiedConflictOutput)
      (mine theirs source : Option FileEntity) (w t : World m) (proof : TerminalActionProof)
      → is_removal a ≡ false
      → prove_found m services a intended outputs mine theirs source w ≡ (ok proof, t)
      → (mine ≡ some proof.local_entity)
        × (theirs ≡ some proof.remote_entity)
        × (source ≡ none)
        × IsChecked a intended outputs w t proof
  unfolding prove_found
  prove_found-IsChecked a intended outputs (some mine) (some theirs) none w t proof k h =
      let (p, q, checked) = prove_conflict-IsChecked a intended outputs mine theirs w t proof k h in
      (ap some (sym p), ap some (sym q), refl, checked)
  prove_found-IsChecked a intended outputs (some mine) (some theirs) (some source) w t proof k h =
      absurd (cc)
  prove_found-IsChecked a intended outputs (some mine) none source w t proof k h = absurd (cc)
  prove_found-IsChecked a intended outputs none theirs source w t proof k h = absurd (cc)

  -- The address that the primary has left, if it moved, is free.
  abbrev pub IsGone : Option Str → World m → World m → Type 0
  IsGone none w t = w ≡ t
  IsGone (some from) w t = stat m remote from w ≡ (ok none, t)

  stat_source-IsGone :
      (from : Option Str) (found : Option FileEntity) (w t : World m)
      → stat_source m services from w ≡ (ok found, t)
      → found ≡ none
      → IsGone from w t
  unfolding stat_source
  stat_source-IsGone none found w t h e = ok_state none found w t h
  stat_source-IsGone (some from) found w t h e = subst (λ x. stat m remote from w ≡ (ok x, t)) e h

  -- The calls from the first world to the last one: the intended bytes were written to both sides; after
  -- that the two entities of the proof were looked up there, and the checks on them passed.
  abbrev pub IsInstalled :
      SyncAction
      → ConflictResolutionResult
      → List ℕ
      → World m
      → World m
      → TerminalActionProof
      → Type 0
  IsInstalled a r intended w t proof =
      (u : World m) × (v : World m) × (x : World m) × (y : World m) × (z : World m) × (on_files m
          (m.fs.write local (address_of local a) intended r.target_mtime) w
        ≡ (ok tt, u))
      × (on_files m (m.fs.write remote (address_of remote a) intended r.target_mtime) u
          ≡ (ok tt, v))
      × (stat m local (address_of local a) v ≡ (ok (some proof.local_entity), x))
      × (stat m remote (address_of remote a) x ≡ (ok (some proof.remote_entity), y))
      × IsGone (if_moved a.remote_identity_source a.path) y z
      × IsChecked a intended r.verified_outputs z t proof

  install-IsInstalled :
      (a : SyncAction) (r : ConflictResolutionResult) (intended : List ℕ) (w t : World m)
      (proof : TerminalActionProof)
      → is_removal a ≡ false
      → install m services a r intended w ≡ (ok proof, t)
      → (s : World m) × IsInstalled a r intended s t proof
  unfolding install
  install-IsInstalled a r intended w t proof k h =
      let from = if_moved a.remote_identity_source a.path in
      let b = next-eq-ok (rotate m services a from w) _ h in
      let c =
        next-eq-ok (move_local m services a (if_moved a.local (address_of local a)) b.1) _ b.3 in
      let d =
        next-eq-ok (on_files m (m.fs.write local (address_of local a) intended r.target_mtime) c.1)
          _ c.3 in
      let e =
        next-eq-ok
          (on_files m (m.fs.write remote (address_of remote a) intended r.target_mtime) d.1) _
          d.3 in
      let f = next-eq-ok (stat m local (address_of local a) e.1) _ e.3 in
      let g = next-eq-ok (stat m remote (address_of remote a) f.1) _ f.3 in
      let i = next-eq-ok (stat_source m services from g.1) _ g.3 in
      let (p, q, s, checked) =
        prove_found-IsChecked a intended r.verified_outputs f.0 g.0 i.0 i.1 t proof k i.3 in
      (
        c.1,
        (
          d.1,
          e.1,
          f.1,
          g.1,
          i.1,
          d.2,
          e.2,
          subst (λ o. stat m local (address_of local a) e.1 ≡ (ok o, f.1)) p f.2,
          subst (λ o. stat m remote (address_of remote a) f.1 ≡ (ok o, g.1)) q g.2,
          stat_source-IsGone from i.0 g.1 i.1 i.2 s,
          checked,
        ),
      )

  -- The target is what the resolution says.
  abbrev pub Installs :
      SyncAction → ConflictResolutionResult → World m → TerminalActionProof → Type 0
  Installs a r t proof =
      (covers (expected_copies a a.remote (requires_copies a r)) r.verified_outputs ≡ true)
      × (distinct_paths r.verified_outputs [] ≡ true)
      × ((intended : List ℕ) × (r.target_content ≡ some intended)
          × ((s : World m) × IsInstalled a r intended s t proof))

  install_target-IsInstalled :
      (a : SyncAction) (r : ConflictResolutionResult) (target : Option (List ℕ)) (w t : World m)
      (proof : TerminalActionProof)
      → is_removal a ≡ false
      → install_target m services a r target w ≡ (ok proof, t)
      → (intended : List ℕ) × (target ≡ some intended)
        × ((s : World m) × IsInstalled a r intended s t proof)
  unfolding install_target
  install_target-IsInstalled a r none w t proof k h = absurd (cc)
  install_target-IsInstalled a r (some intended) w t proof k h =
      let b = next-eq-ok (check_inputs m services a r w) _ h in
      (intended, refl, install-IsInstalled a r intended b.1 t proof k b.3)

  pub execute_prepared_conflict_effects-Installs :
      (a : SyncAction) (r : ConflictResolutionResult) (w t : World m) (proof : TerminalActionProof)
      → is_removal a ≡ false
      → execute_prepared_conflict_effects m services a r w ≡ (ok proof, t)
      → Installs a r t proof
  unfolding execute_prepared_conflict_effects
  execute_prepared_conflict_effects-Installs a r w t proof k h =
      let p = covers (expected_copies a a.remote (requires_copies a r)) r.verified_outputs in
      let q = distinct_paths r.verified_outputs [] in
      let b = next-eq-ok (guard (p && q) proof_mismatch w) _ h in
      let g = (guard-eq-ok (p && q) proof_mismatch w b.1 b.2).0 in
      (
        ground (arith, g),
        ground (arith, g),
        install_target-IsInstalled a r r.target_content b.1 t proof k b.3,
      )
