-- ===== src/Executor/Conflict/Effects/Kept.antt =====
-- The effects of a conflict in src/sync/plan-executor.ts change no record.
use obsidian_air_sync.Prelude.{
  ℕ, nat_eq, refl, not, ◌&&◌, ◌||◌, Option, none, some, List, [], ◌∷◌, ◌==◌, option_eq,
}
use obsidian_air_sync.Prelude.Text.{Str, str_eq}
use obsidian_air_sync.Types.Entity.{FileEntity, SyncSide, local, remote}
use obsidian_air_sync.Types.Action.{
  SyncAction, VerifiedConflictOutput, primary_copy, additional_copy, local_copy,
}
use obsidian_air_sync.Files.{proof_mismatch, pure, fail, guard}
use obsidian_air_sync.Resolver.Snapshot.{ExactSnapshot}
use obsidian_air_sync.Resolver.Resolve.{Services, ConflictResolutionResult}
use obsidian_air_sync.Executor.Kept.{Keeps, bind-Keeps, if-Keeps, guard-Keeps}
use obsidian_air_sync.Executor.Checks.{
  Machine, is_given, is_named, address_of, on_files, stat, has_bytes, unchanged_endpoint,
}
use obsidian_air_sync.Executor.Checks.Kept.{has_bytes-Keeps, unchanged_endpoint-Keeps}
use obsidian_air_sync.Executor.Effects.{Entities}
use obsidian_air_sync.Executor.Terminal.{key_of, prove_admitted_terminal}
use obsidian_air_sync.Executor.Terminal.Kept.{prove_admitted_terminal-Keeps}
use obsidian_air_sync.Executor.Conflict.{
  moved_from, requires_copies, expected_copies, covers, distinct_paths, find_output,
  snapshot_output, if_moved,
}
use obsidian_air_sync.Executor.Conflict.Effects.{
  holds_on, assert_preserved_source_unchanged, check_admitted, check_captured, is_vacant_for,
  check_local_target, check_preserved, check_additional_local, check_remote_target, delete_occupant,
  rotate, move_local, stat_source, output_holds, outputs_hold, prove_conflict, prove_found,
  check_inputs, install, install_target, execute_prepared_conflict_effects,
}

module _ (m : Machine) (services : Services) where
  holds_on-Keeps :
      (side : SyncSide) (path : Str) (expected : Option Str) (o : VerifiedConflictOutput)
      (e : Option FileEntity)
      → Keeps (holds_on m services side path expected o e)
  unfolding holds_on
  holds_on-Keeps side path expected o none = λ w. refl
  holds_on-Keeps side path expected o (some current) =
      let b =
        o.source_path == path
        && current.identity_key == expected
        && o.source_entity.identity_key == expected in
      bind-Keeps (guard b proof_mismatch) _ (guard-Keeps b proof_mismatch)
        (λ _. has_bytes-Keeps m side path o.source_content current)

  assert_preserved_source_unchanged-Keeps :
      (side : SyncSide) (path : Str) (expected : Option Str) (o : VerifiedConflictOutput)
      → Keeps (assert_preserved_source_unchanged m services side path expected o)
  unfolding assert_preserved_source_unchanged
  assert_preserved_source_unchanged-Keeps side path expected o =
      bind-Keeps (stat m side path) _ (λ w. refl)
        (λ current. holds_on-Keeps side path expected o current)

  check_admitted-Keeps :
      (side : SyncSide) (e : Option FileEntity) → Keeps (check_admitted m services side e)
  unfolding check_admitted
  check_admitted-Keeps side none = λ w. refl
  check_admitted-Keeps side (some e) =
      bind-Keeps (unchanged_endpoint m side e) _ (unchanged_endpoint-Keeps m side e) (λ _ w. refl)

  check_captured-Keeps :
      (side : SyncSide) (e : Option FileEntity) (snap : Option ExactSnapshot)
      → Keeps (check_captured m services side e snap)
  unfolding check_captured
  check_captured-Keeps side none snap = λ w. refl
  check_captured-Keeps side (some e) none = λ w. refl
  check_captured-Keeps side (some e) (some snap) =
      assert_preserved_source_unchanged-Keeps side e.path e.identity_key
        (snapshot_output primary_copy snap)

  check_local_target-Keeps :
      (target : Str) (from : Option Str) → Keeps (check_local_target m services target from)
  unfolding check_local_target
  check_local_target-Keeps target none = λ w. refl
  check_local_target-Keeps target (some from) =
      bind-Keeps (stat m local target) _ (λ w. refl)
        (λ occupant. guard-Keeps (is_vacant_for m services from occupant) proof_mismatch)

  check_preserved-Keeps :
      (side : SyncSide) (path : Str) (e : FileEntity) (o : Option VerifiedConflictOutput)
      → Keeps (check_preserved m services side path e o)
  unfolding check_preserved
  check_preserved-Keeps side path e none = λ w. refl
  check_preserved-Keeps side path e (some o) =
      assert_preserved_source_unchanged-Keeps side path e.identity_key o

  check_additional_local-Keeps :
      (outputs : List VerifiedConflictOutput) (e : Option FileEntity)
      → Keeps (check_additional_local m services outputs e)
  unfolding check_additional_local
  check_additional_local-Keeps outputs none = λ w. refl
  check_additional_local-Keeps outputs (some e) =
      check_preserved-Keeps local e.path e (find_output local_copy outputs)

  check_remote_target-Keeps :
      (a : SyncAction) (outputs : List VerifiedConflictOutput) (e : Option FileEntity)
      → Keeps (check_remote_target m services a outputs e)
  unfolding check_remote_target
  check_remote_target-Keeps a outputs (some e) =
      check_preserved-Keeps remote (address_of remote a) e (find_output additional_copy outputs)
  check_remote_target-Keeps a outputs none =
      if-Keeps (moved_from a.remote_identity_source a.path || not (is_given a.remote)) _ (pure tt)
        (bind-Keeps (stat m remote (address_of remote a)) _ (λ w. refl)
          (λ found. guard-Keeps (not (is_given found)) proof_mismatch))
        (λ w. refl)

  rotate-Keeps : (a : SyncAction) (from : Option Str) → Keeps (rotate m services a from)
  unfolding rotate delete_occupant
  rotate-Keeps a none = λ w. refl
  rotate-Keeps a (some from) =
      bind-Keeps (delete_occupant m services a) _
        (if-Keeps (is_given a.additional_remote) (on_files m (m.fs.delete remote a.path)) (pure tt)
          (λ w. refl) (λ w. refl))
        (λ _ w. refl)

  move_local-Keeps : (a : SyncAction) (from : Option Str) → Keeps (move_local m services a from)
  unfolding move_local
  move_local-Keeps a none = λ w. refl
  move_local-Keeps a (some from) = λ w. refl

  stat_source-Keeps : (from : Option Str) → Keeps (stat_source m services from)
  unfolding stat_source
  stat_source-Keeps none = λ w. refl
  stat_source-Keeps (some from) = λ w. refl

  output_holds-Keeps :
      (side : SyncSide) (o : VerifiedConflictOutput) (e : Option FileEntity)
      → Keeps (output_holds m services side o e)
  unfolding output_holds
  output_holds-Keeps side o none = λ w. refl
  output_holds-Keeps side o (some e) =
      if-Keeps e.is_directory (fail proof_mismatch) (has_bytes m side o.path o.source_content e)
        (λ w. refl) (has_bytes-Keeps m side o.path o.source_content e)

  outputs_hold-Keeps :
      (outputs : List VerifiedConflictOutput) → Keeps (outputs_hold m services outputs)
  unfolding outputs_hold
  outputs_hold-Keeps [] = λ w. refl
  outputs_hold-Keeps (o ∷ outputs) =
      bind-Keeps (stat m local o.path) _ (λ w. refl)
        (λ mine.
          bind-Keeps (output_holds m services local o mine) _ (output_holds-Keeps local o mine)
            (λ _.
              bind-Keeps (stat m remote o.path) _ (λ w. refl)
                (λ theirs.
                  bind-Keeps (output_holds m services remote o theirs) _
                    (output_holds-Keeps remote o theirs) (λ _. outputs_hold-Keeps outputs))))

  prove_conflict-Keeps :
      (a : SyncAction) (intended : List ℕ) (outputs : List VerifiedConflictOutput)
      (mine theirs : FileEntity)
      → Keeps (prove_conflict m services a intended outputs mine theirs)
  unfolding prove_conflict
  prove_conflict-Keeps a intended outputs mine theirs =
      let b =
        not (is_named (key_of a.remote_identity_source))
        || theirs.identity_key == key_of a.remote_identity_source in
      let entities : Entities = record {
        local_entity = some mine;
        remote_entity = some theirs;
        intended_content = some intended;
      } in
      bind-Keeps (guard b proof_mismatch) _ (guard-Keeps b proof_mismatch) (λ _.
        bind-Keeps (prove_admitted_terminal m a entities []) _
          (prove_admitted_terminal-Keeps m a entities [])
          (λ _.
            bind-Keeps (outputs_hold m services outputs) _ (outputs_hold-Keeps outputs)
              (λ _ w. refl)))

  prove_found-Keeps :
      (a : SyncAction) (intended : List ℕ) (outputs : List VerifiedConflictOutput)
      (mine theirs source : Option FileEntity)
      → Keeps (prove_found m services a intended outputs mine theirs source)
  unfolding prove_found
  prove_found-Keeps a intended outputs (some mine) (some theirs) none =
      prove_conflict-Keeps a intended outputs mine theirs
  prove_found-Keeps a intended outputs (some mine) (some theirs) (some source) = λ w. refl
  prove_found-Keeps a intended outputs (some mine) none source = λ w. refl
  prove_found-Keeps a intended outputs none theirs source = λ w. refl

  check_inputs-Keeps :
      (a : SyncAction) (r : ConflictResolutionResult) → Keeps (check_inputs m services a r)
  unfolding check_inputs
  check_inputs-Keeps a r =
      bind-Keeps (check_admitted m services local a.local) _ (check_admitted-Keeps local a.local)
        (λ _.
          bind-Keeps (check_admitted m services remote a.remote) _
            (check_admitted-Keeps remote a.remote)
            (λ _.
              bind-Keeps (check_captured m services local a.local r.captured_local) _
                (check_captured-Keeps local a.local r.captured_local)
                (λ _.
                  bind-Keeps (check_captured m services remote a.remote r.captured_remote) _
                    (check_captured-Keeps remote a.remote r.captured_remote)
                    (λ _.
                      bind-Keeps
                        (check_local_target m services (address_of local a)
                          (if_moved a.local (address_of local a)))
                        _
                        (check_local_target-Keeps (address_of local a)
                          (if_moved a.local (address_of local a)))
                        (λ _.
                          bind-Keeps
                            (check_additional_local m services r.verified_outputs
                              a.additional_local)
                            _ (check_additional_local-Keeps r.verified_outputs a.additional_local)
                            (λ _.
                              check_remote_target-Keeps a r.verified_outputs
                                a.additional_remote))))))

  install-Keeps :
      (a : SyncAction) (r : ConflictResolutionResult) (intended : List ℕ)
      → Keeps (install m services a r intended)
  unfolding install
  install-Keeps a r intended =
      let from = if_moved a.remote_identity_source a.path in
      bind-Keeps (rotate m services a from) _ (rotate-Keeps a from) (λ _.
        bind-Keeps (move_local m services a (if_moved a.local (address_of local a))) _
          (move_local-Keeps a (if_moved a.local (address_of local a)))
          (λ _.
            bind-Keeps (on_files m (m.fs.write local (address_of local a) intended r.target_mtime))
              _ (λ w. refl)
              (λ _.
                bind-Keeps
                  (on_files m (m.fs.write remote (address_of remote a) intended r.target_mtime)) _
                  (λ w. refl)
                  (λ _.
                    bind-Keeps (stat m local (address_of local a)) _ (λ w. refl)
                      (λ mine.
                        bind-Keeps (stat m remote (address_of remote a)) _ (λ w. refl)
                          (λ theirs.
                            bind-Keeps (stat_source m services from) _ (stat_source-Keeps from)
                              (λ source.
                                prove_found-Keeps a intended r.verified_outputs mine theirs
                                  source)))))))

  install_target-Keeps :
      (a : SyncAction) (r : ConflictResolutionResult) (intended : Option (List ℕ))
      → Keeps (install_target m services a r intended)
  unfolding install_target
  install_target-Keeps a r none = λ w. refl
  install_target-Keeps a r (some intended) =
      bind-Keeps (check_inputs m services a r) _ (check_inputs-Keeps a r)
        (λ _. install-Keeps a r intended)

  pub execute_prepared_conflict_effects-Keeps :
      (a : SyncAction) (r : ConflictResolutionResult)
      → Keeps (execute_prepared_conflict_effects m services a r)
  unfolding execute_prepared_conflict_effects
  execute_prepared_conflict_effects-Keeps a r =
      let b =
        covers (expected_copies a a.remote (requires_copies a r)) r.verified_outputs
        && distinct_paths r.verified_outputs [] in
      bind-Keeps (guard b proof_mismatch) _ (guard-Keeps b proof_mismatch)
        (λ _. install_target-Keeps a r r.target_content)
