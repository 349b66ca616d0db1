-- ===== src/Executor/Terminal/Kept.antt =====
-- The proof of a terminal state in src/sync/plan-executor.ts changes no record.
use obsidian_air_sync.Prelude.{
  ℕ, nat_eq, bool_eq, refl, Bool, true, false, not, ◌&&◌, ◌||◌, Option, none, some, List, [], ◌∷◌,
  ◌==◌, option_eq, contains,
}
use obsidian_air_sync.Prelude.Text.{Str, str_eq}
use obsidian_air_sync.Prelude.Dict.{add}
use obsidian_air_sync.Types.Entity.{FileEntity, SyncSide, local, remote}
use obsidian_air_sync.Types.Action.{
  SyncAction, DescendantRecord, CompletedAction, VerifiedConflictOutput, is_removal,
}
use obsidian_air_sync.Compare.{same_synchronized_content}
use obsidian_air_sync.Commit.{ordered_child_receipts, child_source}
use obsidian_air_sync.Files.{proof_mismatch, pure, fail, guard}
use obsidian_air_sync.Executor.Kept.{Keeps, bind-Keeps, if-Keeps, guard-Keeps}
use obsidian_air_sync.Executor.Checks.{
  Machine, or_else, is_given, is_named, is_exact_path, address_of, folder_children, on_files, stat,
  has_bytes,
}
use obsidian_air_sync.Executor.Checks.Kept.{has_bytes-Keeps}
use obsidian_air_sync.Executor.Effects.{Entities}
use obsidian_air_sync.Executor.Terminal.{
  terminal_local_path, expected_identity, exact_or_stat, exact, both_have, same_by_reading, is_push,
  same_bytes, prove_content, child_holds, moved_output, output_on, check_outputs, outputs_of,
  check_retained, check_deleted, prove_folder_descendants, prove_endpoints, prove_admitted_terminal,
}

module _ (m : Machine) where
  exact_or_stat-Keeps :
      (side : SyncSide) (path : Str) (known : Option FileEntity)
      → Keeps (exact_or_stat m side path known)
  unfolding exact_or_stat
  exact_or_stat-Keeps side path known =
      if-Keeps (is_exact_path known path) (pure known) (stat m side path) (λ w. refl) (λ w. refl)

  exact-Keeps : (path : Str) (found : Option FileEntity) → Keeps (exact m path found)
  unfolding exact
  exact-Keeps path none = λ w. refl
  exact-Keeps path (some e) =
      if-Keeps (is_exact_path (some e) path) (pure e) (fail proof_mismatch) (λ w. refl) (λ w. refl)

  both_have-Keeps :
      (b : Bool) (mine theirs : FileEntity) (bytes : List ℕ)
      → Keeps (both_have m b mine theirs bytes)
  unfolding both_have
  both_have-Keeps true mine theirs bytes = has_bytes-Keeps m remote theirs.path bytes theirs
  both_have-Keeps false mine theirs bytes =
      bind-Keeps (has_bytes m local mine.path bytes mine) _
        (has_bytes-Keeps m local mine.path bytes mine)
        (λ _. has_bytes-Keeps m remote theirs.path bytes theirs)

  same_by_reading-Keeps :
      (mine theirs : FileEntity) (a : SyncAction) → Keeps (same_by_reading m mine theirs a)
  unfolding same_by_reading
  same_by_reading-Keeps mine theirs a =
      if-Keeps (same_synchronized_content mine theirs a.baseline) (pure tt) _ (λ w. refl)
        (bind-Keeps (on_files m (m.fs.read local (terminal_local_path a))) _ (λ w. refl)
          (λ bytes. has_bytes-Keeps m remote (address_of remote a) bytes theirs))

  same_bytes-Keeps :
      (a : SyncAction) (mine theirs : FileEntity) (intended : Option (List ℕ))
      → Keeps (same_bytes m a mine theirs intended)
  unfolding same_bytes
  same_bytes-Keeps a mine theirs (some bytes) = both_have-Keeps (is_push m a) mine theirs bytes
  same_bytes-Keeps a mine theirs none = same_by_reading-Keeps mine theirs a

  prove_content-Keeps :
      (a : SyncAction) (mine theirs : FileEntity) (intended : Option (List ℕ))
      → Keeps (prove_content m a mine theirs intended)
  unfolding prove_content
  prove_content-Keeps a mine theirs intended =
      if-Keeps (mine.is_directory && theirs.is_directory) (pure tt) _ (λ w. refl)
        (bind-Keeps (guard (mine.size == theirs.size) proof_mismatch) _
          (guard-Keeps (mine.size == theirs.size) proof_mismatch)
          (λ _. same_bytes-Keeps a mine theirs intended))

  output_on-Keeps :
      (side : SyncSide) (path : Str) (bytes : List ℕ) (e : Option FileEntity)
      → Keeps (output_on m side path bytes e)
  unfolding output_on
  output_on-Keeps side path bytes none = λ w. refl
  output_on-Keeps side path bytes (some e) =
      if-Keeps e.is_directory (fail proof_mismatch) (has_bytes m side path bytes e) (λ w. refl)
        (has_bytes-Keeps m side path bytes e)

  check_outputs-Keeps :
      (a : SyncAction) (outputs : List VerifiedConflictOutput) → Keeps (check_outputs m a outputs)
  unfolding check_outputs
  check_outputs-Keeps a [] = λ w. refl
  check_outputs-Keeps a (o ∷ outputs) =
      bind-Keeps (stat m local (moved_output m a local o.path)) _ (λ w. refl)
        (λ mine.
          bind-Keeps (output_on m local (moved_output m a local o.path) o.source_content mine) _
            (output_on-Keeps local (moved_output m a local o.path) o.source_content mine)
            (λ _.
              bind-Keeps (stat m remote (moved_output m a remote o.path)) _ (λ w. refl)
                (λ theirs.
                  bind-Keeps
                    (output_on m remote (moved_output m a remote o.path) o.source_content theirs) _
                    (output_on-Keeps remote (moved_output m a remote o.path) o.source_content
                      theirs)
                    (λ _. check_outputs-Keeps a outputs))))

  check_retained-Keeps :
      (a : SyncAction) (children : List (DescendantRecord × Option CompletedAction))
      (retained : List Str)
      → Keeps (check_retained m a children retained)
  unfolding check_retained
  check_retained-Keeps a [] retained = λ w. refl
  check_retained-Keeps a ((child, receipt) ∷ rest) retained =
      bind-Keeps (stat m local child.new_path) _ (λ w. refl)
        (λ mine.
          bind-Keeps (stat m remote child.new_path) _ (λ w. refl)
            (λ theirs.
              bind-Keeps
                (guard (child_holds m child (child_source child receipt) mine theirs)
                  proof_mismatch)
                _
                (guard-Keeps (child_holds m child (child_source child receipt) mine theirs)
                  proof_mismatch)
                (λ _.
                  bind-Keeps (check_outputs m a (outputs_of m receipt)) _
                    (check_outputs-Keeps a (outputs_of m receipt))
                    (λ _. check_retained-Keeps a rest (add child.new_path retained)))))

  check_deleted-Keeps :
      (children : List (Str × Str)) (retained : List Str)
      → Keeps (check_deleted m children retained)
  unfolding check_deleted
  check_deleted-Keeps [] retained = λ w. refl
  check_deleted-Keeps ((old_path, new_path) ∷ rest) retained =
      if-Keeps (contains retained new_path) (check_deleted m rest retained) _
        (check_deleted-Keeps rest retained)
        (bind-Keeps (stat m local new_path) _ (λ w. refl)
          (λ mine.
            bind-Keeps (stat m remote new_path) _ (λ w. refl)
              (λ theirs.
                bind-Keeps (guard (not (is_given mine) && not (is_given theirs)) proof_mismatch) _
                  (guard-Keeps (not (is_given mine) && not (is_given theirs)) proof_mismatch)
                  (λ _. check_deleted-Keeps rest retained))))

  prove_folder_descendants-Keeps :
      (a : SyncAction) (children : Option (List DescendantRecord))
      (completed : List CompletedAction)
      → Keeps (prove_folder_descendants m a children completed)
  unfolding prove_folder_descendants
  prove_folder_descendants-Keeps a none completed = λ w. refl
  prove_folder_descendants-Keeps a (some children) completed =
      bind-Keeps (check_retained m a (ordered_child_receipts children completed) []) _
        (check_retained-Keeps a (ordered_child_receipts children completed) [])
        (λ retained. check_deleted-Keeps (or_else a.descendants []) retained)

  prove_endpoints-Keeps :
      (a : SyncAction) (entities : Entities) (completed : List CompletedAction)
      → Keeps (prove_endpoints m a entities completed)
  unfolding prove_endpoints
  prove_endpoints-Keeps a entities completed =
      bind-Keeps (exact_or_stat m local (terminal_local_path a) entities.local_entity) _
        (exact_or_stat-Keeps local (terminal_local_path a) entities.local_entity)
        (λ found.
          bind-Keeps (exact_or_stat m remote (address_of remote a) entities.remote_entity) _
            (exact_or_stat-Keeps remote (address_of remote a) entities.remote_entity)
            (λ found'.
              bind-Keeps (exact m (terminal_local_path a) found) _
                (exact-Keeps (terminal_local_path a) found)
                (λ mine.
                  bind-Keeps (exact m (address_of remote a) found') _
                    (exact-Keeps (address_of remote a) found')
                    (λ theirs.
                      bind-Keeps
                        (guard
                          (not (is_named (expected_identity a))
                            || theirs.identity_key == expected_identity a)
                          proof_mismatch)
                        _
                        (guard-Keeps
                          (not (is_named (expected_identity a))
                            || theirs.identity_key == expected_identity a)
                          proof_mismatch)
                        (λ _.
                          bind-Keeps
                            (guard (mine.is_directory == theirs.is_directory) proof_mismatch) _
                            (guard-Keeps (mine.is_directory == theirs.is_directory) proof_mismatch)
                            (λ _.
                              bind-Keeps
                                (prove_folder_descendants m a (folder_children a) completed) _
                                (prove_folder_descendants-Keeps a (folder_children a) completed)
                                (λ _.
                                  bind-Keeps
                                    (prove_content m a mine theirs entities.intended_content) _
                                    (prove_content-Keeps a mine theirs entities.intended_content)
                                    (λ _ w. refl))))))))

  pub prove_admitted_terminal-Keeps :
      (a : SyncAction) (entities : Entities) (completed : List CompletedAction)
      → Keeps (prove_admitted_terminal m a entities completed)
  unfolding prove_admitted_terminal
  prove_admitted_terminal-Keeps a entities completed =
      if-Keeps (is_removal a) (pure none) _ (λ w. refl)
        (bind-Keeps (prove_endpoints m a entities completed) _
          (prove_endpoints-Keeps a entities completed) (λ _ w. refl))
