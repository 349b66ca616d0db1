-- ===== src/Executor/Effects/Kept.antt =====
-- The input and output of an action of src/sync/plan-executor.ts changes no record.
use obsidian_air_sync.Prelude.{ℕ, refl, ◌&&◌, ◌||◌, Option, none, some, List, [], option_eq}
use obsidian_air_sync.Prelude.Text.{str_eq}
use obsidian_air_sync.Types.Entity.{FileEntity, SyncSide, local, remote}
use obsidian_air_sync.Types.Action.{
  SyncAction, SyncActionType, push, pull, delete_local, delete_remote, rename_remote, rename_local,
  conflict, match, cleanup, RenameContent, equal, copy,
}
use obsidian_air_sync.Files.{proof_mismatch, thrown, plain_error, fail, guard}
use obsidian_air_sync.Resolver.Snapshot.{ExactSnapshot}
use obsidian_air_sync.Executor.Kept.{Keeps, bind-Keeps, if-Keeps, guard-Keeps}
use obsidian_air_sync.Executor.Checks.{
  Machine, is_given, is_exact_path, address_of, on_files, stat, unchanged_endpoint,
  check_publication_inputs,
}
use obsidian_air_sync.Executor.Checks.Kept.{
  unchanged_endpoint-Keeps, check_publication_inputs-Keeps,
}
use obsidian_air_sync.Executor.Effects.{
  capture, local_terminal, opposite, terminal_path, moving_side, transfer, is_free_for,
  copied_bytes, write_copy, same_object, moved_endpoint, rename_endpoints, run_admitted_rename_io,
  delete_at, rename_io, io_of, run_action_io,
}

module _ (m : Machine) where
  capture-Keeps : (side : SyncSide) (e : FileEntity) → Keeps (capture m side e)
  unfolding capture
  capture-Keeps side e w = refl

  local_terminal-Keeps :
      (side : SyncSide) (a : SyncAction) (captured : ExactSnapshot)
      → Keeps (local_terminal m side a captured)
  unfolding local_terminal
  local_terminal-Keeps local a captured w = refl
  local_terminal-Keeps remote a captured w = refl

  transfer-Keeps :
      (source : SyncSide) (a : SyncAction) (expected : Option FileEntity)
      → Keeps (transfer m source a expected)
  unfolding transfer
  transfer-Keeps source a none = λ w. refl
  transfer-Keeps source a (some expected) =
      bind-Keeps (capture m source expected) _ (capture-Keeps source expected) (λ captured.
        bind-Keeps (check_publication_inputs m a []) _ (check_publication_inputs-Keeps m a []) (λ _.
          bind-Keeps
            (on_files m (
              m.fs.write (opposite source) (address_of (opposite source) a) captured.content
                expected.mtime))
            _ (λ w. refl)
            (λ _.
              bind-Keeps (local_terminal m source a captured) _
                (local_terminal-Keeps source a captured)
                (λ mine.
                  bind-Keeps (stat m remote (terminal_path remote a)) _ (λ w. refl)
                    (λ theirs.
                      bind-Keeps (guard (is_given mine && is_given theirs) proof_mismatch) _
                        (guard-Keeps (is_given mine && is_given theirs) proof_mismatch)
                        (λ _ w. refl))))))

  copied_bytes-Keeps : (content : Option RenameContent) → Keeps (copied_bytes m content)
  unfolding copied_bytes
  copied_bytes-Keeps none = λ w. refl
  copied_bytes-Keeps (some equal) = λ w. refl
  copied_bytes-Keeps (some (copy from side path)) =
      bind-Keeps (capture m from.side from.entity) _ (capture-Keeps from.side from.entity)
        (λ captured.
          bind-Keeps (unchanged_endpoint m from.side from.entity) _
            (unchanged_endpoint-Keeps m from.side from.entity) (λ _ w. refl))

  write_copy-Keeps :
      (content : Option RenameContent) (bytes : Option (List ℕ)) (mine theirs : FileEntity)
      → Keeps (write_copy m content bytes mine theirs)
  unfolding write_copy
  write_copy-Keeps none bytes mine theirs = λ w. refl
  write_copy-Keeps (some equal) bytes mine theirs = λ w. refl
  write_copy-Keeps (some (copy from local path)) none mine theirs = λ w. refl
  write_copy-Keeps (some (copy from remote path)) none mine theirs = λ w. refl
  write_copy-Keeps (some (copy from local path)) (some bytes) mine theirs =
      bind-Keeps (unchanged_endpoint m local (record mine { path = path })) _
        (unchanged_endpoint-Keeps m local (record mine { path = path })) (λ _ w. refl)
  write_copy-Keeps (some (copy from remote path)) (some bytes) mine theirs =
      bind-Keeps (unchanged_endpoint m remote (record theirs { path = path })) _
        (unchanged_endpoint-Keeps m remote (record theirs { path = path })) (λ _ w. refl)

  rename_endpoints-Keeps :
      (a : SyncAction) (mine theirs : FileEntity) → Keeps (rename_endpoints m a mine theirs)
  unfolding rename_endpoints
  rename_endpoints-Keeps a mine theirs =
      bind-Keeps (unchanged_endpoint m local mine) _ (unchanged_endpoint-Keeps m local mine) (λ _.
        bind-Keeps (unchanged_endpoint m remote theirs) _ (unchanged_endpoint-Keeps m remote theirs)
          (λ _.
            bind-Keeps (stat m (moving_side a) a.path) _ (λ w. refl)
              (λ destination.
                bind-Keeps (guard (is_free_for m a destination) proof_mismatch) _
                  (guard-Keeps (is_free_for m a destination) proof_mismatch)
                  (λ _.
                    bind-Keeps (copied_bytes m a.content) _ (copied_bytes-Keeps a.content) (λ bytes.
                      bind-Keeps
                        (unchanged_endpoint m (moving_side a)
                          (moved_endpoint m (moving_side a) mine theirs))
                        _
                        (unchanged_endpoint-Keeps m (moving_side a)
                          (moved_endpoint m (moving_side a) mine theirs))
                        (λ _.
                          bind-Keeps (on_files m (m.fs.rename (moving_side a) a.old_path a.path)) _
                            (λ w. refl)
                            (λ _.
                              bind-Keeps (write_copy m a.content bytes mine theirs) _
                                (write_copy-Keeps a.content bytes mine theirs)
                                (λ _.
                                  bind-Keeps (stat m local a.path) _ (λ w. refl)
                                    (λ found.
                                      bind-Keeps (stat m remote a.path) _ (λ w. refl)
                                        (λ found'.
                                          bind-Keeps
                                            (guard
                                              (is_exact_path found a.path
                                                && is_exact_path found' a.path
                                                && same_object m theirs found')
                                              proof_mismatch)
                                            _
                                            (guard-Keeps
                                              (is_exact_path found a.path
                                                && is_exact_path found' a.path
                                                && same_object m theirs found')
                                              proof_mismatch)
                                            (λ _ w. refl)))))))))))

  run_admitted_rename_io-Keeps :
      (a : SyncAction) (mine theirs : Option FileEntity)
      → Keeps (run_admitted_rename_io m a mine theirs)
  unfolding run_admitted_rename_io
  run_admitted_rename_io-Keeps a (some mine) (some theirs) = rename_endpoints-Keeps a mine theirs
  run_admitted_rename_io-Keeps a (some mine) none = λ w. refl
  run_admitted_rename_io-Keeps a none (some theirs) = λ w. refl
  run_admitted_rename_io-Keeps a none none = λ w. refl

  delete_at-Keeps : (side : SyncSide) (a : SyncAction) → Keeps (delete_at m side a)
  unfolding delete_at
  delete_at-Keeps side a =
      bind-Keeps (on_files m (m.fs.delete side (address_of side a))) _ (λ w. refl) (λ _ w. refl)

  rename_io-Keeps : (a : SyncAction) → Keeps (rename_io m a)
  unfolding rename_io
  rename_io-Keeps a =
      if-Keeps (is_given a.content || is_given a.descendant_records)
        (run_admitted_rename_io m a a.local a.remote) (fail (thrown plain_error))
        (run_admitted_rename_io-Keeps a a.local a.remote) (λ w. refl)

  io_of-Keeps : (type : SyncActionType) (a : SyncAction) → Keeps (io_of m type a)
  unfolding io_of
  io_of-Keeps push a = transfer-Keeps local a a.local
  io_of-Keeps pull a = transfer-Keeps remote a a.remote
  io_of-Keeps delete_local a = delete_at-Keeps local a
  io_of-Keeps delete_remote a = delete_at-Keeps remote a
  io_of-Keeps rename_remote a = rename_io-Keeps a
  io_of-Keeps rename_local a = rename_io-Keeps a
  io_of-Keeps conflict a = λ w. refl
  io_of-Keeps match a = λ w. refl
  io_of-Keeps cleanup a = λ w. refl

  -- Whatever an action does to the files, it leaves the records to the commit.
  pub run_action_io-Keeps : (a : SyncAction) → Keeps (run_action_io m a)
  unfolding run_action_io
  run_action_io-Keeps a = io_of-Keeps a.action a
