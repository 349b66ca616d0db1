-- ===== src/Executor/Conflict/Publish/Kept.antt =====
-- What the publication of a conflict in src/sync/plan-executor.ts does to the record store when it fails.
use obsidian_air_sync.Prelude.{Option, none, some, List, refl}
use obsidian_air_sync.Types.Action.{SyncAction, CompletedAction, ConflictExecutionPolicy}
use obsidian_air_sync.Files.{terminal_invariant, guard}
use obsidian_air_sync.Resolver.Resolve.{Services}
use obsidian_air_sync.Executor.Kept.{
  Keeps, guard-Keeps, FailsClean, bind-FailsClean, bind_pure-FailsClean,
}
use obsidian_air_sync.Executor.Checks.{Machine, check_publication_inputs}
use obsidian_air_sync.Executor.Checks.Kept.{check_publication_inputs-Keeps}
use obsidian_air_sync.Executor.Action.{Retrying, commit}
use obsidian_air_sync.Executor.Action.Recorded.{IsIdle, commit-FailsClean}
use obsidian_air_sync.Executor.Conflict.{policy_holds}
use obsidian_air_sync.Executor.Conflict.Effects.{execute_prepared_conflict_effects}
use obsidian_air_sync.Executor.Conflict.Effects.Kept.{execute_prepared_conflict_effects-Keeps}
use obsidian_air_sync.Executor.Conflict.Publish.{resolve, publish_with, publish_conflict}

module _ (m : Machine) (r : Retrying m) (idle : IsIdle m r) (services : Services) where
  resolve-Keeps :
      (a : SyncAction) (policy : ConflictExecutionPolicy) → Keeps (resolve m services a policy)
  unfolding resolve
  resolve-Keeps a policy w = refl

  publish_with-FailsClean :
      (a : SyncAction) (completed : List CompletedAction) (policy : Option ConflictExecutionPolicy)
      → FailsClean (publish_with m r services a completed policy)
  unfolding publish_with
  publish_with-FailsClean a completed none = λ w e h. refl
  publish_with-FailsClean a completed (some policy) =
      bind-FailsClean (guard (policy_holds a policy) terminal_invariant) _
        (guard-Keeps (policy_holds a policy) terminal_invariant)
        (λ _.
          bind-FailsClean (check_publication_inputs m a completed) _
            (check_publication_inputs-Keeps m a completed)
            (λ _.
              bind-FailsClean (resolve m services a policy) _ (resolve-Keeps a policy)
                (λ resolution.
                  bind-FailsClean (execute_prepared_conflict_effects m services a resolution) _
                    (execute_prepared_conflict_effects-Keeps m services a resolution)
                    (λ proof.
                      bind_pure-FailsClean
                        (commit m r a (some proof.local_entity) (some proof.remote_entity)
                          (some proof) completed)
                        _
                        (commit-FailsClean m r idle a (some proof.local_entity)
                          (some proof.remote_entity) (some proof) completed)))))

  -- A conflict that fails leaves the records and the merge bases as they were.
  pub publish_conflict-FailsClean :
      (a : SyncAction) (completed : List CompletedAction)
      → FailsClean (publish_conflict m r services a completed)
  unfolding publish_conflict
  publish_conflict-FailsClean a completed = publish_with-FailsClean a completed a.conflict_policy
