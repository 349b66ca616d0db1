-- ===== src/Executor/Conflict/Publish/Settled.antt =====
-- What the receipt of a conflict of src/sync/plan-executor.ts says.
use obsidian_air_sync.Prelude.{◌≡◌, true, some}
use obsidian_air_sync.Types.Entity.{FileEntity, local}
use obsidian_air_sync.Types.Action.{
  SyncAction, CompletedAction, TerminalActionProof, ConflictExecutionPolicy,
}
use obsidian_air_sync.Files.{ok}
use obsidian_air_sync.Resolver.Resolve.{Services, ConflictResolutionResult}
use obsidian_air_sync.Resolver.Resolve.Kept.{IsResolved, Captures}
use obsidian_air_sync.Executor.Checks.{Machine, World}
use obsidian_air_sync.Executor.Action.{Retrying}
use obsidian_air_sync.Executor.Conflict.{policy_holds}
use obsidian_air_sync.Executor.Conflict.Effects.{execute_prepared_conflict_effects}
use obsidian_air_sync.Executor.Conflict.Effects.Installed.{Installs}
use obsidian_air_sync.Executor.Conflict.Publish.{resolve, context_of, services_of}

module _ (m : Machine) (r : Retrying m) (services : Services) where
  -- The policy, the resolution from one world to the next, and the proof that was made after it.
  abbrev pub SettlesAs :
      SyncAction
      → FileEntity
      → CompletedAction
      → ConflictExecutionPolicy
      → ConflictResolutionResult
      → TerminalActionProof
      → Type 0
  SettlesAs a other done policy resolution proof =
      (policy_holds a policy ≡ true)
      × ((u : World m) × (s : m.fs.State) × (v : World m) × (w : World m) × Captures
            (services_of m services a) (context_of m services a) m.fs m.registry local
            (context_of m services a).local_path a.local u.0 s resolution.captured_local
          × IsResolved (services_of m services a) (context_of m services a) m.fs m.registry policy
              other s resolution
          × (resolve m services a policy u ≡ (ok resolution, v))
          × (execute_prepared_conflict_effects m services a resolution v ≡ (ok proof, w))
          × Installs m services a resolution w proof)
      × (done.action ≡ a)
      × (done.terminal_proof ≡ some proof)
      × (done.local_entity ≡ some proof.local_entity)
      × (done.remote_entity ≡ some proof.remote_entity)
