-- ===== src/Executor/Action/Success.antt =====
-- Records change with a receipt only, in the actions of src/sync/plan-executor.ts.
use obsidian_air_sync.Prelude.{
  ◌≤◌, ◌≡◌, refl, ap, ◌∙◌, Bool, true, false, Option, none, List, [], ◌∷◌, length, length-append,
  arith, if◌then◌else◌,
}
use obsidian_air_sync.Types.Action.{SyncAction, CompletedAction}
use obsidian_air_sync.Cycle.Batch.{Begin, run, invalidated, replaced, begin_action}
use obsidian_air_sync.Files.{
  Failure, proof_mismatch, terminal_invariant, external_io_failure, external_auth_failure, thrown,
  Result, ok, failed, M,
}
use obsidian_air_sync.Executor.Kept.{FailsClean, bind_pure-FailsClean}
use obsidian_air_sync.Executor.Checks.{Machine, World}
use obsidian_air_sync.Executor.Action.{
  Retrying, Execution, commit, publish_observed_match, fatal, fails, settle_failure, settle_result,
  settle_begin, execute_action,
}
use obsidian_air_sync.Executor.Action.Recorded.{IsIdle, commit-FailsClean}

module _ {m : Machine} where
  -- Receipts are only added, and unless one was, the record store is as it was.
  abbrev pub RecordsSuccess : Execution m → Option Failure × Execution m → Type 0
  RecordsSuccess s outcome =
      (length s.result.succeeded ≤ length outcome.1.result.succeeded)
      × (length outcome.1.result.succeeded ≡ length s.result.succeeded
          → outcome.1.world.1 ≡ s.world.1)

  pub same-RecordsSuccess :
      (s t : Execution m) (e : Option Failure)
      → t.world.1 ≡ s.world.1
      → t.result.succeeded ≡ s.result.succeeded
      → RecordsSuccess s (e, t)
  same-RecordsSuccess s t e h k = (omega (arith, ap (λ xs. length xs) k), λ _. h)

  pub then-RecordsSuccess :
      (s t : Execution m) (e : Option Failure) (outcome : Option Failure × Execution m)
      → RecordsSuccess s (e, t)
      → RecordsSuccess t outcome
      → RecordsSuccess s outcome
  then-RecordsSuccess s t e outcome (a, b) (c, d) =
      (omega (arith, a, c), λ h. d (omega (arith, a, c, h)) ∙ b (omega (arith, a, c, h)))

  settle_failure-RecordsSuccess :
      (e : Failure) (a : SyncAction) (s : Execution m) → RecordsSuccess s (settle_failure e a s)
  unfolding settle_failure
  settle_failure-RecordsSuccess terminal_invariant a s = (omega arith, λ _. refl)
  settle_failure-RecordsSuccess proof_mismatch a s = (omega arith, λ _. refl)
  settle_failure-RecordsSuccess (external_auth_failure t) a s = (omega arith, λ _. refl)
  settle_failure-RecordsSuccess (external_io_failure t) a s = (omega arith, λ _. refl)
  settle_failure-RecordsSuccess (thrown t) a s = of_thrown t.is_auth_failure
    where
      of_thrown :
          (b : Bool) → RecordsSuccess s (if b then fatal (thrown t) s else fails (thrown t) a s)
      of_thrown true = (omega arith, λ _. refl)
      of_thrown false = (omega arith, λ _. refl)

  pub settle_result-RecordsSuccess :
      (a : SyncAction) (r : Result CompletedAction × World m) (s : Execution m)
      → ((e : Failure) → r.0 ≡ failed e → r.1.1 ≡ s.world.1)
      → RecordsSuccess s (settle_result a r s)
  unfolding settle_result
  settle_result-RecordsSuccess a (ok done, w) s k =
      let added = length-append s.result.succeeded (done ∷ []) in
      (omega (arith, added), λ h. absurd (omega (arith, added, h)))
  settle_result-RecordsSuccess a (failed e, w) s k =
      then-RecordsSuccess s (record s { world = w }) none
        (settle_failure e a (record s { world = w }))
        (same-RecordsSuccess s (record s { world = w }) none (k e refl) refl)
        (settle_failure-RecordsSuccess e a (record s { world = w }))

  settle_begin-RecordsSuccess :
      (publish : List CompletedAction → M (World m) CompletedAction) (a : SyncAction) (b : Begin)
      (s : Execution m)
      → ((completed : List CompletedAction) → FailsClean (publish completed))
      → RecordsSuccess s (settle_begin publish a b s)
  unfolding settle_begin
  settle_begin-RecordsSuccess publish a (replaced x) s k = (omega arith, λ _. refl)
  settle_begin-RecordsSuccess publish a invalidated s k = (omega arith, λ _. refl)
  settle_begin-RecordsSuccess publish a run s k =
      settle_result-RecordsSuccess a (publish s.result.succeeded s.world) s
        (k s.result.succeeded s.world)

  pub execute_action-RecordsSuccess :
      (publish : List CompletedAction → M (World m) CompletedAction) (a : SyncAction)
      (s : Execution m)
      → ((completed : List CompletedAction) → FailsClean (publish completed))
      → RecordsSuccess s (execute_action publish a s)
  unfolding execute_action
  execute_action-RecordsSuccess publish a s k =
      let start = begin_action a s.batch in
      settle_begin-RecordsSuccess publish a start.0 (record s { batch = start.1 }) k

pub publish_observed_match-FailsClean :
    (m : Machine) (r : Retrying m)
    → IsIdle m r
    → (a : SyncAction) (completed : List CompletedAction)
    → FailsClean (publish_observed_match m r a completed)
unfolding publish_observed_match
publish_observed_match-FailsClean m r idle a completed =
    bind_pure-FailsClean (commit m r a a.local a.remote none []) _
      (commit-FailsClean m r idle a a.local a.remote none [])
