-- ===== src/Executor/Plan/Success.antt =====
-- Records change with a receipt only, in a plan of src/sync/plan-executor.ts.
use obsidian_air_sync.Prelude.{
  ◌≡◌, refl, Bool, true, false, not, Option, none, some, List, [], ◌∷◌, ◌==◌, nat_eq, arith,
  if◌then◌else◌,
}
use obsidian_air_sync.Types.Action.{SyncAction, CompletedAction}
use obsidian_air_sync.Cycle.{AdmissionDisposition}
use obsidian_air_sync.Cycle.Batch.{
  Begin, run, invalidated, replaced, begin_action, transfer, structural, set_phase,
}
use obsidian_air_sync.Files.{
  Failure, proof_mismatch, terminal_invariant, external_io_failure, external_auth_failure, thrown,
  Result, ok, failed, M,
}
use obsidian_air_sync.Executor.Kept.{FailsClean}
use obsidian_air_sync.Executor.Checks.{Machine, World}
use obsidian_air_sync.Executor.Action.{
  Retrying, Execution, prefix_failed, block, execute_action, execute_verified_action,
  publish_observed_match,
}
use obsidian_air_sync.Executor.Action.Recorded.{IsIdle, execute_verified_action-FailsClean}
use obsidian_air_sync.Executor.Action.Success.{
  RecordsSuccess, same-RecordsSuccess, then-RecordsSuccess, settle_result-RecordsSuccess,
  execute_action-RecordsSuccess, publish_observed_match-FailsClean,
}
use obsidian_air_sync.Executor.Plan.{
  settle_conflict, begin_conflict, execute_conflict_action, execute_serial, execute_component,
  execute_components, execute_independent, first_of, publish_independent, pruned, execute_rest,
  independent_actions, serial_components, execute_plan, incomplete, is_conflict, is_match,
}

module _ (m : Machine) (r : Retrying m) (idle : IsIdle m r)
    (publish_conflict : SyncAction → List CompletedAction → M (World m) CompletedAction)
    (clean : (a : SyncAction) (completed : List CompletedAction)
      → FailsClean (publish_conflict a completed)) where
  settle_conflict-RecordsSuccess :
      (a : SyncAction) (outcome : Result CompletedAction × World m) (s : Execution m)
      → ((e : Failure) → outcome.0 ≡ failed e → outcome.1.1 ≡ s.world.1)
      → RecordsSuccess s (settle_conflict m r publish_conflict a outcome s)
  unfolding settle_conflict
  settle_conflict-RecordsSuccess a (failed (external_auth_failure t), w) s k =
      (omega arith, λ _. k (external_auth_failure t) refl)
  settle_conflict-RecordsSuccess a (failed (external_io_failure t), w) s k =
      settle_result-RecordsSuccess a (failed (external_io_failure t), w) s k
  settle_conflict-RecordsSuccess a (failed (thrown t), w) s k =
      settle_result-RecordsSuccess a (failed (thrown t), w) s k
  settle_conflict-RecordsSuccess a (failed proof_mismatch, w) s k =
      settle_result-RecordsSuccess a (failed proof_mismatch, w) s k
  settle_conflict-RecordsSuccess a (failed terminal_invariant, w) s k =
      settle_result-RecordsSuccess a (failed terminal_invariant, w) s k
  settle_conflict-RecordsSuccess a (ok done, w) s k =
      settle_result-RecordsSuccess a (ok done, w) s k

  begin_conflict-RecordsSuccess :
      (a : SyncAction) (b : Begin) (s : Execution m)
      → RecordsSuccess s (begin_conflict m r publish_conflict a b s)
  unfolding begin_conflict
  begin_conflict-RecordsSuccess a (replaced x) s = (omega arith, λ _. refl)
  begin_conflict-RecordsSuccess a invalidated s = (omega arith, λ _. refl)
  begin_conflict-RecordsSuccess a run s =
      settle_conflict-RecordsSuccess a (publish_conflict a s.result.succeeded s.world) s
        (clean a s.result.succeeded s.world)

  execute_conflict_action-RecordsSuccess :
      (a : SyncAction) (s : Execution m)
      → RecordsSuccess s (execute_conflict_action m r publish_conflict a s)
  unfolding execute_conflict_action
  execute_conflict_action-RecordsSuccess a s =
      let start = begin_action a s.batch in
      begin_conflict-RecordsSuccess a start.0 (record s { batch = start.1 })

  execute_serial-RecordsSuccess :
      (a : SyncAction) (s : Execution m)
      → RecordsSuccess s (execute_serial m r publish_conflict a s)
  unfolding execute_serial
  execute_serial-RecordsSuccess a s = chosen (is_conflict a)
    where
      chosen :
          (b : Bool)
          → RecordsSuccess s (
              if b
              then execute_conflict_action m r publish_conflict a s
              else execute_action (execute_verified_action m r a) a s)
      chosen true = execute_conflict_action-RecordsSuccess a s
      chosen false =
          execute_action-RecordsSuccess (execute_verified_action m r a) a s
            (execute_verified_action-FailsClean m r idle a)

  after-RecordsSuccess :
      (s t : Execution m) (e : Option Failure) (outcome : Option Failure × Execution m)
      → RecordsSuccess s (e, t)
      → RecordsSuccess t outcome
      → RecordsSuccess s (elim e [ some fault ↦ (some fault, t) | none ↦ outcome ])
  after-RecordsSuccess s t none outcome f g = then-RecordsSuccess s t none outcome f g
  after-RecordsSuccess s t (some fault) outcome f g = f

  execute_component-RecordsSuccess :
      (actions : List SyncAction) (is_blocked : Bool) (s : Execution m)
      → RecordsSuccess s (execute_component m r publish_conflict actions is_blocked s)
  unfolding execute_component
  execute_component-RecordsSuccess [] is_blocked s = (omega arith, λ _. refl)
  execute_component-RecordsSuccess (a ∷ actions) true s =
      let t = block prefix_failed a s in
      then-RecordsSuccess s t none (execute_component m r publish_conflict actions true t)
        (same-RecordsSuccess s t none refl refl) (execute_component-RecordsSuccess actions true t)
  execute_component-RecordsSuccess (a ∷ actions) false s =
      let (e, t) = execute_serial m r publish_conflict a s in
      let is_incomplete = not (incomplete t == incomplete s) in
      after-RecordsSuccess s t e (execute_component m r publish_conflict actions is_incomplete t)
        (execute_serial-RecordsSuccess a s)
        (execute_component-RecordsSuccess actions is_incomplete t)

  execute_components-RecordsSuccess :
      (components : List AdmissionDisposition) (s : Execution m)
      → RecordsSuccess s (execute_components m r publish_conflict components s)
  unfolding execute_components
  execute_components-RecordsSuccess [] s = (omega arith, λ _. refl)
  execute_components-RecordsSuccess (c ∷ components) s =
      let (e, t) = execute_component m r publish_conflict c.actions false s in
      after-RecordsSuccess s t e (execute_components m r publish_conflict components t)
        (execute_component-RecordsSuccess c.actions false s)
        (execute_components-RecordsSuccess components t)

  publish_independent-FailsClean :
      (a : SyncAction) (completed : List CompletedAction)
      → FailsClean (publish_independent m r publish_conflict a completed)
  publish_independent-FailsClean a completed w e = chosen (is_match a)
    where
      chosen :
          (b : Bool)
          → (if b
              then publish_observed_match m r a completed w
              else execute_verified_action m r a completed w).0
            ≡ failed e
          → (if b
              then publish_observed_match m r a completed w
              else execute_verified_action m r a completed w).1.1
            ≡ w.1
      chosen true = publish_observed_match-FailsClean m r idle a completed w e
      chosen false = execute_verified_action-FailsClean m r idle a completed w e

  execute_independent-RecordsSuccess :
      (actions : List SyncAction) (first : Option Failure) (s : Execution m)
      → RecordsSuccess s (execute_independent m r publish_conflict actions first s)
  unfolding execute_independent
  execute_independent-RecordsSuccess [] first s = (omega arith, λ _. refl)
  execute_independent-RecordsSuccess (a ∷ actions) first s =
      let (e, t) = execute_action (publish_independent m r publish_conflict a) a s in
      then-RecordsSuccess s t e
        (execute_independent m r publish_conflict actions (first_of first e) t)
        (execute_action-RecordsSuccess (publish_independent m r publish_conflict a) a s
          (publish_independent-FailsClean a))
        (execute_independent-RecordsSuccess actions (first_of first e) t)

  pruned-RecordsSuccess :
      (s : Execution m) (outcome : Option Failure × Execution m)
      → RecordsSuccess s outcome
      → RecordsSuccess s (pruned m r publish_conflict outcome)
  unfolding pruned
  pruned-RecordsSuccess s (none, t) f = f
  pruned-RecordsSuccess s (some e, t) f = f

  execute_rest-RecordsSuccess :
      (serial : List AdmissionDisposition) (s : Execution m)
      (outcome : Option Failure × Execution m)
      → RecordsSuccess s outcome
      → RecordsSuccess s (execute_rest m r publish_conflict serial outcome)
  unfolding execute_rest
  execute_rest-RecordsSuccess serial s (some fault, t) f = f
  execute_rest-RecordsSuccess [] s (none, t) f = f
  execute_rest-RecordsSuccess (c ∷ serial) s (none, t) f =
      let u = record t { batch = set_phase structural t.batch } in
      let outcome = execute_components m r publish_conflict (c ∷ serial) u in
      then-RecordsSuccess s t none (pruned m r publish_conflict outcome) f
        (pruned-RecordsSuccess u outcome (execute_components-RecordsSuccess (c ∷ serial) u))

  -- If waiting changes no record, and a conflict that fails changes none, then a plan only adds
  -- receipts, and if it added none, whatever failed, was blocked or was thrown, and in whatever
  -- order the independent actions settled, the records and the merge bases are as they were.
  pub execute_plan-RecordsSuccess :
      (order : List SyncAction → List SyncAction) (components : List AdmissionDisposition)
      (s : Execution m)
      → RecordsSuccess s (execute_plan m r publish_conflict order components s)
  unfolding execute_plan
  execute_plan-RecordsSuccess order components s =
      let actions = order (independent_actions components) in
      let t = record s { batch = set_phase transfer s.batch } in
      execute_rest-RecordsSuccess (serial_components components) t
        (execute_independent m r publish_conflict actions none t)
        (execute_independent-RecordsSuccess actions none t)
