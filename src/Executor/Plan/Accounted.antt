-- ===== src/Executor/Plan/Accounted.antt =====
-- What becomes of each action of a plan in src/sync/plan-executor.ts.
use obsidian_air_sync.Prelude.{
  ℕ, ◌+◌, ◌≡◌, refl, ap, sym, Bool, true, false, not, ◌&&◌, Option, none, some, List, [], ◌∷◌, ◌++◌,
  length, length-append, ◌==◌, nat_eq, arith, if◌then◌else◌,
}
use obsidian_air_sync.Prelude.Text.{Str}
use obsidian_air_sync.Types.Action.{SyncAction, CompletedAction}
use obsidian_air_sync.Cycle.{AdmissionDisposition}
use obsidian_air_sync.Cycle.Batch.{
  Begin, run, invalidated, replaced, begin_action, transfer, structural, set_phase,
}
use obsidian_air_sync.Files.{
  Failure, proof_mismatch, terminal_invariant, external_io_failure, external_auth_failure, thrown,
  Result, ok, failed, M,
}
use obsidian_air_sync.Executor.Checks.{Machine, World}
use obsidian_air_sync.Executor.Action.{
  Retrying, Execution, prefix_failed, invalidated_pending, block, execute_action,
  execute_verified_action,
}
use obsidian_air_sync.Executor.Action.Settled.{
  Accounts, block-entries, supersede-entries, settle_result-Accounts, execute_action-Accounts,
}
use obsidian_air_sync.Executor.Plan.{
  settle_conflict, begin_conflict, execute_conflict_action, execute_serial, execute_component,
  execute_components, execute_independent, publish_independent, pruned, execute_rest,
  independent_actions, serial_components, independent_action, only_action, keeps_address, is_simple,
  execute_plan, incomplete, is_conflict,
}

-- The actions of some components, in order.
abbrev pub all_actions : List AdmissionDisposition → List SyncAction
all_actions [] = []
all_actions (c ∷ components) = c.actions ++ all_actions components

only_action-singleton :
    (paths : List Str) (actions : List SyncAction) (a : SyncAction)
    → only_action paths actions ≡ some a
    → actions ≡ a ∷ []
unfolding only_action
only_action-singleton paths [] a h = absurd (cc)
only_action-singleton paths (x ∷ y ∷ actions) a h = absurd (cc)
only_action-singleton paths (x ∷ []) a h =
    chosen (length paths == 1 && keeps_address x x.publication && is_simple x) h
  where
    chosen :
        (b : Bool)
        → ◌≡◌ {A = Option SyncAction} (if b then some x else none) (some a)
        → ◌≡◌ {A = List SyncAction} (x ∷ []) (a ∷ [])
    chosen true e = ap (λ o. elim o [ none ↦ x ∷ [] | some y ↦ y ∷ [] ]) e
    chosen false e = absurd (cc)

independent_action-singleton :
    (c : AdmissionDisposition) (a : SyncAction) → independent_action c ≡ some a → c.actions ≡ a ∷ []
unfolding independent_action
independent_action-singleton c a h = only_action-singleton c.paths c.actions a h

-- An action runs in the pool or with its component, not both.
independent_actions-length :
    (components : List AdmissionDisposition)
    → length (independent_actions components) + length (all_actions (serial_components components))
      ≡ length (all_actions components)
unfolding independent_actions serial_components
independent_actions-length [] = refl
independent_actions-length (c ∷ components) =
    of_first (independent_action c) refl (independent_actions-length components)
  where
    of_first :
        (o : Option SyncAction)
        → independent_action c ≡ o
        → length (independent_actions components)
            + length (all_actions (serial_components components))
          ≡ length (all_actions components)
        → length {A = SyncAction} (elim o [
          | none ↦ independent_actions components
          | some a ↦ a ∷ independent_actions components
        ])
            + length (
                all_actions (elim o [
                  | none ↦ c ∷ serial_components components
                  | some a ↦ serial_components components
                ]))
          ≡ length (c.actions ++ all_actions components)
    of_first none h ih = omega (
      arith,
      length-append c.actions (all_actions components),
      length-append c.actions (all_actions (serial_components components)),
      ih,
    )
    of_first (some a) h ih = omega (
      arith,
      length-append c.actions (all_actions components),
      ap (λ actions. length actions) (independent_action-singleton c a h),
      ih,
    )

module _ (m : Machine) (r : Retrying m)
    (publish_conflict : SyncAction → List CompletedAction → M (World m) CompletedAction) where
  settle_conflict-Accounts :
      (a : SyncAction) (outcome : Result CompletedAction × World m) (s : Execution m)
      → Accounts 1 s (settle_conflict m r publish_conflict a outcome s)
  unfolding settle_conflict
  settle_conflict-Accounts a (failed (external_auth_failure t), w) s = λ h. absurd (cc)
  settle_conflict-Accounts a (failed (external_io_failure t), w) s =
      settle_result-Accounts a (failed (external_io_failure t), w) s
  settle_conflict-Accounts a (failed (thrown t), w) s =
      settle_result-Accounts a (failed (thrown t), w) s
  settle_conflict-Accounts a (failed proof_mismatch, w) s =
      settle_result-Accounts a (failed proof_mismatch, w) s
  settle_conflict-Accounts a (failed terminal_invariant, w) s =
      settle_result-Accounts a (failed terminal_invariant, w) s
  settle_conflict-Accounts a (ok done, w) s = settle_result-Accounts a (ok done, w) s

  begin_conflict-Accounts :
      (a : SyncAction) (b : Begin) (s : Execution m)
      → Accounts 1 s (begin_conflict m r publish_conflict a b s)
  unfolding begin_conflict
  begin_conflict-Accounts a (replaced x) s = λ h. (omega (arith, supersede-entries x s), refl)
  begin_conflict-Accounts a invalidated s = λ h. (block-entries invalidated_pending a s, refl)
  begin_conflict-Accounts a run s =
      settle_conflict-Accounts a (publish_conflict a s.result.succeeded s.world) s

  execute_conflict_action-Accounts :
      (a : SyncAction) (s : Execution m)
      → Accounts 1 s (execute_conflict_action m r publish_conflict a s)
  unfolding execute_conflict_action
  execute_conflict_action-Accounts a s =
      let start = begin_action a s.batch in
      begin_conflict-Accounts a start.0 (record s { batch = start.1 })

  execute_serial-Accounts :
      (a : SyncAction) (s : Execution m) → Accounts 1 s (execute_serial m r publish_conflict a s)
  unfolding execute_serial
  execute_serial-Accounts a s = chosen (is_conflict a)
    where
      chosen :
          (b : Bool)
          → Accounts 1 s (
              if b
              then execute_conflict_action m r publish_conflict a s
              else execute_action (execute_verified_action m r a) a s)
      chosen true = execute_conflict_action-Accounts a s
      chosen false = execute_action-Accounts (execute_verified_action m r a) a s

  then-Accounts :
      (k n total : ℕ) (s t : Execution m) (outcome : Option Failure × Execution m)
      → k + n ≡ total
      → Accounts k s (none, t)
      → Accounts n t outcome
      → Accounts total s outcome
  then-Accounts k n total s t outcome e f g h =
      let (a, b) = f refl in let (c, d) = g h in (omega (arith, a, c, e), omega (arith, b, d, e))

  -- What throws ends the serial part.
  after-Accounts :
      (k n total : ℕ) (s t : Execution m) (e : Option Failure)
      (outcome : Option Failure × Execution m)
      → k + n ≡ total
      → Accounts k s (e, t)
      → Accounts n t outcome
      → Accounts total s (elim e [ some fault ↦ (some fault, t) | none ↦ outcome ])
  after-Accounts k n total s t none outcome eq f g = then-Accounts k n total s t outcome eq f g
  after-Accounts k n total s t (some fault) outcome eq f g = λ h. absurd (cc)

  execute_component-Accounts :
      (actions : List SyncAction) (is_blocked : Bool) (s : Execution m)
      → Accounts (length actions) s (execute_component m r publish_conflict actions is_blocked s)
  unfolding execute_component
  execute_component-Accounts [] is_blocked s = λ h. (omega arith, omega arith)
  execute_component-Accounts (a ∷ actions) true s =
      let t = block prefix_failed a s in
      then-Accounts 1 (length actions) (length (a ∷ actions)) s t
        (execute_component m r publish_conflict actions true t) (omega arith)
        (λ h. (block-entries prefix_failed a s, refl)) (execute_component-Accounts actions true t)
  execute_component-Accounts (a ∷ actions) false s =
      let (e, t) = execute_serial m r publish_conflict a s in
      let is_incomplete = not (incomplete t == incomplete s) in
      after-Accounts 1 (length actions) (length (a ∷ actions)) s t e
        (execute_component m r publish_conflict actions is_incomplete t) (omega arith)
        (execute_serial-Accounts a s) (execute_component-Accounts actions is_incomplete t)

  execute_components-Accounts :
      (components : List AdmissionDisposition) (s : Execution m)
      → Accounts
          (length (all_actions components))
          s
          (execute_components m r publish_conflict components s)
  unfolding execute_components
  execute_components-Accounts [] s = λ h. (omega arith, omega arith)
  execute_components-Accounts (c ∷ components) s =
      let (e, t) = execute_component m r publish_conflict c.actions false s in
      after-Accounts (length c.actions) (length (all_actions components))
        (length (c.actions ++ all_actions components)) s t e
        (execute_components m r publish_conflict components t)
        (sym (length-append c.actions (all_actions components)))
        (execute_component-Accounts c.actions false s) (execute_components-Accounts components t)

  execute_independent-first :
      (actions : List SyncAction) (first : Option Failure) (s : Execution m)
      → (execute_independent m r publish_conflict actions first s).0 ≡ none
      → first ≡ none
  unfolding execute_independent
  execute_independent-first [] first s h = h
  execute_independent-first (a ∷ actions) none s h = refl
  execute_independent-first (a ∷ actions) (some e) s h =
      execute_independent-first actions (some e)
        (execute_action (publish_independent m r publish_conflict a) a s).1 h

  execute_independent-Accounts :
      (actions : List SyncAction) (s : Execution m)
      → Accounts (length actions) s (execute_independent m r publish_conflict actions none s)
  unfolding execute_independent
  execute_independent-Accounts [] s = λ h. (omega arith, omega arith)
  execute_independent-Accounts (a ∷ actions) s =
      let outcome = execute_action (publish_independent m r publish_conflict a) a s in
      of_first outcome.0 outcome.1
        (execute_action-Accounts (publish_independent m r publish_conflict a) a s)
        (execute_independent-Accounts actions outcome.1)
    where
      none_first : {e : Failure} → some e ≡ none → ⊥
      none_first h = absurd (cc)

      of_first :
          (e : Option Failure) (t : Execution m)
          → Accounts 1 s (e, t)
          → Accounts (length actions) t (execute_independent m r publish_conflict actions none t)
          → Accounts (length (a ∷ actions)) s (execute_independent m r publish_conflict actions e t)
      of_first none t f g h =
          then-Accounts 1 (length actions) (length (a ∷ actions)) s t
            (execute_independent m r publish_conflict actions none t) (omega arith) f g h
      of_first (some e) t f g h =
          absurd (none_first (execute_independent-first actions (some e) t h))

  pruned-Accounts :
      (n : ℕ) (s : Execution m) (outcome : Option Failure × Execution m)
      → Accounts n s outcome
      → Accounts n s (pruned m r publish_conflict outcome)
  unfolding pruned
  pruned-Accounts n s (none, t) f = f
  pruned-Accounts n s (some e, t) f = f

  execute_rest-Accounts :
      (serial : List AdmissionDisposition) (n : ℕ) (s : Execution m)
      (outcome : Option Failure × Execution m)
      → Accounts n s outcome
      → Accounts
          (n + length (all_actions serial))
          s
          (execute_rest m r publish_conflict serial outcome)
  unfolding execute_rest
  execute_rest-Accounts serial n s (some fault, t) f = λ h. absurd (cc)
  execute_rest-Accounts [] n s (none, t) f =
      then-Accounts n 0 (n + 0) s t (none, t) refl f (λ h. (omega arith, omega arith))
  execute_rest-Accounts (c ∷ serial) n s (none, t) f =
      let u = record t { batch = set_phase structural t.batch } in
      let outcome = execute_components m r publish_conflict (c ∷ serial) u in
      let k = length (all_actions (c ∷ serial)) in
      then-Accounts n k (n + k) s t (pruned m r publish_conflict outcome) refl f
        (pruned-Accounts k u outcome (execute_components-Accounts (c ∷ serial) u))

  -- Where a plan throws nothing, in whatever order its independent actions settle, the entries
  -- among the succeeded, the superseded, the failed and the blocked actions, taken together, have
  -- grown by exactly the number of the plan's actions, and so have the reports of progress.
  pub execute_plan-Accounts :
      (order : List SyncAction → List SyncAction) (components : List AdmissionDisposition)
      (s : Execution m)
      → ((actions : List SyncAction) → length (order actions) ≡ length actions)
      → Accounts
          (length (all_actions components))
          s
          (execute_plan m r publish_conflict order components s)
  unfolding execute_plan
  execute_plan-Accounts order components s settles h =
      let actions = independent_actions components in
      let t = record s { batch = set_phase transfer s.batch } in
      let serial = serial_components components in
      let (a, b) =
        execute_rest-Accounts serial (length (order actions)) t
          (execute_independent m r publish_conflict (order actions) none t)
          (execute_independent-Accounts (order actions) t) h in
      (
        omega (arith, a, settles actions, independent_actions-length components),
        omega (arith, b, settles actions, independent_actions-length components),
      )
