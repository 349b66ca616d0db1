-- ===== src/Executor/Action/Settled.antt =====
-- The entry that an action leaves in the results of src/sync/plan-executor.ts.
use obsidian_air_sync.Prelude.{
  ℕ, ◌+◌, ◌≡◌, refl, Bool, true, false, Option, none, List, [], ◌∷◌, ◌++◌, length, length-append,
  arith, if◌then◌else◌,
}
use obsidian_air_sync.Types.Action.{SyncAction, CompletedAction}
use obsidian_air_sync.Cycle.{SupersededAction}
use obsidian_air_sync.Cycle.Batch.{Begin, run, invalidated, replaced, begin_action}
use obsidian_air_sync.Files.{
  Failure, proof_mismatch, terminal_invariant, external_io_failure, external_auth_failure, thrown,
  Result, ok, failed, M,
}
use obsidian_air_sync.Executor.Checks.{Machine, World}
use obsidian_air_sync.Executor.Action.{
  Execution, BlockedReason, invalidated_pending, mismatched, block, fatal, fails, settle_failure,
  settle_result, settle_begin, execute_action,
}

module _ {m : Machine} where
  -- The actions that have been reported, in whichever list.
  abbrev pub entries : Execution m → ℕ
  entries s =
      length s.result.succeeded
      + length s.result.superseded
      + length s.result.failures
      + length s.result.blocked

  abbrev pub Accounts : ℕ → Execution m → Option Failure × Execution m → Type 0
  Accounts n s outcome =
      outcome.0 ≡ none → (entries outcome.1 ≡ entries s + n) × (outcome.1.progress ≡ s.progress + n)

  pub block-entries :
      (r : BlockedReason) (a : SyncAction) (s : Execution m) → entries (block r a s) ≡ entries s + 1
  block-entries r a s = omega (arith, length-append s.result.blocked ((a, r) ∷ []))

  fails-Accounts : (e : Failure) (a : SyncAction) (s : Execution m) → Accounts 1 s (fails e a s)
  fails-Accounts e a s h = (omega (arith, length-append s.result.failures ((a, e) ∷ [])), refl)

  fatal-Accounts : (n : ℕ) (e : Failure) (s : Execution m) → Accounts n s (fatal e s)
  fatal-Accounts n e s h = absurd (cc)

  settle_failure-Accounts :
      (e : Failure) (a : SyncAction) (s : Execution m) → Accounts 1 s (settle_failure e a s)
  unfolding settle_failure
  settle_failure-Accounts terminal_invariant a s = fatal-Accounts 1 terminal_invariant s
  settle_failure-Accounts proof_mismatch a s = λ h. (block-entries mismatched a s, refl)
  settle_failure-Accounts (external_auth_failure t) a s = fatal-Accounts 1 (thrown t) s
  settle_failure-Accounts (external_io_failure t) a s = fails-Accounts (external_io_failure t) a s
  settle_failure-Accounts (thrown t) a s = thrown-Accounts t.is_auth_failure
    where
      thrown-Accounts :
          (b : Bool) → Accounts 1 s (if b then fatal (thrown t) s else fails (thrown t) a s)
      thrown-Accounts true = fatal-Accounts 1 (thrown t) s
      thrown-Accounts false = fails-Accounts (thrown t) a s

  pub settle_result-Accounts :
      (a : SyncAction) (r : Result CompletedAction × World m) (s : Execution m)
      → Accounts 1 s (settle_result a r s)
  unfolding settle_result
  settle_result-Accounts a (ok done, w) s =
      λ h. (omega (arith, length-append s.result.succeeded (done ∷ [])), refl)
  settle_result-Accounts a (failed e, w) s = settle_failure-Accounts e a (record s { world = w })

  pub supersede-entries :
      (x : SupersededAction) (s : Execution m)
      → length (s.result.superseded ++ x ∷ []) ≡ length s.result.superseded + 1
  supersede-entries x s = length-append s.result.superseded (x ∷ [])

  settle_begin-Accounts :
      (publish : List CompletedAction → M (World m) CompletedAction) (a : SyncAction) (b : Begin)
      (s : Execution m)
      → Accounts 1 s (settle_begin publish a b s)
  unfolding settle_begin
  settle_begin-Accounts publish a (replaced x) s = λ h. (omega (arith, supersede-entries x s), refl)
  settle_begin-Accounts publish a invalidated s = λ h. (block-entries invalidated_pending a s, refl)
  settle_begin-Accounts publish a run s =
      settle_result-Accounts a (publish s.result.succeeded s.world) s

  -- An action that does not throw leaves one entry and one report.
  pub execute_action-Accounts :
      (publish : List CompletedAction → M (World m) CompletedAction) (a : SyncAction)
      (s : Execution m)
      → Accounts 1 s (execute_action publish a s)
  unfolding execute_action
  execute_action-Accounts publish a s =
      let start = begin_action a s.batch in
      settle_begin-Accounts publish a start.0 (record s { batch = start.1 })
