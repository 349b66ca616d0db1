-- ===== src/Executor/Action/Recorded.antt =====
-- What an action of src/sync/plan-executor.ts leaves in the record store.
use obsidian_air_sync.Prelude.{
  ℕ, zero, suc, ◌+◌, ◌≡◌, refl, ap, sym, ◌∙◌, Bool, true, false, Option, none, some, List,
}
use obsidian_air_sync.Types.Entity.{FileEntity, SyncRecord}
use obsidian_air_sync.Types.Action.{
  SyncAction, CompletedAction, TerminalActionProof, is_rename, is_removal,
}
use obsidian_air_sync.Commit
use obsidian_air_sync.Commit.{commit_action, build_sync_record}
use obsidian_air_sync.Commit.Safety.{commit_action_unchanged}
use obsidian_air_sync.Files.{Failure, Result, ok, failed, M}
use obsidian_air_sync.Executor.Kept.{
  Keeps, if-Keeps, FailsClean, bind-FailsClean, bind_pure-FailsClean,
}
use obsidian_air_sync.Executor.Checks.{Machine, World, check_publication_inputs}
use obsidian_air_sync.Executor.Checks.Kept.{check_publication_inputs-Keeps}
use obsidian_air_sync.Executor.Effects.{Entities, run_action_io}
use obsidian_air_sync.Executor.Effects.Kept.{run_action_io-Keeps}
use obsidian_air_sync.Executor.Effects.Intended.{IsIntended}
use obsidian_air_sync.Executor.Terminal.{prove_admitted_terminal}
use obsidian_air_sync.Executor.Terminal.Kept.{prove_admitted_terminal-Keeps}
use obsidian_air_sync.Executor.Terminal.Proved.{IsProved}
use obsidian_air_sync.Executor.Action.{
  Retrying, unwrap_failure, pause, after_failure, after_attempt, attempts, with_io_retry,
  retry_fuel, committed, commit, local_of, remote_of, action_io, execute_verified_action,
}

-- A wait changes no record.
abbrev pub IsIdle : (m : Machine) → Retrying m → Type 0
IsIdle m r =
    ((delay : ℕ) (w : World m) → (r.sleep delay w).1 ≡ w.1)
    × ((w : World m) → (r.on_rate_limit w).1 ≡ w.1)

module _ (m : Machine) (r : Retrying m) (idle : IsIdle m r) where
  module _ {A : Type 0} where
    after_failure-store :
        (p : Option (Bool × ℕ)) (e : Failure) (again : M (World m) A) (w : World m)
        → Keeps again
        → (after_failure m r p e again w).1.1 ≡ w.1
    unfolding after_failure
    after_failure-store none e again w k = refl
    after_failure-store (some (true, delay)) e again w k =
        k (r.sleep delay (r.on_rate_limit w)) ∙ idle.0 delay (r.on_rate_limit w) ∙ idle.1 w
    after_failure-store (some (false, delay)) e again w k = k (r.sleep delay w) ∙ idle.0 delay w

    after_attempt-store :
        (attempt : ℕ) (outcome : Result A × World m) (again : M (World m) A)
        → Keeps again
        → (after_attempt m r attempt outcome again).1.1 ≡ outcome.1.1
    unfolding after_attempt
    after_attempt-store attempt (ok a, w) again k = refl
    after_attempt-store attempt (failed e, w) again k =
        after_failure-store (pause m r attempt (unwrap_failure e)) (unwrap_failure e) again w k

    attempts-Keeps :
        (fuel attempt : ℕ) (io : M (World m) A) → Keeps io → Keeps (attempts m r fuel attempt io)
    unfolding attempts
    attempts-Keeps zero attempt io k w = refl
    attempts-Keeps (suc fuel) attempt io k w =
        after_attempt-store attempt (io w) (attempts m r fuel (attempt + 1) io)
          (attempts-Keeps fuel (attempt + 1) io k)
        ∙ k w

    with_io_retry-Keeps : (io : M (World m) A) → Keeps io → Keeps (with_io_retry m r io)
    unfolding with_io_retry
    with_io_retry-Keeps io k = attempts-Keeps retry_fuel 1 io k

  action_io-Keeps : (a : SyncAction) → Keeps (action_io m r a)
  unfolding action_io
  action_io-Keeps a =
      if-Keeps (is_rename a) (run_action_io m a) (with_io_retry m r (run_action_io m a))
        (run_action_io-Keeps m a)
        (with_io_retry-Keeps (run_action_io m a) (run_action_io-Keeps m a))

  committed-store :
      (outcome : Commit.Result (Option SyncRecord) × m.db.State) (f : m.fs.State) (d : m.db.State)
      (e : Failure)
      → ((x : Commit.CommitError) → outcome.0 ≡ Commit.err x → outcome.1 ≡ d)
      → (committed m r outcome f).0 ≡ failed e
      → (committed m r outcome f).1.1 ≡ d
  committed-store (Commit.ok rec, d') f d e k h = absurd (cc)
  committed-store (Commit.err x, d') f d e k h = k x refl

  pub commit-FailsClean :
      (a : SyncAction) (mine theirs : Option FileEntity) (proof : Option TerminalActionProof)
      (completed : List CompletedAction)
      → FailsClean (commit m r a mine theirs proof completed)
  unfolding commit
  commit-FailsClean a mine theirs proof completed w e =
      committed-store (commit_action m.db m.committer m.now a mine theirs proof completed w.1) w.0
        w.1 e (commit_action_unchanged m.db m.committer m.now a mine theirs proof completed w.1)

  -- If waiting changes no record, an action that fails, at any of its checks, at its input and
  -- output after all retries, at its proof or at its commit, leaves the records and the merge bases
  -- as they were.
  pub execute_verified_action-FailsClean :
      (a : SyncAction) (completed : List CompletedAction)
      → FailsClean (execute_verified_action m r a completed)
  unfolding execute_verified_action
  execute_verified_action-FailsClean a completed =
      bind-FailsClean (check_publication_inputs m a completed) _
        (check_publication_inputs-Keeps m a completed)
        (λ _. bind-FailsClean (action_io m r a) _ (action_io-Keeps a) (λ entities.
          bind-FailsClean (prove_admitted_terminal m a entities completed) _
            (prove_admitted_terminal-Keeps m a entities completed)
            (λ proof.
              bind_pure-FailsClean
                (commit m r a (local_of m r proof entities) (remote_of m r proof entities) proof
                  completed)
                _
                (commit-FailsClean a (local_of m r proof entities) (remote_of m r proof entities)
                  proof completed))))

  -- What the receipt of a completed action says of the store, the entities and the proof.
  abbrev pub IsReceipt : SyncAction → List CompletedAction → CompletedAction → World m → Type 0
  IsReceipt a completed done w =
      (done.action ≡ a)
      × ((rec : SyncRecord)
          → done.terminal_record ≡ some rec
          → (build_sync_record m.now done.local_entity done.remote_entity a.path ≡ Commit.ok rec)
            × (m.db.get rec.remote_identity_key w.1 ≡ some rec)
            × (is_removal a ≡ false))
      × (is_removal a ≡ false
          → (p : TerminalActionProof) × (entities : Entities) × (s : World m) × (u : World m)
            × (v : World m) × (action_io m r a s ≡ (ok entities, u))
            × (done.terminal_proof ≡ some p)
            × (done.local_entity ≡ some p.local_entity)
            × (done.remote_entity ≡ some p.remote_entity)
            × IsIntended m a.action a entities.intended_content
            × IsProved m a entities completed u v p)

  pub committed-ok :
      (outcome : Commit.Result (Option SyncRecord) × m.db.State) (f : m.fs.State)
      (rec : Option SyncRecord) (t : World m)
      → committed m r outcome f ≡ (ok rec, t)
      → outcome ≡ (Commit.ok rec, t.1)
  committed-ok (Commit.ok found, d) f rec t h =
      ap (λ o. (Commit.ok (elim o.0 [ ok x ↦ x | failed e ↦ found ]), o.1.1)) h
  committed-ok (Commit.err e, d) f rec t h = absurd (cc)

  -- A call that keeps the records left them as they were where it came out.
  pub same_store :
      {A : Type 0} (f : M (World m) A) (w : World m) (outcome : Result A × World m)
      → Keeps f
      → f w ≡ outcome
      → outcome.1.1 ≡ w.1
  same_store f w outcome k h = sym (ap (λ o. o.1.1) h) ∙ k w

  abbrev receipt :
      SyncAction → Option TerminalActionProof → Entities → Option SyncRecord → CompletedAction
  receipt a proof entities rec = record {
    action = a;
    local_entity = local_of m r proof entities;
    remote_entity = remote_of m r proof entities;
    terminal_proof = proof;
    terminal_record = rec;
  }
