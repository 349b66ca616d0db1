-- ===== src/Executor/Tests.antt =====
-- A new local note is pushed to an empty remote side; then requests that fail, and a component that stops.
use obsidian_air_sync.Prelude.{
  ℕ, ◌≤◌, ◌≡◌, refl, Bool, true, false, none, some, List, [], ◌∷◌, nat_eq, bool_eq, option_eq,
  length, arith,
}
use obsidian_air_sync.Prelude.Text.{str_eq, codes}
use obsidian_air_sync.Prelude.Dict.{get, add}
use obsidian_air_sync.Types.Entity.{FileEntity, record_eq, local, remote, side_eq, actual_resolved}
use obsidian_air_sync.Types.Action.{
  conflict, merges, SyncAction, CompletedAction, TerminalActionProof,
}
use obsidian_air_sync.Samples.{note, note_local, note_remote, note_push, note_pushed}
use obsidian_air_sync.Samples.Disk.{disk, no_checksums}
use obsidian_air_sync.Store.Memory.{at_path, no_rows, memory}
use obsidian_air_sync.Commit.{Context}
use obsidian_air_sync.Retry.{transient}
use obsidian_air_sync.Cycle.{AdmissionDisposition, authorized}
use obsidian_air_sync.Cycle.Batch.{new_batch, begin_action, set_phase}
use obsidian_air_sync.Files.{thrown, plain_error, Result, ok, failed, M}
use obsidian_air_sync.Executor.Checks.{Machine, World, check_publication_inputs, unchanged_endpoint}
use obsidian_air_sync.Executor.Effects.{Entities}
use obsidian_air_sync.Executor.Action.{
  Retrying, execute_verified_action, max_action_retries, attempts, Execution, no_results,
  execute_action,
}
use obsidian_air_sync.Executor.Action.Settled.{entries}
use obsidian_air_sync.Executor.Action.Attempts.{Runs, attempts-Runs, attempts-count}
use obsidian_air_sync.Executor.Plan.{execute_plan, execute_component, execute_serial}
use obsidian_air_sync.Executor.Plan.Accounted.{execute_plan-Accounts}
use obsidian_air_sync.Executor.Plan.Success.{execute_plan-RecordsSuccess}
use obsidian_air_sync.Executor.Action.Success.{RecordsSuccess}
use obsidian_air_sync.Executor.Conflict.Publish.{publish_conflict}
use obsidian_air_sync.Executor.Conflict.Publish.Kept.{publish_conflict-FailsClean}
use obsidian_air_sync.Resolver.Resolve.{Services}
use obsidian_air_sync.Executor.Plan.Stopped.{Stops, execute_component-Stops}
use obsidian_air_sync.Executor.Action.Recorded.{IsIdle}

-- No merge bases are kept.
abbrev plain : Context memory
plain = record {
  enable_three_way_merge = false;
  read_local = none;
  sha256 = λ bytes. none;
  encode = λ bytes. bytes;
  is_merge_eligible = λ path size. false;
}

abbrev desk : Machine
desk = record { fs = disk; db = memory; registry = no_checksums; committer = plain; now = 7 }

abbrev patient : Retrying desk
patient = record {
  classify = λ t. record { kind = transient; retry_after_ms = none; permanent_code = none };
  draw = λ attempt. 1;
  denom = 2;
  sleep = λ delay w. w;
  on_rate_limit = λ w. w;
}

patient-IsIdle : IsIdle desk patient
patient-IsIdle = (λ delay w. refl, λ w. refl)

abbrev new_note : FileEntity
new_note = record note_local { path_authority = some actual_resolved; hash = [] }

abbrev pushed_note : FileEntity
pushed_note = record note_remote { path_authority = some actual_resolved; mtime = 10 }

abbrev first_push : SyncAction
first_push = record note_push { local = some new_note; remote = none }

abbrev start : World desk
start = (record { side = local; entity = new_note; bytes = codes "abc" } ∷ [], no_rows)

abbrev services : Services
services = record {
  get_content = λ key. none;
  three_way_merge = λ base mine theirs. (mine, true);
  is_valid_json = λ text. true;
  to_lower_case = λ text. text;
  now = 100;
}

abbrev outcome : Result CompletedAction × World desk
outcome = execute_verified_action desk patient first_push [] start

abbrev receipt_in : Result CompletedAction → CompletedAction
receipt_in (ok d) = d
receipt_in (failed e) = note_pushed

abbrev is_ok : Result CompletedAction → Bool
is_ok (ok d) = true
is_ok (failed e) = false

-- The remote note that the plan takes to be absent is there.
abbrev occupied : World desk
occupied = (
  record { side = local; entity = new_note; bytes = codes "abc" }
      ∷ record { side = remote; entity = pushed_note; bytes = codes "xyz" }
      ∷ [],
  no_rows,
)

abbrev written : Entities
written = record {
  local_entity = some new_note;
  remote_entity = some pushed_note;
  intended_content = some (codes "abc");
}

abbrev after_write : World desk
after_write = (
  record { side = remote; entity = pushed_note; bytes = codes "abc" }
      ∷ record { side = local; entity = new_note; bytes = codes "abc" }
      ∷ [],
  no_rows,
)

abbrev both_sides : TerminalActionProof
both_sides = record {
  action = 1;
  local_entity = new_note;
  remote_entity = pushed_note;
  intended_content = some (codes "abc");
  verified_outputs = [];
}

-- A request that leaves a file behind and fails.
abbrev failing : M (World desk) (List ℕ)
failing w = (
  failed (thrown plain_error),
  (record { side = local; entity = new_note; bytes = [] } ∷ w.0, w.1),
)

attempts-Runs_example :
    (n : ℕ) × (n ≤ max_action_retries)
    × Runs desk patient failing 1 occupied n (attempts desk patient 5 1 failing occupied)
attempts-Runs_example = attempts-Runs desk patient failing 5 occupied (omega arith)

attempts-count_example : length (attempts desk patient 5 1 failing occupied).1.0 ≤ 5
attempts-count_example =
    attempts-count desk patient failing (λ w. length w.0) (λ w. omega arith)
      (λ delay w. omega arith) (λ w. omega arith) 5 occupied

abbrev no_conflicts : SyncAction → List CompletedAction → M (World desk) CompletedAction
no_conflicts a completed w = (failed (thrown plain_error), w)

abbrev second_push : SyncAction
second_push = record first_push { ref = 2 }

abbrev pushing : AdmissionDisposition
pushing = record {
  kind = authorized;
  paths = note ∷ [];
  actions = first_push ∷ [];
  priority_pull_action = none;
}

abbrev beginning : World desk → Execution desk
beginning w = record {
  world = w;
  batch = new_batch (pushing ∷ []);
  result = no_results;
  progress = 0;
}

abbrev finished : Execution desk
finished =
    (execute_plan desk patient no_conflicts (λ actions. actions) (pushing ∷ [])
      (beginning occupied)).1

execute_plan-Accounts_example : (entries finished ≡ 1) × (finished.progress ≡ 1)
unfolding execute_plan check_publication_inputs at_path str_eq side_eq nat_eq option_eq
    unchanged_endpoint record_eq begin_action new_batch set_phase get add execute_action
    execute_verified_action
execute_plan-Accounts_example =
    execute_plan-Accounts desk patient no_conflicts (λ actions. actions) (pushing ∷ [])
      (beginning occupied) (λ actions. refl) refl

abbrev stopped : Execution desk
stopped =
    (execute_component desk patient no_conflicts (first_push ∷ second_push ∷ []) false
      (beginning occupied)).1

execute_component-Stops_example :
    Stops desk patient no_conflicts (first_push ∷ second_push ∷ []) (beginning occupied) stopped
unfolding execute_component execute_serial get add execute_action execute_verified_action
    check_publication_inputs at_path str_eq side_eq nat_eq option_eq unchanged_endpoint record_eq
    begin_action new_batch
execute_component-Stops_example =
    execute_component-Stops desk patient no_conflicts (first_push ∷ second_push ∷ [])
      (beginning occupied) stopped refl

execute_plan-RecordsSuccess_example : RecordsSuccess (beginning occupied) (
    execute_plan desk patient
      (publish_conflict desk patient services)
      (λ actions. actions)
      (pushing ∷ [])
      (beginning occupied))
execute_plan-RecordsSuccess_example =
    execute_plan-RecordsSuccess desk patient patient-IsIdle (publish_conflict desk patient services)
      (publish_conflict-FailsClean desk patient patient-IsIdle services) (λ actions. actions)
      (pushing ∷ []) (beginning occupied)

-- The remote note is newer, and wins on both sides.
abbrev newer_note : FileEntity
newer_note = record pushed_note { mtime = 20 }

abbrev edited_twice : SyncAction
edited_twice = record first_push {
  action = conflict;
  remote = some newer_note;
  conflict_policy = some merges;
}

abbrev both_edited : World desk
both_edited = (
  record { side = local; entity = new_note; bytes = codes "abc" }
      ∷ record { side = remote; entity = newer_note; bytes = codes "xyz" }
      ∷ [],
  no_rows,
)

abbrev settled : Result CompletedAction × World desk
settled = publish_conflict desk patient services edited_twice [] both_edited
