-- ===== src/Cycle/Tests.antt =====
-- A batch of one push and one priority pull, and its closeout.
use obsidian_air_sync.Prelude.{
  ℕ, ◌≡◌, ◌≢◌, refl, true, false, none, some, [], ◌∷◌, All, nat_eq, option_eq,
}
use obsidian_air_sync.Prelude.Text.{codes, str_eq}
use obsidian_air_sync.Prelude.Dict.{add, get, set}
use obsidian_air_sync.Cycle.{AdmissionDisposition, authorized, SupersededAction}
use obsidian_air_sync.Cycle.Batch.{
  new_batch, transfer, run, begin_action, phase_set, supersedes, steps,
}
use obsidian_air_sync.Cycle.Batch.Fates.{apart, steps-apart, begin_action-once}
use obsidian_air_sync.Cycle.Finalization.{
  SyncCycleFinalizationInput, completion_of, returned, Checkpoint,
}
use obsidian_air_sync.Cycle.Finalization.Closeout.{CommitsOrAborts, run_sync_cycle_attempt-calls}
use obsidian_air_sync.Cycle.Finalization.Verdict.{Finished, completion_of-clean}
use obsidian_air_sync.Samples.{note, note_push, note_pull, note_pushed, note_record}

abbrev pushing : AdmissionDisposition
pushing = record {
  kind = authorized;
  paths = note ∷ [];
  actions = note_push ∷ [];
  priority_pull_action = none;
}

abbrev pulling : AdmissionDisposition
pulling = record {
  kind = authorized;
  paths = note ∷ [];
  actions = note_pull ∷ [];
  priority_pull_action = some note_pull;
}

steps-apart_example :
    apart 2 (steps (supersedes note_pull note_record ∷ []) (new_batch (pulling ∷ []))) ≡ true
steps-apart_example = steps-apart (supersedes note_pull note_record ∷ []) (pulling ∷ []) 2

begin_action-once_example :
    (begin_action note_push
      (steps (phase_set transfer ∷ []) (begin_action note_push (new_batch (pushing ∷ []))).1)).0
    ≢ run
unfolding begin_action new_batch add nat_eq get
begin_action-once_example =
    begin_action-once note_push (new_batch (pushing ∷ [])) (phase_set transfer ∷ []) refl

abbrev replacement : SupersededAction
replacement = record { action = note_pull; terminal_record = note_record }

abbrev pushed : SyncCycleFinalizationInput
pushed = record {
  dispositions = pushing ∷ [];
  result = record { succeeded = note_pushed ∷ []; superseded = []; failed = []; blocked = [] };
  scope_fingerprint = codes "f";
  checkpoint_blocked = false;
}

completion_of-clean_example :
    (pushed.result.failed ≡ [])
    × (pushed.result.blocked ≡ [])
    × (false ≡ false)
    × All (Finished pushed.result) pushed.dispositions
unfolding completion_of get set nat_eq
completion_of-clean_example = completion_of-clean pushed refl

-- A checkpoint that neither commits nor aborts without an error.
abbrev broken : Checkpoint ℕ
broken = record { commit_checkpoint = λ fingerprint. some 1; abort_working_view = some 2 }

run_sync_cycle_attempt-calls_example :
    CommitsOrAborts broken (returned pushed) (λ input. returned input)
run_sync_cycle_attempt-calls_example =
    run_sync_cycle_attempt-calls broken (returned pushed) (λ input. returned input)
