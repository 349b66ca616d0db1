-- ===== src/Cycle/Finalization/Closeout.antt =====
-- The calls to the checkpoint of src/sync/sync-cycle-finalization.ts.
use obsidian_air_sync.Prelude.{
  ◌≡◌, ◌⊎◌, refl, ap, ◌∙◌, Bool, false, Option, none, some, List, [], ◌∷◌, ◌++◌, inl, inr,
  Option-cases,
}
use obsidian_air_sync.Prelude.Text.{Str}
use obsidian_air_sync.Cycle.Finalization.{
  SyncCycleFinalizationInput, SyncCycleCompletion, clean, follow_up, incomplete, is_clean,
  completion_of, Attempt, returned, threw, Checkpoint, Call, commits, aborts, Closed, closed,
  failed_with, abort_failed, commit, after_commit, close_as, close_with, abort_then, close,
  finish_closeout, run_sync_cycle_attempt,
}

module _ {ℓ κ} {E : Type ℓ} {T : Type κ} where
  -- The cycle closed clean: its input is clean, its fingerprint is committed, and nothing is aborted.
  abbrev pub Committed :
      Checkpoint E
      → Attempt E T
      → (T → Attempt E SyncCycleFinalizationInput)
      → Closed E T × List Call
      → Type (ℓ ⊔ κ)
  Committed c work finalization o =
      (value : T) × (input : SyncCycleFinalizationInput) × (work ≡ returned value)
      × (finalization value ≡ returned input)
      × (completion_of input ≡ clean)
      × (c.commit_checkpoint input.scope_fingerprint ≡ none)
      × (o.0 ≡ closed value clean)
      × (o.1 ≡ commits input.scope_fingerprint ∷ [])

  abbrev pub is_closed_clean : Closed E T → Bool
  is_closed_clean (closed value completion) = is_clean completion
  is_closed_clean (failed_with e) = false
  is_closed_clean (abort_failed e) = false

  -- The cycle did not close clean, and its working view was aborted once, last: alone, or after a
  -- commit that threw.
  abbrev pub Aborted : Checkpoint E → Closed E T × List Call → Type ℓ
  Aborted c o =
      (is_closed_clean o.0 ≡ false)
      × ((o.1 ≡ aborts ∷ [])
          ⊎ ((fingerprint : Str) × (e : E) × (c.commit_checkpoint fingerprint ≡ some e)
              × (o.1 ≡ commits fingerprint ∷ aborts ∷ [])))

  abort_then-outcome :
      (c : Checkpoint E) (o : Closed E T)
      → is_closed_clean o ≡ false
      → (is_closed_clean (abort_then (some c) o).0 ≡ false)
        × ((abort_then (some c) o).1 ≡ aborts ∷ [])
  unfolding abort_then
  abort_then-outcome c o h = elim (Option-cases c.abort_working_view) [
    | inl e ↦ rw e (h, refl)
    | inr (x, e) ↦ rw e (refl, refl)
  ]

  close_threw :
      (c : Checkpoint E) (value : T) (finalization : T → Attempt E SyncCycleFinalizationInput)
      (e : E)
      → finalization value ≡ threw e
      → close (some c) (returned value) finalization ≡ (threw e, [])
  unfolding close close_with
  close_threw c value finalization e f = ap (close_with (some c) value) f

  close_completion :
      (c : Checkpoint E) (value : T) (finalization : T → Attempt E SyncCycleFinalizationInput)
      (input : SyncCycleFinalizationInput) (completion : SyncCycleCompletion)
      → finalization value ≡ returned input
      → completion_of input ≡ completion
      → close (some c) (returned value) finalization
        ≡ close_as (some c) value input.scope_fingerprint completion
  unfolding close close_with
  close_completion c value finalization input completion f u =
      ap (close_with (some c) value) f ∙ ap (close_as (some c) value input.scope_fingerprint) u

  close_as_clean :
      (c : Checkpoint E) (value : T) (fingerprint : Str) (answer : Option E)
      → c.commit_checkpoint fingerprint ≡ answer
      → close_as (some c) value fingerprint clean
        ≡ after_commit value answer (commits fingerprint ∷ [])
  unfolding close_as commit
  close_as_clean c value fingerprint answer k =
      ap (λ o. after_commit value o (commits fingerprint ∷ [])) k

  -- The rest of the closeout.
  abbrev ending :
      Checkpoint E → Attempt E (T × SyncCycleCompletion) × List Call → Closed E T × List Call
  ending c closeout = (
    (finish_closeout (some c) closeout.0).0,
    closeout.1 ++ (finish_closeout (some c) closeout.0).1,
  )

  run_ending :
      (c : Checkpoint E) (work : Attempt E T)
      (finalization : T → Attempt E SyncCycleFinalizationInput)
      (closeout : Attempt E (T × SyncCycleCompletion) × List Call)
      → close (some c) work finalization ≡ closeout
      → run_sync_cycle_attempt (some c) work finalization ≡ ending c closeout
  unfolding run_sync_cycle_attempt
  run_ending c work finalization closeout e = ap (ending c) e

  ending_threw :
      (c : Checkpoint E) (finalization : T → Attempt E SyncCycleFinalizationInput) (e : E)
      → Aborted c (ending c (threw e, []))
  unfolding finish_closeout
  ending_threw c finalization e =
      let a = abort_then-outcome c (failed_with e) refl in (a.0, inl a.1)

  ending_commit_threw :
      (c : Checkpoint E) (finalization : T → Attempt E SyncCycleFinalizationInput)
      (fingerprint : Str) (e : E)
      → c.commit_checkpoint fingerprint ≡ some e
      → Aborted c (ending c (threw e, commits fingerprint ∷ []))
  unfolding finish_closeout
  ending_commit_threw c finalization fingerprint e k =
      let a = abort_then-outcome c (failed_with e) refl in
      (a.0, inr (fingerprint, e, k, ap (λ calls. commits fingerprint ∷ calls) a.1))

  after :
      (c : Checkpoint E) (work : Attempt E T)
      (finalization : T → Attempt E SyncCycleFinalizationInput)
      (closeout : Attempt E (T × SyncCycleCompletion) × List Call)
      → close (some c) work finalization ≡ closeout
      → Aborted c (ending c closeout)
      → Aborted c (run_sync_cycle_attempt (some c) work finalization)
  after c work finalization closeout e h = rw (run_ending c work finalization closeout e) h

  threw_closeout :
      (c : Checkpoint E) (e : E) (finalization : T → Attempt E SyncCycleFinalizationInput)
      → close (some c) (threw e) finalization ≡ (threw e, [])
  unfolding close
  threw_closeout c e finalization = refl

  -- One of the two ends of an attempt.
  abbrev pub CommitsOrAborts :
      Checkpoint E → Attempt E T → (T → Attempt E SyncCycleFinalizationInput) → Type (ℓ ⊔ κ)
  CommitsOrAborts c work finalization =
      Committed c work finalization (run_sync_cycle_attempt (some c) work finalization)
      ⊎ Aborted c (run_sync_cycle_attempt (some c) work finalization)

  clean_calls :
      (c : Checkpoint E) (value : T) (finalization : T → Attempt E SyncCycleFinalizationInput)
      (input : SyncCycleFinalizationInput) (answer : Option E)
      → finalization value ≡ returned input
      → completion_of input ≡ clean
      → c.commit_checkpoint input.scope_fingerprint ≡ answer
      → CommitsOrAborts c (returned value) finalization
  unfolding finish_closeout after_commit
  clean_calls c value finalization input none f u k =
      let fp = input.scope_fingerprint in
      let r =
        run_ending c (returned value) finalization (returned (value, clean), commits fp ∷ [])
          (close_completion c value finalization input clean f u
            ∙ close_as_clean c value fp none k) in
      inl (value, input, refl, f, u, k, ap (λ o. o.0) r, ap (λ o. o.1) r)
  clean_calls c value finalization input (some e) f u k =
      let fp = input.scope_fingerprint in
      inr (
        after c (returned value) finalization (threw e, commits fp ∷ [])
          (close_completion c value finalization input clean f u
            ∙ close_as_clean c value fp (some e) k)
          (ending_commit_threw c finalization fp e k))

  unclean_calls :
      (c : Checkpoint E) (value : T) (finalization : T → Attempt E SyncCycleFinalizationInput)
      (input : SyncCycleFinalizationInput) (completion : SyncCycleCompletion)
      → finalization value ≡ returned input
      → completion_of input ≡ completion
      → CommitsOrAborts c (returned value) finalization
  unfolding finish_closeout close_as
  unclean_calls c value finalization input clean f u =
      clean_calls c value finalization input (c.commit_checkpoint input.scope_fingerprint) f u refl
  unclean_calls c value finalization input follow_up f u =
      let a = abort_then-outcome c (closed value follow_up) refl in
      inr (
        after c (returned value) finalization (returned (value, follow_up), [])
          (close_completion c value finalization input follow_up f u) (a.0, inl a.1))
  unclean_calls c value finalization input incomplete f u =
      let a = abort_then-outcome c (closed value incomplete) refl in
      inr (
        after c (returned value) finalization (returned (value, incomplete), [])
          (close_completion c value finalization input incomplete f u) (a.0, inl a.1))

  returned_calls :
      (c : Checkpoint E) (value : T) (finalization : T → Attempt E SyncCycleFinalizationInput)
      (prepared : Attempt E SyncCycleFinalizationInput)
      → finalization value ≡ prepared
      → CommitsOrAborts c (returned value) finalization
  returned_calls c value finalization (threw e) f = inr (
      after c (returned value) finalization (threw e, []) (close_threw c value finalization e f)
        (ending_threw c finalization e))
  returned_calls c value finalization (returned input) f =
      unclean_calls c value finalization input (completion_of input) f refl

  -- With a checkpoint, every attempt ends in one of two ways. Either the work returned a clean
  -- cycle, its fingerprint was committed without an error, and nothing else was called. Or the
  -- cycle did not close clean, and the working view was aborted exactly once, as the last call,
  -- after no commit or after one that threw; also when the abort itself throws.
  pub run_sync_cycle_attempt-calls :
      (c : Checkpoint E) (work : Attempt E T)
      (finalization : T → Attempt E SyncCycleFinalizationInput)
      → CommitsOrAborts c work finalization
  run_sync_cycle_attempt-calls c (threw e) finalization = inr (
      after c (threw e) finalization (threw e, []) (threw_closeout c e finalization)
        (ending_threw c finalization e))
  run_sync_cycle_attempt-calls c (returned value) finalization =
      returned_calls c value finalization (finalization value) refl
