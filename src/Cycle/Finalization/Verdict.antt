-- ===== src/Cycle/Finalization/Verdict.antt =====
-- The verdict of src/sync/sync-cycle-finalization.ts.
use obsidian_air_sync.Prelude.{
  ◌≡◌, ◌⊎◌, refl, true, false, Option, none, some, List, [], ◌∷◌, ◌==◌, nat_eq, option_eq, every,
  any, All, arith, inl, inr, and_iff, ==_iff, Bool-cases,
}
use obsidian_air_sync.Prelude.Text.{str_eq}
use obsidian_air_sync.Prelude.Dict
use obsidian_air_sync.Types.Entity.{SyncRecord}
use obsidian_air_sync.Types.Action.{SyncAction, CompletedAction, proves, TerminalActionProof}
use obsidian_air_sync.Cycle.{AdmissionDisposition, is_authorized, is_failed}
use obsidian_air_sync.Cycle.Finalization.{
  ExecutionResult, SyncCycleFinalizationInput, clean, completion_of, every_action_finished,
  finished_disposition, terminal, completed, is_none_of, succeeded_of, superseded_of, needs_proof,
  is_pull_of, replacement_holds, remote_key,
}

-- The receipt proves the action, where a proof is needed.
abbrev pub Proven : SyncAction → CompletedAction → Type 0
Proven a c =
    (needs_proof a ≡ false)
    ⊎ ((p : TerminalActionProof) × (c.terminal_proof ≡ some p) × (p.action ≡ a.ref))

-- The last receipt of the action proves it.
abbrev pub HasReceipt : ExecutionResult → SyncAction → Type 0
HasReceipt result a =
    (c : CompletedAction) × (Dict.get a.ref (succeeded_of result.succeeded []) ≡ some c)
    × Proven a c

-- The action is the priority pull of its component, and a record of its path and object replaces it.
abbrev pub IsReplaced : ExecutionResult → AdmissionDisposition → SyncAction → Type 0
IsReplaced result d a =
    ((pull : SyncAction) × (d.priority_pull_action ≡ some pull) × (pull.ref ≡ a.ref))
    × ((r : SyncRecord) × (Dict.get a.ref (superseded_of result.superseded []) ≡ some r)
        × (r.path ≡ a.path)
        × (some r.remote_identity_key ≡ remote_key a))

-- An authorized disposition whose actions all reached their end, or one without actions to run.
abbrev pub Finished : ExecutionResult → AdmissionDisposition → Type 0
Finished result d =
    (is_failed d ≡ false)
    × (is_authorized d ≡ true → All (λ a. HasReceipt result a ⊎ IsReplaced result d a) d.actions)

proves_only :
    (o : Option TerminalActionProof) (a : SyncAction)
    → proves o a ≡ true
    → (p : TerminalActionProof) × (o ≡ some p) × (p.action ≡ a.ref)
proves_only none a h = ground arith
proves_only (some p) a h = (p, refl, (==_iff p.action a.ref).0 h)

completed-Proven :
    (o : Option CompletedAction) (a : SyncAction)
    → completed o a ≡ true
    → (c : CompletedAction) × (o ≡ some c) × Proven a c
unfolding completed
completed-Proven none a h = ground arith
completed-Proven (some c) a h = elim (Bool-cases (needs_proof a)) [
  | inl e ↦ (c, refl, inr (proves_only c.terminal_proof a (ground arith)))
  | inr e ↦ (c, refl, inl e)
]

is_pull_of-pull :
    (d : AdmissionDisposition) (o : Option SyncAction) (a : SyncAction)
    → d.priority_pull_action ≡ o
    → is_pull_of d a ≡ true
    → (pull : SyncAction) × (d.priority_pull_action ≡ some pull) × (pull.ref ≡ a.ref)
unfolding is_pull_of
is_pull_of-pull d none a e h = ground arith
is_pull_of-pull d (some pull) a e h = (pull, e, ground (arith, h, e))

replacement_holds-record :
    (o : Option SyncRecord) (a : SyncAction)
    → replacement_holds o a ≡ true
    → (r : SyncRecord) × (o ≡ some r)
      × (r.path ≡ a.path)
      × (some r.remote_identity_key ≡ remote_key a)
unfolding replacement_holds
replacement_holds-record none a h = ground arith
replacement_holds-record (some r) a h =
    let key = some r.remote_identity_key == remote_key a in
    let both = (and_iff (r.path == a.path) key).0 h in
    (
      r,
      refl,
      (==_iff r.path a.path).0 both.0,
      (==_iff (some r.remote_identity_key) (remote_key a)).0 both.1,
    )

terminal-ends :
    (result : ExecutionResult) (d : AdmissionDisposition) (a : SyncAction)
    → terminal result d a ≡ true
    → HasReceipt result a ⊎ IsReplaced result d a
unfolding terminal
terminal-ends result d a h =
    let done = Dict.get a.ref (succeeded_of result.succeeded []) in
    let record_of = Dict.get a.ref (superseded_of result.superseded []) in
    elim (Bool-cases (completed done a)) [
      | inl e ↦ inl (completed-Proven done a e)
      | inr e ↦ inr (
        is_pull_of-pull d d.priority_pull_action a refl (ground arith),
        replacement_holds-record record_of a (ground arith),
      )
    ]

every-All :
    (result : ExecutionResult) (d : AdmissionDisposition) (xs : List SyncAction)
    → every (terminal result d) xs ≡ true
    → All (λ a. HasReceipt result a ⊎ IsReplaced result d a) xs
every-All result d [] h = tt
every-All result d (a ∷ xs) h =
    let b = (and_iff (terminal result d a) (every (terminal result d) xs)).0 h in
    (terminal-ends result d a b.0, every-All result d xs b.1)

dispositions-Finished :
    (result : ExecutionResult) (ds : List AdmissionDisposition)
    → every (finished_disposition result) ds ≡ true
    → any is_failed ds ≡ false
    → All (Finished result) ds
unfolding finished_disposition
dispositions-Finished result [] h k = tt
dispositions-Finished result (d ∷ ds) h k =
    let b =
      (and_iff (finished_disposition result d) (every (finished_disposition result) ds)).0 h in
    (
      (ground arith, λ e. every-All result d d.actions (ground (arith, b.0, e))),
      dispositions-Finished result ds b.1 (ground arith),
    )

no_actions : (xs : List SyncAction) → is_none_of xs ≡ true → xs ≡ []
unfolding is_none_of
no_actions [] h = refl
no_actions (x ∷ xs) h = cc

-- A cycle is clean only if no action failed or was blocked, no priority pull withheld the
-- checkpoint, no component failed admission, and every action of an authorized component either has
-- a receipt, with a proof about this very action where its record moves or it carries content or
-- descendants, or is the priority pull of its component, replaced by a record of its path and its
-- remote object.
pub completion_of-clean :
    (input : SyncCycleFinalizationInput)
    → completion_of input ≡ clean
    → (input.result.failed ≡ [])
      × (input.result.blocked ≡ [])
      × (input.checkpoint_blocked ≡ false)
      × All (Finished input.result) input.dispositions
unfolding completion_of every_action_finished
completion_of-clean input h = (
  no_actions input.result.failed (ground arith),
  no_actions input.result.blocked (ground arith),
  ground arith,
  dispositions-Finished input.result input.dispositions (ground arith) (ground arith),
)
