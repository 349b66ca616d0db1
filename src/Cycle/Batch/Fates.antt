-- ===== src/Cycle/Batch/Fates.antt =====
-- The fates of an action in src/sync/priority-batch-state.ts.
use mathlib.Core.Option.{some-injective, none-ne-some}
use obsidian_air_sync.Prelude.{
  ℕ, ◌≡◌, ◌≢◌, refl, sym, ap, ◌∙◌, Bool, true, false, not, ◌&&◌, none, some, List, [], ◌∷◌, ◌==◌,
  nat_eq, option_eq, contains, any, arith, ==_iff, and_iff, Bool-cases, inl, inr,
}
use obsidian_air_sync.Prelude.Text.{Str, str_eq}
use obsidian_air_sync.Prelude.Dict
use obsidian_air_sync.Prelude.Dict.{Dict, get, add, remove, contains-add, contains-remove}
use obsidian_air_sync.Types.Entity.{SyncRecord}
use obsidian_air_sync.Types.Action.{SyncAction}
use obsidian_air_sync.Cycle.{AdmissionDisposition, executable_components, SupersededAction}
use obsidian_air_sync.Cycle.Batch.{
  PriorityBatchState, run, invalidated, replaced, new_batch, is_aborting, set_phase, begin_action,
  replaces, supersede, invalidate, defer, priority_target, is_priority_pull, identity_key_of, Event,
  phase_set, aborted, checkpoint_blocks, begins, blocked, invalidates, supersedes, step, steps,
}

abbrev pub is_superseded : ℕ → PriorityBatchState → Bool
is_superseded r s = elim (Dict.get r s.superseded) [ none ↦ false | some a ↦ true ]

abbrev pub apart : ℕ → PriorityBatchState → Bool
apart r s =
    not (contains s.pending r && is_superseded r s)
    && not (contains s.pending r && contains s.invalidated r)
    && not (is_superseded r s && contains s.invalidated r)

step-apart :
    (e : Event) (r : ℕ) (s : PriorityBatchState) → apart r s ≡ true → apart r (step e s) ≡ true
unfolding step set_phase begin_action supersede invalidate
step-apart (phase_set phase) r s h = ground arith
step-apart aborted r s h = h
step-apart checkpoint_blocks r s h = h
step-apart (begins a) r s h = ground (arith, contains-remove a.ref r s.pending)
step-apart (blocked a) r s h = ground (arith, contains-remove a.ref r s.pending)
step-apart (invalidates a) r s h =
    ground (arith, contains-remove a.ref r s.pending, contains-add a.ref r s.invalidated)
step-apart (supersedes a t) r s h = ground (
  arith,
  contains-remove a.ref r s.pending,
  Dict.get-set r a.ref (record { action = a; terminal_record = t }) s.superseded,
)

steps-apart_from :
    (es : List Event) (r : ℕ) (s : PriorityBatchState)
    → apart r s ≡ true
    → apart r (steps es s) ≡ true
unfolding steps
steps-apart_from [] r s h = h
steps-apart_from (e ∷ es) r s h = steps-apart_from es r (step e s) (step-apart e r s h)

fresh-apart :
    (r : ℕ) (s : PriorityBatchState) → s.superseded ≡ [] → s.invalidated ≡ [] → apart r s ≡ true
unfolding get
fresh-apart r s p q = rw (p, q) (ground arith)

-- Whatever happens to a batch, no action is at once pending and replaced, pending and invalidated,
-- or replaced and invalidated.
pub steps-apart :
    (es : List Event) (dispositions : List AdmissionDisposition) (r : ℕ)
    → apart r (steps es (new_batch dispositions)) ≡ true
unfolding new_batch
steps-apart es dispositions r =
    steps-apart_from es r (new_batch dispositions)
      (fresh-apart r (new_batch dispositions) refl refl)

step-no_pending :
    (e : Event) (r : ℕ) (s : PriorityBatchState)
    → contains s.pending r ≡ false
    → contains (step e s).pending r ≡ false
unfolding step set_phase begin_action supersede invalidate
step-no_pending (phase_set phase) r s h = ground arith
step-no_pending aborted r s h = h
step-no_pending checkpoint_blocks r s h = h
step-no_pending (begins a) r s h = ground (arith, contains-remove a.ref r s.pending)
step-no_pending (blocked a) r s h = ground (arith, contains-remove a.ref r s.pending)
step-no_pending (invalidates a) r s h = ground (arith, contains-remove a.ref r s.pending)
step-no_pending (supersedes a t) r s h = ground (arith, contains-remove a.ref r s.pending)

steps-no_pending :
    (es : List Event) (r : ℕ) (s : PriorityBatchState)
    → contains s.pending r ≡ false
    → contains (steps es s).pending r ≡ false
unfolding steps
steps-no_pending [] r s h = h
steps-no_pending (e ∷ es) r s h = steps-no_pending es r (step e s) (step-no_pending e r s h)

begin_action-run :
    (a : SyncAction) (s : PriorityBatchState)
    → (begin_action a s).0 ≡ run
    → (contains s.pending a.ref ≡ true) × (contains (begin_action a s).1.pending a.ref ≡ false)
unfolding begin_action
begin_action-run a s h = ground (arith, contains-remove a.ref a.ref s.pending)

-- An action that was told to run is never told so again, whatever happens to the batch in between.
pub begin_action-once :
    (a : SyncAction) (s : PriorityBatchState) (es : List Event)
    → (begin_action a s).0 ≡ run
    → (begin_action a (steps es (begin_action a s).1)).0 ≢ run
begin_action-once a s es h k =
    let p = begin_action-run a (steps es (begin_action a s).1) k in
    let q = steps-no_pending es a.ref (begin_action a s).1 (begin_action-run a s h).1 in
    ground (arith, p, q)

step-aborting :
    (e : Event) (s : PriorityBatchState)
    → is_aborting s.phase ≡ true
    → is_aborting (step e s).phase ≡ true
unfolding step set_phase begin_action supersede invalidate
step-aborting (phase_set phase) s h = ground arith
step-aborting aborted s h = refl
step-aborting checkpoint_blocks s h = h
step-aborting (begins a) s h = ground arith
step-aborting (blocked a) s h = h
step-aborting (invalidates a) s h = ground arith
step-aborting (supersedes a t) s h = ground arith

steps-aborting :
    (es : List Event) (s : PriorityBatchState)
    → is_aborting s.phase ≡ true
    → is_aborting (steps es s).phase ≡ true
unfolding steps
steps-aborting [] s h = h
steps-aborting (e ∷ es) s h = steps-aborting es (step e s) (step-aborting e s h)

-- An aborted batch stays so: whatever happens to it, no action runs or counts as replaced, and no
-- priority pull starts.
pub aborted_for_good :
    (es : List Event) (s : PriorityBatchState) (a : SyncAction) (path : Str)
    → is_aborting s.phase ≡ true
    → ((begin_action a (steps es s)).0 ≡ invalidated) × (priority_target path (steps es s) ≡ defer)
unfolding begin_action priority_target
aborted_for_good es s a path h = ground (arith, steps-aborting es s h)

-- A record that may stand for an admitted action.
abbrev pub Replaces : List AdmissionDisposition → SupersededAction → Type 0
Replaces dispositions r =
    (any (is_priority_pull r.action) (executable_components dispositions) ≡ true)
    × (r.terminal_record.path ≡ r.action.path)
    × (some r.terminal_record.remote_identity_key ≡ identity_key_of r.action.remote)

abbrev pub Sound : List AdmissionDisposition → PriorityBatchState → Type 0
Sound dispositions s =
    (s.dispositions ≡ dispositions)
    × ((r : ℕ) (a : SupersededAction)
        → Dict.get r s.superseded ≡ some a
        → (a.action.ref ≡ r) × Replaces dispositions a)

replaces-Replaces :
    (dispositions : List AdmissionDisposition) (s : PriorityBatchState) (a : SyncAction)
    (t : SyncRecord)
    → s.dispositions ≡ dispositions
    → replaces a t s ≡ true
    → Replaces dispositions (record { action = a; terminal_record = t })
unfolding replaces
replaces-Replaces dispositions s a t d g =
    let pull = any (is_priority_pull a) (executable_components s.dispositions) in
    let key = some t.remote_identity_key == identity_key_of a.remote in
    let outer = (and_iff (pull && t.path == a.path) key).0 g in
    let inner = (and_iff pull (t.path == a.path)).0 outer.0 in
    (
      rw⁻¹ d inner.0,
      (==_iff t.path a.path).0 inner.1,
      (==_iff (some t.remote_identity_key) (identity_key_of a.remote)).0 outer.1,
    )

set-now :
    (dispositions : List AdmissionDisposition) (sup x : SupersededAction) (r : ℕ)
    → some sup ≡ some x
    → r ≡ sup.action.ref
    → Replaces dispositions sup
    → (x.action.ref ≡ r) × Replaces dispositions x
set-now dispositions sup x r e p h = rw⁻¹ (some-injective sup x e) (sym p, h)

set-Sound :
    (dispositions : List AdmissionDisposition) (s : PriorityBatchState) (a : SyncAction)
    (t : SyncRecord)
    → Sound dispositions s
    → replaces a t s ≡ true
    → (r : ℕ) (x : SupersededAction)
    → Dict.get r (Dict.set a.ref (record { action = a; terminal_record = t }) s.superseded) ≡ some x
    → (x.action.ref ≡ r) × Replaces dispositions x
set-Sound dispositions s a t (d, h) g r x e =
    let sup : SupersededAction = record { action = a; terminal_record = t } in
    let f = Dict.get-set r a.ref sup s.superseded in
    elim (nat_eq.dec r a.ref) [
      | yes p ↦
          set-now dispositions sup x r (ground (arith, f, e, p)) p
            (replaces-Replaces dispositions s a t d g)
      | no n ↦ h r x (ground (arith, e, f))
    ]

Sound-of :
    (dispositions : List AdmissionDisposition) (s t : PriorityBatchState)
    → Sound dispositions s
    → (t.dispositions ≡ s.dispositions) × (t.superseded ≡ s.superseded)
    → Sound dispositions t
Sound-of dispositions s t (d, h) (p, q) =
    (p ∙ d, λ r a e. h r a (sym (ap (λ m. Dict.get r m) q) ∙ e))

supersede-Sound :
    (dispositions : List AdmissionDisposition) (s : PriorityBatchState) (a : SyncAction)
    (t : SyncRecord)
    → Sound dispositions s
    → Sound dispositions (supersede a t s).1
unfolding supersede
supersede-Sound dispositions s a t h = elim (Bool-cases (replaces a t s)) [
  | inl g ↦ elim (Bool-cases (contains s.pending a.ref)) [
    | inl e ↦ rw (g, e) (h.0, set-Sound dispositions s a t h g)
    | inr e ↦ rw (g, e) h
  ]
  | inr g ↦ rw g h
]

begin_action-kept :
    (a : SyncAction) (s : PriorityBatchState)
    → ((begin_action a s).1.dispositions ≡ s.dispositions)
      × ((begin_action a s).1.superseded ≡ s.superseded)
unfolding begin_action
begin_action-kept a s = ground arith

step-Sound :
    (dispositions : List AdmissionDisposition) (e : Event) (s : PriorityBatchState)
    → Sound dispositions s
    → Sound dispositions (step e s)
unfolding step set_phase invalidate
step-Sound dispositions (phase_set phase) s h =
    Sound-of dispositions s (set_phase phase s) h (ground arith)
step-Sound dispositions aborted s h = h
step-Sound dispositions checkpoint_blocks s h = h
step-Sound dispositions (begins a) s h =
    Sound-of dispositions s (begin_action a s).1 h (begin_action-kept a s)
step-Sound dispositions (blocked a) s h = h
step-Sound dispositions (invalidates a) s h =
    Sound-of dispositions s (invalidate a s).1 h (ground arith)
step-Sound dispositions (supersedes a t) s h = supersede-Sound dispositions s a t h

steps-Sound :
    (dispositions : List AdmissionDisposition) (es : List Event) (s : PriorityBatchState)
    → Sound dispositions s
    → Sound dispositions (steps es s)
unfolding steps
steps-Sound dispositions [] s h = h
steps-Sound dispositions (e ∷ es) s h =
    steps-Sound dispositions es (step e s) (step-Sound dispositions e s h)

new_batch-Sound :
    (dispositions : List AdmissionDisposition) → Sound dispositions (new_batch dispositions)
unfolding new_batch get
new_batch-Sound dispositions = (refl, λ r a e. absurd (none-ne-some a e))

begin_action-found :
    (a : SyncAction) (s : PriorityBatchState) (x : SupersededAction)
    → (begin_action a s).0 ≡ replaced x
    → Dict.get a.ref s.superseded ≡ some x
unfolding begin_action
begin_action-found a s x h = ground arith

-- Whatever happened to a batch, an action that counts as replaced is the priority pull of an
-- authorized component, and the record that stands for it is a record of its path and of its remote
-- object.
pub begin_action-Replaces :
    (dispositions : List AdmissionDisposition) (es : List Event) (a : SyncAction)
    (x : SupersededAction)
    → (begin_action a (steps es (new_batch dispositions))).0 ≡ replaced x
    → (x.action.ref ≡ a.ref) × Replaces dispositions x
begin_action-Replaces dispositions es a x h =
    let s = steps es (new_batch dispositions) in
    (steps-Sound dispositions es (new_batch dispositions) (new_batch-Sound dispositions)).1 a.ref x
      (begin_action-found a s x h)
