-- ===== src/Coordinator.antt =====
-- src/sync/priority-coordinator.ts: normal actions, priority work and finalizers take turns. Callers are
-- numbered; each operation is one synchronous stretch of the code, up to the next `await`. The age of a
-- node is left out.
pub mod Turns
mod Tests
use obsidian_air_sync.Prelude.{
  ℕ, zero, suc, ◌+◌, ◌-◌, Bool, true, false, not, ◌&&◌, ◌||◌, Option, none, some, List, [], ◌∷◌,
  ◌++◌, length, Eq, ◌==◌, nat_eq, if◌then◌else◌,
}
use obsidian_air_sync.Prelude.Text.{Str, str_eq}
use obsidian_air_sync.Prelude.Dict
use obsidian_air_sync.Prelude.Dict.{Dict}

-- What `drain` awaits: the work of a node, for all its waiters, or a finalizer.
pub data Job : Type 0 where
  priority : Str → List ℕ → Job
  finalizing : ℕ → Job

-- `awaiting` is where `drain` is suspended. A node of `pending` is the list of its waiters.
pub record PriorityCoordinator : Type 0 where
  pub active_normal : ℕ
  pub pending : Dict Str (List ℕ)
  pub finalizers : List ℕ
  pub normal_waiters : List ℕ
  pub draining : Bool
  pub awaiting : Option Job
  pub completed : ℕ
  pub cancelled : ℕ
  pub coalesced : ℕ

abbrev pub new_coordinator : PriorityCoordinator
new_coordinator = record {
  active_normal = 0;
  pending = [];
  finalizers = [];
  normal_waiters = [];
  draining = false;
  awaiting = none;
  completed = 0;
  cancelled = 0;
  coalesced = 0;
}

abbrev pub is_none_left {ℓ} : {A : Type ℓ} → List A → Bool
is_none_left [] = true
is_none_left (x ∷ xs) = false

abbrev pub can_admit_normal : PriorityCoordinator → Bool
can_admit_normal c = not c.draining && is_none_left c.pending && is_none_left c.finalizers

-- `acquireNormalPermit`: whether the permit is given at once.
pub acquire_normal_permit : ℕ → PriorityCoordinator → Bool × PriorityCoordinator
acquire_normal_permit caller c =
    if can_admit_normal c
    then (true, record c { active_normal = c.active_normal + 1 })
    else (false, record c { normal_waiters = c.normal_waiters ++ caller ∷ [] })

-- The `finally` of `drain`; `again` is the state after its own `requestDrain`.
finish_drain : PriorityCoordinator → PriorityCoordinator → PriorityCoordinator
finish_drain again c =
    let stopped = record c { draining = false; awaiting = none } in
    if stopped.active_normal == 0
      && (not (is_none_left stopped.pending) || not (is_none_left stopped.finalizers))
    then again
    else if can_admit_normal stopped
    then record stopped {
      active_normal = stopped.active_normal + length stopped.normal_waiters;
      normal_waiters = [];
    }
    else stopped

-- The loop of `drain` from its head to the next `await` or its end. Each unit of fuel is one start of
-- `drain`; the second start does not happen.
pub drain_turn : ℕ → PriorityCoordinator → PriorityCoordinator
unfolding finish_drain
drain_turn zero c = c
drain_turn (suc fuel) c =
    let again = drain_turn fuel (record c { draining = true; awaiting = none }) in
    if not (c.active_normal == 0) then finish_drain again c else elim c.pending [
      | (path, waiters) ∷ pending ↦ record c {
        pending = pending;
        awaiting = some (priority path waiters);
      }
      | [] ↦ elim c.finalizers [
        | finalizer ∷ finalizers ↦ record c {
          finalizers = finalizers;
          awaiting = some (finalizing finalizer);
        }
        | [] ↦ finish_drain again c
      ]
    ]

request_drain : PriorityCoordinator → PriorityCoordinator
unfolding drain_turn
request_drain c =
    if c.draining || not (c.active_normal == 0)
    then c
    else drain_turn 2 (record c { draining = true })

-- `enqueue`, with what `pending` has at the path.
enqueue_at : Option (List ℕ) → Str → ℕ → PriorityCoordinator → PriorityCoordinator
unfolding request_drain
enqueue_at (some waiters) path caller c = record c {
  pending = Dict.set path (waiters ++ caller ∷ []) c.pending;
  coalesced = c.coalesced + 1;
}
enqueue_at none path caller c =
    request_drain (record c { pending = Dict.set path (caller ∷ []) c.pending })

pub enqueue : Str → ℕ → PriorityCoordinator → PriorityCoordinator
unfolding enqueue_at
enqueue path caller c = enqueue_at (Dict.get path c.pending) path caller c

pub finalize : ℕ → PriorityCoordinator → PriorityCoordinator
unfolding request_drain
finalize caller c = request_drain (record c { finalizers = c.finalizers ++ caller ∷ [] })

-- The first `release` of a permit; a second one does nothing.
pub release : PriorityCoordinator → PriorityCoordinator
unfolding request_drain
release c = request_drain (record c { active_normal = c.active_normal - 1 })

settle_job : Option Job → Bool → PriorityCoordinator → PriorityCoordinator
unfolding drain_turn
settle_job none ok c = c
settle_job (some (priority path waiters)) true c =
    drain_turn 2 (record c { awaiting = none; completed = c.completed + 1 })
settle_job (some (priority path waiters)) false c =
    drain_turn 2 (record c { awaiting = none; cancelled = c.cancelled + 1 })
settle_job (some (finalizing caller)) ok c = drain_turn 2 (record c { awaiting = none })

-- The awaited work of a node or a finalizer settles: its callers are answered, and the loop goes on.
pub settle : Bool → PriorityCoordinator → PriorityCoordinator
unfolding settle_job
settle ok c = settle_job c.awaiting ok c
