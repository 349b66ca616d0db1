-- ===== src/Coordinator/Turns.antt =====
-- The turns of src/sync/priority-coordinator.ts: normal actions and exclusive work.
use obsidian_air_sync.Prelude.{
  ℕ, suc, ◌≡◌, refl, ◌+◌, ◌-◌, ◌≤◌, Bool, true, false, not, ◌&&◌, ◌||◌, Option, none, some, List,
  [], ◌∷◌, ◌++◌, ◌==◌, nat_eq, arith,
}
use obsidian_air_sync.Prelude.Text.{Str, str_eq}
use obsidian_air_sync.Prelude.Dict
use obsidian_air_sync.Prelude.Dict.{get, set}
use obsidian_air_sync.Coordinator.{
  Job, priority, finalizing, PriorityCoordinator, new_coordinator, is_none_left, can_admit_normal,
  acquire_normal_permit, finish_drain, drain_turn, request_drain, enqueue, enqueue_at, finalize,
  release, settle, settle_job,
}

-- Exclusive work runs only while `draining`, and then no normal action does; when nothing runs, nobody
-- waits; a normal action waits only while exclusive work runs or is queued.
abbrev pub is_turn : PriorityCoordinator → Bool
is_turn c =
    elim c.awaiting [ none ↦ not c.draining | some job ↦ c.draining && c.active_normal == 0 ]
    && (c.draining
        || not (c.active_normal == 0)
        || (is_none_left c.pending && is_none_left c.finalizers))
    && (not (can_admit_normal c) || is_none_left c.normal_waiters)

-- The end of a drain never starts the loop again: one start does what any larger number of starts
-- does.
pub drain_turn-enough :
    (fuel : ℕ) (c : PriorityCoordinator) → drain_turn (suc fuel) c ≡ drain_turn 1 c
unfolding drain_turn finish_drain
drain_turn-enough fuel c = ground arith

drain_turn-is_turn :
    (c : PriorityCoordinator)
    → c.active_normal ≡ 0
    → c.draining ≡ true
    → is_turn (drain_turn 2 c) ≡ true
unfolding drain_turn finish_drain
drain_turn-is_turn c h k = rw (drain_turn-enough 1 c) (ground arith)

request_drain-is_turn :
    (c : PriorityCoordinator)
    → elim c.awaiting [ none ↦ not c.draining | some job ↦ c.draining && c.active_normal == 0 ]
      ≡ true
    → not (can_admit_normal c) || is_none_left c.normal_waiters ≡ true
    → is_turn (request_drain c) ≡ true
unfolding request_drain
request_drain-is_turn c h k =
    ground (arith, h, k, drain_turn-is_turn (record c { draining = true }))

-- The operations, by any callers; a permit is released while it is held.
pub data Step : PriorityCoordinator → PriorityCoordinator → Type 0 where
  acquires : (c : PriorityCoordinator) (caller : ℕ) → Step c (acquire_normal_permit caller c).1
  enqueues : (c : PriorityCoordinator) (path : Str) (caller : ℕ) → Step c (enqueue path caller c)
  finalizes : (c : PriorityCoordinator) (caller : ℕ) → Step c (finalize caller c)
  releases : (c : PriorityCoordinator) → 1 ≤ c.active_normal → Step c (release c)
  settles : (c : PriorityCoordinator) (ok : Bool) → Step c (settle ok c)

pub data Reachable : PriorityCoordinator → Type 0 where
  starts : Reachable new_coordinator
  steps : (c d : PriorityCoordinator) → Reachable c → Step c d → Reachable d

acquire-is_turn :
    (caller : ℕ) (c : PriorityCoordinator)
    → is_turn c ≡ true
    → is_turn (acquire_normal_permit caller c).1 ≡ true
unfolding acquire_normal_permit
acquire-is_turn caller c h = ground arith

set_some :
    (path : Str) (waiters : List ℕ) (d : Dict.Dict Str (List ℕ))
    → is_none_left (Dict.set path waiters d) ≡ false
unfolding set
set_some path waiters [] = refl
set_some path waiters (x ∷ d) = ground arith

snoc_some : (caller : ℕ) (xs : List ℕ) → is_none_left (xs ++ caller ∷ []) ≡ false
snoc_some caller [] = refl
snoc_some caller (x ∷ xs) = refl

has_some :
    (path : Str) (waiters : List ℕ) (d : Dict.Dict Str (List ℕ))
    → Dict.get path d ≡ some waiters
    → is_none_left d ≡ false
unfolding get
has_some path waiters [] h = ground arith
has_some path waiters (x ∷ d) h = refl

enqueue_at-is_turn :
    (found : Option (List ℕ)) (path : Str) (caller : ℕ) (c : PriorityCoordinator)
    → Dict.get path c.pending ≡ found
    → is_turn c ≡ true
    → is_turn (enqueue_at found path caller c) ≡ true
unfolding enqueue_at
enqueue_at-is_turn none path caller c e h =
    request_drain-is_turn (record c { pending = Dict.set path (caller ∷ []) c.pending })
      (ground arith) (ground (arith, set_some path (caller ∷ []) c.pending))
enqueue_at-is_turn (some waiters) path caller c e h =
    let f = set_some path (waiters ++ caller ∷ []) c.pending in
    let g = has_some path waiters c.pending e in ground (arith, f, g)

finalize-is_turn :
    (caller : ℕ) (c : PriorityCoordinator) → is_turn c ≡ true → is_turn (finalize caller c) ≡ true
unfolding finalize
finalize-is_turn caller c h =
    request_drain-is_turn (record c { finalizers = c.finalizers ++ caller ∷ [] }) (ground arith)
      (ground (arith, snoc_some caller c.finalizers))

release-is_turn :
    (c : PriorityCoordinator) → 1 ≤ c.active_normal → is_turn c ≡ true → is_turn (release c) ≡ true
unfolding release
release-is_turn c k h =
    request_drain-is_turn (record c { active_normal = c.active_normal - 1 }) (ground arith)
      (ground arith)

settle_job-is_turn :
    (ok : Bool) (c : PriorityCoordinator) (awaiting : Option Job)
    → c.awaiting ≡ awaiting
    → is_turn c ≡ true
    → is_turn (settle_job awaiting ok c) ≡ true
unfolding settle_job
settle_job-is_turn ok c none e h = h
settle_job-is_turn true c (some (priority path waiters)) e h =
    drain_turn-is_turn (record c { awaiting = none; completed = c.completed + 1 })
      (ground (arith, e)) (ground (arith, e))
settle_job-is_turn false c (some (priority path waiters)) e h =
    drain_turn-is_turn (record c { awaiting = none; cancelled = c.cancelled + 1 })
      (ground (arith, e)) (ground (arith, e))
settle_job-is_turn ok c (some (finalizing caller)) e h =
    drain_turn-is_turn (record c { awaiting = none }) (ground (arith, e)) (ground (arith, e))

-- In every reachable state of the coordinator, exclusive work runs exactly while it drains, and
-- then no normal action runs; if nothing runs, no exclusive work is queued; and a normal action
-- waits only while the coordinator drains or exclusive work is queued.
pub Reachable-is_turn : (c : PriorityCoordinator) → Reachable c → is_turn c ≡ true
unfolding settle enqueue nat_eq
Reachable-is_turn _ starts = refl
Reachable-is_turn _ (steps c _ r (acquires _ caller)) =
    acquire-is_turn caller c (Reachable-is_turn c r)
Reachable-is_turn _ (steps c _ r (enqueues _ path caller)) =
    enqueue_at-is_turn (Dict.get path c.pending) path caller c refl (Reachable-is_turn c r)
Reachable-is_turn _ (steps c _ r (finalizes _ caller)) =
    finalize-is_turn caller c (Reachable-is_turn c r)
Reachable-is_turn _ (steps c _ r (releases _ k)) = release-is_turn c k (Reachable-is_turn c r)
Reachable-is_turn _ (steps c _ r (settles _ ok)) =
    settle_job-is_turn ok c c.awaiting refl (Reachable-is_turn c r)
