-- ===== src/Pool.antt =====
-- src/backend-api/async-queue.ts: the lock, the fixed pool and the adaptive pool. A waiter's `resolve`
-- is the task it belongs to. Each operation is one synchronous stretch of the code between two
-- suspensions.
pub mod Adaptive
pub mod Invariant
pub mod Drained
pub mod Fixed
pub mod Mutex
mod Tests
use obsidian_air_sync.Prelude.{
  ℕ, ◌+◌, ◌-◌, ◌/◌, min, max, Bool, true, false, not, ◌&&◌, ◌||◌, Option, none, some, List, [], ◌∷◌,
  ◌++◌, ltb, leb, if◌then◌else◌,
}

pub record Task : Type 0 where
  pub id : ℕ
  pub size : ℕ

-- `AdaptivePool` -------------------------------------------------------------------------------

pub record AdaptivePoolOpts : Type 0 where
  pub min : ℕ
  pub start : ℕ
  pub max : ℕ
  pub ramp_after : ℕ
  pub byte_budget : Option ℕ

pub record AdaptivePool : Type 0 where
  pub running : ℕ
  pub in_flight_bytes : ℕ
  pub waiting : List Task
  pub limit : ℕ
  pub success_streak : ℕ
  pub opts : AdaptivePoolOpts

-- The constructor, which throws on bad options.
unfoldable pub adaptive_pool : AdaptivePoolOpts → Option AdaptivePool
adaptive_pool o =
    if ltb o.min 1
    then none
    else if ltb o.max o.min
    then none
    else if ltb o.ramp_after 1
    then none
    else some (record {
      running = 0;
      in_flight_bytes = 0;
      waiting = [];
      limit = min o.max (max o.min o.start);
      success_streak = 0;
      opts = o;
    })

unfoldable pub can_admit : ℕ → AdaptivePool → Bool
can_admit size p = if leb p.limit p.running then false else elim p.opts.byte_budget [
  | none ↦ true
  | some budget ↦ if leb p.running 0 then true else leb (p.in_flight_bytes + size) budget
]

unfoldable pub admit : ℕ → AdaptivePool → AdaptivePool
admit size p = record p { running = p.running + 1; in_flight_bytes = p.in_flight_bytes + size }

-- The loop of `drain` over the queue `waiting`; with the tasks that it wakes.
unfoldable pub drain_queue : List Task → AdaptivePool → AdaptivePool × List Task
unfolding can_admit admit
drain_queue [] p = (record p { waiting = [] }, [])
drain_queue (head ∷ rest) p =
    let woken = drain_queue rest (admit head.size p) in
    if can_admit head.size p
    then (woken.0, head ∷ woken.1)
    else (record p { waiting = head ∷ rest }, [])

unfoldable pub drain : AdaptivePool → AdaptivePool × List Task
unfolding drain_queue
drain p = drain_queue p.waiting p

is_nil : List Task → Bool
is_nil [] = true
is_nil (task ∷ tasks) = false

-- `run` up to its task: with the tasks that start, itself or none.
unfoldable pub arrive : Task → AdaptivePool → AdaptivePool × List Task
unfolding is_nil can_admit admit
arrive task p =
    if is_nil p.waiting && can_admit task.size p
    then (admit task.size p, task ∷ [])
    else (record p { waiting = p.waiting ++ task ∷ [] }, [])

-- What follows `await fn()` when it resolves, before the `finally`.
unfoldable pub ramp : AdaptivePool → AdaptivePool × List Task
unfolding drain
ramp p =
    let counted = record p { success_streak = p.success_streak + 1 } in
    if leb p.opts.ramp_after counted.success_streak && ltb p.limit p.opts.max
    then drain (record counted { limit = p.limit + 1; success_streak = 0 })
    else (counted, [])

-- The `finally` block.
unfoldable pub release : ℕ → AdaptivePool → AdaptivePool × List Task
unfolding drain
release size p =
    drain (record p { running = p.running - 1; in_flight_bytes = p.in_flight_bytes - size })

unfoldable pub resolved : ℕ → AdaptivePool → AdaptivePool × List Task
unfolding ramp release
resolved size p =
    let ramped = ramp p in
    let released = release size ramped.0 in (released.0, ramped.1 ++ released.1)

unfoldable pub rejected : ℕ → AdaptivePool → AdaptivePool × List Task
unfolding release
rejected size p = release size (record p { success_streak = 0 })

unfoldable pub note_rate_limit : AdaptivePool → AdaptivePool
note_rate_limit p =
    if ltb p.limit p.running
    then p
    else record p { limit = max p.opts.min (p.limit / 2); success_streak = 0 }

-- `AsyncPool` ----------------------------------------------------------------------------------

-- `woken` is the microtask queue of the code: the resolved waiters that have not resumed.
pub record AsyncPool : Type 0 where
  pub concurrency : ℕ
  pub running : ℕ
  pub waiting : List ℕ
  pub woken : List ℕ

unfoldable pub async_pool : ℕ → Option AsyncPool
async_pool concurrency =
    if ltb concurrency 1
    then none
    else some (record { concurrency = concurrency; running = 0; waiting = []; woken = [] })

-- `run` up to its first suspension.
unfoldable pub enter : ℕ → AsyncPool → AsyncPool
enter task p =
    if leb p.concurrency p.running
    then record p { waiting = p.waiting ++ task ∷ [] }
    else record p { running = p.running + 1 }

-- A woken waiter goes on with `this.running++`.
unfoldable pub resume : AsyncPool → AsyncPool
resume p = elim p.woken [
  | [] ↦ p
  | task ∷ rest ↦ record p { running = p.running + 1; woken = rest }
]

-- The `finally` block of a task.
unfoldable pub finish : AsyncPool → AsyncPool
finish p = elim p.waiting [
  | [] ↦ record p { running = p.running - 1 }
  | next ∷ rest ↦ record p { running = p.running - 1; waiting = rest; woken = p.woken ++ next ∷ [] }
]

-- `AsyncMutex` ---------------------------------------------------------------------------------

pub record AsyncMutex : Type 0 where
  pub locked : Bool
  pub waiting : List ℕ

abbrev pub async_mutex : AsyncMutex
async_mutex = record { locked = false; waiting = [] }

-- `acquire`: whether the caller holds the lock at once.
unfoldable pub acquire : ℕ → AsyncMutex → AsyncMutex × Bool
acquire caller m =
    if not m.locked
    then (record m { locked = true }, true)
    else (record m { waiting = m.waiting ++ caller ∷ [] }, false)

-- `release`: none is its exception, and the waiter that it wakes.
unfoldable pub unlock : AsyncMutex → Option (AsyncMutex × Option ℕ)
unlock m = if not m.locked then none else elim m.waiting [
  | [] ↦ some (record m { locked = false }, none)
  | next ∷ rest ↦ some (record m { waiting = rest }, some next)
]
