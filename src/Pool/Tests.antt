-- ===== src/Pool/Tests.antt =====
-- Short runs of the pools and of the lock.
use obsidian_air_sync.Prelude.{◌≡◌, refl, true, some, [], ◌∷◌, ◌++◌, arith}
use obsidian_air_sync.Pool.{
  Task, AdaptivePoolOpts, AdaptivePool, adaptive_pool, arrive, can_admit, admit, AsyncPool,
  async_pool, enter, async_mutex,
}
use obsidian_air_sync.Pool.Adaptive
use obsidian_air_sync.Pool.Adaptive.{System, idle, went}
use obsidian_air_sync.Pool.Invariant.{Valid, Reachable-Valid}
use obsidian_air_sync.Pool.Drained.{settle_many, settle_many-drained}
use obsidian_air_sync.Pool.Fixed
use obsidian_air_sync.Pool.Fixed.{Within, OrderlyReachable-Within, over_admits}
use obsidian_air_sync.Pool.Mutex
use obsidian_air_sync.Pool.Mutex.{Lock, Exclusive, Reachable-Exclusive}

abbrev two_at_once : AdaptivePoolOpts
two_at_once = record { min = 1; start = 1; max = 2; ramp_after = 1; byte_budget = some 10 }

abbrev new_pool : AdaptivePool
new_pool = record {
  running = 0;
  in_flight_bytes = 0;
  waiting = [];
  limit = 1;
  success_streak = 0;
  opts = two_at_once;
}

abbrev one_task : Task
one_task = record { id = 1; size = 4 }

-- One task has arrived, and runs.
abbrev one_running : System
one_running = record (went (arrive one_task new_pool) [] (idle new_pool)) {
  arrived = one_task ∷ [];
}

one_running-Reachable : Adaptive.Reachable two_at_once one_running
unfolding adaptive_pool
one_running-Reachable =
    Adaptive.steps (idle new_pool) one_running (Adaptive.starts new_pool refl)
      (Adaptive.arrives (idle new_pool) one_task)

Reachable-Valid_example : Valid two_at_once one_running
Reachable-Valid_example = Reachable-Valid two_at_once one_running one_running-Reachable

settle_many-drained_example :
    ((settle_many 1 (λ task. true) one_running).active ≡ [])
    × ((settle_many 1 (λ task. true) one_running).started ≡ one_task ∷ [])
unfolding arrive can_admit admit
settle_many-drained_example =
    settle_many-drained two_at_once (λ task. true) one_running 1 one_running-Reachable refl

over_admits_example : (p : AsyncPool) × Fixed.Reachable 2 p × (p.running ≡ 3)
over_admits_example = over_admits 2 (omega arith)

abbrev pair_pool : AsyncPool
pair_pool = record { concurrency = 2; running = 0; waiting = []; woken = [] }

pair_pool-OrderlyReachable : Fixed.OrderlyReachable 2 (enter 5 pair_pool)
unfolding async_pool
pair_pool-OrderlyReachable =
    Fixed.steps_orderly pair_pool (enter 5 pair_pool) (Fixed.starts_orderly pair_pool refl)
      (Fixed.enters_late pair_pool 5 refl)

OrderlyReachable-Within_example : Within 2 (enter 5 pair_pool)
OrderlyReachable-Within_example =
    OrderlyReachable-Within 2 (enter 5 pair_pool) pair_pool-OrderlyReachable

abbrev unlocked : Lock
unlocked = record { mutex = async_mutex; holders = []; asked = []; got = [] }

Reachable-Exclusive_example :
    Exclusive unlocked.mutex unlocked.holders
    × (unlocked.got ++ unlocked.mutex.waiting ≡ unlocked.asked)
Reachable-Exclusive_example = Reachable-Exclusive unlocked Mutex.starts
