-- ===== src/Coordinator/Tests.antt =====
-- A coordinator that has taken one priority job.
use obsidian_air_sync.Prelude.{◌≡◌, true}
use obsidian_air_sync.Samples.{note}
use obsidian_air_sync.Coordinator.{new_coordinator, enqueue, drain_turn}
use obsidian_air_sync.Coordinator.Turns.{
  starts, steps, enqueues, is_turn, Reachable-is_turn, drain_turn-enough,
}

Reachable-is_turn_example : is_turn (enqueue note 1 new_coordinator) ≡ true
Reachable-is_turn_example = Reachable-is_turn (enqueue note 1 new_coordinator) (
    steps new_coordinator (enqueue note 1 new_coordinator) starts (enqueues new_coordinator note 1))

drain_turn-enough_example : drain_turn 5 new_coordinator ≡ drain_turn 1 new_coordinator
drain_turn-enough_example = drain_turn-enough 4 new_coordinator
