-- ===== src/WakeLock/Tests.antt =====
-- A sync that ends before its lock is granted.
use obsidian_air_sync.Prelude.{true, false, List, [], ◌∷◌}
use obsidian_air_sync.WakeLock.{new_manager, Surroundings, Event, sets_active, grants, ends, steps}
use obsidian_air_sync.WakeLock.Leaks.{NoLeak, steps-NoLeak}

abbrev visible : Surroundings
visible = record { is_enabled = true; has_wake_lock = true; is_visible = true }

abbrev short_sync : List Event
short_sync = sets_active true visible ∷ sets_active false visible ∷ grants ∷ ends ∷ []

steps-NoLeak_example : NoLeak (steps short_sync new_manager)
steps-NoLeak_example = steps-NoLeak short_sync
