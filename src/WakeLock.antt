-- ===== src/WakeLock.antt =====
-- src/sync/wake-lock.ts: the screen wake lock of a running sync. Locks are numbered; `held` are the locks
-- that the platform holds for the page. A release takes effect when it is called.
pub mod Leaks
mod Tests
use obsidian_air_sync.Prelude.{
  ℕ, ◌+◌, Bool, true, false, not, ◌&&◌, ◌||◌, Option, none, some, List, [], ◌∷◌, ◌++◌, Eq, ◌==◌,
  nat_eq, option_eq, if◌then◌else◌,
}
use obsidian_air_sync.Prelude.Dict.{remove}

-- Where `acquire` is suspended, while `acquiring` is true.
pub data Acquisition : Type 0 where
  idle requesting : Acquisition
  giving_back : ℕ → Acquisition

pub record ScreenWakeLockManager : Type 0 where
  pub want : Bool
  pub sentinel : Option ℕ
  pub acquisition : Acquisition
  pub held : List ℕ
  pub granted : ℕ

abbrev pub new_manager : ScreenWakeLockManager
new_manager = record { want = false; sentinel = none; acquisition = idle; held = []; granted = 0 }

-- Whether the lock is enabled, the platform has one, and the document is visible.
pub record Surroundings : Type 0 where
  pub is_enabled : Bool
  pub has_wake_lock : Bool
  pub is_visible : Bool

abbrev pub is_idle : Acquisition → Bool
is_idle idle = true
is_idle _ = false

abbrev pub is_held {ℓ} : {A : Type ℓ} → Option A → Bool
is_held none = false
is_held (some a) = true

-- `acquire` up to its request.
acquire : Surroundings → ScreenWakeLockManager → ScreenWakeLockManager
acquire env m =
    if not m.want || is_held m.sentinel || not (is_idle m.acquisition)
    then m
    else if not env.is_enabled
    then m
    else if not env.has_wake_lock
    then m
    else if not env.is_visible
    then m
    else record m { acquisition = requesting }

-- The request of `acquire` is granted: the lock is kept, or given back where it is not wanted any more.
pub request_granted : ScreenWakeLockManager → ScreenWakeLockManager
request_granted m = elim m.acquisition [
  | idle ↦ m
  | giving_back lock ↦ m
  | requesting ↦
      if not m.want
      then record m { acquisition = giving_back m.granted; granted = m.granted + 1 }
      else record m {
        sentinel = some m.granted;
        held = m.granted ∷ m.held;
        acquisition = idle;
        granted = m.granted + 1;
      }
]

-- The request fails, or the release of an unwanted lock is over.
pub acquire_ended : ScreenWakeLockManager → ScreenWakeLockManager
acquire_ended m = record m { acquisition = idle }

release : ScreenWakeLockManager → ScreenWakeLockManager
release m = elim m.sentinel [
  | none ↦ m
  | some lock ↦ record m { sentinel = none; held = remove lock m.held }
]

pub set_active : Bool → Surroundings → ScreenWakeLockManager → ScreenWakeLockManager
unfolding acquire release
set_active active env m =
    if active then acquire env (record m { want = true }) else release (record m { want = false })

-- The callback of `register`.
pub unload : ScreenWakeLockManager → ScreenWakeLockManager
unfolding release
unload m = release (record m { want = false })

pub on_visible : Surroundings → ScreenWakeLockManager → ScreenWakeLockManager
unfolding acquire
on_visible env m =
    if not m.want || is_held m.sentinel then m else if not env.is_visible then m else acquire env m

-- The platform releases a lock; the listener drops the reference to it.
pub released_by_platform : ℕ → ScreenWakeLockManager → ScreenWakeLockManager
released_by_platform lock m = record m {
  held = remove lock m.held;
  sentinel = if m.sentinel == some lock then none else m.sentinel;
}

pub data Event : Type 0 where
  sets_active : Bool → Surroundings → Event
  becomes_visible : Surroundings → Event
  grants ends unloads : Event
  platform_releases : ℕ → Event

pub step : Event → ScreenWakeLockManager → ScreenWakeLockManager
unfolding set_active on_visible request_granted acquire_ended unload released_by_platform
step (sets_active active env) m = set_active active env m
step (becomes_visible env) m = on_visible env m
step grants m = request_granted m
step ends m = acquire_ended m
step unloads m = unload m
step (platform_releases lock) m = released_by_platform lock m

pub steps : List Event → ScreenWakeLockManager → ScreenWakeLockManager
unfolding step
steps [] m = m
steps (e ∷ es) m = steps es (step e m)
