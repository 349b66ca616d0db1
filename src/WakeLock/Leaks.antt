-- ===== src/WakeLock/Leaks.antt =====
-- The locks that src/sync/wake-lock.ts holds.
use obsidian_air_sync.Prelude.{
  ℕ, ◌≡◌, ◌≢◌, refl, Option-cases, inl, inr, true, false, Option, none, some, List, [], ◌∷◌, nat_eq,
  option_eq, arith,
}
use obsidian_air_sync.Prelude.Dict.{remove}
use obsidian_air_sync.WakeLock.{
  ScreenWakeLockManager, new_manager, is_idle, acquire, request_granted, acquire_ended, release,
  set_active, unload, on_visible, released_by_platform, Event, sets_active, becomes_visible, grants,
  ends, unloads, platform_releases, step, steps,
}

abbrev pub locks_of : Option ℕ → List ℕ
locks_of none = []
locks_of (some lock) = lock ∷ []

-- The lock that is held is the one that the manager refers to; there is none while it is not wanted or
-- while a request is under way.
abbrev pub NoLeak : ScreenWakeLockManager → Type 0
NoLeak m =
    (m.held ≡ locks_of m.sentinel)
    × (m.want ≡ false → m.sentinel ≡ none)
    × (is_idle m.acquisition ≡ false → m.sentinel ≡ none)

remove_none : (lock : ℕ) → remove lock [] ≡ []
unfolding remove
remove_none lock = refl

remove_only : (lock : ℕ) → remove lock (lock ∷ []) ≡ []
unfolding remove
remove_only lock = ground arith

remove_other : (lock other : ℕ) → lock ≢ other → remove lock (other ∷ []) ≡ other ∷ []
unfolding remove
remove_other lock other n = ground arith

release_all :
    (m : ScreenWakeLockManager)
    → m.held ≡ locks_of m.sentinel
    → ((release m).held ≡ []) × ((release m).sentinel ≡ none)
unfolding release
release_all m h = elim (Option-cases m.sentinel) [
  | inl e ↦ ground (arith, h, e)
  | inr (lock, e) ↦ ground (arith, h, e, remove_only lock)
]

released-NoLeak : (m : ScreenWakeLockManager) → (m.held ≡ []) × (m.sentinel ≡ none) → NoLeak m
released-NoLeak m (h, e) = (ground (arith, h, e), λ w. e, λ w. e)

platform-NoLeak :
    (lock : ℕ) (m : ScreenWakeLockManager) (sentinel : Option ℕ)
    → m.sentinel ≡ sentinel
    → NoLeak m
    → NoLeak (released_by_platform lock m)
unfolding released_by_platform
platform-NoLeak lock m none e (a, b, c) =
    (ground (arith, a, e, remove_none lock), λ w. ground (arith, e), λ w. ground (arith, e))
platform-NoLeak lock m (some other) e (a, b, c) = elim (nat_eq.dec lock other) [
  | yes p ↦ (
    ground (arith, a, e, p, remove_only lock),
    λ w. ground (arith, e, p),
    λ w. ground (arith, e, p),
  )
  | no n ↦ (
    ground (arith, a, e, n, remove_other lock other n),
    λ w. ground (arith, b, w),
    λ w. ground (arith, c, w),
  )
]

step-NoLeak : (e : Event) (m : ScreenWakeLockManager) → NoLeak m → NoLeak (step e m)
unfolding step set_active on_visible request_granted acquire_ended unload acquire
step-NoLeak (sets_active true env) m h = ground arith
step-NoLeak (sets_active false env) m h =
    released-NoLeak (release (record m { want = false }))
      (release_all (record m { want = false }) h.0)
step-NoLeak (becomes_visible env) m h = ground arith
step-NoLeak grants m h = ground arith
step-NoLeak ends m h = ground arith
step-NoLeak unloads m h =
    released-NoLeak (release (record m { want = false }))
      (release_all (record m { want = false }) h.0)
step-NoLeak (platform_releases lock) m h = platform-NoLeak lock m m.sentinel refl h

steps-NoLeak_from : (es : List Event) (m : ScreenWakeLockManager) → NoLeak m → NoLeak (steps es m)
unfolding steps
steps-NoLeak_from [] m h = h
steps-NoLeak_from (e ∷ es) m h = steps-NoLeak_from es (step e m) (step-NoLeak e m h)

-- After any sequence of activations, visibility changes, grants, ends of a request, releases by the
-- platform and an unload, the locks held are exactly the one that the manager refers to, and it
-- refers to none while no sync is active or while a request is under way.
pub steps-NoLeak : (es : List Event) → NoLeak (steps es new_manager)
steps-NoLeak es = steps-NoLeak_from es new_manager (refl, λ w. refl, λ w. refl)
