-- ===== src/Scheduler/Resume.antt =====
-- The signals of the foreground in src/sync/scheduler.ts.
use obsidian_air_sync.Prelude.{
  ◌≡◌, ◌+◌, Bool, true, false, not, ◌&&◌, ◌||◌, List, [], ◌∷◌, if◌then◌else◌, arith,
}
use obsidian_air_sync.Prelude.Text.{Str}
use obsidian_air_sync.Scheduler.{
  SyncScheduler, Event, layout_ready, unloads, blurs, hides, changes, renames, online, focuses,
  shows, timer, file_opened, run_sync, wire_all, trigger_sync, trigger_foreground_sync,
  debounced_sync, handle, step, steps,
}

-- The signals of the foreground: `focus`, and `visibilitychange` to visible.
abbrev pub is_signal : Event → Bool
is_signal e = elim e [ focuses r y ↦ true | shows r y ↦ true | _ ↦ false ]

-- A signal with a remote file system while no sync runs.
abbrev pub is_served : Event → Bool
is_served e = elim e [ focuses r y ↦ r && not y | shows r y ↦ r && not y | _ ↦ false ]

abbrev pub is_departure : Event → Bool
is_departure e = elim e [ blurs ↦ true | hides ↦ true | _ ↦ false ]

abbrev pub some_served : List Event → Bool
some_served [] = false
some_served (e ∷ es) = is_served e || some_served es

abbrev pub all_signals : List Event → Bool
all_signals [] = true
all_signals (e ∷ es) = is_signal e && all_signals es

abbrev pub none_served : List Event → Bool
none_served [] = true
none_served (e ∷ es) = not (is_served e) && none_served es

module _ (is_excluded : Str → Bool) where
  signal_step :
      (e : Event) (s : SyncScheduler)
      → is_signal e ≡ true
      → s.wired ≡ true
      → ((step is_excluded e s).wired ≡ true)
        × ((step is_excluded e s).departed ≡ (s.departed && not (is_served e)))
        × ((step is_excluded e s).runs ≡ (if s.departed && is_served e then s.runs + 1 else s.runs))
  unfolding step handle trigger_foreground_sync run_sync
  signal_step layout_ready s h w = ground arith
  signal_step unloads s h w = ground arith
  signal_step blurs s h w = ground arith
  signal_step hides s h w = ground arith
  signal_step (changes p) s h w = ground arith
  signal_step (renames e p) s h w = ground arith
  signal_step (online r y) s h w = ground arith
  signal_step (focuses r y) s h w = ground arith
  signal_step (shows r y) s h w = ground arith
  signal_step (timer r) s h w = ground arith
  signal_step (file_opened u) s h w = ground arith

  -- In a wired scheduler a burst of foreground signals starts one sync if the app had departed and
  -- one of the signals found a remote file system and no running sync, and none otherwise.
  pub signals-runs :
      (es : List Event) (s : SyncScheduler)
      → all_signals es ≡ true
      → s.wired ≡ true
      → (steps is_excluded es s).runs
        ≡ (if s.departed && some_served es then s.runs + 1 else s.runs)
  unfolding steps
  signals-runs [] s h w = ground arith
  signals-runs (e ∷ es) s h w =
      let f = signal_step e s (ground arith) w in
      ground (arith, f, signals-runs es (step is_excluded e s) (ground arith) f.0)

  kept_step :
      (e : Event) (s : SyncScheduler)
      → is_served e ≡ false
      → s.departed ≡ true
      → (step is_excluded e s).departed ≡ true
  unfolding step handle trigger_foreground_sync trigger_sync debounced_sync wire_all run_sync
  kept_step layout_ready s h d = ground arith
  kept_step unloads s h d = d
  kept_step blurs s h d = ground arith
  kept_step hides s h d = ground arith
  kept_step (changes p) s h d = ground arith
  kept_step (renames e p) s h d = ground arith
  kept_step (online r y) s h d = ground arith
  kept_step (focuses r y) s h d = ground arith
  kept_step (shows r y) s h d = ground arith
  kept_step (timer r) s h d = ground arith
  kept_step (file_opened u) s h d = ground arith

  kept_steps :
      (es : List Event) (s : SyncScheduler)
      → none_served es ≡ true
      → s.departed ≡ true
      → (steps is_excluded es s).departed ≡ true
  unfolding steps
  kept_steps [] s h d = d
  kept_steps (e ∷ es) s h d =
      kept_steps es (step is_excluded e s) (ground arith) (kept_step e s (ground arith) d)

  served_step :
      (e : Event) (s : SyncScheduler)
      → is_served e ≡ true
      → s.departed ≡ true
      → s.wired ≡ true
      → ((step is_excluded e s).runs ≡ s.runs + 1) × ((step is_excluded e s).departed ≡ false)
  unfolding step handle trigger_foreground_sync run_sync
  served_step layout_ready s h d w = ground arith
  served_step unloads s h d w = ground arith
  served_step blurs s h d w = ground arith
  served_step hides s h d w = ground arith
  served_step (changes p) s h d w = ground arith
  served_step (renames e p) s h d w = ground arith
  served_step (online r y) s h d w = ground arith
  served_step (focuses r y) s h d w = ground arith
  served_step (shows r y) s h d w = ground arith
  served_step (timer r) s h d w = ground arith
  served_step (file_opened u) s h d w = ground arith

  stays_wired :
      (e : Event) (s : SyncScheduler) → s.wired ≡ true → (step is_excluded e s).wired ≡ true
  unfolding step handle trigger_foreground_sync trigger_sync debounced_sync wire_all run_sync
  stays_wired layout_ready s w = ground arith
  stays_wired unloads s w = w
  stays_wired blurs s w = ground arith
  stays_wired hides s w = ground arith
  stays_wired (changes p) s w = ground arith
  stays_wired (renames e p) s w = ground arith
  stays_wired (online r y) s w = ground arith
  stays_wired (focuses r y) s w = ground arith
  stays_wired (shows r y) s w = ground arith
  stays_wired (timer r) s w = ground arith
  stays_wired (file_opened u) s w = ground arith

  stay_wired :
      (es : List Event) (s : SyncScheduler) → s.wired ≡ true → (steps is_excluded es s).wired ≡ true
  unfolding steps
  stay_wired [] s w = w
  stay_wired (e ∷ es) s w = stay_wired es (step is_excluded e s) (stays_wired e s w)

  -- In a wired scheduler whose app has departed, after any events among which no foreground signal
  -- finds a remote file system and no running sync, the first signal that does starts one sync and
  -- ends the departure.
  pub return_is_synced :
      (es : List Event) (e : Event) (s : SyncScheduler)
      → s.departed ≡ true
      → s.wired ≡ true
      → none_served es ≡ true
      → is_served e ≡ true
      → ((step is_excluded e (steps is_excluded es s)).runs ≡ (steps is_excluded es s).runs + 1)
        × ((step is_excluded e (steps is_excluded es s)).departed ≡ false)
  return_is_synced es e s d w h k =
      served_step e (steps is_excluded es s) k (kept_steps es s h d) (stay_wired es s w)
