-- ===== src/Scheduler.antt =====
-- src/sync/scheduler.ts: which events of the vault and of the app request a sync, and what they report
-- to the tracker. Whether there is a remote file system and whether a sync runs is part of the event; the
-- debounce timer is armed or not. `isExcluded` is a parameter.
pub mod Scope
pub mod Resume
mod Tests
use obsidian_air_sync.Prelude.{
  ℕ, ◌+◌, Bool, true, false, not, ◌&&◌, ◌||◌, Option, none, some, List, [], ◌∷◌, ◌++◌, drop, length,
  if◌then◌else◌,
}
use obsidian_air_sync.Prelude.Text.{Str, codes, is_empty}
use obsidian_air_sync.Paths.{starts_with}
use obsidian_air_sync.Tracker.{
  LocalChangeTracker, new_tracker, mark_dirty, mark_renamed, mark_folder_renamed,
}

-- `TFile` and `TFolder`
mutual
  pub data Entry : Type 0 where
    file : Str → Entry
    folder : Str → Children → Entry

  pub data Children : Type 0 where
    leaf : Children
    child : Entry → Children → Children

abbrev pub path_of : Entry → Str
path_of (file path) = path
path_of (folder path children) = path

module _ (is_excluded : Str → Bool) where
  -- The body of the loop of `trackScopedFolderRename` for a file.
  pub track_file : Str → Str → Str → Bool × LocalChangeTracker → Bool × LocalChangeTracker
  track_file new_prefix old_root path (tracked, t) =
      let relative = drop (length new_prefix) path in
      let old_path = if is_empty relative then old_root else old_root ++ (codes "/" ++ relative) in
      if not (starts_with path new_prefix)
      then (tracked, t)
      else if is_excluded path && is_excluded old_path
      then (tracked, t)
      else if not (is_excluded path) && not (is_excluded old_path)
      then (true, mark_renamed path old_path t)
      else if not (is_excluded path)
      then (true, mark_dirty path t)
      else (true, mark_dirty old_path t)

  -- The stack of the loop is the recursion: the last child is popped first, and its own children before
  -- the other ones.
  pub track_children : Str → Str → Children → Bool × LocalChangeTracker → Bool × LocalChangeTracker
  unfolding track_file
  track_children new_prefix old_root leaf s = s
  track_children new_prefix old_root (child (file path) rest) s =
      track_file new_prefix old_root path (track_children new_prefix old_root rest s)
  track_children new_prefix old_root (child (folder path children) rest) s =
      track_children new_prefix old_root children (track_children new_prefix old_root rest s)

  pub track_scoped_folder_rename :
      Str → Children → Str → LocalChangeTracker → Bool × LocalChangeTracker
  unfolding track_children
  track_scoped_folder_rename path children old_root t =
      track_children (path ++ codes "/") old_root children (false, t)

  -- `onVaultChange`: whether it requests a sync, and the tracker.
  pub on_vault_change : Str → LocalChangeTracker → Bool × LocalChangeTracker
  on_vault_change path t = if not (is_excluded path) then (true, mark_dirty path t) else (false, t)

  pub on_rename : Entry → Str → LocalChangeTracker → Bool × LocalChangeTracker
  unfolding track_scoped_folder_rename
  on_rename (folder path children) old_path t =
      if not (is_excluded path) && not (is_excluded old_path)
      then (true, mark_folder_renamed path old_path t)
      else track_scoped_folder_rename path children old_path t
  on_rename (file path) old_path t =
      if not (is_excluded path) && not (is_excluded old_path)
      then (true, mark_renamed path old_path t)
      else if not (is_excluded path)
      then (true, mark_dirty path t)
      else if not (is_excluded old_path)
      then (true, mark_dirty old_path t)
      else (false, t)

-- `runs` counts the calls of `runSync`; `wired` and `armed` are the registered listeners and the timer.
pub record SyncScheduler : Type 0 where
  pub tracker : LocalChangeTracker
  pub wired : Bool
  pub destroyed : Bool
  pub departed : Bool
  pub armed : Bool
  pub runs : ℕ

-- After `start`, before the layout is ready.
abbrev pub new_scheduler : SyncScheduler
new_scheduler = record {
  tracker = new_tracker;
  wired = false;
  destroyed = false;
  departed = false;
  armed = false;
  runs = 0;
}

run_sync : SyncScheduler → SyncScheduler
run_sync s = record s { runs = s.runs + 1 }

-- `wireAll`
pub wire_all : SyncScheduler → SyncScheduler
wire_all s = if s.destroyed then s else record s { wired = true }

abbrev pub destroy : SyncScheduler → SyncScheduler
destroy s = record s { destroyed = true; armed = false }

-- `triggerSync`
pub trigger_sync : Bool → Bool → SyncScheduler → SyncScheduler
unfolding run_sync
trigger_sync has_remote is_syncing s =
    if not has_remote then s else if is_syncing then s else run_sync s

-- `triggerForegroundSync`
pub trigger_foreground_sync : Bool → Bool → SyncScheduler → SyncScheduler
unfolding run_sync
trigger_foreground_sync has_remote is_syncing s =
    if not has_remote
    then s
    else if is_syncing
    then s
    else if not s.departed
    then s
    else run_sync (record s { departed = false })

-- The callback of the timer.
pub debounced_sync : Bool → SyncScheduler → SyncScheduler
unfolding run_sync
debounced_sync has_remote s =
    if not s.armed
    then s
    else if not has_remote
    then record s { armed = false }
    else run_sync (record s { armed = false })

-- A handler of the vault: a request arms the timer.
abbrev arm : Bool × LocalChangeTracker → SyncScheduler → SyncScheduler
arm (requested, t) s = record s { tracker = t; armed = requested || s.armed }

-- The events that the scheduler listens to. The Booleans are whether there is a remote file system, and
-- whether a sync runs; for `file_opened` whether the pull found the path untracked.
pub data Event : Type 0 where
  layout_ready unloads blurs hides : Event
  changes : Str → Event
  renames : Entry → Str → Event
  online focuses shows : Bool → Bool → Event
  timer : Bool → Event
  file_opened : Bool → Event

module _ (is_excluded : Str → Bool) where
  -- A listener of a scheduler that is wired.
  pub handle : Event → SyncScheduler → SyncScheduler
  unfolding wire_all trigger_sync trigger_foreground_sync debounced_sync on_vault_change on_rename
  handle layout_ready s = s
  handle unloads s = s
  handle (timer has_remote) s = s
  handle blurs s = record s { departed = true }
  handle hides s = record s { departed = true }
  handle (changes path) s = arm (on_vault_change is_excluded path s.tracker) s
  handle (renames entry old_path) s = arm (on_rename is_excluded entry old_path s.tracker) s
  handle (online has_remote is_syncing) s = trigger_sync has_remote is_syncing s
  handle (focuses has_remote is_syncing) s = trigger_foreground_sync has_remote is_syncing s
  handle (shows has_remote is_syncing) s = trigger_foreground_sync has_remote is_syncing s
  handle (file_opened is_untracked) s = record s {
    armed = (is_untracked && not s.destroyed) || s.armed;
  }

  pub step : Event → SyncScheduler → SyncScheduler
  unfolding wire_all handle debounced_sync
  step layout_ready s = wire_all s
  step unloads s = destroy s
  step (timer has_remote) s = debounced_sync has_remote s
  step blurs s = if s.wired then handle blurs s else s
  step hides s = if s.wired then handle hides s else s
  step (changes path) s = if s.wired then handle (changes path) s else s
  step (renames entry old_path) s = if s.wired then handle (renames entry old_path) s else s
  step (online r y) s = if s.wired then handle (online r y) s else s
  step (focuses r y) s = if s.wired then handle (focuses r y) s else s
  step (shows r y) s = if s.wired then handle (shows r y) s else s
  step (file_opened u) s = if s.wired then handle (file_opened u) s else s

  pub steps : List Event → SyncScheduler → SyncScheduler
  steps [] s = s
  steps (e ∷ es) s = steps es (step e s)
