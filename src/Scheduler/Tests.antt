-- ===== src/Scheduler/Tests.antt =====
-- A vault with one excluded folder, and an app that leaves and comes back.
use obsidian_air_sync.Prelude.{◌≡◌, refl, ◌+◌, Bool, true, false, List, [], ◌∷◌}
use obsidian_air_sync.Prelude.Text.{Str, codes}
use obsidian_air_sync.Paths.{starts_with}
use obsidian_air_sync.Scheduler.{
  file, folder, child, leaf, SyncScheduler, new_scheduler, Event, layout_ready, blurs, focuses,
  renames, step, steps,
}
use obsidian_air_sync.Scheduler.Scope.{InScope, steps-InScope}
use obsidian_air_sync.Scheduler.Resume.{return_is_synced}

abbrev private_notes : Str → Bool
private_notes path = starts_with path (codes "p/")

-- A folder moves out of the scope.
abbrev moves : List Event
moves =
    layout_ready
    ∷ renames (folder (codes "p/d") (child (file (codes "p/d/a.md")) leaf)) (codes "d")
    ∷ []

steps-InScope_example : InScope private_notes (steps private_notes moves new_scheduler).tracker
steps-InScope_example = steps-InScope private_notes moves

abbrev away : SyncScheduler
away = record new_scheduler { wired = true; departed = true }

return_is_synced_example :
    ((step private_notes (focuses true false) (steps private_notes (blurs ∷ []) away)).runs
      ≡ (steps private_notes (blurs ∷ []) away).runs + 1)
    × ((step private_notes (focuses true false) (steps private_notes (blurs ∷ []) away)).departed
        ≡ false)
return_is_synced_example =
    return_is_synced private_notes (blurs ∷ []) (focuses true false) away refl refl refl refl
