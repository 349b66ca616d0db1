-- ===== src/Scheduler/Scope.antt =====
-- The sync scope in the vault events of src/sync/scheduler.ts.
use mathlib.Core.Option.{some-injective, none-ne-some}
use obsidian_air_sync.Prelude.{
  ◌≡◌, sym, ap, ◌∙◌, Bool, true, false, not, ◌&&◌, none, some, List, [], ◌∷◌, ◌++◌, drop, length,
  ◌==◌, nat_eq, contains, if◌then◌else◌, arith, Bool-cases, Option-cases, inl, inr, ==_iff,
}
use obsidian_air_sync.Prelude.Text.{Str, str_eq, codes, is_empty}
use obsidian_air_sync.Prelude.Dict
use obsidian_air_sync.Prelude.Dict.{Dict, get}
use obsidian_air_sync.Paths.{starts_with}
use obsidian_air_sync.Tracker.{
  LocalChangeTracker, resolve, mark_dirty, mark_renamed, mark_folder_renamed, dirty, renamed,
  folder_renamed,
}
use obsidian_air_sync.Tracker.Survival.{endpoints, dirty-report}
use obsidian_air_sync.Tracker.Renames.{
  collapse, pairs-mark_renamed, pairs-mark_folder_renamed, get-collapse,
}
use obsidian_air_sync.Scheduler.{
  Entry, file, folder, Children, leaf, child, SyncScheduler, new_scheduler, Event, layout_ready,
  unloads, blurs, hides, changes, renames, online, focuses, shows, timer, file_opened, track_file,
  track_children, track_scoped_folder_rename, on_vault_change, on_rename, handle, step, steps,
  wire_all, trigger_sync, trigger_foreground_sync, debounced_sync, run_sync,
}

resolve-none : (d : Dict Str Str) (o : Str) → Dict.get o d ≡ none → resolve d o ≡ o
resolve-none d o g = ground arith

resolve-some : (d : Dict Str Str) (o v : Str) → Dict.get o d ≡ some v → resolve d o ≡ v
resolve-some d o v g = ground arith

module _ (is_excluded : Str → Bool) where
  abbrev pub PairsInScope : Dict Str Str → Type 0
  PairsInScope d =
      (k v : Str) → Dict.get k d ≡ some v → (is_excluded k ≡ false) × (is_excluded v ≡ false)

  abbrev pub InScope : LocalChangeTracker → Type 0
  InScope t =
      ((p : Str) → contains t.dirty_paths p ≡ true → is_excluded p ≡ false)
      × PairsInScope t.rename_pairs
      × PairsInScope t.folder_rename_pairs

  resolve-in_scope :
      (d : Dict Str Str) (o : Str)
      → PairsInScope d
      → is_excluded o ≡ false
      → is_excluded (resolve d o) ≡ false
  resolve-in_scope d o h e = elim (Option-cases (Dict.get o d)) [
    | inl g ↦ ap is_excluded (resolve-none d o g) ∙ e
    | inr (v, g) ↦ ap is_excluded (resolve-some d o v g) ∙ (h o v g).1
  ]

  at_endpoint :
      (o r n p : Str)
      → is_excluded o ≡ false
      → is_excluded r ≡ false
      → is_excluded n ≡ false
      → endpoints o r n p ≡ true
      → is_excluded p ≡ false
  at_endpoint o r n p a b c h = elim (str_eq.dec p o) [
    | yes e ↦ rw e a
    | no x ↦ elim (str_eq.dec p r) [
      | yes e ↦ rw e b
      | no y ↦ elim (str_eq.dec p n) [ yes e ↦ rw e c | no z ↦ absurd (ground arith) ]
    ]
  ]

  collapse-in_scope :
      (d : Dict Str Str) (n o : Str)
      → PairsInScope d
      → is_excluded n ≡ false
      → is_excluded o ≡ false
      → PairsInScope (collapse d n o)
  collapse-in_scope d n o h a b k v g =
      let r = resolve d o in
      let gc = get-collapse d n o k in
      elim (Bool-cases (k == n && not (r == n))) [
        | inl t ↦
            let w : r ≡ v = some-injective r v (ground (arith, gc, g, t)) in
            (
              ap is_excluded ((==_iff k n).0 (ground (arith, t))) ∙ a,
              ap is_excluded (sym w) ∙ resolve-in_scope d o h b,
            )
        | inr t ↦ h k v (ground (arith, gc, g, t))
      ]

  pairs_of : (d f : Dict Str Str) → f ≡ d → PairsInScope d → PairsInScope f
  pairs_of d f e h k v g = h k v (sym (ap (λ m. Dict.get k m) e) ∙ g)

  mark_dirty-InScope :
      (p : Str) (t : LocalChangeTracker)
      → is_excluded p ≡ false
      → InScope t
      → InScope (mark_dirty p t)
  unfolding mark_dirty
  mark_dirty-InScope p t x (a, b, c) = (
    λ q m. elim (str_eq.dec q p) [
      | yes e ↦ ap is_excluded e ∙ x
      | no n ↦ a q (ground (arith, dirty-report (dirty p) t q, m))
    ],
    b,
    c,
  )

  mark_renamed-InScope :
      (n o : Str) (t : LocalChangeTracker)
      → is_excluded n ≡ false
      → is_excluded o ≡ false
      → InScope t
      → InScope (mark_renamed n o t)
  mark_renamed-InScope n o t x y (a, b, c) =
      let r = resolve t.rename_pairs o in
      let z = resolve-in_scope t.rename_pairs o b y in
      let m = pairs-mark_renamed n o t in
      (
        λ q w. elim (Bool-cases (endpoints o r n q)) [
          | inl e ↦ at_endpoint o r n q y z x e
          | inr e ↦ a q (ground (arith, dirty-report (renamed n o) t q, w, e))
        ],
        pairs_of (collapse t.rename_pairs n o) (mark_renamed n o t).rename_pairs m.0
            (collapse-in_scope t.rename_pairs n o b x y),
        pairs_of t.folder_rename_pairs (mark_renamed n o t).folder_rename_pairs m.1 c,
      )

  mark_folder_renamed-InScope :
      (n o : Str) (t : LocalChangeTracker)
      → is_excluded n ≡ false
      → is_excluded o ≡ false
      → InScope t
      → InScope (mark_folder_renamed n o t)
  mark_folder_renamed-InScope n o t x y (a, b, c) =
      let r = resolve t.folder_rename_pairs o in
      let z = resolve-in_scope t.folder_rename_pairs o c y in
      let m = pairs-mark_folder_renamed n o t in
      (
        λ q w. elim (Bool-cases (endpoints o r n q)) [
          | inl e ↦ at_endpoint o r n q y z x e
          | inr e ↦ a q (ground (arith, dirty-report (folder_renamed n o) t q, w, e))
        ],
        pairs_of t.rename_pairs (mark_folder_renamed n o t).rename_pairs m.1 b,
        pairs_of (collapse t.folder_rename_pairs n o)
            (mark_folder_renamed n o t).folder_rename_pairs m.0
            (collapse-in_scope t.folder_rename_pairs n o c x y),
      )

  -- An edge of a rename with at most one endpoint out of scope.
  track_file-InScope :
      (prefix root path : Str) (s : Bool × LocalChangeTracker)
      → InScope s.1
      → InScope (track_file is_excluded prefix root path s).1
  unfolding track_file
  track_file-InScope prefix root path (tracked, t) h =
      let relative = drop (length prefix) path in
      let old = if is_empty relative then root else root ++ (codes "/" ++ relative) in
      elim (Bool-cases (starts_with path prefix)) [
        | inr s ↦ rw s h
        | inl s ↦ elim (Bool-cases (is_excluded path)) [
          | inl x ↦ elim (Bool-cases (is_excluded old)) [
            | inl y ↦ rw (s, x, y) h
            | inr y ↦ rw (s, x, y) (mark_dirty-InScope old t y h)
          ]
          | inr x ↦ elim (Bool-cases (is_excluded old)) [
            | inl y ↦ rw (s, x, y) (mark_dirty-InScope path t x h)
            | inr y ↦ rw (s, x, y) (mark_renamed-InScope path old t x y h)
          ]
        ]
      ]

  track_children-InScope :
      (prefix root : Str) (children : Children) (s : Bool × LocalChangeTracker)
      → InScope s.1
      → InScope (track_children is_excluded prefix root children s).1
  unfolding track_children
  track_children-InScope prefix root leaf s h = h
  track_children-InScope prefix root (child (file path) rest) s h =
      track_file-InScope prefix root path (track_children is_excluded prefix root rest s)
        (track_children-InScope prefix root rest s h)
  track_children-InScope prefix root (child (folder path children) rest) s h =
      track_children-InScope prefix root children (track_children is_excluded prefix root rest s)
        (track_children-InScope prefix root rest s h)

  on_rename-InScope :
      (entry : Entry) (old : Str) (t : LocalChangeTracker)
      → InScope t
      → InScope (on_rename is_excluded entry old t).1
  unfolding on_rename track_scoped_folder_rename
  on_rename-InScope (folder path children) old t h = elim (Bool-cases (is_excluded path)) [
    | inl x ↦ rw x (track_children-InScope (path ++ codes "/") old children (false, t) h)
    | inr x ↦ elim (Bool-cases (is_excluded old)) [
      | inl y ↦ rw (x, y) (track_children-InScope (path ++ codes "/") old children (false, t) h)
      | inr y ↦ rw (x, y) (mark_folder_renamed-InScope path old t x y h)
    ]
  ]
  on_rename-InScope (file path) old t h = elim (Bool-cases (is_excluded path)) [
    | inl x ↦ elim (Bool-cases (is_excluded old)) [
      | inl y ↦ rw (x, y) h
      | inr y ↦ rw (x, y) (mark_dirty-InScope old t y h)
    ]
    | inr x ↦ elim (Bool-cases (is_excluded old)) [
      | inl y ↦ rw (x, y) (mark_dirty-InScope path t x h)
      | inr y ↦ rw (x, y) (mark_renamed-InScope path old t x y h)
    ]
  ]

  on_vault_change-InScope :
      (path : Str) (t : LocalChangeTracker)
      → InScope t
      → InScope (on_vault_change is_excluded path t).1
  unfolding on_vault_change
  on_vault_change-InScope path t h = elim (Bool-cases (is_excluded path)) [
    | inl x ↦ rw x h
    | inr x ↦ rw x (mark_dirty-InScope path t x h)
  ]

  tracker_kept :
      (s r : SyncScheduler) → r.tracker ≡ s.tracker → InScope s.tracker → InScope r.tracker
  tracker_kept s r e h = rw e h

  wired_only :
      (s r : SyncScheduler)
      → InScope s.tracker
      → InScope r.tracker
      → InScope (if s.wired then r else s).tracker
  wired_only s r h k = elim (Bool-cases s.wired) [ inl e ↦ rw e k | inr e ↦ rw e h ]

  step-InScope :
      (e : Event) (s : SyncScheduler) → InScope s.tracker → InScope (step is_excluded e s).tracker
  unfolding step handle wire_all trigger_sync trigger_foreground_sync debounced_sync run_sync
  step-InScope layout_ready s h = tracker_kept s (wire_all s) (ground arith) h
  step-InScope unloads s h = h
  step-InScope blurs s h = tracker_kept s (step is_excluded blurs s) (ground arith) h
  step-InScope hides s h = tracker_kept s (step is_excluded hides s) (ground arith) h
  step-InScope (changes path) s h =
      wired_only s (handle is_excluded (changes path) s) h
        (on_vault_change-InScope path s.tracker h)
  step-InScope (renames entry old) s h =
      wired_only s (handle is_excluded (renames entry old) s) h
        (on_rename-InScope entry old s.tracker h)
  step-InScope (online r y) s h = tracker_kept s (step is_excluded (online r y) s) (ground arith) h
  step-InScope (focuses r y) s h =
      tracker_kept s (step is_excluded (focuses r y) s) (ground arith) h
  step-InScope (shows r y) s h = tracker_kept s (step is_excluded (shows r y) s) (ground arith) h
  step-InScope (timer r) s h = tracker_kept s (step is_excluded (timer r) s) (ground arith) h
  step-InScope (file_opened u) s h =
      tracker_kept s (step is_excluded (file_opened u) s) (ground arith) h

  steps-InScope_from :
      (es : List Event) (s : SyncScheduler)
      → InScope s.tracker
      → InScope (steps is_excluded es s).tracker
  unfolding steps
  steps-InScope_from [] s h = h
  steps-InScope_from (e ∷ es) s h =
      steps-InScope_from es (step is_excluded e s) (step-InScope e s h)

  -- Whatever the vault and the app report, and in whatever order, no excluded path is dirty in the
  -- tracker, and no excluded path is an end of a rename pair of it, also when a folder moves across
  -- the border of the scope.
  pub steps-InScope : (es : List Event) → InScope (steps is_excluded es new_scheduler).tracker
  unfolding get
  steps-InScope es =
      steps-InScope_from es new_scheduler (
        λ p h. ground arith,
        λ k v h. absurd (none-ne-some v h),
        λ k v h. absurd (none-ne-some v h),
      )
