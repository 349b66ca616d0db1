-- ===== src/Executor/Plan/Stopped.antt =====
-- The order of the actions of one component in src/sync/plan-executor.ts.
use obsidian_air_sync.Prelude.{
  ◌≡◌, ◌≢◌, ◌⊎◌, refl, ap, sym, ◌∙◌, Bool, true, false, not, Option, none, some, List, [], ◌∷◌,
  ◌++◌, ◌==◌, nat_eq, inl, inr, ==_iff,
}
use mathlib.Core.Path.{subst}
use mathlib.Core.List.{append-nil, append_assoc}
use obsidian_air_sync.Types.Action.{SyncAction, CompletedAction}
use obsidian_air_sync.Files.{Failure, M}
use obsidian_air_sync.Executor.Checks.{Machine, World}
use obsidian_air_sync.Executor.Action.{Retrying, Execution, BlockedReason, prefix_failed, block}
use obsidian_air_sync.Executor.Plan.{execute_serial, execute_component, incomplete}

abbrev pub prefix_blocked : List SyncAction → List (SyncAction × BlockedReason)
prefix_blocked [] = []
prefix_blocked (a ∷ actions) = (a, prefix_failed) ∷ prefix_blocked actions

module _ (m : Machine) (r : Retrying m)
    (publish_conflict : SyncAction → List CompletedAction → M (World m) CompletedAction) where
  -- The actions ran one after the other, each on what the one before it left, and none failed or was blocked.
  pub data Completes : List SyncAction → Execution m → Execution m → Type 0 where
    finished : {s : Execution m} → Completes [] s s
    then_next :
        {a : SyncAction} {actions : List SyncAction} {s t u : Execution m}
        → execute_serial m r publish_conflict a s ≡ (none, t)
        → incomplete t ≡ incomplete s
        → Completes actions t u
        → Completes (a ∷ actions) s u

  -- Neither file system nor the store nor the batch was touched, and all actions are blocked.
  abbrev pub Skips : List SyncAction → Execution m → Execution m → Type 0
  Skips actions t u =
      (u.world ≡ t.world)
      × (u.batch ≡ t.batch)
      × (u.result.succeeded ≡ t.result.succeeded)
      × (u.result.superseded ≡ t.result.superseded)
      × (u.result.failures ≡ t.result.failures)
      × (u.result.blocked ≡ t.result.blocked ++ prefix_blocked actions)

  execute_component-Skips :
      (actions : List SyncAction) (s : Execution m)
      → Skips actions s (execute_component m r publish_conflict actions true s).1
  unfolding execute_component
  execute_component-Skips [] s = (refl, refl, refl, refl, refl, sym (append-nil s.result.blocked))
  execute_component-Skips (a ∷ actions) s =
      let (w, b, c, d, f, e) = execute_component-Skips actions (block prefix_failed a s) in
      (
        w,
        b,
        c,
        d,
        f,
        e ∙ append_assoc s.result.blocked ((a, prefix_failed) ∷ []) (prefix_blocked actions),
      )

  -- The actions `before` completed and came to `u`. Either they are all, or the next one, on `u`, came to
  -- an incomplete `v` and all later ones are skipped.
  abbrev pub StopsAfter :
      List SyncAction → Execution m → Execution m → List SyncAction → Execution m → Type 0
  StopsAfter actions s t before u =
      Completes before s u
      × (((actions ≡ before) × (t ≡ u))
          ⊎ ((a : SyncAction) × (rest : List SyncAction) × (v : Execution m) × (actions
                ≡ before ++ a ∷ rest)
              × (execute_serial m r publish_conflict a u ≡ (none, v))
              × (incomplete v ≢ incomplete u)
              × Skips rest v t))

  abbrev pub Stops : List SyncAction → Execution m → Execution m → Type 0
  Stops actions s t =
      (before : List SyncAction) × (u : Execution m) × StopsAfter actions s t before u

  then_next-Stops :
      (a : SyncAction) (actions : List SyncAction) (s t u : Execution m)
      → execute_serial m r publish_conflict a s ≡ (none, t)
      → incomplete t ≡ incomplete s
      → Stops actions t u
      → Stops (a ∷ actions) s u
  then_next-Stops a actions s t u h e (before, v, (done, inl (p, q))) =
      (a ∷ before, v, (then_next h e done, inl (ap (λ xs. a ∷ xs) p, q)))
  then_next-Stops a actions s t u h e (before, v, (done, inr (b, rest, w, p, x, y, z))) =
      (a ∷ before, v, (then_next h e done, inr (b, rest, w, ap (λ xs. a ∷ xs) p, x, y, z)))

  -- Where the serial execution of a component throws nothing, it consists of actions that completed
  -- or were superseded one after the other, followed by nothing, or by one that failed or was
  -- blocked. All after that one are blocked, in order, and they touch neither the file systems nor
  -- the store nor the batch nor the other results.
  pub execute_component-Stops :
      (actions : List SyncAction) (s t : Execution m)
      → execute_component m r publish_conflict actions false s ≡ (none, t)
      → Stops actions s t
  unfolding execute_component
  execute_component-Stops [] s t h = ([], s, (finished, inl (refl, sym (ap (λ o. o.1) h))))
  execute_component-Stops (a ∷ actions) s t h =
      of_outcome (execute_serial m r publish_conflict a s).0
        (execute_serial m r publish_conflict a s).1 refl h
        (execute_component-Stops actions (execute_serial m r publish_conflict a s).1 t)
    where
      of_complete :
          (v : Execution m) (b : Bool)
          → execute_serial m r publish_conflict a s ≡ (none, v)
          → (incomplete v == incomplete s) ≡ b
          → execute_component m r publish_conflict actions (not b) v ≡ (none, t)
          → (execute_component m r publish_conflict actions false v ≡ (none, t) → Stops actions v t)
          → Stops (a ∷ actions) s t
      of_complete v true e p f ih =
          then_next-Stops a actions s v t e ((==_iff (incomplete v) (incomplete s)).0 p) (ih f)
      of_complete v false e p f ih = (
        [],
        s,
        (
          finished,
          inr (
            a,
            actions,
            v,
            refl,
            e,
            λ q. absurd (cc (p, (==_iff (incomplete v) (incomplete s)).1 q)),
            subst (λ o. Skips actions v o.1) f (execute_component-Skips actions v),
          ),
        ),
      )

      of_outcome :
          (e : Option Failure) (v : Execution m)
          → execute_serial m r publish_conflict a s ≡ (e, v)
          → ◌≡◌ {A = Option Failure × Execution m}
              (elim e [
                | some fault ↦ (some fault, v)
                | none ↦
                    execute_component m r publish_conflict actions
                      (not (incomplete v == incomplete s))
                      v
              ])
              (none, t)
          → (execute_component m r publish_conflict actions false v ≡ (none, t) → Stops actions v t)
          → Stops (a ∷ actions) s t
      of_outcome (some fault) v e f ih = absurd (cc)
      of_outcome none v e f ih = of_complete v (incomplete v == incomplete s) e refl f ih
