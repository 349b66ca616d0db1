-- ===== src/Pool/Drained.antt =====
-- How the adaptive pool of src/backend-api/async-queue.ts comes to rest.
use obsidian_air_sync.Prelude.{
  ℕ, zero, suc, ◌≡◌, refl, sym, ap, ◌∙◌, ◌+◌, ◌-◌, Bool, true, List, [], ◌∷◌, ◌++◌, if◌then◌else◌,
  length, length-append, arith, Bool-cases, inl, inr,
}
use obsidian_air_sync.Pool.{Task, AdaptivePoolOpts, AdaptivePool, can_admit, resolved, rejected}
use obsidian_air_sync.Pool.Adaptive.{
  System, went, resolves, rejects, Reachable, steps, blocked_by, Bounded, Starts, append_nil,
  resolved-Starts, rejected-Starts,
}
use obsidian_air_sync.Pool.Invariant.{Valid, Reachable-Valid, in_flight}

-- The first task in flight settles, as `ok` says.
abbrev pub settle_first : List Task → (Task → Bool) → System → System
settle_first [] ok s = s
settle_first (task ∷ back) ok s =
    went (if ok task then resolved task.size s.pool else rejected task.size s.pool) back s

abbrev pub settle_next : (Task → Bool) → System → System
settle_next ok s = settle_first s.active ok s

pub settle_many : ℕ → (Task → Bool) → System → System
settle_many zero ok s = s
settle_many (suc n) ok s = settle_many n ok (settle_next ok s)

abbrev pub pending : System → ℕ
pending s = length s.active + length s.pool.waiting

no_active-no_waiting :
    (o : AdaptivePoolOpts) (queue : List Task) (p : AdaptivePool)
    → p.running ≡ 0
    → Bounded p
    → blocked_by queue p ≡ true
    → queue ≡ []
unfolding can_admit
no_active-no_waiting o [] p r h b = refl
no_active-no_waiting o (head ∷ rest) p r h b = absurd (ground arith)

settle_first-Reachable :
    (o : AdaptivePoolOpts) (ok : Task → Bool) (s : System) (active : List Task)
    → s.active ≡ active
    → Reachable o s
    → Reachable o (settle_first active ok s)
settle_first-Reachable o ok s [] e r = r
settle_first-Reachable o ok s (task ∷ back) e r = elim (Bool-cases (ok task)) [
  | inl t ↦ rw t (steps s (went (resolved task.size s.pool) back s) r (resolves s [] back task e))
  | inr t ↦ rw t (steps s (went (rejected task.size s.pool) back s) r (rejects s [] back task e))
]

settle_first-Starts :
    (o : AdaptivePoolOpts) (ok : Task → Bool) (s : System) (task : Task) (back : List Task)
    → s.active ≡ task ∷ back
    → Valid o s
    → Starts s.pool.opts
        (s.pool.running - 1)
        (s.pool.in_flight_bytes - task.size)
        s.pool.waiting
        (if ok task then resolved task.size s.pool else rejected task.size s.pool)
settle_first-Starts o ok s task back e v =
    let f = in_flight o s [] back task e v in
    elim (Bool-cases (ok task)) [
      | inl t ↦ rw t (resolved-Starts task.size s.pool f.0 f.1 v.5 v.4)
      | inr t ↦ rw t (rejected-Starts task.size s.pool v.5)
    ]

pending_went :
    (s : System) (task : Task) (back : List Task) (done : AdaptivePool × List Task) (n : ℕ)
    → s.active ≡ task ∷ back
    → pending s ≡ suc n
    → done.1 ++ done.0.waiting ≡ s.pool.waiting
    → pending (went done back s) ≡ n
pending_went s task back done n e p h = omega (
  arith,
  length-append back done.1,
  length-append done.1 done.0.waiting,
  ap length h,
  ap length e,
)

settle_first-pending :
    (o : AdaptivePoolOpts) (ok : Task → Bool) (s : System) (n : ℕ) (active : List Task)
    → s.active ≡ active
    → Valid o s
    → pending s ≡ suc n
    → (pending (settle_first active ok s) ≡ n) × ((settle_first active ok s).arrived ≡ s.arrived)
settle_first-pending o ok s n [] e v p =
    let w = no_active-no_waiting o s.pool.waiting s.pool (v.1 ∙ ap length e) v.5 v.4 in
    absurd (omega (arith, ap length w, ap length e))
settle_first-pending o ok s n (task ∷ back) e v p = (
  pending_went s task back
      (if ok task then resolved task.size s.pool else rejected task.size s.pool) n e p
      (settle_first-Starts o ok s task back e v).3,
  refl,
)

no_length : (xs : List Task) → length xs ≡ 0 → xs ≡ []
no_length [] e = refl
no_length (x ∷ xs) e = absurd (omega arith)

drained :
    (s : System)
    → pending s ≡ 0
    → s.started ++ s.pool.waiting ≡ s.arrived
    → (s.active ≡ []) × (s.started ≡ s.arrived)
drained s p h = (
  no_length s.active (omega arith),
  sym (append_nil s.started)
      ∙ ap (λ ws. s.started ++ ws) (sym (no_length s.pool.waiting (omega arith)))
      ∙ h,
)

-- From every reachable state of an adaptive pool, when as many tasks have settled as there are
-- tasks in flight and waiting, each of them resolved or rejected, the oldest in flight first, no
-- task is in flight and all tasks that arrived have started, in the order of their arrival.
pub settle_many-drained :
    (o : AdaptivePoolOpts) (ok : Task → Bool) (s : System) (n : ℕ)
    → Reachable o s
    → pending s ≡ n
    → ((settle_many n ok s).active ≡ []) × ((settle_many n ok s).started ≡ s.arrived)
unfolding settle_many
settle_many-drained o ok s zero r p = drained s p (Reachable-Valid o s r).3
settle_many-drained o ok s (suc n) r p =
    let f = settle_first-pending o ok s n s.active refl (Reachable-Valid o s r) p in
    let h =
      settle_many-drained o ok (settle_next ok s) n (settle_first-Reachable o ok s s.active refl r)
        f.0 in
    (h.0, h.1 ∙ f.1)
