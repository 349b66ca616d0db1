-- ===== src/Pool/Invariant.antt =====
-- The states that the adaptive pool of src/backend-api/async-queue.ts reaches.
use obsidian_air_sync.Prelude.{
  ◌≡◌, refl, sym, ap, ◌∙◌, ◌+◌, ◌-◌, ◌/◌, ◌≤◌, min, max, true, some, List, [], ◌∷◌, ◌++◌, ltb,
  length, length-append, arith, Bool-cases, inl, inr,
}
use obsidian_air_sync.Pool.{
  Task, AdaptivePoolOpts, AdaptivePool, adaptive_pool, arrive, resolved, rejected, note_rate_limit,
}
use obsidian_air_sync.Pool.Adaptive.{
  System, idle, went, Step, arrives, resolves, rejects, limits, Reachable, starts, steps, sizes,
  sizes-append, blocked_by, blocked_by_shrunk, Bounded, Starts, append_assoc, arrive-Starts,
  resolved-Starts, rejected-Starts,
}

-- The counters are those of the tasks in flight, tasks start in the order of their arrival, the first
-- waiter could not be admitted, the limit and the tasks in flight are within the options.
abbrev pub Valid : AdaptivePoolOpts → System → Type 0
Valid o s =
    (s.pool.opts ≡ o)
    × (s.pool.running ≡ length s.active)
    × (s.pool.in_flight_bytes ≡ sizes s.active)
    × (s.started ++ s.pool.waiting ≡ s.arrived)
    × (blocked_by s.pool.waiting s.pool ≡ true)
    × Bounded s.pool

length_without :
    (front back : List Task) (task : Task)
    → length (front ++ task ∷ back) ≡ length (front ++ back) + 1
length_without [] back task = omega arith
length_without (x ∷ front) back task = omega (arith, length_without front back task)

sizes_without :
    (front back : List Task) (task : Task)
    → sizes (front ++ task ∷ back) ≡ sizes (front ++ back) + task.size
sizes_without [] back task = omega arith
sizes_without (x ∷ front) back task = omega (arith, sizes_without front back task)

settled :
    (o : AdaptivePoolOpts) (s : System) (front back : List Task) (task : Task)
    (done : AdaptivePool × List Task)
    → s.active ≡ front ++ task ∷ back
    → Valid o s
    → Starts s.pool.opts
        (s.pool.running - 1)
        (s.pool.in_flight_bytes - task.size)
        s.pool.waiting
        done
    → Valid o (went done (front ++ back) s)
settled o s front back task done e (a, b, c, d, f, g) (h0, h1, h2, h3, h4, h5) =
    let n = length_without front back task in
    let k = sizes_without front back task in
    (
      h0 ∙ a,
      omega (arith, h1, b ∙ ap length e, n, length-append (front ++ back) done.1),
      omega (arith, h2, c ∙ ap sizes e, k, sizes-append (front ++ back) done.1),
      append_assoc s.started done.1 done.0.waiting ∙ ap (λ ws. s.started ++ ws) h3 ∙ d,
      h4,
      h5,
    )

pub in_flight :
    (o : AdaptivePoolOpts) (s : System) (front back : List Task) (task : Task)
    → s.active ≡ front ++ task ∷ back
    → Valid o s
    → (1 ≤ s.pool.running) × (task.size ≤ s.pool.in_flight_bytes)
in_flight o s front back task e (a, b, c, d, f, g) = (
  omega (arith, b ∙ ap length e, length_without front back task),
  omega (arith, c ∙ ap sizes e, sizes_without front back task),
)

note_rate_limit-Valid :
    (o : AdaptivePoolOpts) (s : System)
    → Valid o s
    → Valid o (record s { pool = note_rate_limit s.pool })
unfolding note_rate_limit
note_rate_limit-Valid o s (a, b, c, d, e, f) = elim (Bool-cases (ltb s.pool.limit s.pool.running)) [
  | inl t ↦ rw t (a, b, c, d, e, f)
  | inr t ↦ rw t (
    a,
    b,
    c,
    d,
    blocked_by_shrunk s.pool.waiting s.pool (max s.pool.opts.min (s.pool.limit / 2)) 0 (omega arith)
        e,
    (omega arith, omega arith, omega arith, omega arith, f.4),
  )
]

arrives-Valid :
    (o : AdaptivePoolOpts) (s : System) (task : Task) (done : AdaptivePool × List Task)
    → Valid o s
    → Starts s.pool.opts s.pool.running s.pool.in_flight_bytes (s.pool.waiting ++ task ∷ []) done
    → Valid o (record (went done s.active s) { arrived = s.arrived ++ task ∷ [] })
arrives-Valid o s task done (a, b, c, d, e, f) (h0, h1, h2, h3, h4, h5) = (
  h0 ∙ a,
  omega (arith, length-append s.active done.1),
  omega (arith, sizes-append s.active done.1),
  append_assoc s.started done.1 done.0.waiting
      ∙ ap (λ ws. s.started ++ ws) h3
      ∙ sym (append_assoc s.started s.pool.waiting (task ∷ []))
      ∙ ap (λ ws. ws ++ task ∷ []) d,
  h4,
  h5,
)

Step-Valid : (o : AdaptivePoolOpts) (s t : System) → Valid o s → Step s t → Valid o t
Step-Valid o s _ h (arrives _ task) =
    arrives-Valid o s task (arrive task s.pool) h (arrive-Starts task s.pool h.5 h.4)
Step-Valid o s _ h (resolves _ front back task e) =
    let f = in_flight o s front back task e h in
    settled o s front back task (resolved task.size s.pool) e h
      (resolved-Starts task.size s.pool f.0 f.1 h.5 h.4)
Step-Valid o s _ h (rejects _ front back task e) =
    settled o s front back task (rejected task.size s.pool) e h
      (rejected-Starts task.size s.pool h.5)
Step-Valid o s _ h (limits _) = note_rate_limit-Valid o s h

abbrev fresh : AdaptivePoolOpts → AdaptivePool
fresh o = record {
  running = 0;
  in_flight_bytes = 0;
  waiting = [];
  limit = min o.max (max o.min o.start);
  success_streak = 0;
  opts = o;
}

adaptive_pool-fresh :
    (o : AdaptivePoolOpts) (p : AdaptivePool)
    → adaptive_pool o ≡ some p
    → (p ≡ fresh o) × (1 ≤ o.min) × (o.min ≤ o.max)
unfolding adaptive_pool
adaptive_pool-fresh o p e = ground arith

fresh-Valid :
    (o : AdaptivePoolOpts) (p : AdaptivePool)
    → (p ≡ fresh o) × (1 ≤ o.min) × (o.min ≤ o.max)
    → Valid o (idle p)
fresh-Valid o p (e, h, k) =
    rw e (refl, refl, refl, refl, refl, (h, omega arith, omega arith, omega arith, ground arith))

-- In every state that an adaptive pool reaches by arrivals, settled tasks and rate limits, its
-- counters are the number and the size of the tasks in flight, tasks have started in the order of
-- their arrival, the first waiter cannot be admitted, the limit and the tasks in flight are within
-- the options, and the bytes in flight are within the budget unless at most one task is in flight.
pub Reachable-Valid : (o : AdaptivePoolOpts) (s : System) → Reachable o s → Valid o s
Reachable-Valid o _ (starts p e) = fresh-Valid o p (adaptive_pool-fresh o p e)
Reachable-Valid o t (steps s _ r step) = Step-Valid o s t (Reachable-Valid o s r) step
