-- ===== src/Pool/Adaptive.antt =====
-- The adaptive pool of src/backend-api/async-queue.ts with the tasks that hold a slot, and what each
-- operation does to them.
use obsidian_air_sync.Prelude.{
  ℕ, ◌≡◌, refl, ap, ◌∙◌, ◌+◌, ◌-◌, ◌≤◌, Bool, true, false, not, ◌&&◌, ◌||◌, none, some, List, [],
  ◌∷◌, ◌++◌, ltb, leb, length, length-append, arith, Bool-cases, and_iff, inl, inr,
}
use obsidian_air_sync.Pool.{
  Task, AdaptivePoolOpts, AdaptivePool, adaptive_pool, can_admit, admit, drain_queue, drain, is_nil,
  arrive, ramp, release, resolved, rejected, note_rate_limit,
}

-- `active` are the tasks that hold a slot; `started` and `arrived` the tasks that did, in order.
pub record System : Type 0 where
  pub pool : AdaptivePool
  pub active : List Task
  pub started : List Task
  pub arrived : List Task

abbrev pub idle : AdaptivePool → System
idle p = record { pool = p; active = []; started = []; arrived = [] }

-- The pool after an operation that starts tasks.
abbrev pub went : AdaptivePool × List Task → List Task → System → System
went done active s = record s {
  pool = done.0;
  active = active ++ done.1;
  started = s.started ++ done.1;
}

pub data Step : System → System → Type 0 where
  arrives :
      (s : System) (task : Task)
      → Step s (record (went (arrive task s.pool) s.active s) { arrived = s.arrived ++ task ∷ [] })
  resolves :
      (s : System) (front back : List Task) (task : Task)
      → s.active ≡ front ++ task ∷ back
      → Step s (went (resolved task.size s.pool) (front ++ back) s)
  rejects :
      (s : System) (front back : List Task) (task : Task)
      → s.active ≡ front ++ task ∷ back
      → Step s (went (rejected task.size s.pool) (front ++ back) s)
  limits : (s : System) → Step s (record s { pool = note_rate_limit s.pool })

pub data Reachable (o : AdaptivePoolOpts) : System → Type 0 where
  starts : (p : AdaptivePool) → adaptive_pool o ≡ some p → Reachable o (idle p)
  steps : (s t : System) → Reachable o s → Step s t → Reachable o t

abbrev pub sizes : List Task → ℕ
sizes [] = 0
sizes (task ∷ tasks) = task.size + sizes tasks

pub sizes-append : (xs ys : List Task) → sizes (xs ++ ys) ≡ sizes xs + sizes ys
sizes-append [] ys = omega arith
sizes-append (x ∷ xs) ys = omega (arith, sizes-append xs ys)

-- The bytes in flight are within the budget, or one task is alone.
abbrev pub fits : AdaptivePool → Bool
fits p = elim p.opts.byte_budget [
  | none ↦ true
  | some budget ↦ leb p.in_flight_bytes budget || leb p.running 1
]

-- The first waiter cannot be admitted.
abbrev pub blocked_by : List Task → AdaptivePool → Bool
blocked_by [] p = true
blocked_by (head ∷ rest) p = not (can_admit head.size p)

pub append_nil : (xs : List Task) → xs ++ [] ≡ xs
append_nil [] = refl
append_nil (x ∷ xs) = ap (λ ys. x ∷ ys) (append_nil xs)

pub append_assoc : (xs ys zs : List Task) → (xs ++ ys) ++ zs ≡ xs ++ (ys ++ zs)
append_assoc [] ys zs = refl
append_assoc (x ∷ xs) ys zs = ap (λ ws. x ∷ ws) (append_assoc xs ys zs)

-- The limits, which `drain` does not touch.
abbrev pub Bounded : AdaptivePool → Type 0
Bounded p =
    (1 ≤ p.opts.min)
    × (p.opts.min ≤ p.limit)
    × (p.limit ≤ p.opts.max)
    × (p.running ≤ p.opts.max)
    × (fits p ≡ true)

-- What an operation that starts `tasks` does to a pool with `n` tasks of `b` bytes in flight.
abbrev pub Starts : AdaptivePoolOpts → ℕ → ℕ → List Task → AdaptivePool × List Task → Type 0
Starts o n b queue done =
    (done.0.opts ≡ o)
    × (done.0.running ≡ n + length done.1)
    × (done.0.in_flight_bytes ≡ b + sizes done.1)
    × (done.1 ++ done.0.waiting ≡ queue)
    × (blocked_by done.0.waiting done.0 ≡ true)
    × Bounded done.0

admit-Bounded :
    (size : ℕ) (p : AdaptivePool) → Bounded p → can_admit size p ≡ true → Bounded (admit size p)
unfolding can_admit admit
admit-Bounded size p h e = ground arith

-- An admitted head adds its slot to what the rest starts.
Starts-cons :
    (p : AdaptivePool) (head : Task) (rest : List Task) (done : AdaptivePool × List Task)
    → Starts p.opts (p.running + 1) (p.in_flight_bytes + head.size) rest done
    → Starts p.opts p.running p.in_flight_bytes (head ∷ rest) (done.0, head ∷ done.1)
Starts-cons p head rest done (a, b, c, d, e, f) =
    (a, omega arith, omega arith, ap (λ ws. head ∷ ws) d, e, f)

drain_queue-Starts :
    (queue : List Task) (p : AdaptivePool)
    → Bounded p
    → Starts p.opts p.running p.in_flight_bytes queue (drain_queue queue p)
unfolding drain_queue admit
drain_queue-Starts [] p h = (refl, omega arith, omega arith, refl, refl, h)
drain_queue-Starts (head ∷ rest) p h = elim (Bool-cases (can_admit head.size p)) [
  | inl e ↦ rw e (
      Starts-cons p head rest (drain_queue rest (admit head.size p))
        (drain_queue-Starts rest (admit head.size p) (admit-Bounded head.size p h e)))
  | inr e ↦ rw e (refl, omega arith, omega arith, refl, rw e refl, h)
]

pub blocked_by_shrunk :
    (queue : List Task) (p : AdaptivePool) (limit streak : ℕ)
    → limit ≤ p.limit
    → blocked_by queue p ≡ true
    → blocked_by queue (record p { limit = limit; success_streak = streak }) ≡ true
unfolding can_admit
blocked_by_shrunk [] p limit streak h b = refl
blocked_by_shrunk (head ∷ rest) p limit streak h b = ground arith

is_nil_only : (xs : List Task) → is_nil xs ≡ true → xs ≡ []
unfolding is_nil
is_nil_only [] h = refl
is_nil_only (x ∷ xs) h = cc

blocked_by_snoc :
    (queue : List Task) (task : Task) (p : AdaptivePool) (waiting : List Task)
    → blocked_by queue p ≡ true
    → is_nil queue && can_admit task.size p ≡ false
    → blocked_by (queue ++ task ∷ []) (record p { waiting = waiting }) ≡ true
unfolding is_nil can_admit
blocked_by_snoc [] task p waiting b e = ground arith
blocked_by_snoc (head ∷ rest) task p waiting b e = b

arrive_now :
    (task : Task) (p : AdaptivePool)
    → Bounded p
    → p.waiting ≡ []
    → can_admit task.size p ≡ true
    → Starts p.opts p.running p.in_flight_bytes
        (p.waiting ++ task ∷ [])
        (admit task.size p, task ∷ [])
unfolding admit
arrive_now task p h w e =
    (refl, omega arith, omega arith, rw w refl, rw w refl, admit-Bounded task.size p h e)

pub arrive-Starts :
    (task : Task) (p : AdaptivePool)
    → Bounded p
    → blocked_by p.waiting p ≡ true
    → Starts p.opts p.running p.in_flight_bytes (p.waiting ++ task ∷ []) (arrive task p)
unfolding arrive
arrive-Starts task p h b = elim (Bool-cases (is_nil p.waiting && can_admit task.size p)) [
  | inl e ↦
      let both = (and_iff (is_nil p.waiting) (can_admit task.size p)).0 e in
      rw e (arrive_now task p h (is_nil_only p.waiting both.0) both.1)
  | inr e ↦ rw e (
    refl,
    omega arith,
    omega arith,
    refl,
    blocked_by_snoc p.waiting task p (p.waiting ++ task ∷ []) b e,
    h,
  )
]

ramp-Starts :
    (p : AdaptivePool)
    → Bounded p
    → blocked_by p.waiting p ≡ true
    → Starts p.opts p.running p.in_flight_bytes p.waiting (ramp p)
unfolding ramp drain
ramp-Starts p h b =
    elim (Bool-cases (leb p.opts.ramp_after (p.success_streak + 1) && ltb p.limit p.opts.max)) [
      | inl e ↦ rw e (
          drain_queue-Starts p.waiting (record p { limit = p.limit + 1; success_streak = 0 })
            (ground arith))
      | inr e ↦ rw e (
        refl,
        omega arith,
        omega arith,
        refl,
        blocked_by_shrunk p.waiting p p.limit (p.success_streak + 1) (omega arith) b,
        h,
      )
    ]

release-Starts :
    (size : ℕ) (p : AdaptivePool)
    → Bounded p
    → Starts p.opts (p.running - 1) (p.in_flight_bytes - size) p.waiting (release size p)
unfolding release drain
release-Starts size p h =
    drain_queue-Starts p.waiting
      (record p { running = p.running - 1; in_flight_bytes = p.in_flight_bytes - size })
      (ground arith)

-- The finished task gives its slot back, whatever started in between.
Starts-trans :
    (o : AdaptivePoolOpts) (n b size : ℕ) (queue : List Task)
    (first next : AdaptivePool × List Task)
    → 1 ≤ n
    → size ≤ b
    → Starts o n b queue first
    → Starts first.0.opts
        (first.0.running - 1)
        (first.0.in_flight_bytes - size)
        first.0.waiting
        next
    → Starts o (n - 1) (b - size) queue (next.0, first.1 ++ next.1)
Starts-trans o n b size queue first next k l (f0, f1, f2, f3, f4, f5) (g0, g1, g2, g3, g4, g5) = (
  g0 ∙ f0,
  omega (arith, length-append first.1 next.1),
  omega (arith, sizes-append first.1 next.1),
  append_assoc first.1 next.1 next.0.waiting ∙ ap (λ ws. first.1 ++ ws) g3 ∙ f3,
  g4,
  g5,
)

pub resolved-Starts :
    (size : ℕ) (p : AdaptivePool)
    → 1 ≤ p.running
    → size ≤ p.in_flight_bytes
    → Bounded p
    → blocked_by p.waiting p ≡ true
    → Starts p.opts (p.running - 1) (p.in_flight_bytes - size) p.waiting (resolved size p)
unfolding resolved
resolved-Starts size p k l h b =
    Starts-trans p.opts p.running p.in_flight_bytes size p.waiting (ramp p)
      (release size (ramp p).0) k l (ramp-Starts p h b)
      (release-Starts size (ramp p).0 (ramp-Starts p h b).5)

pub rejected-Starts :
    (size : ℕ) (p : AdaptivePool)
    → Bounded p
    → Starts p.opts (p.running - 1) (p.in_flight_bytes - size) p.waiting (rejected size p)
unfolding rejected
rejected-Starts size p h = release-Starts size (record p { success_streak = 0 }) h
