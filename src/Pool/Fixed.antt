-- ===== src/Pool/Fixed.antt =====
-- The tasks that run in the fixed pool of src/backend-api/async-queue.ts.
use obsidian_air_sync.Prelude.{
  ℕ, zero, suc, ◌≡◌, refl, ap, ◌+◌, ◌≤◌, some, List, [], ◌∷◌, leb, length, length-append, arith,
  Bool-cases, inl, inr, ◌⊎◌,
}
use obsidian_air_sync.Pool.{AsyncPool, async_pool, enter, resume, finish}

pub data Step : AsyncPool → AsyncPool → Type 0 where
  enters : (p : AsyncPool) (task : ℕ) → Step p (enter task p)
  resumes : (p : AsyncPool) (task : ℕ) (rest : List ℕ) → p.woken ≡ task ∷ rest → Step p (resume p)
  finishes : (p : AsyncPool) → 1 ≤ p.running → Step p (finish p)

pub data Reachable (concurrency : ℕ) : AsyncPool → Type 0 where
  starts : (p : AsyncPool) → async_pool concurrency ≡ some p → Reachable concurrency p
  steps : (p q : AsyncPool) → Reachable concurrency p → Step p q → Reachable concurrency q

-- The steps in which no task arrives while a woken waiter has not resumed.
pub data Orderly : AsyncPool → AsyncPool → Type 0 where
  enters_late : (p : AsyncPool) (task : ℕ) → p.woken ≡ [] → Orderly p (enter task p)
  resumes_first :
      (p : AsyncPool) (task : ℕ) (rest : List ℕ) → p.woken ≡ task ∷ rest → Orderly p (resume p)
  finishes_one : (p : AsyncPool) → 1 ≤ p.running → Orderly p (finish p)

pub data OrderlyReachable (concurrency : ℕ) : AsyncPool → Type 0 where
  starts_orderly :
      (p : AsyncPool) → async_pool concurrency ≡ some p → OrderlyReachable concurrency p
  steps_orderly :
      (p q : AsyncPool)
      → OrderlyReachable concurrency p
      → Orderly p q
      → OrderlyReachable concurrency q

-- Every slot taken or owed; and all of them, as long as a task waits.
abbrev pub Within : ℕ → AsyncPool → Type 0
Within c p =
    (p.concurrency ≡ c)
    × (p.running + length p.woken ≤ c)
    × ((p.waiting ≡ []) ⊎ (p.running + length p.woken ≡ c))

enter-Within : (c task : ℕ) (p : AsyncPool) → Within c p → p.woken ≡ [] → Within c (enter task p)
unfolding enter
enter-Within c task p (a, b, d) w = elim (Bool-cases (leb p.concurrency p.running)) [
  | inl e ↦ rw e (a, b, inr (ground (arith, ap length w)))
  | inr e ↦ rw e (a, ground (arith, ap length w), ground (arith, ap length w))
]

resume-Within :
    (c : ℕ) (p : AsyncPool) (woken : List ℕ) → Within c p → p.woken ≡ woken → Within c (resume p)
unfolding resume
resume-Within c p [] (a, b, d) w = let l = ap length w in rw w (a, omega arith, ground arith)
resume-Within c p (task ∷ rest) (a, b, d) w =
    let l = ap length w in rw w (a, omega arith, ground arith)

finish-Within :
    (c : ℕ) (p : AsyncPool) (waiting : List ℕ)
    → Within c p
    → 1 ≤ p.running
    → p.waiting ≡ waiting
    → Within c (finish p)
unfolding finish
finish-Within c p [] (a, b, d) r w = rw w (a, omega arith, inl refl)
finish-Within c p (next ∷ rest) (a, b, d) r w =
    let l = length-append p.woken (next ∷ []) in rw w (a, omega arith, inr (ground arith))

Orderly-Within : (c : ℕ) (p q : AsyncPool) → Within c p → Orderly p q → Within c q
Orderly-Within c p _ h (enters_late _ task w) = enter-Within c task p h w
Orderly-Within c p _ h (resumes_first _ task rest w) = resume-Within c p p.woken h refl
Orderly-Within c p _ h (finishes_one _ r) = finish-Within c p p.waiting h r refl

-- With arrivals only when no waiter is between its wake-up and its start, at most `concurrency`
-- tasks of a fixed pool run, and while a task waits every slot is taken or promised to a woken
-- waiter.
pub OrderlyReachable-Within : (c : ℕ) (p : AsyncPool) → OrderlyReachable c p → Within c p
unfolding async_pool
OrderlyReachable-Within c p (starts_orderly _ e) = ground arith
OrderlyReachable-Within c q (steps_orderly p _ r step) =
    Orderly-Within c p q (OrderlyReachable-Within c p r) step

abbrev pool_of : ℕ → ℕ → List ℕ → List ℕ → AsyncPool
pool_of c n waiting woken = record {
  concurrency = c;
  running = n;
  waiting = waiting;
  woken = woken;
}

-- One arrival takes a free slot.
enter_free :
    (c n : ℕ) (woken : List ℕ)
    → suc n ≤ c
    → enter 0 (pool_of c n [] woken) ≡ pool_of c (suc n) [] woken
unfolding enter
enter_free c n woken h = ground arith

enter_full : (c : ℕ) → enter 0 (pool_of c c [] []) ≡ pool_of c c (0 ∷ []) []
unfolding enter
enter_full c = ground arith

step_to : (c : ℕ) (p q r : AsyncPool) → Reachable c p → Step p q → q ≡ r → Reachable c r
step_to c p q r x y e = rw⁻¹ e (steps p q x y)

filled : (c n : ℕ) → n ≤ c → 1 ≤ c → Reachable c (pool_of c n [] [])
unfolding async_pool
filled c zero h k = starts (pool_of c 0 [] []) (ground arith)
filled c (suc n) h k =
    let p = pool_of c n [] [] in
    step_to c p (enter 0 p) (pool_of c (suc n) [] []) (filled c n (omega arith) k) (enters p 0)
      (enter_free c n [] h)

-- The bound of the fixed pool does not hold of all orders of its steps: for every concurrency of at
-- least 1 a state is reachable in which one task more than the concurrency runs, when a task
-- arrives between a wake-up and the start of the waiter.
pub over_admits : (c : ℕ) → 1 ≤ c → (p : AsyncPool) × Reachable c p × (p.running ≡ c + 1)
unfolding resume finish
over_admits zero h = absurd (omega arith)
over_admits (suc n) h =
    let c = suc n in
    let full = pool_of c c [] [] in
    let queued = pool_of c c (0 ∷ []) [] in
    let woken = pool_of c n [] (0 ∷ []) in
    let refilled = pool_of c c [] (0 ∷ []) in
    let r0 = filled c c (omega arith) h in
    let r1 = step_to c full (enter 0 full) queued r0 (enters full 0) (enter_full c) in
    let r2 =
      step_to c queued (finish queued) woken r1 (finishes queued h)
        (ap (λ k. pool_of c k [] (0 ∷ [])) (omega arith)) in
    let r3 =
      step_to c woken (enter 0 woken) refilled r2 (enters woken 0)
        (enter_free c n (0 ∷ []) (omega arith)) in
    (resume refilled, steps refilled (resume refilled) r3 (resumes refilled 0 [] refl), refl)
