-- ===== src/Executor/Action/Attempts.antt =====
-- The attempts that `withIoRetry` of src/sync/plan-executor.ts makes.
use mathlib.Core.Option.{some-injective}
use obsidian_air_sync.Prelude.{
  ℕ, zero, suc, ◌+◌, ◌≤◌, ◌<◌, ◌≡◌, refl, ap, sym, ◌∙◌, Bool, true, false, Option, none, some,
  arith, Bool-cases, inl, inr, if◌then◌else◌,
}
use obsidian_air_sync.Retry.{
  ThrownError, ErrorKind, RetryDecision, abort, stop, exhausted, retry, decide_retry,
}
use obsidian_air_sync.Retry.Bounds.{decide_retry-IsRetried}
use obsidian_air_sync.Files.{
  Failure, proof_mismatch, terminal_invariant, external_io_failure, external_auth_failure, thrown,
  plain_error, Result, ok, failed, M,
}
use obsidian_air_sync.Executor.Checks.{Machine, World}
use obsidian_air_sync.Executor.Action.{
  Retrying, max_action_retries, retry_fuel, unwrap_failure, is_rate_limit, pause_of, classified,
  pause, after_failure, after_attempt, attempts, with_io_retry,
}

-- A failure that the policy is asked about: no failure of the authorization, and no failed proof.
pub data IsAsked : Failure → ThrownError → Type 0 where
  of_error : (t : ThrownError) → t.is_auth_failure ≡ false → IsAsked (thrown t) t
  of_invariant : IsAsked terminal_invariant plain_error

module _ (m : Machine) (r : Retrying m) where
  -- The policy has the failure of this attempt retried after the wait, as a rate limit or not.
  abbrev pub IsRetriedAs : ℕ → Failure → Bool → ℕ → Type 0
  IsRetriedAs attempt e limited delay =
      (t : ThrownError) × IsAsked e t
      × (decide_retry (r.classify t) attempt max_action_retries (r.draw attempt) r.denom
          ≡ retry delay)
      × (limited ≡ is_rate_limit (r.classify t).kind)

  pause_of-retry :
      (kind : ErrorKind) (c : RetryDecision) (limited : Bool) (delay : ℕ)
      → pause_of kind c ≡ some (limited, delay)
      → (c ≡ retry delay) × (limited ≡ is_rate_limit kind)
  pause_of-retry kind (retry wait) limited delay h =
      let e = some-injective _ _ h in (ap (λ q. retry q.1) e, sym (ap (λ q. q.0) e))
  pause_of-retry kind (abort k) limited delay h = absurd (cc)
  pause_of-retry kind stop limited delay h = absurd (cc)
  pause_of-retry kind exhausted limited delay h = absurd (cc)

  classified-IsRetriedAs :
      (attempt : ℕ) (e : Failure) (t : ThrownError) (limited : Bool) (delay : ℕ)
      → IsAsked e t
      → classified m r attempt t ≡ some (limited, delay)
      → IsRetriedAs attempt e limited delay
  unfolding classified
  classified-IsRetriedAs attempt e t limited delay asked h =
      let c = r.classify t in
      let (b, d) =
        pause_of-retry c.kind (decide_retry c attempt max_action_retries (r.draw attempt) r.denom)
          limited delay h in
      (t, asked, b, d)

  pause-IsRetriedAs :
      (attempt : ℕ) (e : Failure) (limited : Bool) (delay : ℕ)
      → pause m r attempt e ≡ some (limited, delay)
      → IsRetriedAs attempt e limited delay
  unfolding pause
  pause-IsRetriedAs attempt (thrown t) limited delay h = elim (Bool-cases t.is_auth_failure) [
    | inl a ↦ absurd (ground (arith, a, h))
    | inr a ↦
        classified-IsRetriedAs attempt (thrown t) t limited delay (of_error t a)
          (ground (arith, a, h))
  ]
  pause-IsRetriedAs attempt terminal_invariant limited delay h =
      classified-IsRetriedAs attempt terminal_invariant plain_error limited delay of_invariant h
  pause-IsRetriedAs attempt proof_mismatch limited delay h = absurd (cc)
  pause-IsRetriedAs attempt (external_io_failure t) limited delay h = absurd (cc)
  pause-IsRetriedAs attempt (external_auth_failure t) limited delay h = absurd (cc)

  classified-retry :
      (attempt : ℕ) (t : ThrownError) (delay : ℕ)
      → decide_retry (r.classify t) attempt max_action_retries (r.draw attempt) r.denom
        ≡ retry delay
      → classified m r attempt t ≡ some (is_rate_limit (r.classify t).kind, delay)
  unfolding classified
  classified-retry attempt t delay h = ap (pause_of (r.classify t).kind) h

  pause-asked :
      (attempt : ℕ) (e : Failure) (t : ThrownError)
      → IsAsked e t
      → pause m r attempt e ≡ classified m r attempt t
  unfolding pause
  pause-asked attempt _ _ (of_error t a) = ground (arith, a)
  pause-asked attempt _ _ of_invariant = refl

  -- Where there is no pause, the policy allows no further attempt.
  pause-none :
      (attempt : ℕ) (e : Failure) (limited : Bool) (delay : ℕ)
      → pause m r attempt e ≡ none
      → ¬ IsRetriedAs attempt e limited delay
  pause-none attempt e limited delay h (t, asked, d, l) =
      let p = sym (pause-asked attempt e t asked) ∙ h in
      let q = classified-retry attempt t delay d in absurd (cc)

  -- There is no further attempt after the last one.
  IsRetriedAs-below :
      (attempt : ℕ) (e : Failure) (limited : Bool) (delay : ℕ)
      → IsRetriedAs attempt e limited delay
      → attempt < max_action_retries
  IsRetriedAs-below attempt e limited delay (t, asked, d, l) =
      (decide_retry-IsRetried (r.classify t) attempt max_action_retries (r.draw attempt) r.denom
        delay d).1

  module _ {A : Type 0} (io : M (World m) A) where
    -- The loop from the attempt with this number in this world, to the attempt with the other number and
    -- its outcome.
    pub data Runs : ℕ → World m → ℕ → Result A × World m → Type 0 where
      returns : {k : ℕ} {w u : World m} {a : A} → io w ≡ (ok a, u) → Runs k w k (ok a, u)
      gives_up :
          {k : ℕ} {w u : World m} {e : Failure}
          → io w ≡ (failed e, u)
          → ((limited : Bool) (delay : ℕ) → ¬ IsRetriedAs k (unwrap_failure e) limited delay)
          → Runs k w k (failed (unwrap_failure e), u)
      repeats :
          {k n : ℕ} {w u : World m} {e : Failure} {limited : Bool} {delay : ℕ}
          {outcome : Result A × World m}
          → io w ≡ (failed e, u)
          → IsRetriedAs k (unwrap_failure e) limited delay
          → Runs (k + 1) (r.sleep delay (if limited then r.on_rate_limit u else u)) n outcome
          → Runs k w n outcome

    -- An outcome that is no failure is that of one attempt.
    pub Runs-ok :
        {k n : ℕ} {w : World m} {outcome : Result A × World m}
        → Runs k w n outcome
        → (a : A) → outcome.0 ≡ ok a
        → (v : World m) × (io v ≡ (ok a, outcome.1))
    Runs-ok (returns {w = w} {u = u} h) a e = (w, h ∙ ap (λ x. (x, u)) e)
    Runs-ok (gives_up h none_left) a e = absurd (cc)
    Runs-ok (repeats h retried rest) a e = Runs-ok rest a e

    abbrev Ends : ℕ → World m → Result A × World m → Type 0
    Ends attempt w outcome = (n : ℕ) × (n ≤ max_action_retries) × Runs attempt w n outcome

    after_failure-Ends :
        (attempt : ℕ) (p : Option (Bool × ℕ)) (e : Failure) (w u : World m) (again : M (World m) A)
        → attempt ≤ max_action_retries
        → io w ≡ (failed e, u)
        → pause m r attempt (unwrap_failure e) ≡ p
        → (attempt < max_action_retries → (v : World m) → Ends (attempt + 1) v (again v))
        → Ends attempt w (after_failure m r p (unwrap_failure e) again u)
    unfolding after_failure
    after_failure-Ends attempt none e w u again l h p f = (
      attempt,
      l,
      gives_up h (λ limited delay. pause-none attempt (unwrap_failure e) limited delay p),
    )
    after_failure-Ends attempt (some (limited, delay)) e w u again l h p f =
        let retried = pause-IsRetriedAs attempt (unwrap_failure e) limited delay p in
        let below = IsRetriedAs-below attempt (unwrap_failure e) limited delay retried in
        let (n, b, runs) = f below (r.sleep delay (if limited then r.on_rate_limit u else u)) in
        (n, b, repeats h retried runs)

    after_attempt-Ends :
        (attempt : ℕ) (w : World m) (result : Result A × World m) (again : M (World m) A)
        → attempt ≤ max_action_retries
        → io w ≡ result
        → (attempt < max_action_retries → (v : World m) → Ends (attempt + 1) v (again v))
        → Ends attempt w (after_attempt m r attempt result again)
    unfolding after_attempt
    after_attempt-Ends attempt w (ok a, u) again l h f = (attempt, l, returns h)
    after_attempt-Ends attempt w (failed e, u) again l h f =
        after_failure-Ends attempt (pause m r attempt (unwrap_failure e)) e w u again l h refl f

    attempts-Ends :
        (fuel attempt : ℕ) (w : World m)
        → attempt ≤ max_action_retries
        → max_action_retries < fuel + attempt
        → Ends attempt w (attempts m r fuel attempt io w)
    unfolding attempts
    attempts-Ends zero attempt w l f = absurd (omega arith)
    attempts-Ends (suc fuel) attempt w l f =
        after_attempt-Ends attempt w (io w) (attempts m r fuel (attempt + 1) io) l refl
          (λ b v. attempts-Ends fuel (attempt + 1) v (omega arith) (omega arith))

    -- The retry loop, which the source does not bound, ends by its policy: with any fuel from 3 on
    -- its outcome is that of a run that starts with attempt 1 and ends with an attempt n of at most
    -- 3. In the run an attempt with a value ends it with that value; one whose failure the policy
    -- has retried is followed by the next attempt, with the next number, after the report of a rate
    -- limit and the wait that the policy says; and one whose failure the policy does not have
    -- retried, or does not see, a failed proof or a failure of the authorization, ends it with that
    -- failure.
    pub attempts-Runs :
        (fuel : ℕ) (w : World m)
        → max_action_retries ≤ fuel
        → (n : ℕ) × (n ≤ max_action_retries) × Runs 1 w n (attempts m r fuel 1 io w)
    attempts-Runs fuel w l = attempts-Ends fuel 1 w (omega arith) (omega arith)

    pub with_io_retry-ok :
        (w t : World m) (a : A)
        → with_io_retry m r io w ≡ (ok a, t)
        → (v : World m) × (io v ≡ (ok a, t))
    unfolding with_io_retry
    with_io_retry-ok w t a h =
        let (n, l, runs) = attempts-Runs retry_fuel w (omega arith) in
        let (v, e) = Runs-ok runs a (ap (λ x. x.0) h) in (v, e ∙ ap (λ x. (ok a, x.1)) h)

    -- Runs of `io` are counted in the world, and nothing else counts.
    module _ (count : World m → ℕ) (one : (w : World m) → count (io w).1 ≤ count w + 1)
        (idle : (delay : ℕ) (w : World m) → count (r.sleep delay w) ≤ count w)
        (quiet : (w : World m) → count (r.on_rate_limit w) ≤ count w) where
      after_failure-count :
          (attempt : ℕ) (p : Option (Bool × ℕ)) (e : Failure) (u : World m) (again : M (World m) A)
          → attempt ≤ max_action_retries
          → pause m r attempt e ≡ p
          → (attempt < max_action_retries
              → (v : World m) → count (again v).1 + attempt ≤ count v + max_action_retries)
          → count (after_failure m r p e again u).1 + attempt ≤ count u + max_action_retries
      unfolding after_failure
      after_failure-count attempt none e u again l p f = omega arith
      after_failure-count attempt (some (limited, delay)) e u again l p f =
          let below =
            IsRetriedAs-below attempt e limited delay
              (pause-IsRetriedAs attempt e limited delay p) in
          slept limited (f below)
        where
          slept :
              (limited : Bool)
              → ((v : World m) → count (again v).1 + attempt ≤ count v + max_action_retries)
              → count (again (r.sleep delay (if limited then r.on_rate_limit u else u))).1 + attempt
                ≤ count u + max_action_retries
          slept true g = omega (
            arith,
            g (r.sleep delay (r.on_rate_limit u)),
            idle delay (r.on_rate_limit u),
            quiet u,
          )
          slept false g = omega (arith, g (r.sleep delay u), idle delay u)

      after_attempt-count :
          (attempt : ℕ) (result : Result A × World m) (again : M (World m) A)
          → attempt ≤ max_action_retries
          → (attempt < max_action_retries
              → (v : World m) → count (again v).1 + attempt ≤ count v + max_action_retries)
          → count (after_attempt m r attempt result again).1 + attempt
            ≤ count result.1 + max_action_retries
      unfolding after_attempt
      after_attempt-count attempt (ok a, u) again l f = omega arith
      after_attempt-count attempt (failed e, u) again l f =
          after_failure-count attempt (pause m r attempt (unwrap_failure e)) (unwrap_failure e) u
            again l refl f

      attempts_from-count :
          (fuel attempt : ℕ) (w : World m)
          → attempt ≤ max_action_retries
          → count (attempts m r fuel attempt io w).1 + attempt ≤ count w + max_action_retries + 1
      unfolding attempts
      attempts_from-count zero attempt w l = omega arith
      attempts_from-count (suc fuel) attempt w l = omega (
        arith,
        one w,
        after_attempt-count attempt (io w) (attempts m r fuel (attempt + 1) io) l
            (λ b v. omega (arith, attempts_from-count fuel (attempt + 1) v (omega (arith, b)))),
      )

      -- By its policy the retry loop makes at most three attempts, however much fuel it has:
      -- whatever an attempt increases by at most 1 and waiting does not increase, the loop
      -- increases by at most 3.
      pub attempts-count :
          (fuel : ℕ) (w : World m)
          → count (attempts m r fuel 1 io w).1 ≤ count w + max_action_retries
      attempts-count fuel w = omega (arith, attempts_from-count fuel 1 w (omega arith))
