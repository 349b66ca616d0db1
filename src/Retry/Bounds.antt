-- ===== src/Retry/Bounds.antt =====
-- The decisions and delays of src/backend-api/error-classification.ts.
use obsidian_air_sync.Prelude.{
  ℕ, ◌≡◌, ◌⊎◌, ◌<◌, ◌≤◌, ◌*◌, refl, ap, ◌∙◌, min, Option, none, some, arith, inl, inr, nat_eq,
  option_eq, leb, if◌then◌else◌,
}
use obsidian_air_sync.Retry.{
  ErrorKind, auth, permission, rate_limit, not_found, transient, permanent, ErrorClassification,
  exhausted, retry, backoff, raw_delay, decide_retry, max_retry_delay_ms,
}

-- A retry after `delay` is what the code promises for it.
abbrev pub IsRetried : ErrorClassification → ℕ → ℕ → ℕ → ℕ → ℕ → Type 0
IsRetried c attempt max_retries numer denom delay =
    ((c.kind ≡ rate_limit) ⊎ (c.kind ≡ transient))
    × (attempt < max_retries)
    × (delay ≤ max_retry_delay_ms * denom)
    × ((ms : ℕ)
        → c.retry_after_ms ≡ some ms
        → delay ≡ min (ms * denom) (max_retry_delay_ms * denom))
    × (c.retry_after_ms ≡ none
        → delay ≡ min (backoff attempt numer denom) (max_retry_delay_ms * denom))

retry_only :
    (limit attempt x delay : ℕ)
    → (if leb limit attempt then exhausted else retry x) ≡ retry delay
    → (attempt < limit) × (delay ≡ x)
retry_only limit attempt x delay h = ground arith

last_retry :
    (c : ErrorClassification) (attempt max_retries numer denom delay : ℕ)
    → (c.kind ≡ rate_limit) ⊎ (c.kind ≡ transient)
    → (if leb max_retries attempt
        then exhausted
        else retry
            (min (raw_delay c.retry_after_ms attempt numer denom) (max_retry_delay_ms * denom)))
      ≡ retry delay
    → IsRetried c attempt max_retries numer denom delay
unfolding raw_delay
last_retry c attempt max_retries numer denom delay k h =
    let cap = max_retry_delay_ms * denom in
    let f : Option ℕ → ℕ = λ o. min (raw_delay o attempt numer denom) cap in
    let r = retry_only max_retries attempt (f c.retry_after_ms) delay h in
    (k, r.0, omega (arith, r.1), λ ms e. r.1 ∙ ap f e, λ e. r.1 ∙ ap f e)

-- A retry is decided only for a throttled or a transient error below the last attempt; its delay is
-- at most 64 seconds, and it is the delay that the server asked for, or the backoff of the attempt
-- if the server asked for none, each cut at that bound.
pub decide_retry-IsRetried :
    (c : ErrorClassification) (attempt max_retries numer denom delay : ℕ)
    → decide_retry c attempt max_retries numer denom ≡ retry delay
    → IsRetried c attempt max_retries numer denom delay
unfolding decide_retry
decide_retry-IsRetried c attempt max_retries numer denom delay h = by_kind c.kind refl h
  where
    by_kind :
        (k : ErrorKind)
        → c.kind ≡ k
        → decide_retry (record c { kind = k }) attempt max_retries numer denom ≡ retry delay
        → IsRetried c attempt max_retries numer denom delay
    by_kind auth e h = absurd (ground arith)
    by_kind permission e h = absurd (ground arith)
    by_kind not_found e h = absurd (ground arith)
    by_kind permanent e h = absurd (ground arith)
    by_kind rate_limit e h = last_retry c attempt max_retries numer denom delay (inl e) h
    by_kind transient e h = last_retry c attempt max_retries numer denom delay (inr e) h
