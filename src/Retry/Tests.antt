-- ===== src/Retry/Tests.antt =====
-- A throttled request and a failed one.
use obsidian_air_sync.Prelude.{refl, none, some, nat_eq}
use obsidian_air_sync.Retry.{ErrorClassification, rate_limit, decide_retry}
use obsidian_air_sync.Retry.Bounds.{IsRetried, decide_retry-IsRetried}

abbrev throttled : ErrorClassification
throttled = record { kind = rate_limit; retry_after_ms = some 90000; permanent_code = none }

decide_retry-IsRetried_example : IsRetried throttled 1 3 1 4 256000
unfolding decide_retry
decide_retry-IsRetried_example = decide_retry-IsRetried throttled 1 3 1 4 256000 refl
