-- ===== src/Retry.antt =====
-- src/backend-api/error-classification.ts: what an error means, and what the retry loop does with it. A
-- random number is a fraction `numer / denom` below 1, and a delay is counted in parts of a millisecond,
-- `denom` to one, so that no jitter is rounded. What the status and the headers of a value are is read
-- before.
pub mod Bounds
mod Tests
use obsidian_air_sync.Prelude.{
  ℕ, ◌+◌, ◌*◌, ◌^◌, min, Bool, true, false, Option, none, some, List, [], ltb, leb, Eq, ◌==◌,
  nat_eq, option_eq, if◌then◌else◌,
}
use obsidian_air_sync.Prelude.Text.{Str, truthy}

pub data ErrorKind : Type 0 where
  auth permission rate_limit not_found transient permanent : ErrorKind

pub record ErrorClassification : Type 0 where
  pub kind : ErrorKind
  pub retry_after_ms : Option ℕ
  pub permanent_code : Option Str

-- What the classifier reads of a thrown value; `retry_after` is in seconds, as `getErrorInfo` clamps it.
pub record ThrownError : Type 0 where
  pub is_auth_failure : Bool
  pub is_permanent : Bool
  pub permanent_code : Option Str
  pub status : Option ℕ
  pub retry_after : Option ℕ

abbrev of_kind : ErrorKind → ErrorClassification
of_kind kind = record { kind = kind; retry_after_ms = none; permanent_code = none }

-- A code counts only if it is a string that is not empty.
usable_code : Option Str → Option Str
usable_code none = none
usable_code (some code) = if truthy code then some code else none

in_ms : Option ℕ → Option ℕ
in_ms none = none
in_ms (some seconds) = some (seconds * 1000)

unfoldable pub classify_http_error : ThrownError → ErrorClassification
unfolding usable_code in_ms
classify_http_error err =
    if err.is_auth_failure
    then of_kind auth
    else if err.is_permanent
    then record (of_kind permanent) { permanent_code = usable_code err.permanent_code }
    else if err.status == some 401
    then of_kind auth
    else if err.status == some 403
    then record (of_kind permission) { retry_after_ms = in_ms err.retry_after }
    else if err.status == some 404
    then of_kind not_found
    else if err.status == some 429
    then record (of_kind rate_limit) { retry_after_ms = in_ms err.retry_after }
    else of_kind transient

-- `MAX_RETRY_DELAY_MS`
abbrev pub max_retry_delay_ms : ℕ
max_retry_delay_ms = 64000

pub data RetryDecision : Type 0 where
  abort : ErrorKind → RetryDecision
  stop exhausted : RetryDecision
  retry : ℕ → RetryDecision

-- 2^(attempt - 1) seconds, scaled by a half plus the random number.
unfoldable pub backoff : ℕ → ℕ → ℕ → ℕ
backoff attempt numer denom = 2 ^ attempt * (250 * denom + 500 * numer)

raw_delay : Option ℕ → ℕ → ℕ → ℕ → ℕ
unfolding backoff
raw_delay none attempt numer denom = backoff attempt numer denom
raw_delay (some ms) attempt numer denom = ms * denom

pub decide_retry : ErrorClassification → ℕ → ℕ → ℕ → ℕ → RetryDecision
unfolding raw_delay
decide_retry c attempt max_retries numer denom =
    let last =
      if leb max_retries attempt
      then exhausted
      else retry
          (min (raw_delay c.retry_after_ms attempt numer denom) (max_retry_delay_ms * denom)) in
    elim c.kind [
      | auth ↦ abort auth
      | permission ↦ abort permission
      | not_found ↦ stop
      | permanent ↦ stop
      | rate_limit ↦ last
      | transient ↦ last
    ]
