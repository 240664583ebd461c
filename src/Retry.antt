-- ===== src/Retry.antt =====
-- config.go: DefaultBackoff. A time.Duration is its 64-bit pattern, in nanoseconds.
pub mod Bounds
mod Tests
use agentturn.Base.{ℕ, zero, suc, ◌*◌, ◌%◌, ◌^◌, ◌-◌, min, Option, none, some, if◌then◌else◌, ltb}

abbrev pub millisecond : ℕ
millisecond = 1000000

abbrev pub second : ℕ
second = 1000000000

abbrev pub first_wait : ℕ
first_wait = 500 * millisecond

abbrev pub longest_wait : ℕ
longest_wait = 30 * second

-- The loop, for the retries that are left.
unfoldable pub double : ℕ → ℕ → ℕ
double zero d = d
double (suc n) d = let doubled = double n (d * 2) in if ltb d longest_wait then doubled else d

-- `retry_after` is the Retry-After header of an openresponses error, when it names a number of
-- seconds that is not negative.
unfoldable pub default_backoff : ℕ → Option ℕ → ℕ
unfolding double
default_backoff attempt (some seconds) = (seconds * second) % 2 ^ 64
default_backoff attempt none = min (double (attempt - 1) first_wait) longest_wait
