-- ===== src/CloudBreaker.antt =====
-- The circuit breaker of the cloud calls (`CircuitBreaker`, app/shared/remediation/circuit_breaker.py).
-- Instants are in microseconds; a breaker that has not failed reads its last failure as the epoch.
use cloud_sentinel_ai.Base.{
  ℕ, ◌+◌, Instant, seconds, Bool, true, false, Option, none, some, ltb, leb, if◌then◌else◌,
}
pub mod Calls
mod Samples

pub data CircuitBreakerState : Type 0 where
  closed opened half_open : CircuitBreakerState

pub record CircuitBreaker : Type 0 where
  pub failure_threshold : ℕ
  pub recovery_time : ℕ
  pub failure_count : ℕ
  pub last_failure_time : Option Instant
  pub state : CircuitBreakerState

-- `__init__`, with the two thresholds of its configuration that the breaker reads
unfoldable pub new : ℕ → ℕ → CircuitBreaker
new threshold recovery = record {
  failure_threshold = threshold;
  recovery_time = recovery;
  failure_count = 0;
  last_failure_time = none;
  state = closed;
}

-- How a call ends: the function's result, its exception, or the breaker's own.
pub data Outcome {ℓ} (A : Type ℓ) : Type ℓ where
  returned : A → Outcome A
  raised : Outcome A
  circuit_open : Outcome A

abbrev pub or_epoch : Option Instant → Instant
or_epoch none = 0
or_epoch (some t) = t

-- `now - (last or 0) > recovery_time`
abbrev pub recovered : Instant → CircuitBreaker → Bool
recovered now b = ltb (or_epoch b.last_failure_time + seconds b.recovery_time) now

after_success : CircuitBreakerState → CircuitBreaker → CircuitBreaker
after_success half_open b = record b { state = closed; failure_count = 0 }
after_success _ b = b

after_failure : Instant → CircuitBreaker → CircuitBreaker
after_failure now b =
    let failed = record b { failure_count = b.failure_count + 1; last_failure_time = some now } in
    if leb b.failure_threshold failed.failure_count
    then record failed { state = opened }
    else failed

attempted {ℓ} : {A : Type ℓ} → Instant → CircuitBreaker → Option A → CircuitBreaker × Outcome A
unfolding after_success after_failure
attempted failing b (some a) = (after_success b.state b, returned a)
attempted failing b none = (after_failure failing b, raised)

guarded {ℓ} :
    {A : Type ℓ}
    → CircuitBreakerState
    → Instant
    → Instant
    → CircuitBreaker
    → Option A
    → CircuitBreaker × Outcome A
unfolding attempted
guarded opened now failing b result =
    if recovered now b
    then attempted failing (record b { state = half_open }) result
    else (b, circuit_open)
guarded _ now failing b result = attempted failing b result

-- `call`: `result` is what the function returns, or `none` where it raises, at the instant
-- `failing`. While the circuit is open the function is not called, and `result` is not read.
unfoldable pub call {ℓ} :
    {A : Type ℓ} → Instant → Instant → CircuitBreaker → Option A → CircuitBreaker × Outcome A
unfolding guarded
call now failing b result = guarded b.state now failing b result
