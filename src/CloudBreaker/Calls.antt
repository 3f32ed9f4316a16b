-- ===== src/CloudBreaker/Calls.antt =====
-- Sequences of calls through the breaker.
use cloud_sentinel_ai.Base.{
  ℕ, ◌+◌, ◌≤◌, ◌<◌, ◌≡◌, ◌≢◌, Instant, seconds, Option, none, some, List, [], ◌∷◌, arith, refl,
  is_some, if◌then◌else◌,
}
use cloud_sentinel_ai.CloudBreaker.{
  CircuitBreaker, closed, opened, new, returned, raised, circuit_open, call,
}

-- A call: when it is made, when its function raises if it does, and whether it returns.
pub record Attempt : Type 0 where
  pub now : Instant
  pub failing : Instant
  pub result : Option ℕ

unfoldable pub run : List Attempt → CircuitBreaker → CircuitBreaker
run [] b = b
run (a ∷ as') b = run as' (call a.now a.failing b a.result).0

-- A closed breaker is below its threshold; an open one has reached it and knows when it failed.
pub record Inv (b : CircuitBreaker) : Type 0 where
  pub positive : 0 < b.failure_threshold
  pub below : b.state ≡ closed → b.failure_count < b.failure_threshold
  pub reached : b.state ≢ closed → b.failure_threshold ≤ b.failure_count
  pub dated : b.state ≢ closed → b.last_failure_time ≢ none

call-Inv :
    (now failing : Instant) (b : CircuitBreaker) (result : Option ℕ)
    → Inv b
    → Inv (call now failing b result).0
unfolding call
call-Inv now failing b result h = ground arith

calls_from-Inv : (as' : List Attempt) (b : CircuitBreaker) → Inv b → Inv (run as' b)
unfolding run
calls_from-Inv [] b h = h
calls_from-Inv (a ∷ as') b h = calls_from-Inv as' _ (call-Inv a.now a.failing b a.result h)

-- After any calls through a new breaker with a positive threshold: it is closed with fewer failures
-- than the threshold, or open or half open with at least as many and a time of last failure.
pub calls-Inv :
    (threshold recovery : ℕ) (as' : List Attempt)
    → 0 < threshold
    → Inv (run as' (new threshold recovery))
unfolding new
calls-Inv threshold recovery as' h = calls_from-Inv as' _ (ground arith)

-- While the circuit is open a call within the recovery time is refused and changes nothing, and a
-- later one tries the function: its success closes the circuit and clears the failures, and
-- its failure, in a breaker that reached its threshold, opens the circuit anew from that failure.
open_call :
    (now failing last value : ℕ) (b : CircuitBreaker)
    → b.state ≡ opened
    → b.last_failure_time ≡ some last
    → b.failure_threshold ≤ b.failure_count
    → (now ≤ last + seconds b.recovery_time
        → (call now failing b (some value) ≡ (b, circuit_open))
          × (call {A = ℕ} now failing b none ≡ (b, circuit_open)))
      × (last + seconds b.recovery_time < now
          → let (c, x) = call now failing b (some value) in
            (x ≡ returned value) × (c.state ≡ closed) × (c.failure_count ≡ 0))
      × (last + seconds b.recovery_time < now
          → let (c, x) = call {A = ℕ} now failing b none in
            (x ≡ raised) × (c.state ≡ opened) × (c.last_failure_time ≡ some failing))
unfolding call
open_call now failing last value b s l h =
    (λ early. (ground arith, ground arith), λ late. ground arith, λ late. ground arith)

abbrev pub failures : List Attempt → ℕ
failures [] = 0
failures (a ∷ as') = if is_some a.result then failures as' else 1 + failures as'

-- The failures of a closed breaker add up whatever successes lie between them: calls with fewer
-- failures than are left to the threshold leave it closed with all of them counted.
failures_accumulate :
    (as' : List Attempt) (b : CircuitBreaker)
    → b.state ≡ closed
    → b.failure_count + failures as' < b.failure_threshold
    → ((run as' b).state ≡ closed)
      × ((run as' b).failure_count ≡ b.failure_count + failures as')
      × ((run as' b).failure_threshold ≡ b.failure_threshold)
unfolding run
failures_accumulate [] b s h = (s, omega arith, refl)
failures_accumulate (a ∷ as') b s h =
    let c = (call a.now a.failing b a.result).0 in
    let at : (c.state ≡ closed)
        × (c.failure_count + failures as' ≡ b.failure_count + failures (a ∷ as'))
        × (c.failure_threshold ≡ b.failure_threshold) =
      unfold call in ground arith in
    let (s', n, t) = failures_accumulate as' c at.0 (omega arith) in (s', omega arith, omega arith)
