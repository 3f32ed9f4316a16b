-- ===== src/LlmBreaker/Recovery.antt =====
-- How a circuit opens and recovers.
use cloud_sentinel_ai.Base.{
  ◌+◌, ◌<◌, ◌≤◌, ◌≡◌, ◌≢◌, refl, ◌∙◌, Instant, seconds, true, false, some, List, [], ◌∷◌, arith,
  length,
}
use cloud_sentinel_ai.LlmBreaker.{
  closed, opened, half_open, ProviderCircuit, circuit_available, circuit_success, circuit_failure,
}

-- Failures reported at the given times, one after the other.
unfoldable pub fail_all : List Instant → ProviderCircuit → ProviderCircuit
fail_all [] c = c
fail_all (t ∷ ts) c = fail_all ts (circuit_failure t c)

unfoldable pub succeed_all : List Instant → ProviderCircuit → ProviderCircuit
succeed_all [] c = c
succeed_all (t ∷ ts) c = succeed_all ts (circuit_success t c)

-- A circuit that has counted the failures `n` and is still below its threshold.
fail_all_closed :
    (ts : List Instant) (c : ProviderCircuit)
    → c.state ≡ closed
    → c.failure_count + length ts < c.failure_threshold
    → (fail_all ts c).state ≡ closed
unfolding fail_all
fail_all_closed [] c s h = s
fail_all_closed (t ∷ ts) c s h =
    fail_all_closed ts (circuit_failure t c) (unfold circuit_failure in ground arith)
      (unfold circuit_failure in ground arith)

fail_all_opens :
    (ts : List Instant) (last : Instant) (c : ProviderCircuit)
    → c.state ≡ closed
    → c.failure_count + length ts + 1 ≡ c.failure_threshold
    → (circuit_failure last (fail_all ts c)).state ≡ opened
unfolding fail_all
fail_all_opens [] last c s h = unfold circuit_failure in ground arith
fail_all_opens (t ∷ ts) last c s h =
    fail_all_opens ts last (circuit_failure t c) (unfold circuit_failure in ground arith)
      (unfold circuit_failure in ground arith)

-- A closed circuit opens at exactly the failure that brings its count to the threshold: with any
-- fewer failures in a row it is still closed, and with that many it is open.
opens_at_threshold :
    (ts : List Instant) (last : Instant) (c : ProviderCircuit)
    → c.state ≡ closed
    → c.failure_count + length ts + 1 ≡ c.failure_threshold
    → ((fail_all ts c).state ≡ closed) × ((circuit_failure last (fail_all ts c)).state ≡ opened)
opens_at_threshold ts last c s h =
    (fail_all_closed ts c s (omega arith), fail_all_opens ts last c s h)

-- An open circuit answers "not available", unchanged, until the recovery timeout has passed since
-- the last failure; from then on it answers "available" and is half open.
open_waits :
    (now failed : Instant) (c : ProviderCircuit)
    → c.state ≡ opened
    → c.last_failure_time ≡ some failed
    → (now < failed + seconds c.recovery_timeout → circuit_available now c ≡ (c, false))
      × (failed + seconds c.recovery_timeout ≤ now
          → circuit_available now c ≡ (record c { state = half_open }, true))
unfolding circuit_available
open_waits now failed c s l = (λ h. ground arith, λ h. ground arith)

-- A failure of a circuit that is not closed leaves it open with that failure as its last, so it
-- answers "not available" until the whole recovery timeout has passed again.
reopened_waits :
    (now later : Instant) (c : ProviderCircuit)
    → c.state ≢ closed
    → later < now + seconds c.recovery_timeout
    → ((circuit_failure now c).state ≡ opened)
      × ((circuit_failure now c).success_count ≡ 0)
      × ((circuit_available later (circuit_failure now c)).1 ≡ false)
unfolding circuit_failure circuit_available
reopened_waits now later c s h = ground arith

success_step :
    (t : Instant) (c : ProviderCircuit)
    → c.state ≡ half_open
    → c.success_count + 1 < c.success_threshold
    → ((circuit_success t c).state ≡ half_open)
      × ((circuit_success t c).success_count ≡ c.success_count + 1)
      × ((circuit_success t c).success_threshold ≡ c.success_threshold)
unfolding circuit_success
success_step t c s h = ground arith

succeed_all_waits :
    (ts : List Instant) (c : ProviderCircuit)
    → c.state ≡ half_open
    → c.success_count + length ts < c.success_threshold
    → ((succeed_all ts c).state ≡ half_open)
      × ((succeed_all ts c).success_count ≡ c.success_count + length ts)
      × ((succeed_all ts c).success_threshold ≡ c.success_threshold)
unfolding succeed_all
succeed_all_waits [] c s h = (s, omega arith, refl)
succeed_all_waits (t ∷ ts) c s h =
    let d = circuit_success t c in
    let (state, count, threshold) = success_step t c s (omega arith) in
    let (s', n, m) = succeed_all_waits ts d state (omega arith) in (s', omega arith, m ∙ threshold)

-- A half-open circuit closes at exactly the success that brings its count to the threshold, with
-- both counters at zero; with fewer successes in a row it is still half open.
closes_at_threshold :
    (ts : List Instant) (last : Instant) (c : ProviderCircuit)
    → c.state ≡ half_open
    → c.success_count + length ts + 1 ≡ c.success_threshold
    → let d = succeed_all ts c in
      let e = circuit_success last d in
      (d.state ≡ half_open) × (e.state ≡ closed) × (e.failure_count ≡ 0) × (e.success_count ≡ 0)
unfolding circuit_success
closes_at_threshold ts last c s h = ground (arith, succeed_all_waits ts c s)
