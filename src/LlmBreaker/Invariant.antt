-- ===== src/LlmBreaker/Invariant.antt =====
-- What holds of every circuit after any history of calls.
use cloud_sentinel_ai.Base.{
  ℕ, ◌<◌, ◌≡◌, ◌≢◌, Instant, none, some, List, [], ◌∷◌, arith, Option-cases, inl, inr,
}
use cloud_sentinel_ai.Base.Dict.{get, get-put}
use cloud_sentinel_ai.LlmBreaker.{
  closed, ProviderCircuit, LlmCircuitBreaker, new, fresh, get_circuit, store, circuit_available,
  is_available, circuit_success, record_success, circuit_failure, record_failure, reset,
}

-- A closed circuit is below its threshold; one that is not closed knows when it failed; and the
-- thresholds are those of its breaker.
pub record IsSound (b : LlmCircuitBreaker) (c : ProviderCircuit) : Type 0 where
  pub below : c.state ≡ closed → c.failure_count < c.failure_threshold
  pub dated : c.state ≢ closed → c.last_failure_time ≢ none
  pub same_failures : c.failure_threshold ≡ b.failure_threshold
  pub same_successes : c.success_threshold ≡ b.success_threshold
  pub same_timeout : c.recovery_timeout ≡ b.recovery_timeout

pub record Inv (b : LlmCircuitBreaker) : Type 0 where
  pub positive : 0 < b.failure_threshold
  pub sound : (p : ℕ) (c : ProviderCircuit) → get p b.circuits ≡ some c → IsSound b c

module _ (b : LlmCircuitBreaker) where
  fresh-IsSound : (p : ℕ) → 0 < b.failure_threshold → IsSound b (fresh b p)
  unfolding fresh
  fresh-IsSound p h = ground arith

  circuit_available-IsSound :
      (now : Instant) (c : ProviderCircuit) → IsSound b c → IsSound b (circuit_available now c).0
  unfolding circuit_available
  circuit_available-IsSound now c h = ground arith

  circuit_success-IsSound :
      (now : Instant) (c : ProviderCircuit)
      → 0 < b.failure_threshold
      → IsSound b c
      → IsSound b (circuit_success now c)
  unfolding circuit_success
  circuit_success-IsSound now c p h = ground arith

  circuit_failure-IsSound :
      (now : Instant) (c : ProviderCircuit) → IsSound b c → IsSound b (circuit_failure now c)
  unfolding circuit_failure
  circuit_failure-IsSound now c h = ground arith

-- A call that the application makes on the breaker, with its time.
pub data Call : Type 0 where
  check success failure : Instant → ℕ → Call
  admin_reset : ℕ → Call

unfoldable pub step : Call → LlmCircuitBreaker → LlmCircuitBreaker
step (check now p) b = (is_available now b p).0
step (success now p) b = record_success now b p
step (failure now p) b = record_failure now b p
step (admin_reset p) b = reset b p

unfoldable pub run : List Call → LlmCircuitBreaker → LlmCircuitBreaker
run [] b = b
run (e ∷ es) b = run es (step e b)

get_circuit-IsSound : (b : LlmCircuitBreaker) (p : ℕ) → Inv b → IsSound b (get_circuit b p)
unfolding get_circuit
get_circuit-IsSound b p h = elim (Option-cases (get p b.circuits)) [
  | inl missing ↦ rw missing (fresh-IsSound b p h.positive)
  | inr (c, found) ↦ rw found (h.sound p c found)
]

store-Inv :
    (b : LlmCircuitBreaker) (p : ℕ) (c : ProviderCircuit) → Inv b → IsSound b c → Inv (store b p c)
unfolding store
store-Inv b p c h s = record {
  positive = h.positive;
  sound = λ q d e. ground (arith, get-put p q c b.circuits, h.sound q d);
}

-- Every call keeps the invariant.
step-Inv : (e : Call) (b : LlmCircuitBreaker) → Inv b → Inv (step e b)
unfolding step is_available record_success record_failure reset
step-Inv (check now p) b h =
    store-Inv b p _ h
      (circuit_available-IsSound b now (get_circuit b p) (get_circuit-IsSound b p h))
step-Inv (success now p) b h =
    store-Inv b p _ h
      (circuit_success-IsSound b now (get_circuit b p) h.positive (get_circuit-IsSound b p h))
step-Inv (failure now p) b h =
    store-Inv b p _ h (circuit_failure-IsSound b now (get_circuit b p) (get_circuit-IsSound b p h))
step-Inv (admin_reset p) b h = elim (Option-cases (get p b.circuits)) [
  | inl missing ↦ rw missing h
  | inr (c, found) ↦ rw found (store-Inv b p (fresh b p) h (fresh-IsSound b p h.positive))
]

run_from-Inv : (es : List Call) (b : LlmCircuitBreaker) → Inv b → Inv (run es b)
unfolding run
run_from-Inv [] b h = h
run_from-Inv (e ∷ es) b h = run_from-Inv es (step e b) (step-Inv e b h)

-- Of a breaker made with a positive failure threshold and driven by any history of availability
-- checks, successes, failures and resets: every registered circuit that is closed has counted
-- fewer failures than its threshold, every one that is not closed has a time of last failure,
-- and every circuit has the thresholds of its breaker.
pub run-Inv :
    (failures successes timeout : ℕ) (es : List Call)
    → 0 < failures
    → Inv (run es (new failures successes timeout))
unfolding new
run-Inv failures successes timeout es h =
    run_from-Inv es _ (record { positive = h; sound = λ p c e. cc })
