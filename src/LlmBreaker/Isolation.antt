-- ===== src/LlmBreaker/Isolation.antt =====
-- Providers do not affect one another, and `protect` never enters a body while a circuit is open.
use cloud_sentinel_ai.Base.{
  ℕ, ◌≡◌, ◌≢◌, Instant, Bool, true, false, arith, List, [], ◌∷◌, refl, ◌∙◌,
}
use cloud_sentinel_ai.Base.Dict.{get, get-put}
use cloud_sentinel_ai.LlmBreaker.{
  ProviderCircuit, LlmCircuitBreaker, store, is_available, record_success, record_failure, reset,
  fresh, protect, returned, raised, circuit_open,
}
use cloud_sentinel_ai.LlmBreaker.Invariant.{Call, check, success, failure, admin_reset, step, run}

-- The provider that a call is about.
abbrev pub provider_of : Call → ℕ
provider_of (check _ p) = p
provider_of (success _ p) = p
provider_of (failure _ p) = p
provider_of (admin_reset p) = p

store_other :
    (b : LlmCircuitBreaker) (p q : ℕ) (c : ProviderCircuit)
    → p ≢ q
    → get q (store b p c).circuits ≡ get q b.circuits
unfolding store
store_other b p q c h = ground (arith, get-put p q c b.circuits)

step_other :
    (e : Call) (b : LlmCircuitBreaker) (q : ℕ)
    → provider_of e ≢ q
    → get q (step e b).circuits ≡ get q b.circuits
unfolding step is_available record_success record_failure reset
step_other (check now p) b q h = store_other b p q _ h
step_other (success now p) b q h = store_other b p q _ h
step_other (failure now p) b q h = store_other b p q _ h
step_other (admin_reset p) b q h = ground (arith, store_other b p q (fresh b p) h)

abbrev pub Avoids : ℕ → List Call → Type 0
Avoids q [] = Unit
Avoids q (e ∷ es) = (provider_of e ≢ q) × Avoids q es

-- A history of calls none of which is about provider `q` leaves the circuit of `q` as it was.
run_isolated :
    (es : List Call) (b : LlmCircuitBreaker) (q : ℕ)
    → Avoids q es
    → get q (run es b).circuits ≡ get q b.circuits
unfolding run
run_isolated [] b q h = refl
run_isolated (e ∷ es) b q h = run_isolated es (step e b) q h.1 ∙ step_other e b q h.0

-- `protect` on a provider that is not available does not run its body: whatever the body is, the
-- call ends with `CircuitOpenError` and the breaker is the one that the availability check left.
-- On one that is available the body runs on the checked breaker; its failure is recorded
-- once, after the body, and its success records nothing.
protect_lem :
    (now later : Instant) (b : LlmCircuitBreaker) (p : ℕ)
    (body : LlmCircuitBreaker → LlmCircuitBreaker × Bool)
    → ((is_available now b p).1 ≡ false
        → protect now later b p body ≡ ((is_available now b p).0, circuit_open))
      × ((is_available now b p).1 ≡ true
          → (body (is_available now b p).0).1 ≡ true
          → protect now later b p body ≡ ((body (is_available now b p).0).0, returned))
      × ((is_available now b p).1 ≡ true
          → (body (is_available now b p).0).1 ≡ false
          → protect now later b p body
            ≡ (record_failure later (body (is_available now b p).0).0 p, raised))
unfolding protect
protect_lem now later b p body = (λ e. ground arith, λ e f. ground arith, λ e f. ground arith)
