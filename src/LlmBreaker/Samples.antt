-- ===== src/LlmBreaker/Samples.antt =====
-- Concrete runs of the LLM breaker.
use cloud_sentinel_ai.Base.{false, Bool, some, none, List, [], ◌∷◌, arith}
use cloud_sentinel_ai.LlmBreaker.{
  ProviderCircuit, LlmCircuitBreaker, closed, opened, half_open, new,
}
use cloud_sentinel_ai.LlmBreaker.Invariant.{Call, check, failure, Inv, run, run-Inv}

abbrev groq_fails : List Call
groq_fails = failure 10 1 ∷ failure 20 1 ∷ check 30 1 ∷ failure 40 1 ∷ check 50 1 ∷ []

run-Inv_example : Inv (run groq_fails (new 3 2 60))
run-Inv_example = run-Inv 3 2 60 groq_fails (omega arith)

abbrev groq : ProviderCircuit
groq = record {
  name = 1;
  state = closed;
  failure_count = 0;
  success_count = 0;
  last_failure_time = none;
  last_success_time = none;
  failure_threshold = 3;
  success_threshold = 2;
  recovery_timeout = 60;
}

abbrev failing : ProviderCircuit
failing = record groq { state = opened; failure_count = 3; last_failure_time = some 40 }

abbrev testing : ProviderCircuit
testing = record failing { state = half_open }

abbrev failing_body : LlmCircuitBreaker → LlmCircuitBreaker × Bool
failing_body b = (b, false)
