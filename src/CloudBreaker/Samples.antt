-- ===== src/CloudBreaker/Samples.antt =====
-- Concrete calls through the breaker.
use cloud_sentinel_ai.Base.{some, none, List, [], ◌∷◌}
use cloud_sentinel_ai.CloudBreaker.{CircuitBreaker, closed, opened}
use cloud_sentinel_ai.CloudBreaker.Calls.{Attempt}

abbrev failing : Attempt
failing = record { now = 10; failing = 12; result = none }

abbrev working : Attempt
working = record { now = 20; failing = 20; result = some 7 }

abbrev mixed : List Attempt
mixed = failing ∷ working ∷ failing ∷ working ∷ []

abbrev broken : CircuitBreaker
broken = record {
  failure_threshold = 5;
  recovery_time = 60;
  failure_count = 5;
  last_failure_time = some 100;
  state = opened;
}

abbrev healthy : CircuitBreaker
healthy = record broken { failure_count = 0; last_failure_time = none; state = closed }
