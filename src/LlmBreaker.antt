-- ===== src/LlmBreaker.antt =====
-- The circuit breaker of the LLM providers (app/shared/llm/circuit_breaker.py).
-- A provider's name is only compared, so it is a number. `datetime.now` is an argument, `now`;
-- `now - last >= timeout` is written `last + timeout <= now`, which needs no signed difference.
pub mod Invariant
pub mod Recovery
pub mod Isolation
mod Samples
use cloud_sentinel_ai.Base.{
  ℕ, ◌+◌, Instant, seconds, Bool, true, false, Option, none, some, leb, if◌then◌else◌, is_some, [],
}
use cloud_sentinel_ai.Base.Dict.{Dict, get, put}

pub data CircuitState : Type 0 where
  closed opened half_open : CircuitState

pub record ProviderCircuit : Type 0 where
  pub name : ℕ
  pub state : CircuitState
  pub failure_count : ℕ
  pub success_count : ℕ
  pub last_failure_time : Option Instant
  pub last_success_time : Option Instant
  pub failure_threshold : ℕ
  pub success_threshold : ℕ
  pub recovery_timeout : ℕ

pub record LlmCircuitBreaker : Type 0 where
  pub failure_threshold : ℕ
  pub success_threshold : ℕ
  pub recovery_timeout : ℕ
  pub circuits : Dict ProviderCircuit

-- `__init__` with its thresholds given
unfoldable pub new : ℕ → ℕ → ℕ → LlmCircuitBreaker
new failures successes timeout = record {
  failure_threshold = failures;
  success_threshold = successes;
  recovery_timeout = timeout;
  circuits = [];
}

-- The `ProviderCircuit(...)` that `_get_circuit` and `reset` build.
unfoldable pub fresh : LlmCircuitBreaker → ℕ → ProviderCircuit
fresh b provider = record {
  name = provider;
  state = closed;
  failure_count = 0;
  success_count = 0;
  last_failure_time = none;
  last_success_time = none;
  failure_threshold = b.failure_threshold;
  success_threshold = b.success_threshold;
  recovery_timeout = b.recovery_timeout;
}

found_or : Option ProviderCircuit → ProviderCircuit → ProviderCircuit
found_or none c = c
found_or (some old) _ = old

-- `_get_circuit`: the circuit; the callers below store it back, which also registers a new one.
unfoldable pub get_circuit : LlmCircuitBreaker → ℕ → ProviderCircuit
unfolding fresh found_or
get_circuit b provider = found_or (get provider b.circuits) (fresh b provider)

unfoldable pub store : LlmCircuitBreaker → ℕ → ProviderCircuit → LlmCircuitBreaker
store b provider c = record b { circuits = put provider c b.circuits }

-- `circuit.last_failure_time` is set and `recovery_timeout` has passed since.
abbrev pub timed_out : Instant → Option Instant → ℕ → Bool
timed_out now none timeout = false
timed_out now (some last) timeout = leb (last + seconds timeout) now

-- The branches of `is_available` on the circuit's state.
available_in : CircuitState → Instant → ProviderCircuit → ProviderCircuit × Bool
available_in closed now c = (c, true)
available_in opened now c =
    if timed_out now c.last_failure_time c.recovery_timeout
    then (record c { state = half_open }, true)
    else (c, false)
available_in half_open now c = (c, true)

unfoldable pub circuit_available : Instant → ProviderCircuit → ProviderCircuit × Bool
unfolding available_in
circuit_available now c = available_in c.state now c

unfoldable pub is_available : Instant → LlmCircuitBreaker → ℕ → LlmCircuitBreaker × Bool
is_available now b provider =
    let (c, answer) = circuit_available now (get_circuit b provider) in (store b provider c, answer)

-- The branches of `record_success` on the state, after the counter has been raised.
success_in : CircuitState → ProviderCircuit → ProviderCircuit
success_in half_open c =
    if leb c.success_threshold c.success_count
    then record c { state = closed; failure_count = 0; success_count = 0 }
    else c
success_in closed c = record c { failure_count = 0 }
success_in opened c = c

unfoldable pub circuit_success : Instant → ProviderCircuit → ProviderCircuit
unfolding success_in
circuit_success now c =
    success_in c.state
      (record c { success_count = c.success_count + 1; last_success_time = some now })

unfoldable pub record_success : Instant → LlmCircuitBreaker → ℕ → LlmCircuitBreaker
record_success now b provider = store b provider (circuit_success now (get_circuit b provider))

-- The branches of `record_failure` on the state, after the counters have been set.
failure_in : CircuitState → ProviderCircuit → ProviderCircuit
failure_in half_open c = record c { state = opened }
failure_in closed c =
    if leb c.failure_threshold c.failure_count then record c { state = opened } else c
failure_in opened c = c

unfoldable pub circuit_failure : Instant → ProviderCircuit → ProviderCircuit
unfolding failure_in
circuit_failure now c = failure_in c.state (record c {
  failure_count = c.failure_count + 1;
  last_failure_time = some now;
  success_count = 0;
})

unfoldable pub record_failure : Instant → LlmCircuitBreaker → ℕ → LlmCircuitBreaker
record_failure now b provider = store b provider (circuit_failure now (get_circuit b provider))

-- How the body of a `with` block ended, or that it was not entered.
pub data Protected : Type 0 where
  returned raised circuit_open : Protected

settle : Instant → ℕ → LlmCircuitBreaker × Bool → LlmCircuitBreaker × Protected
settle now provider (b, true) = (b, returned)
settle now provider (b, false) = (record_failure now b provider, raised)

-- `protect`: the body answers whether it returned; it may itself call the breaker.
unfoldable pub protect :
    Instant
    → Instant
    → LlmCircuitBreaker
    → ℕ
    → (LlmCircuitBreaker → LlmCircuitBreaker × Bool)
    → LlmCircuitBreaker × Protected
unfolding settle
protect now later b provider body =
    let (b', answer) = is_available now b provider in
    if answer then settle later provider (body b') else (b', circuit_open)

unfoldable pub reset : LlmCircuitBreaker → ℕ → LlmCircuitBreaker
reset b provider =
    if is_some (get provider b.circuits) then store b provider (fresh b provider) else b
