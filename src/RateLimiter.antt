-- ===== src/RateLimiter.antt =====
-- The rate limiter of the calls to AWS and their retries (app/shared/adapters/rate_limiter.py). An
-- amount of tokens is a whole number of millionths, so that a microsecond gains `rate` of them; a
-- waiting time is rounded down to whole microseconds.
use cloud_sentinel_ai.Base.{
  ℕ, zero, suc, ◌+◌, ◌-◌, ◌*◌, ◌/◌, Instant, Bool, true, false, List, [], ◌∷◌, ltb, if◌then◌else◌,
  seconds,
}
pub mod Buckets
pub mod Backoff
mod Samples

abbrev pub default_rate_limit : ℕ
default_rate_limit = 5

abbrev pub max_retries : ℕ
max_retries = 5

-- One token.
abbrev pub token : ℕ
token = 1000000

pub record RateLimiter : Type 0 where
  pub rate : ℕ
  pub tokens : ℕ
  pub last_update : Instant

unfoldable pub new_rate_limiter : ℕ → Instant → RateLimiter
new_rate_limiter rate now = record { rate = rate; tokens = rate * token; last_update = now }

abbrev pub min : ℕ → ℕ → ℕ
min a b = if ltb b a then b else a

-- The tokens after the refill; a clock that went back fills the bucket.
unfoldable pub refilled : Instant → RateLimiter → ℕ
refilled now l =
    if ltb now l.last_update
    then l.rate * token
    else min (l.rate * token) (l.tokens + (now - l.last_update) * l.rate)

-- `acquire`, called at an instant: the instant at which it returns, and the limiter.
unfoldable pub acquire : Instant → RateLimiter → Instant × RateLimiter
unfolding refilled
acquire now l =
    let tokens = refilled now l in
    if ltb tokens token
    then (now + (token - tokens) / l.rate, record l { tokens = 0; last_update = now })
    else (now, record l { tokens = tokens - token; last_update = now })

-- A caller that acquires a number of tokens, each as soon as it has the one before.
unfoldable pub acquire_all : ℕ → Instant → RateLimiter → Instant × RateLimiter
unfolding acquire
acquire_all zero now l = (now, l)
acquire_all (suc n) now l = let (granted, l') = acquire now l in acquire_all n granted l'

-- How a call ends: with a result, throttled, or with another error.
pub data Attempt {ℓ} (A : Type ℓ) : Type ℓ where
  returned : A → Attempt A
  throttled failed : Attempt A

abbrev pub initial_backoff : ℕ
initial_backoff = seconds 1

abbrev pub max_backoff : ℕ
max_backoff = seconds 60

-- What the caller sees: how the last call ended, the number of calls, and the sleeps between them,
-- the last first.
pub record Report {ℓ} (A : Type ℓ) : Type ℓ where
  pub ending : Attempt A
  pub calls : ℕ
  pub sleeps : List ℕ

-- The loop of `with_backoff` from its attempt number `attempt` on, with `left` retries left. `call`
-- gives the end of each attempt, and `jittered` the sleep that is drawn for a backoff.
unfoldable pub backoff_loop {ℓ} :
    {A : Type ℓ} → (ℕ → Attempt A) → (ℕ → ℕ → ℕ) → ℕ → ℕ → ℕ → List ℕ → Report A
backoff_loop call jittered zero attempt backoff sleeps = record {
  ending = call attempt;
  calls = attempt + 1;
  sleeps = sleeps;
}
backoff_loop call jittered (suc left) attempt backoff sleeps = elim (call attempt) [
  | returned x ↦ record { ending = returned x; calls = attempt + 1; sleeps = sleeps }
  | failed ↦ record { ending = failed; calls = attempt + 1; sleeps = sleeps }
  | throttled ↦
      backoff_loop call jittered left (attempt + 1) (min (backoff * 2) max_backoff)
        (jittered attempt backoff ∷ sleeps)
]

unfoldable pub with_backoff {ℓ} : {A : Type ℓ} → (ℕ → Attempt A) → (ℕ → ℕ → ℕ) → ℕ → Report A
unfolding backoff_loop
with_backoff call jittered retries = backoff_loop call jittered retries 0 initial_backoff []
