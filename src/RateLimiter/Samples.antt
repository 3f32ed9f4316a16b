-- ===== src/RateLimiter/Samples.antt =====
-- A limiter of five calls a second.
use cloud_sentinel_ai.Base.{
  ℕ, ◌+◌, ◌*◌, ◌≤◌, Instant, List, [], ◌∷◌, ◌≡◌, refl, arith, if◌then◌else◌, ltb,
}
use cloud_sentinel_ai.RateLimiter.{
  RateLimiter, new_rate_limiter, default_rate_limit, acquire_all, Attempt, returned, throttled,
  with_backoff,
}
use cloud_sentinel_ai.RateLimiter.Buckets.{empty_at, twice_the_rate}
use cloud_sentinel_ai.RateLimiter.Backoff.{IsFair, with_backoff_lem}

abbrev limiter : RateLimiter
unfolding new_rate_limiter
limiter = new_rate_limiter default_rate_limit 1000

abbrev calls : List Instant
calls = 1000 ∷ 1001 ∷ 900 ∷ 2000 ∷ []

twice_the_rate_example :
    acquire_all (2 * 5) 1000 (empty_at 5 1000) ≡ (1000 + 5 * 200000, empty_at 5 (1000 + 5 * 200000))
twice_the_rate_example = twice_the_rate 5 200000 5 1000 (omega arith) refl

abbrev third_time : ℕ → Attempt ℕ
third_time n = if ltb n 2 then throttled else returned 7

abbrev no_jitter : ℕ → ℕ → ℕ
no_jitter _ b = b

no_jitter_lem : (n b : ℕ) → 10 * no_jitter n b ≤ 11 * b
no_jitter_lem n b = omega arith

with_backoff_lem_example : IsFair third_time no_jitter 5 0 [] (with_backoff third_time no_jitter 5)
with_backoff_lem_example = with_backoff_lem third_time no_jitter 5 no_jitter_lem
