-- ===== src/RateLimiter/Buckets.antt =====
-- How many tokens the limiter holds, and how fast it hands them out.
use cloud_sentinel_ai.Base.{
  ℕ, zero, suc, ◌+◌, ◌-◌, ◌*◌, ◌/◌, ◌≤◌, ◌<◌, Instant, List, [], ◌∷◌, ◌≡◌, refl, ap, ◌∙◌, arith,
}
use native.Mathlib.Nat.{zero-add}
use cloud_sentinel_ai.RateLimiter.{RateLimiter, token, refilled, acquire, acquire_all}

refilled-le : (now : Instant) (l : RateLimiter) → refilled now l ≤ l.rate * token
unfolding refilled
refilled-le now l = ground arith

-- Calls of `acquire` at any instants.
unfoldable pub acquired : List Instant → RateLimiter → RateLimiter
acquired [] l = l
acquired (now ∷ rest) l = acquired rest (acquire now l).1

acquire-le :
    (now : Instant) (l : RateLimiter)
    → ((acquire now l).1.rate ≡ l.rate) × ((acquire now l).1.tokens ≤ l.rate * token)
unfolding acquire
acquire-le now l = ground (arith, refilled-le now l)

bounded :
    (bound : ℕ) (calls : List Instant) (l : RateLimiter)
    → l.rate * token ≡ bound
    → l.tokens ≤ bound
    → (acquired calls l).tokens ≤ bound
unfolding acquired
bounded bound [] l e h = h
bounded bound (now ∷ rest) l e h =
    let (same, few) = acquire-le now l in
    bounded bound rest (acquire now l).1 (ap (λ r. r * token) same ∙ e) (omega (arith, few, e))

-- Whenever tokens are acquired, also by a clock that goes back, the limiter never holds more than it
-- hands out in a second.
acquired-le :
    (calls : List Instant) (l : RateLimiter)
    → l.tokens ≤ l.rate * token
    → (acquired calls l).tokens ≤ l.rate * token
acquired-le calls l h = bounded (l.rate * token) calls l refl h

-- The bucket is empty.
abbrev pub empty_at : ℕ → Instant → RateLimiter
empty_at rate now = record { rate = rate; tokens = 0; last_update = now }

period_lem : (rate period : ℕ) → 0 < rate → rate * period ≡ token → token / rate ≡ period
period_lem rate period pos exact = grind arith

first_waits :
    (rate period : ℕ) (now : Instant)
    → 0 < rate
    → rate * period ≡ token
    → acquire now (empty_at rate now) ≡ (now + period, empty_at rate now)
unfolding acquire refilled
first_waits rate period now pos exact = ground (arith, period_lem rate period)

gained :
    (rate period : ℕ) (now : Instant) → rate * period ≡ token → (now + period - now) * rate ≡ token
gained rate period now exact =
    let back : now + period - now ≡ period = omega arith in
    let turned : period * rate ≡ rate * period = grind arith in
    ap (λ n. n * rate) back ∙ turned ∙ exact

a_token :
    (rate period : ℕ) (now : Instant)
    → 0 < rate
    → rate * period ≡ token
    → refilled (now + period) (empty_at rate now) ≡ token
unfolding refilled
a_token rate period now pos exact = ground (arith, gained rate period now)

second_does_not :
    (rate period : ℕ) (now : Instant)
    → 0 < rate
    → rate * period ≡ token
    → acquire (now + period) (empty_at rate now) ≡ (now + period, empty_at rate (now + period))
unfolding acquire
second_does_not rate period now pos exact = rw (a_token rate period now pos exact, acquire) refl

two_tokens :
    (rate period : ℕ) (now : Instant)
    → 0 < rate
    → rate * period ≡ token
    → acquire_all 2 now (empty_at rate now) ≡ (now + period, empty_at rate (now + period))
unfolding acquire_all
two_tokens rate period now pos exact =
    rw (first_waits rate period now pos exact) (second_does_not rate period now pos exact)

acquire_all_add :
    (m n : ℕ) (now : Instant) (l : RateLimiter)
    → acquire_all (m + n) now l ≡ acquire_all n (acquire_all m now l).0 (acquire_all m now l).1
unfolding acquire_all
acquire_all_add zero n now l = rw zero-add refl
acquire_all_add (suc m) n now l =
    let e : suc m + n ≡ suc (m + n) = omega arith in
    ap (λ k. acquire_all k now l) e ∙ acquire_all_add m n (acquire now l).0 (acquire now l).1

-- A caller that finds the bucket empty and asks again as soon as it has a token gets two tokens in each
-- period that one token takes: in `n` periods 2 n tokens, twice what the rate allows.
pub twice_the_rate :
    (rate period n : ℕ) (now : Instant)
    → 0 < rate
    → rate * period ≡ token
    → acquire_all (2 * n) now (empty_at rate now)
      ≡ (now + n * period, empty_at rate (now + n * period))
unfolding acquire_all
twice_the_rate rate period zero now pos exact =
    let e : now ≡ now + 0 * period = grind arith in ap (λ t. (t, empty_at rate t)) e
twice_the_rate rate period (suc n) now pos exact =
    let e : 2 * suc n ≡ 2 + 2 * n = omega arith in
    let f : now + period + n * period ≡ now + suc n * period = grind arith in
    ap (λ k. acquire_all k now (empty_at rate now)) e
    ∙ acquire_all_add 2 (2 * n) now (empty_at rate now)
    ∙ ap (λ (x : Instant × RateLimiter). acquire_all (2 * n) x.0 x.1)
        (two_tokens rate period now pos exact)
    ∙ twice_the_rate rate period n (now + period) pos exact
    ∙ ap (λ t. (t, empty_at rate t)) f
