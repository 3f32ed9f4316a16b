-- ===== src/RateLimiter/Backoff.antt =====
-- How often a call is made, and how long the pauses are.
use cloud_sentinel_ai.Base.{
  ℕ, zero, suc, ◌+◌, ◌*◌, ◌≤◌, List, [], ◌∷◌, ◌≡◌, ◌≢◌, refl, sym, subst, ◌∙◌, inl, inr, ◌⊎◌, arith,
  length, All, seconds,
}
use cloud_sentinel_ai.RateLimiter.{
  min, initial_backoff, max_backoff, Attempt, returned, throttled, failed, Report, backoff_loop,
  with_backoff,
}

Attempt-cases {ℓ} :
    {A : Type ℓ} (a : Attempt A) → ((x : A) × (a ≡ returned x)) ⊎ (a ≡ throttled) ⊎ (a ≡ failed)
Attempt-cases (returned x) = inl (x, refl)
Attempt-cases throttled = inr (inl refl)
Attempt-cases failed = inr (inr refl)

min-le : (a b : ℕ) → min a b ≤ b
min-le a b = ground arith

module _ {ℓ} {A : Type ℓ} (call : ℕ → Attempt A) (jittered : ℕ → ℕ → ℕ) where
  -- What is reported of the loop that starts with attempt number `attempt`.
  abbrev pub IsFair : ℕ → ℕ → List ℕ → Report A → Type ℓ
  IsFair left attempt sleeps r =
      (r.calls ≤ attempt + left + 1)
      × ((last : ℕ) × (r.calls ≡ last + 1) × (r.ending ≡ call last))
      × ((r.ending ≢ throttled) ⊎ (r.calls ≡ attempt + left + 1))
      × (length r.sleeps + attempt + 1 ≡ length sleeps + r.calls)
      × All (λ s. s ≤ seconds 66) r.sleeps

  ended :
      (left attempt : ℕ) (sleeps : List ℕ)
      → All (λ s. s ≤ seconds 66) sleeps
      → (call attempt ≢ throttled) ⊎ (attempt + 1 ≡ attempt + left + 1)
      → IsFair left attempt sleeps
          (record { ending = call attempt; calls = attempt + 1; sleeps = sleeps })
  ended left attempt sleeps k h = (omega arith, (attempt, refl, refl), h, omega arith, k)

  ends_at :
      (left attempt backoff : ℕ) (sleeps : List ℕ)
      → call attempt ≢ throttled
      → backoff_loop call jittered (suc left) attempt backoff sleeps
        ≡ record { ending = call attempt; calls = attempt + 1; sleeps = sleeps }
  unfolding backoff_loop
  ends_at left attempt backoff sleeps h = elim (Attempt-cases (call attempt)) [
    | inl (x, e) ↦ rw (e, backoff_loop) refl
    | inr (inl e) ↦ absurd (h e)
    | inr (inr e) ↦ rw (e, backoff_loop) refl
  ]

  goes_on :
      (left attempt backoff : ℕ) (sleeps : List ℕ)
      → call attempt ≡ throttled
      → backoff_loop call jittered (suc left) attempt backoff sleeps
        ≡ backoff_loop call jittered left
            (attempt + 1)
            (min (backoff * 2) max_backoff)
            (jittered attempt backoff ∷ sleeps)
  unfolding backoff_loop
  goes_on left attempt backoff sleeps e = rw (e, backoff_loop) refl

  not_throttled : (n : ℕ) → (call n ≡ throttled) ⊎ (call n ≢ throttled)
  not_throttled n = elim (Attempt-cases (call n)) [
    | inl (x, e) ↦ inr (λ t. different (sym e ∙ t))
    | inr (inl e) ↦ inl e
    | inr (inr e) ↦ inr (λ t. different' (sym e ∙ t))
  ]
    where
      different : {x : A} → returned x ≡ throttled → ⊥
      different t = cc

      different' : ◌≡◌ {A = Attempt A} failed throttled → ⊥
      different' t = cc

  further :
      (left attempt s : ℕ) (sleeps : List ℕ) (r : Report A)
      → IsFair left (attempt + 1) (s ∷ sleeps) r
      → IsFair (suc left) attempt sleeps r
  further left attempt s sleeps r (bound, last, end, pauses, short) = (
    omega (arith, bound),
    last,
    elim end [ inl h ↦ inl h | inr h ↦ inr (omega (arith, h)) ],
    omega (arith, pauses),
    short,
  )

  loop_lem :
      ((n b : ℕ) → 10 * jittered n b ≤ 11 * b)
      → (left attempt backoff : ℕ) (sleeps : List ℕ) → backoff ≤ max_backoff
      → All (λ s. s ≤ seconds 66) sleeps
      → IsFair left attempt sleeps (backoff_loop call jittered left attempt backoff sleeps)
  unfolding backoff_loop
  loop_lem jitter zero attempt backoff sleeps h k = ended zero attempt sleeps k (inr (omega arith))
  loop_lem jitter (suc left) attempt backoff sleeps h k = elim (not_throttled attempt) [
    | inr other ↦
        subst (IsFair (suc left) attempt sleeps) (sym (ends_at left attempt backoff sleeps other))
          (ended (suc left) attempt sleeps k (inl other))
    | inl e ↦
        let s = jittered attempt backoff in
        subst (IsFair (suc left) attempt sleeps) (sym (goes_on left attempt backoff sleeps e)) (
          further left attempt s sleeps _ (
            loop_lem jitter left (attempt + 1) (min (backoff * 2) max_backoff) (s ∷ sleeps)
              (min-le (backoff * 2) max_backoff) (omega (arith, jitter attempt backoff, h), k)))
  ]

  -- A call with backoff ends after at most one call more than the retries it is given, and reports the
  -- end of its last call; it gives up on a throttled call only after all retries. It pauses once
  -- between two calls, for 66 seconds at most, if the jitter is a tenth of the backoff at most.
  pub with_backoff_lem :
      (retries : ℕ)
      → ((n b : ℕ) → 10 * jittered n b ≤ 11 * b)
      → IsFair retries 0 [] (with_backoff call jittered retries)
  unfolding with_backoff
  with_backoff_lem retries jitter = loop_lem jitter retries 0 initial_backoff [] (omega arith) tt
