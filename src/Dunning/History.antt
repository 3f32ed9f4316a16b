-- ===== src/Dunning/History.antt =====
-- What a sequence of failed payments and retries does to a subscription.
use cloud_sentinel_ai.Base.{
  ℕ, ◌+◌, ◌≤◌, ◌<◌, none, some, List, [], ◌∷◌, ◌≡◌, ◌≢◌, refl, ◌⊎◌, inl, inr, arith, All, leb,
  if_each, leb→le, Option-cases,
}
use cloud_sentinel_ai.Base.Dict.{get, put-Values}
use cloud_sentinel_ai.Jobs.{subscription_attempt, BackgroundJob, enqueue_job, new_job}
use cloud_sentinel_ai.Tiers.{trial}
use cloud_sentinel_ai.Dunning.{
  attention, cancelled, TenantSubscription, Store, Clock, Answer, attempted, handle_final_failure,
  schedule_or_end, process_failed_payment, Charge, charged, declined, raised, handle_retry_success,
  retry_in, retry_payment,
}

-- Out of dunning, in it with attempts left and a date for the next one, or ended.
abbrev pub IsSound : TenantSubscription → Type 0
IsSound sub =
    ((sub.dunning_attempts ≡ 0) × (sub.dunning_next_retry_at ≡ none))
    ⊎ ((0 < sub.dunning_attempts)
        × (sub.dunning_attempts < 3)
        × (sub.status ≡ attention)
        × (sub.dunning_next_retry_at ≢ none))
    ⊎ ((3 ≤ sub.dunning_attempts)
        × (sub.status ≡ cancelled)
        × (sub.tier ≡ trial)
        × (sub.dunning_next_retry_at ≡ none))

-- A job for the second or the third attempt.
abbrev pub IsRetry : BackgroundJob → Type 0
IsRetry j =
    (id : ℕ) × (attempt : ℕ) × (j.payload ≡ some (subscription_attempt id attempt))
    × (2 ≤ attempt)
    × (attempt ≤ 3)

abbrev pub Inv : Store → Type 0
Inv s = All (λ e. IsSound e.1) s.subscriptions × All IsRetry s.jobs

pub data Event : Type 0 where
  payment_failed : Clock → ℕ → Event
  retried : Clock → Charge → ℕ → Event

unfoldable pub step : Event → Store → Store
step (payment_failed c id) s = (process_failed_payment c id s).1
step (retried c charge id) s = (retry_payment c charge id s).1

unfoldable pub run : List Event → Store → Store
run [] s = s
run (e ∷ es) s = run es (step e s)

ended-IsSound :
    (c : Clock) (sub : TenantSubscription)
    → 3 ≤ sub.dunning_attempts
    → IsSound (handle_final_failure c sub)
unfolding handle_final_failure
ended-IsSound c sub h = inr (inr (h, refl, refl, refl))

schedule_or_end-Inv :
    (c : Clock) (sub : TenantSubscription) (s : Store)
    → 0 < sub.dunning_attempts
    → sub.status ≡ attention
    → Inv s
    → Inv (schedule_or_end c sub s).1
unfolding schedule_or_end enqueue_job new_job
schedule_or_end-Inv c sub s counted e h =
    if_each (λ (x : Answer × Store). Inv x.1) (leb 3 sub.dunning_attempts)
      (λ over. (
        put-Values IsSound sub.id (handle_final_failure c sub) s.subscriptions
            (ended-IsSound c sub (leb→le 3 sub.dunning_attempts over)) h.0,
        h.1,
      ))
      (λ left. (
        put-Values IsSound sub.id _ s.subscriptions
            (inr (inl (counted, ground arith, e, ground arith))) h.0,
        ((sub.id, sub.dunning_attempts + 1, refl, omega (arith, counted), ground arith), h.1),
      ))

counted_lem : (c : Clock) (sub : TenantSubscription) → 0 < (attempted c sub).dunning_attempts
unfolding attempted
counted_lem c sub = omega arith

process_failed_payment-Inv :
    (c : Clock) (id : ℕ) (s : Store) → Inv s → Inv (process_failed_payment c id s).1
unfolding process_failed_payment attempted
process_failed_payment-Inv c id s h = elim (Option-cases (get id s.subscriptions)) [
  | inl e ↦ rw e h
  | inr (sub, e) ↦ rw e (schedule_or_end-Inv c (attempted c sub) s (counted_lem c sub) refl h)
]

retried-Inv :
    (c : Clock) (how : Charge) (sub : TenantSubscription) (s : Store)
    → Inv s
    → Inv (retry_in c how (some sub) s).1
unfolding handle_retry_success
retried-Inv c charged sub s h =
    (put-Values IsSound sub.id _ s.subscriptions (inl (refl, refl)) h.0, h.1)
retried-Inv c declined sub s h = process_failed_payment-Inv c sub.id s h
retried-Inv c raised sub s h = process_failed_payment-Inv c sub.id s h

retry_payment-Inv :
    (c : Clock) (how : Charge) (id : ℕ) (s : Store) → Inv s → Inv (retry_payment c how id s).1
unfolding retry_payment
retry_payment-Inv c how id s h = elim (Option-cases (get id s.subscriptions)) [
  | inl e ↦ rw e h
  | inr (sub, e) ↦ rw e (retried-Inv c how sub s h)
]

-- After any failed payments and retries, from a state in which it holds: every subscription is out
-- of dunning with no attempt counted and no retry due; or asks for attention after one or
-- two attempts, with a time for the next; or has used up its three attempts and is cancelled, in
-- the trial tier, with no retry due. Every job is for a second or a third attempt.
pub dunning-Inv : (es : List Event) (s : Store) → Inv s → Inv (run es s)
unfolding run step
dunning-Inv [] s h = h
dunning-Inv (payment_failed c id ∷ es) s h = dunning-Inv es _ (process_failed_payment-Inv c id s h)
dunning-Inv (retried c how id ∷ es) s h = dunning-Inv es _ (retry_payment-Inv c how id s h)
