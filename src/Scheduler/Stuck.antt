-- ===== src/Scheduler/Stuck.antt =====
-- What the detector of stuck jobs does to a job, and to the retry of a failed payment.
use cloud_sentinel_ai.Base.{
  ℕ, zero, suc, lt→leb, ◌+◌, ◌-◌, ◌≤◌, ◌<◌, Instant, hours, days, true, false, ◌≡◌, refl, arith,
  some, ◌∷◌, if_each,
}
use cloud_sentinel_ai.Jobs.{
  BackgroundJob, JobType, subscription_attempt, pending, failed, is_pending, is_due, enqueue_job,
  new_job,
}
use cloud_sentinel_ai.Jobs.Rows.{Keeps, Keeps-self, is_live_of_pending}
use cloud_sentinel_ai.Dunning.{
  TenantSubscription, Store, Clock, process_failed_payment, schedule_or_end, attempted, next_retry,
  retry_delay_days, get_or_last, dunning_retry_schedule_days,
}
use cloud_sentinel_ai.Dunning.Recovery.{Has}
use cloud_sentinel_ai.Scheduler.{is_stuck, detect_stuck_job, detect_stuck_jobs}

is_live_of_stuck :
    (now : Instant) (j : BackgroundJob) → is_stuck now j ≡ true → is_pending j.status ≡ true
unfolding is_stuck
is_live_of_stuck now j h = ground arith

pub detect_stuck_job-Keeps : (now : Instant) (j : BackgroundJob) → Keeps j (detect_stuck_job now j)
unfolding detect_stuck_job
detect_stuck_job-Keeps now j =
    if_each (Keeps j) (is_stuck now j)
      (λ h. (refl, refl, refl, λ _. is_live_of_pending j.status (is_live_of_stuck now j h)))
      (λ _. Keeps-self j)

-- A pending job that was created more than an hour before the detector runs is given up by it,
-- whatever time it is scheduled for: it is never due from then on.
detected_is_lost :
    (now later : Instant) (j : BackgroundJob)
    → j.status ≡ pending
    → j.is_deleted ≡ false
    → j.created_at + hours 1 < now
    → ((detect_stuck_job now j).status ≡ failed) × (is_due later (detect_stuck_job now j) ≡ false)
unfolding detect_stuck_job is_stuck is_due
detected_is_lost now later j e live h = ground arith

some_delay : (n : ℕ) → 1 ≤ get_or_last n dunning_retry_schedule_days
some_delay zero = omega arith
some_delay (suc zero) = omega arith
some_delay (suc (suc n)) = omega arith

some_days : (n : ℕ) → 1 ≤ retry_delay_days n
unfolding retry_delay_days
some_days n = some_delay (n - 1)

some_days_later : (c : Clock) (sub : TenantSubscription) → c.now + days 1 ≤ next_retry c sub
unfolding next_retry
some_days_later c sub = omega (arith, some_days sub.dunning_attempts)

early : (now : Instant) (j : BackgroundJob) → now < j.scheduled_for → is_due now j ≡ false
unfolding is_due
early now j h = ground arith

-- After the first or the second failed payment of a subscription, the job for its retry is not due
-- for a day; once the detector has run more than an hour after the job was made, it is never due.
pub retry_is_lost :
    (c : Clock) (sub : TenantSubscription) (s : Store) (detected : Instant)
    → Has s sub
    → sub.dunning_attempts + 1 < 3
    → c.enqueued_at + hours 1 < detected
    → let jobs = (process_failed_payment c sub.id s).1.jobs in
      (j : BackgroundJob) × (jobs ≡ j ∷ s.jobs)
      × (j.payload ≡ some (subscription_attempt sub.id (sub.dunning_attempts + 2)))
      × ((now : Instant) → now < c.now + days 1 → is_due now j ≡ false)
      × ((k : BackgroundJob) × (detect_stuck_jobs detected jobs
            ≡ k ∷ detect_stuck_jobs detected s.jobs)
          × (k.id ≡ j.id)
          × ((now : Instant) → is_due now k ≡ false))
unfolding process_failed_payment schedule_or_end attempted enqueue_job new_job detect_stuck_jobs
retry_is_lost c sub s detected found few late =
    let again = attempted c sub in
    let j : BackgroundJob =
      new_job c.job_id c.enqueued_at JobType.dunning (some sub.tenant_id)
        (some (subscription_attempt sub.id (sub.dunning_attempts + 2))) (some (next_retry c again))
        3 in
    rw found (
      rw (lt→leb 3 (sub.dunning_attempts + 1) few) (
        j,
        ground arith,
        refl,
        λ now h. early now j (omega (arith, some_days_later c again)),
        (
          detect_stuck_job detected j,
          ground arith,
          ground arith,
          λ now. (detected_is_lost detected now j refl refl late).1,
        ),
      ))
