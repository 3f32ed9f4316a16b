-- ===== src/Scheduler/Samples.antt =====
-- Sweeps of two tenants on a Friday evening.
use cloud_sentinel_ai.Base.{
  ℕ, ◌+◌, ◌*◌, ◌<◌, Instant, hours, days, Bool, false, ◌≡◌, ◌≢◌, refl, arith, none, some, List, [],
  ◌∷◌,
}
use cloud_sentinel_ai.Tiers.{growth, pro, free}
use cloud_sentinel_ai.Jobs.{
  BackgroundJob, subscription_attempt, timed_out, DeduplicationKey, is_due,
}
use cloud_sentinel_ai.Dunning.{TenantSubscription, Store, Clock, active, process_failed_payment}
use cloud_sentinel_ai.Scheduler.{
  TenantCohort, Tenant, AwsConnection, detect_stuck_jobs, is_low_carbon_window,
}
use cloud_sentinel_ai.Scheduler.Calendar.{week, year, day_of_year}
use cloud_sentinel_ai.Scheduler.Keys.{
  Change, cohort_swept, remediations_swept, started, ended, stuck_detected,
}
use cloud_sentinel_ai.Scheduler.Stuck.{retry_is_lost}

-- Friday, 2 January 2026, at 20:00.
abbrev friday : Instant
friday = 1767384000000000

first_friday : week friday ≡ 202600
unfolding week year day_of_year
first_friday = refl

-- Sunday, 29 February 2032.
leap_week : week (days 22704) ≡ 203209
unfolding week year day_of_year
leap_week = refl

abbrev draw : DeduplicationKey → ℕ
draw k = k.tenant * 100 + k.type_value

abbrev unlocked : ℕ → Bool
unlocked _ = false

abbrev tenants : List Tenant
tenants = record { id = 7; plan = growth } ∷ record { id = 8; plan = pro } ∷ []

abbrev connections : List AwsConnection
connections =
    record { id = 1; tenant_id = 7; region = 3 } ∷ record { id = 2; tenant_id = 7; region = 4 } ∷ []

abbrev evening : List Change
evening =
    cohort_swept draw friday unlocked TenantCohort.high_value tenants
    ∷ remediations_swept draw friday unlocked connections
    ∷ started (friday + 5) 807
    ∷ ended (friday + 9) timed_out 807
    ∷ cohort_swept draw (friday + 60) unlocked TenantCohort.high_value tenants
    ∷ stuck_detected (friday + hours 2)
    ∷ []

pro≢free : pro ≢ free
pro≢free e = ground arith

evening_is_outside : is_low_carbon_window friday ≡ false
unfolding is_low_carbon_window
evening_is_outside = refl

abbrev paying : TenantSubscription
paying = record {
  id = 5;
  tenant_id = 7;
  paystack_customer_code = none;
  paystack_subscription_code = none;
  paystack_email_token = none;
  paystack_auth_code = some 77;
  tier = growth;
  status = active;
  next_payment_date = some friday;
  canceled_at = none;
  dunning_attempts = 0;
  last_dunning_at = none;
  dunning_next_retry_at = none;
}

abbrev billing : Store
billing = record { subscriptions = (5, paying) ∷ []; jobs = [] }

abbrev clock : Clock
clock = record {
  charged_at = friday;
  now = friday;
  enqueued_at = friday + 2;
  canceled_at = friday;
  job_id = 1;
}

retry_is_lost_example :
    let jobs = (process_failed_payment clock 5 billing).1.jobs in
    (j : BackgroundJob) × (jobs ≡ j ∷ [])
    × (j.payload ≡ some (subscription_attempt 5 2))
    × ((now : Instant) → now < friday + days 1 → is_due now j ≡ false)
    × ((k : BackgroundJob) × (detect_stuck_jobs (friday + hours 2) jobs
          ≡ k ∷ detect_stuck_jobs (friday + hours 2) [])
        × (k.id ≡ j.id)
        × ((now : Instant) → is_due now k ≡ false))
retry_is_lost_example =
    retry_is_lost clock paying billing (friday + hours 2) refl (omega arith) (omega arith)
