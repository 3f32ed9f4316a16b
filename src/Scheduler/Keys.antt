-- ===== src/Scheduler/Keys.antt =====
-- No two jobs have the same deduplication key.
use cloud_sentinel_ai.Base.{ℕ, ◌≤◌, Instant, Bool, Option, List, [], ◌∷◌, map, count}
use cloud_sentinel_ai.Jobs.{
  BackgroundJob, JobType, Payload, DeduplicationKey, Ending, enqueue_job, start_due, end_running,
  on_row,
}
use cloud_sentinel_ai.Dunning.{TenantSubscription}
use cloud_sentinel_ai.Scheduler.{
  TenantCohort, Tenant, AwsConnection, has_key, enqueue_cohort, sweep_remediations, sweep_billing,
  detect_stuck_jobs,
}

abbrev pub UniqueKeys : List BackgroundJob → Type 0
UniqueKeys jobs = (k : DeduplicationKey) → count (has_key k) jobs ≤ 1

-- What happens to the table of jobs.
pub data Change : Type 0 where
  cohort_swept : (DeduplicationKey → ℕ) → Instant → (ℕ → Bool) → TenantCohort → List Tenant → Change
  remediations_swept : (DeduplicationKey → ℕ) → Instant → (ℕ → Bool) → List AwsConnection → Change
  billing_swept : (DeduplicationKey → ℕ) → Instant → (ℕ → Bool) → List TenantSubscription → Change
  enqueued : ℕ → Instant → JobType → Option ℕ → Option Payload → Option Instant → ℕ → Change
  started : Instant → ℕ → Change
  ended : Instant → Ending → ℕ → Change
  stuck_detected : Instant → Change

unfoldable pub apply : Change → List BackgroundJob → List BackgroundJob
apply (cohort_swept draw now locked cohort ts) jobs =
    (enqueue_cohort draw now locked cohort ts jobs).1
apply (remediations_swept draw now locked cs) jobs = (sweep_remediations draw now locked cs jobs).1
apply (billing_swept draw now locked subs) jobs = (sweep_billing draw now locked subs jobs).1
apply (enqueued id now type tenant payload at max) jobs =
    (enqueue_job id now type tenant payload at max jobs).1
apply (started now id) jobs = map (on_row (start_due now) id) jobs
apply (ended now e id) jobs = map (on_row (end_running now e) id) jobs
apply (stuck_detected now) jobs = detect_stuck_jobs now jobs

unfoldable pub run : List Change → List BackgroundJob → List BackgroundJob
run [] jobs = jobs
run (c ∷ cs) jobs = run cs (apply c jobs)
