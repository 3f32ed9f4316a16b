-- ===== src/Jobs/Samples.antt =====
-- Concrete jobs.
use cloud_sentinel_ai.Base.{ℕ, ◌≡◌, Bool, false, some, none, List, [], ◌∷◌, refl}
use cloud_sentinel_ai.Base.Int.{pos, negsuc}
use cloud_sentinel_ai.Base.Order.{order_by}
use cloud_sentinel_ai.Jobs.{
  BackgroundJob, JobType, pending, is_due, fetch_pending_jobs, process_single_job, timed_out,
  Treatment,
}
use cloud_sentinel_ai.Jobs.Retry.{
  IsSound, Settled, process_single_job-IsSound, Failure, times_out, raises,
}

abbrev scan : BackgroundJob
scan = record {
  id = 1;
  job_type = JobType.zombie_scan;
  tenant_id = some 7;
  deduplication_key = none;
  status = pending;
  payload = none;
  result = none;
  attempts = 0;
  max_attempts = 3;
  priority = pos 0;
  scheduled_for = 100;
  started_at = none;
  completed_at = none;
  error_message = none;
  created_at = 100;
  is_deleted = false;
}

abbrev urgent : BackgroundJob
urgent = record scan { id = 2; priority = pos 5; scheduled_for = 150 }

abbrev last_try : BackgroundJob
last_try = record scan { id = 3; attempts = 2; priority = negsuc 0 }

abbrev queue : List BackgroundJob
queue = scan ∷ urgent ∷ last_try ∷ []

abbrev unlocked : ℕ → Bool
unlocked _ = false

abbrev time_out_all : ℕ → Treatment
time_out_all _ = record { start = 200; end = 500; ending = timed_out }

urgent_first : fetch_pending_jobs 200 unlocked 2 queue ≡ urgent ∷ scan ∷ []
unfolding fetch_pending_jobs is_due order_by
urgent_first = refl

process_single_job-IsSound_example :
    let k = process_single_job 200 500 timed_out last_try in
    IsSound k × (k.attempts ≡ 3) × (k.max_attempts ≡ 3) × Settled timed_out last_try k
unfolding is_due
process_single_job-IsSound_example = process_single_job-IsSound 200 200 500 timed_out last_try refl

abbrev first : Failure
first = times_out 200 500

abbrev second : Failure
second = raises 1000 1001 (101 ∷ [])

abbrev third : Failure
third = times_out 2000 2300
