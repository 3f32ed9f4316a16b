-- ===== src/Jobs/Rows.antt =====
-- What the steps of the workers leave alone in a job.
use cloud_sentinel_ai.Base.{
  ℕ, Instant, Bool, true, false, ◌≡◌, refl, arith, ◌==◌, if_both, if_each, leb,
}
use cloud_sentinel_ai.Jobs.{
  BackgroundJob, JobStatus, pending, running, completed, failed, dead_letter, Ending, finished,
  timed_out, cancelled, raised, start_due, end_running, end_job, retry_or_bury, start_job, on_row,
  is_due, is_running, is_pending,
}

-- Waiting, running or done: not given up.
abbrev pub is_live : JobStatus → Bool
is_live pending = true
is_live running = true
is_live completed = true
is_live failed = false
is_live dead_letter = false

-- The change keeps the key, the type and the payload, and revives no job.
abbrev pub Keeps : BackgroundJob → BackgroundJob → Type 0
Keeps j k =
    (k.deduplication_key ≡ j.deduplication_key)
    × (k.job_type ≡ j.job_type)
    × (k.payload ≡ j.payload)
    × (is_live k.status ≡ true → is_live j.status ≡ true)

pub Keeps-self : (j : BackgroundJob) → Keeps j j
Keeps-self j = (refl, refl, refl, λ h. h)

pub is_live_of_pending : (s : JobStatus) → is_pending s ≡ true → is_live s ≡ true
is_live_of_pending pending h = refl
is_live_of_pending s h = ground arith

is_live_of_running : (s : JobStatus) → is_running s ≡ true → is_live s ≡ true
is_live_of_running running h = refl
is_live_of_running s h = ground arith

is_live_of_due : (now : Instant) (j : BackgroundJob) → is_due now j ≡ true → is_live j.status ≡ true
unfolding is_due
is_live_of_due now j h = is_live_of_pending j.status (ground arith)

pub start_due-Keeps : (now : Instant) (j : BackgroundJob) → Keeps j (start_due now j)
unfolding start_due start_job
start_due-Keeps now j =
    if_each (Keeps j) (is_due now j) (λ due. (refl, refl, refl, λ _. is_live_of_due now j due))
      (λ _. Keeps-self j)

end_job-Keeps :
    (now : Instant) (e : Ending) (j : BackgroundJob)
    → is_live j.status ≡ true
    → Keeps j (end_job now e j)
unfolding end_job retry_or_bury
end_job-Keeps now (finished r) j h = (refl, refl, refl, λ _. h)
end_job-Keeps now timed_out j h =
    if_both (Keeps j) (leb j.max_attempts j.attempts) (refl, refl, refl, λ _. h)
      (refl, refl, refl, λ _. h)
end_job-Keeps now cancelled j h = (refl, refl, refl, λ _. h)
end_job-Keeps now (raised e) j h =
    if_both (Keeps j) (leb j.max_attempts j.attempts) (refl, refl, refl, λ _. h)
      (refl, refl, refl, λ _. h)

pub end_running-Keeps :
    (now : Instant) (e : Ending) (j : BackgroundJob) → Keeps j (end_running now e j)
unfolding end_running
end_running-Keeps now e j =
    if_each (Keeps j) (is_running j.status)
      (λ r. end_job-Keeps now e j (is_live_of_running j.status r)) (λ _. Keeps-self j)

pub on_row-Keeps :
    (f : BackgroundJob → BackgroundJob)
    → ((j : BackgroundJob) → Keeps j (f j))
    → (id : ℕ) (j : BackgroundJob) → Keeps j (on_row f id j)
on_row-Keeps f h id j = if_both (Keeps j) (j.id == id) (h j) (Keeps-self j)
