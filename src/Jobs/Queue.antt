-- ===== src/Jobs/Queue.antt =====
-- Which jobs a batch takes from the queue, and how it counts them.
use mathlib.Core.List.{Perm}
use cloud_sentinel_ai.Base.{
  ℕ, ◌+◌, ◌≤◌, ◌≡◌, ◌⊎◌, Instant, Bool, true, false, Option, List, [], ◌∷◌, ◌++◌, arith, keep, drop,
  length, take-append-drop, length-take-le, take_all_or_full,
}
use cloud_sentinel_ai.Base.Order.{order_by, order_by-perm, IsOrdered, order_by-IsOrdered}
use cloud_sentinel_ai.Jobs.{
  BackgroundJob, ahead, is_free, fetch_pending_jobs, Treatment, Results, process_batch,
  process_pending_jobs, limit_or_default,
}

ahead-asym : (i j : BackgroundJob) → ahead i j ≡ true → ahead j i ≡ false
ahead-asym i j h = ground arith

ahead_trans : (i j k : BackgroundJob) → ahead j i ≡ false → ahead k j ≡ false → ahead k i ≡ false
ahead_trans i j k h l = ground arith

-- A batch is a prefix of all due jobs that no other transaction has locked, each of them once, put
-- in order of descending priority and then of ascending schedule: no job stands behind one that
-- it comes before. It has at most `limit` jobs, and fewer only if there are no more.
pub fetch_pending_jobs_lem :
    (now : Instant) (locked : ℕ → Bool) (limit : ℕ) (jobs : List BackgroundJob)
    → let batch = fetch_pending_jobs now locked limit jobs in
      (rest : List BackgroundJob) × Perm (batch ++ rest) (keep (is_free now locked) jobs)
      × IsOrdered ahead (batch ++ rest)
      × (length batch ≤ limit)
      × ((rest ≡ []) ⊎ (length batch ≡ limit))
unfolding fetch_pending_jobs
fetch_pending_jobs_lem now locked limit jobs =
    let all = order_by ahead (keep (is_free now locked) jobs) in
    let whole = take-append-drop limit all in
    (
      drop limit all,
      rw whole (order_by-perm ahead (keep (is_free now locked) jobs)),
      rw whole (order_by-IsOrdered ahead ahead-asym ahead_trans (keep (is_free now locked) jobs)),
      length-take-le limit all,
      take_all_or_full limit all,
    )

process_batch_counts :
    (treat : ℕ → Treatment) (js : List BackgroundJob) (r : Results) (jobs : List BackgroundJob)
    → let (r', _) = process_batch treat js r jobs in
      (r'.processed ≡ r.processed + length js)
      × (r'.succeeded ≡ r.succeeded + length js)
      × (r'.failed ≡ r.failed)
unfolding process_batch
process_batch_counts treat [] r jobs = omega arith
process_batch_counts treat (j ∷ js) r jobs = omega (
  arith,
  process_batch_counts treat js
      (record r { processed = r.processed + 1; succeeded = r.succeeded + 1 }) _,
)

-- A batch reports all of its jobs as processed and as succeeded and none as failed, however their
-- handlers ended.
process_pending_jobs_counts :
    (now : Instant) (locked : ℕ → Bool) (treat : ℕ → Treatment) (limit : Option ℕ)
    (jobs : List BackgroundJob)
    → let r = (process_pending_jobs now locked treat limit jobs).0 in
      let size = length (fetch_pending_jobs now locked (limit_or_default limit) jobs) in
      (r.processed ≡ size) × (r.succeeded ≡ size) × (r.failed ≡ 0)
unfolding process_pending_jobs
process_pending_jobs_counts now locked treat limit jobs =
    let batch = fetch_pending_jobs now locked (limit_or_default limit) jobs in
    omega (
      arith,
      process_batch_counts treat batch (record { processed = 0; succeeded = 0; failed = 0 }) jobs,
    )
