-- ===== src/Jobs.antt =====
-- The durable job queue (app/models/background_job.py and `JobProcessor` with `enqueue_job` of
-- app/modules/governance/domain/jobs/processor.py). The table of jobs is a list. What a handler does
-- is given by how it ends; the database is taken to accept every commit.
use cloud_sentinel_ai.Base.{
  ℕ, ◌+◌, ◌-◌, ◌*◌, ◌^◌, Instant, seconds, Bool, true, false, Option, none, some, List, [], ◌∷◌,
  ◌&&◌, ◌||◌, ◌==◌, leb, ltb, not, if◌then◌else◌, keep, take,
}
use cloud_sentinel_ai.Events.{PaymentEvent}
use cloud_sentinel_ai.Base.Int.{ℤ, pos, ltb_ℤ, leb_ℤ}
use cloud_sentinel_ai.Base.Order.{order_by}
use cloud_sentinel_ai.Base.Text.{Text, codes}
pub mod Queue
pub mod Rows
pub mod Retry
mod Samples

pub data JobStatus : Type 0 where
  pending running completed failed dead_letter : JobStatus

pub data JobType : Type 0 where
  finops_analysis zombie_scan remediation webhook_retry report_generation notification : JobType
  cost_ingestion recurring_billing zombie_analysis cost_forecast cost_export : JobType
  cost_aggregation dunning : JobType

-- A number for each job type's value, which is a text that is only compared.
abbrev pub value_of : JobType → ℕ
value_of finops_analysis = 0
value_of zombie_scan = 1
value_of JobType.remediation = 2
value_of webhook_retry = 3
value_of report_generation = 4
value_of notification = 5
value_of cost_ingestion = 6
value_of recurring_billing = 7
value_of zombie_analysis = 8
value_of cost_forecast = 9
value_of cost_export = 10
value_of cost_aggregation = 11
value_of JobType.dunning = 12

-- The payload of a webhook's job.
pub record Webhook : Type 0 where
  pub provider : Text
  pub event_type : Text
  pub payload : PaymentEvent
  pub idempotency_key : ℕ
  pub reference : Text

-- The payloads that the modelled services write.
pub data Payload : Type 0 where
  request_of : ℕ → Payload
  subscription_attempt : ℕ → ℕ → Payload
  subscription_of : ℕ → Payload
  connection_of : ℕ → ℕ → Payload
  webhook_of : Webhook → Payload

-- `<tenant>:<job type>:<bucket>`; neither an identifier nor a type's value has a colon.
pub record DeduplicationKey : Type 0 where
  pub tenant : ℕ
  pub type_value : ℕ
  pub bucket : ℕ

pub record BackgroundJob : Type 0 where
  pub id : ℕ
  pub job_type : JobType
  pub tenant_id : Option ℕ
  pub deduplication_key : Option DeduplicationKey
  pub status : JobStatus
  pub payload : Option Payload
  pub result : Option Text
  pub attempts : ℕ
  pub max_attempts : ℕ
  pub priority : ℤ
  pub scheduled_for : Instant
  pub started_at : Option Instant
  pub completed_at : Option Instant
  pub error_message : Option Text
  pub created_at : Instant
  pub is_deleted : Bool

abbrev pub max_jobs_per_batch : ℕ
max_jobs_per_batch = 10

abbrev pub backoff_base_seconds : ℕ
backoff_base_seconds = 60

abbrev pub is_pending : JobStatus → Bool
is_pending pending = true
is_pending _ = false

-- The condition of `_fetch_pending_jobs`.
unfoldable pub is_due : Instant → BackgroundJob → Bool
is_due now j =
    is_pending j.status
    && leb j.scheduled_for now
    && ltb j.attempts j.max_attempts
    && not j.is_deleted

-- `order_by(priority.desc(), scheduled_for)`
abbrev pub ahead : BackgroundJob → BackgroundJob → Bool
ahead i j =
    if ltb_ℤ j.priority i.priority
    then true
    else if ltb_ℤ i.priority j.priority
    then false
    else ltb i.scheduled_for j.scheduled_for

-- A due job that no other transaction has locked.
abbrev pub is_free : Instant → (ℕ → Bool) → BackgroundJob → Bool
is_free now locked j = is_due now j && not (locked j.id)

-- `_fetch_pending_jobs`; `locked` are the rows that `SKIP LOCKED` passes over.
unfoldable pub fetch_pending_jobs :
    Instant → (ℕ → Bool) → ℕ → List BackgroundJob → List BackgroundJob
fetch_pending_jobs now locked limit jobs =
    take limit (order_by ahead (keep (is_free now locked) jobs))

-- How the handler's part of a job ends.
pub data Ending : Type 0 where
  finished : Text → Ending
  timed_out cancelled : Ending
  raised : Text → Ending

-- Marking a job as running.
unfoldable pub start_job : Instant → BackgroundJob → BackgroundJob
start_job now j = record j { status = running; started_at = some now; attempts = j.attempts + 1 }

-- After a timeout or an exception: the dead letter, or another attempt after an exponential delay.
unfoldable pub retry_or_bury : Instant → Text → BackgroundJob → BackgroundJob
retry_or_bury now message j =
    if leb j.max_attempts j.attempts
    then record j { error_message = some message; status = dead_letter; completed_at = some now }
    else record j {
      error_message = some message;
      status = pending;
      scheduled_for = now + seconds (backoff_base_seconds * 2 ^ (j.attempts - 1));
    }

unfoldable pub end_job : Instant → Ending → BackgroundJob → BackgroundJob
end_job now (finished result) j = record j {
  status = completed;
  completed_at = some now;
  result = some result;
  error_message = none;
}
end_job now timed_out j = retry_or_bury now (codes "Job timed out after 300s") j
end_job now cancelled j = record j {
  error_message = some (codes "Job was cancelled");
  status = pending;
  scheduled_for = now + seconds 60;
}
end_job now (raised error) j = retry_or_bury now error j

-- `_process_single_job`, started and ended at two readings of the clock.
unfoldable pub process_single_job : Instant → Instant → Ending → BackgroundJob → BackgroundJob
process_single_job start end ending j = end_job end ending (start_job start j)

abbrev pub save : BackgroundJob → List BackgroundJob → List BackgroundJob
save j [] = []
save j (x ∷ rest) = if x.id == j.id then j ∷ rest else x ∷ save j rest

-- The transactions of `_process_single_job` on the row with an identifier: the one that starts a
-- due job, and the one that ends a running job.
unfoldable pub start_due : Instant → BackgroundJob → BackgroundJob
unfolding is_due start_job
start_due now j = if is_due now j then start_job now j else j

abbrev pub is_running : JobStatus → Bool
is_running running = true
is_running _ = false

unfoldable pub end_running : Instant → Ending → BackgroundJob → BackgroundJob
unfolding end_job
end_running now ending j = if is_running j.status then end_job now ending j else j

abbrev pub on_row : (BackgroundJob → BackgroundJob) → ℕ → BackgroundJob → BackgroundJob
on_row f id j = if j.id == id then f j else j

-- The counters of a batch.
pub record Results : Type 0 where
  pub processed : ℕ
  pub succeeded : ℕ
  pub failed : ℕ

-- How the environment treats a job of the batch.
pub record Treatment : Type 0 where
  pub start : Instant
  pub end : Instant
  pub ending : Ending

-- The loop of `process_pending_jobs`: `_process_single_job` catches what its handler raises, so the
-- branches that count a failure are not reached.
unfoldable pub process_batch :
    (ℕ → Treatment)
    → List BackgroundJob
    → Results
    → List BackgroundJob
    → Results × List BackgroundJob
process_batch treat [] r jobs = (r, jobs)
process_batch treat (j ∷ js) r jobs =
    let t = treat j.id in
    process_batch treat js (record r { processed = r.processed + 1; succeeded = r.succeeded + 1 })
      (save (process_single_job t.start t.end t.ending j) jobs)

-- `limit or MAX_JOBS_PER_BATCH`
abbrev pub limit_or_default : Option ℕ → ℕ
limit_or_default none = max_jobs_per_batch
limit_or_default (some n) = if n == 0 then max_jobs_per_batch else n

unfoldable pub process_pending_jobs :
    Instant
    → (ℕ → Bool)
    → (ℕ → Treatment)
    → Option ℕ
    → List BackgroundJob
    → Results × List BackgroundJob
process_pending_jobs now locked treat limit jobs =
    process_batch treat (fetch_pending_jobs now locked (limit_or_default limit) jobs)
      (record { processed = 0; succeeded = 0; failed = 0 }) jobs

abbrev pub or_now : Option Instant → Instant → Instant
or_now none now = now
or_now (some t) _ = t

unfoldable pub new_job :
    ℕ → Instant → JobType → Option ℕ → Option Payload → Option Instant → ℕ → BackgroundJob
new_job id now type tenant payload at max = record {
  id = id;
  job_type = type;
  tenant_id = tenant;
  deduplication_key = none;
  status = pending;
  payload = payload;
  result = none;
  attempts = 0;
  max_attempts = max;
  priority = pos 0;
  scheduled_for = or_now at now;
  started_at = none;
  completed_at = none;
  error_message = none;
  created_at = now;
  is_deleted = false;
}

-- `enqueue_job`, with the identifier that the database gives.
unfoldable pub enqueue_job :
    ℕ
    → Instant
    → JobType
    → Option ℕ
    → Option Payload
    → Option Instant
    → ℕ
    → List BackgroundJob
    → BackgroundJob × List BackgroundJob
unfolding new_job
enqueue_job id now type tenant payload at max jobs =
    let j = new_job id now type tenant payload at max in (j, j ∷ jobs)
