-- ===== src/Scheduler.antt =====
-- The scheduled sweeps that enqueue jobs and the detector of stuck jobs
-- (app/tasks/scheduler_tasks.py, `SchedulerOrchestrator` of
-- app/modules/governance/domain/scheduler/orchestrator.py and cohorts.py beside it). A sweep reads
-- its rows and inserts its jobs in one transaction, at one reading of the clock. `draw` gives the
-- identifier of the row that a statement inserts.
use cloud_sentinel_ai.Base.{
  ℕ, ◌+◌, ◌-◌, ◌*◌, ◌/◌, ◌%◌, Instant, hours, days, Bool, true, false, Option, none, some, List, [],
  ◌∷◌, ◌++◌, ◌&&◌, ◌||◌, ◌==◌, leb, ltb, not, if◌then◌else◌, keep, map, is_some,
}
use cloud_sentinel_ai.Base.Dict.{Dict}
use cloud_sentinel_ai.Base.Text.{codes}
use cloud_sentinel_ai.Tiers.{PricingTier, free, trial, starter, growth, pro, enterprise}
use cloud_sentinel_ai.Jobs.{
  BackgroundJob, JobType, JobStatus, failed, is_pending, Payload, subscription_of, connection_of,
  DeduplicationKey, value_of, new_job,
}
use Calendar.{week}
use cloud_sentinel_ai.Dunning.{TenantSubscription, SubscriptionStatus}
pub mod Calendar
pub mod Keys
pub mod Sweeps
pub mod Stuck
mod Samples

pub data TenantCohort : Type 0 where
  high_value active dormant : TenantCohort

pub record Tenant : Type 0 where
  pub id : ℕ
  pub plan : PricingTier

pub record AwsConnection : Type 0 where
  pub id : ℕ
  pub tenant_id : ℕ
  pub region : ℕ

-- The hour of the day, in UTC.
abbrev pub hour : Instant → ℕ
hour now = now % days 1 / hours 1

abbrev pub start_of_day : Instant → Instant
start_of_day now = now / days 1 * days 1

abbrev pub is_dormant_since : Instant → Option Instant → Bool
is_dormant_since now none = false
is_dormant_since now (some last_active) = leb 7 ((now - last_active) / days 1)

abbrev pub cohort_by_plan : PricingTier → TenantCohort
cohort_by_plan growth = active
cohort_by_plan _ = dormant

unfoldable pub get_tenant_cohort : Instant → Tenant → Option Instant → TenantCohort
get_tenant_cohort now tenant last_active = elim tenant.plan [
  | enterprise ↦ high_value
  | pro ↦ high_value
  | other ↦ if is_dormant_since now last_active then dormant else cohort_by_plan other
]

-- The condition on the plan in the cohort's query.
unfoldable pub in_cohort : TenantCohort → PricingTier → Bool
in_cohort high_value enterprise = true
in_cohort high_value pro = true
in_cohort high_value _ = false
in_cohort active growth = true
in_cohort active _ = false
in_cohort dormant starter = true
in_cohort dormant trial = true
in_cohort dormant _ = false

-- The start of the period of six, three or one hours.
unfoldable pub bucket_of : TenantCohort → Instant → Instant
bucket_of high_value now = start_of_day now + hours (hour now / 6 * 6)
bucket_of active now = start_of_day now + hours (hour now / 3 * 3)
bucket_of dormant now = start_of_day now + hours (hour now)

abbrev pub key_of : ℕ → JobType → ℕ → DeduplicationKey
key_of tenant type bucket = record { tenant = tenant; type_value = value_of type; bucket = bucket }

-- The row of an insert statement.
unfoldable pub row :
    (DeduplicationKey → ℕ) → Instant → JobType → ℕ → Option Payload → Instant → ℕ → BackgroundJob
unfolding new_job
row draw now type tenant payload at bucket =
    let key = key_of tenant type bucket in
    record (new_job (draw key) now type (some tenant) payload (some at) 3) {
      deduplication_key = some key;
    }

abbrev pub same_key : DeduplicationKey → DeduplicationKey → Bool
same_key k l = k.tenant == l.tenant && k.type_value == l.type_value && k.bucket == l.bucket

abbrev pub is_key : DeduplicationKey → Option DeduplicationKey → Bool
is_key k none = false
is_key k (some l) = same_key k l

abbrev pub has_key : DeduplicationKey → BackgroundJob → Bool
has_key k j = is_key k j.deduplication_key

abbrev pub some_has_key : Option DeduplicationKey → List BackgroundJob → Bool
some_has_key none jobs = false
some_has_key (some k) [] = false
some_has_key (some k) (j ∷ jobs) = has_key k j || some_has_key (some k) jobs

-- `insert(...).on_conflict_do_nothing(["deduplication_key"])`, with the number of rows inserted.
unfoldable pub insert_unless_known : BackgroundJob → List BackgroundJob → ℕ × List BackgroundJob
insert_unless_known j jobs =
    if some_has_key j.deduplication_key jobs then (0, jobs) else (1, j ∷ jobs)

unfoldable pub insert_all : List BackgroundJob → List BackgroundJob → ℕ × List BackgroundJob
insert_all [] jobs = (0, jobs)
insert_all (j ∷ js) jobs =
    let (n, jobs1) = insert_unless_known j jobs in
    let (m, jobs2) = insert_all js jobs1 in (n + m, jobs2)

-- The tenants of the cohort whose rows no other transaction has locked.
unfoldable pub is_target : TenantCohort → (ℕ → Bool) → Tenant → Bool
unfolding in_cohort
is_target cohort locked t = in_cohort cohort t.plan && not (locked t.id)

unfoldable pub cohort_rows :
    (DeduplicationKey → ℕ) → Instant → TenantCohort → List Tenant → List BackgroundJob
unfolding row bucket_of
cohort_rows draw now cohort [] = []
cohort_rows draw now cohort (t ∷ ts) =
    row draw now JobType.finops_analysis t.id none now (bucket_of cohort now)
    ∷ row draw now JobType.zombie_scan t.id none now (bucket_of cohort now)
    ∷ row draw now JobType.cost_ingestion t.id none now (bucket_of cohort now)
    ∷ cohort_rows draw now cohort ts

-- The transaction of `_cohort_analysis_logic`.
unfoldable pub enqueue_cohort :
    (DeduplicationKey → ℕ)
    → Instant
    → (ℕ → Bool)
    → TenantCohort
    → List Tenant
    → List BackgroundJob
    → ℕ × List BackgroundJob
unfolding cohort_rows insert_all is_target
enqueue_cohort draw now locked cohort tenants jobs =
    insert_all (cohort_rows draw now cohort (keep (is_target cohort locked) tenants)) jobs

-- How an attempt's transaction ends; what does not commit is rolled back.
pub data Transaction : Type 0 where
  committed deadlocked broken : Transaction

abbrev pub max_retries : ℕ
max_retries = 3

-- The loop of `_cohort_analysis_logic` from its count of retries on; the attempts that are left
-- start at the times, and end in the ways, that the list gives. The second part is the number of
-- attempts made.
unfoldable pub cohort_analysis :
    (DeduplicationKey → ℕ)
    → (ℕ → Bool)
    → TenantCohort
    → List Tenant
    → ℕ
    → List (Instant × Transaction)
    → List BackgroundJob
    → List BackgroundJob × ℕ
unfolding enqueue_cohort
cohort_analysis draw locked cohort tenants retries [] jobs = (jobs, 0)
cohort_analysis draw locked cohort tenants retries ((now, committed) ∷ rest) jobs =
    ((enqueue_cohort draw now locked cohort tenants jobs).1, 1)
cohort_analysis draw locked cohort tenants retries ((now, deadlocked) ∷ rest) jobs =
    let again = cohort_analysis draw locked cohort tenants (retries + 1) rest jobs in
    if ltb (retries + 1) max_retries then (again.0, again.1 + 1) else (jobs, 1)
cohort_analysis draw locked cohort tenants retries ((now, broken) ∷ rest) jobs = (jobs, 1)

-- `_is_low_carbon_window`, and the same test in the remediation sweep.
unfoldable pub is_low_carbon_window : Instant → Bool
is_low_carbon_window now = (leb 10 (hour now) && leb (hour now) 16) || leb (hour now) 5

abbrev pub remediation_time : Instant → Instant
unfolding is_low_carbon_window
remediation_time now = if is_low_carbon_window now then now else now + hours 4

-- The rows of `_remediation_sweep_logic`.
unfoldable pub remediation_rows :
    (DeduplicationKey → ℕ) → Instant → List AwsConnection → List BackgroundJob
unfolding row is_low_carbon_window week
remediation_rows draw now [] = []
remediation_rows draw now (c ∷ cs) =
    row draw now JobType.remediation c.tenant_id (some (connection_of c.id c.region))
      (remediation_time now) (week now)
    ∷ remediation_rows draw now cs

abbrev pub is_active : SubscriptionStatus → Bool
is_active SubscriptionStatus.active = true
is_active _ = false

abbrev pub is_past : Instant → Option Instant → Bool
is_past now none = false
is_past now (some t) = leb t now

-- The condition of the billing sweep's query.
unfoldable pub is_payment_due : Instant → TenantSubscription → Bool
is_payment_due now sub =
    is_active sub.status && is_past now sub.next_payment_date && is_some sub.paystack_auth_code

unfoldable pub billing_rows :
    (DeduplicationKey → ℕ) → Instant → List TenantSubscription → List BackgroundJob
unfolding row
billing_rows draw now [] = []
billing_rows draw now (s ∷ ss) =
    row draw now JobType.recurring_billing s.tenant_id (some (subscription_of s.id)) now
      (now / days 1)
    ∷ billing_rows draw now ss

-- The transaction of `_remediation_sweep_logic`.
unfoldable pub sweep_remediations :
    (DeduplicationKey → ℕ)
    → Instant
    → (ℕ → Bool)
    → List AwsConnection
    → List BackgroundJob
    → ℕ × List BackgroundJob
unfolding remediation_rows insert_all
sweep_remediations draw now locked connections jobs =
    insert_all (remediation_rows draw now (keep (λ c. not (locked c.id)) connections)) jobs

-- The transaction of `_billing_sweep_logic`.
unfoldable pub sweep_billing :
    (DeduplicationKey → ℕ)
    → Instant
    → (ℕ → Bool)
    → List TenantSubscription
    → List BackgroundJob
    → ℕ × List BackgroundJob
unfolding billing_rows insert_all is_payment_due
sweep_billing draw now locked subs jobs =
    insert_all (billing_rows draw now (keep (λ s. is_payment_due now s && not (locked s.id)) subs))
      jobs

-- The condition of `detect_stuck_jobs`.
unfoldable pub is_stuck : Instant → BackgroundJob → Bool
is_stuck now j = is_pending j.status && ltb (j.created_at + hours 1) now && not j.is_deleted

abbrev pub terminate : BackgroundJob → BackgroundJob
terminate j = record j {
  status = failed;
  error_message = some (codes "Stuck in PENDING for > 1 hour. Terminated by StuckJobDetector.");
}

unfoldable pub detect_stuck_job : Instant → BackgroundJob → BackgroundJob
unfolding is_stuck
detect_stuck_job now j = if is_stuck now j then terminate j else j

unfoldable pub detect_stuck_jobs : Instant → List BackgroundJob → List BackgroundJob
unfolding detect_stuck_job
detect_stuck_jobs now jobs = map (detect_stuck_job now) jobs
