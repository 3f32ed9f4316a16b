-- ===== src/Remediation.antt =====
-- The data of the remediation workflow (app/models/remediation.py, remediation_settings.py) and
-- the state that the service works on (app/modules/optimization/domain/remediation.py).
-- Identifiers are numbers, texts that are only stored are lists of code points.
-- The log is the trace of what the service has done to the outside, the newest first: calls of
-- the cloud, audit records, commits of a request's status, jobs and notifications.
use cloud_sentinel_ai.Base.{
  ℕ, Instant, Bool, true, false, Option, none, some, List, [], ◌∷◌, ◌≡◌, refl,
}
use cloud_sentinel_ai.Base.Int.{ℤ}
use cloud_sentinel_ai.Base.Text.{Text}
use cloud_sentinel_ai.Costs.{CostRecord}
pub mod Guards
pub mod Actions
pub mod Execute
pub mod Service
mod Samples

pub data RemediationStatus : Type 0 where
  pending approved executing scheduled completed failed rejected cancelled : RemediationStatus

pub data RemediationAction : Type 0 where
  delete_volume delete_snapshot release_elastic_ip stop_instance : RemediationAction
  terminate_instance delete_s3_bucket delete_ecr_image : RemediationAction
  delete_sagemaker_endpoint delete_redshift_cluster delete_load_balancer : RemediationAction
  stop_rds_instance delete_rds_instance delete_nat_gateway : RemediationAction
  resize_instance manual_review : RemediationAction

pub record RemediationRequest : Type 0 where
  pub id : ℕ
  pub tenant_id : ℕ
  pub resource_id : Text
  pub resource_type : Text
  pub provider : Text
  pub connection_id : Option ℕ
  pub region : Text
  pub action : RemediationAction
  pub status : RemediationStatus
  pub estimated_monthly_savings : ℤ
  pub confidence_score : Option ℕ  -- in hundredths
  pub explainability_notes : Option Text
  pub create_backup : Bool
  pub backup_retention_days : ℕ
  pub backup_resource_id : Option Text
  pub backup_cost_estimate : Option ℤ
  pub requested_by_user_id : ℕ
  pub reviewed_by_user_id : Option ℕ
  pub review_notes : Option Text
  pub execution_error : Option Text
  pub scheduled_execution_at : Option Instant
  pub executed_at : Option Instant
  pub created_at : Instant

-- `RemediationSettings`, the columns that the guards read.
pub record RemediationSettings : Type 0 where
  pub hard_cap_enabled : Bool
  pub monthly_hard_cap_usd : ℤ

-- The calls of the AWS client, with the arguments that tell them apart.
pub data CloudCall : Type 0 where
  create_snapshot : Text → ℕ → CloudCall
  create_db_snapshot create_cluster_snapshot : Text → Text → ℕ → CloudCall
  delete_volume delete_snapshot release_address stop_instances : Text → CloudCall
  terminate_instances delete_bucket delete_endpoint delete_endpoint_config : Text → CloudCall
  delete_cluster delete_load_balancer stop_db_instance delete_db_instance : Text → CloudCall
  delete_nat_gateway : Text → CloudCall
  batch_delete_image : Text → Text → CloudCall

-- What a call of the cloud ends with: the identifier in its response, or the exception's text.
pub data Response : Type 0 where
  accepted refused : Text → Response

pub data AuditEvent : Type 0 where
  execution_started executed execution_failed : AuditEvent

pub data Effect : Type 0 where
  called : CloudCall → Effect
  audited : AuditEvent → Option ℕ → Bool → Effect
  committed : RemediationStatus → Effect
  enqueued : ℕ → ℕ → Instant → Effect
  notified budget_alerted : ℕ → Effect

abbrev pub Log : Type 0
Log = List Effect

pub record World : Type 0 where
  pub requests : List RemediationRequest
  pub log : Log

-- What one call of the service finds outside of it: the readings of the clock, the other tables,
-- the settings, and the AWS client, which answers by the trace so far and the call.
pub record Env : Type 0 where
  pub kill_switch_day : ℕ
  pub kill_switch_threshold : ℤ
  pub month_start : ℕ
  pub today : ℕ
  pub breaker_day : ℕ
  pub checked_at : Instant
  pub scheduling_at : Instant
  pub executed_at : Instant
  pub timestamp : Text
  pub settings : ℕ → Option RemediationSettings
  pub cost_records : List CostRecord
  pub connections : List (ℕ × ℕ)
  pub aws : Log → CloudCall → Response

pub data KillReason : Type 0 where
  daily_impact hard_cap recent_failures : KillReason

pub data Error : Type 0 where
  not_found unauthorized budget_exceeded : Error
  wrong_status : RemediationStatus → Error
  kill_switch_triggered : KillReason → Error

pub data Result (A : Type 0) : Type 0 where
  ok : A → Result A
  err : Error → Result A

-- A method: what was done before an exception stays done.
abbrev pub Action : Type 0 → Type 0
Action A = World → Result A × World

abbrev pub continue : {A B : Type 0} → (A → Action B) → Result A × World → Result B × World
continue f (ok a, w) = f a w
continue f (err e, w) = (err e, w)

infixl 5 ◌>>=◌ ◌>>◌
abbrev pub ◌>>=◌ : {A B : Type 0} → Action A → (A → Action B) → Action B
◌>>=◌ m f w = continue f (m w)

abbrev pub ◌>>◌ : {A B : Type 0} → Action A → Action B → Action B
m >> k = m >>= λ _. k

abbrev pub pure : {A : Type 0} → A → Action A
pure a w = (ok a, w)

abbrev pub raise : {A : Type 0} → Error → Action A
raise e w = (err e, w)

-- The calls of the cloud in a trace, the newest first.
abbrev pub cloud_calls : Log → List CloudCall
cloud_calls [] = []
cloud_calls (called c ∷ rest) = c ∷ cloud_calls rest
cloud_calls (audited _ _ _ ∷ rest) = cloud_calls rest
cloud_calls (committed _ ∷ rest) = cloud_calls rest
cloud_calls (enqueued _ _ _ ∷ rest) = cloud_calls rest
cloud_calls (notified _ ∷ rest) = cloud_calls rest
cloud_calls (budget_alerted _ ∷ rest) = cloud_calls rest

abbrev pub is_pending : RemediationStatus → Bool
is_pending pending = true
is_pending _ = false

abbrev pub is_completed : RemediationStatus → Bool
is_completed completed = true
is_completed _ = false

abbrev pub is_failed : RemediationStatus → Bool
is_failed failed = true
is_failed _ = false

-- What holds after a bind: both of its ends are to be shown, each with what the first part did.
pub bind_rule {ℓ} :
    {A B : Type 0} (P : Result B × World → Type ℓ) (f : A → Action B) (x : Result A × World)
    → ((e : Error) (w : World) → x ≡ (err e, w) → P (err e, w))
    → ((a : A) (w : World) → x ≡ (ok a, w) → P (f a w))
    → P (continue f x)
bind_rule P f (ok a, w) failing going = going a w refl
bind_rule P f (err e, w) failing going = failing e w refl
