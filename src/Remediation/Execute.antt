-- ===== src/Remediation/Execute.antt =====
-- `RemediationService.execute` (app/modules/optimization/domain/remediation.py). The database is
-- taken to accept every commit; a commit of the request's status stands in the log.
use cloud_sentinel_ai.Base.{
  ℕ, ◌+◌, Instant, hours, Bool, true, false, Option, none, some, List, [], ◌∷◌, ◌++◌, ◌&&◌, ◌==◌,
  ltb, if◌then◌else◌, take,
}
use cloud_sentinel_ai.Base.Text.{codes}
use cloud_sentinel_ai.Remediation.{
  RemediationStatus, approved, executing, scheduled, completed, failed, RemediationRequest,
  Response, accepted, refused, execution_started, executed, execution_failed, audited, committed,
  enqueued, notified, Log, World, Env, Result, ok, err, Action, ◌>>=◌, ◌>>◌, pure, raise, not_found,
  wrong_status,
}
use cloud_sentinel_ai.Remediation.Guards.{check_all_guards}
use cloud_sentinel_ai.Remediation.Actions.{back_up, execute_action}
pub mod Stages
pub mod Backup
pub mod Cases
pub mod Store
pub mod Safety
pub mod Grace

-- `where(id == request_id).where(tenant_id == tenant_id)`
abbrev pub is_request : ℕ → ℕ → RemediationRequest → Bool
is_request id tenant r = r.id == id && r.tenant_id == tenant

abbrev pub find : ℕ → ℕ → List RemediationRequest → Option RemediationRequest
find id tenant [] = none
find id tenant (r ∷ rest) = if is_request id tenant r then some r else find id tenant rest

-- The row of a request takes the request's new values.
abbrev pub save : RemediationRequest → List RemediationRequest → List RemediationRequest
save r [] = []
save r (x ∷ rest) = if is_request r.id r.tenant_id x then r ∷ rest else x ∷ save r rest

-- `scalar_one_or_none` with the branch of a request that is not found.
abbrev pub or_missing : Option RemediationRequest → Action RemediationRequest
or_missing none = raise not_found
or_missing (some r) = pure r

unfoldable pub fetch : ℕ → ℕ → Action RemediationRequest
fetch id tenant w = or_missing (find id tenant w.requests) w

-- `SYSTEM_USER_ID` stands for a reviewer who is not known.
abbrev pub system_user_id : ℕ
system_user_id = 0

abbrev pub actor_of : Option ℕ → Option ℕ
actor_of none = some system_user_id
actor_of (some user) = some user

abbrev pub before : Instant → Option Instant → Bool
before now none = false
before now (some t) = ltb now t

-- The first execution of an approved request: the 24 hours of grace, and a job for their end.
unfoldable pub schedule : Env → RemediationRequest → Log → RemediationRequest × Log
schedule env r log =
    let at = env.scheduling_at + hours 24 in
    (
      record r { status = scheduled; scheduled_execution_at = some at },
      enqueued r.tenant_id r.id at
          ∷ audited execution_started (actor_of r.reviewed_by_user_id) true
          ∷ committed scheduled
          ∷ log,
    )

-- After the action: completed with its audit record and notification, or failed with the error's
-- first 500 characters.
unfoldable pub finish : Env → RemediationRequest → Response × Log → RemediationRequest × Log
finish env r (accepted _, log) = (
  record r { status = completed; executed_at = some env.executed_at },
  notified r.tenant_id
      ∷ committed completed
      ∷ audited executed (actor_of r.reviewed_by_user_id) true
      ∷ log,
)
finish env r (refused e, log) = (
  record r { status = failed; execution_error = some (take 500 e) },
  committed failed ∷ audited execution_failed r.reviewed_by_user_id false ∷ log,
)

unfoldable pub act : Env → RemediationRequest → Log → RemediationRequest × Log
act env r log = finish env r (execute_action env r.action r.resource_id log)

-- A failed backup fails the request before the action.
unfoldable pub after_backup :
    Env → RemediationRequest → Option Response × Log → RemediationRequest × Log
after_backup env r (none, log) = act env r (committed executing ∷ log)
after_backup env r (some (accepted id), log) =
    act env (record r { backup_resource_id = some id }) (committed executing ∷ log)
after_backup env r (some (refused e), log) = (
  record r { status = failed; execution_error = some (codes "BACKUP_FAILED: " ++ e) },
  audited execution_failed r.reviewed_by_user_id false ∷ committed failed ∷ log,
)

-- The log of a request that starts to execute: its status is committed, and the start audited.
abbrev pub started : RemediationRequest → Log → Log
started r log =
    audited execution_started (actor_of r.reviewed_by_user_id) true ∷ committed executing ∷ log

-- From `request.status = EXECUTING` to the end.
unfoldable pub perform : Env → RemediationRequest → Log → RemediationRequest × Log
perform env request log =
    let r = record request { status = executing } in
    if r.create_backup
    then after_backup env r
        (back_up env r.action r.resource_id r.backup_retention_days (started r log))
    else act env r (started r log)

-- What `execute` does with a request that passed the guards, by its status.
unfoldable pub dispatch :
    RemediationStatus → Env → Bool → RemediationRequest → Log → Result (RemediationRequest × Log)
dispatch approved env bypass r log = ok (if bypass then perform env r log else schedule env r log)
dispatch scheduled env bypass r log =
    ok (if before env.checked_at r.scheduled_execution_at then (r, log) else perform env r log)
dispatch status env bypass r log = err (wrong_status status)

settle : Result (RemediationRequest × Log) → Action RemediationRequest
settle (ok (r, log)) w = (ok r, record w { requests = save r w.requests; log = log })
settle (err e) w = (err e, w)

unfoldable pub proceed : Env → Bool → RemediationRequest → Action RemediationRequest
unfolding settle
proceed env bypass r w = settle (dispatch r.status env bypass r w.log) w

unfoldable pub execute : Env → ℕ → ℕ → Bool → Action RemediationRequest
unfolding fetch
execute env id tenant bypass = do
  r ← fetch id tenant
  check_all_guards env tenant r.estimated_monthly_savings
  proceed env bypass r
