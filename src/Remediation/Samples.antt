-- ===== src/Remediation/Samples.antt =====
-- A volume on its way through the workflow.
use cloud_sentinel_ai.Base.{
  ◌+◌, ◌<◌, ◌≡◌, ◌⊎◌, Bool, true, false, some, none, [], ◌∷◌, refl, hours, inl,
}
use cloud_sentinel_ai.Base.Int.{pos, ◌+ℤ◌, sum_ℤ}
use cloud_sentinel_ai.Remediation.{
  RemediationStatus, approved, completed, RemediationAction, RemediationRequest, CloudCall,
  accepted, Env, World, Error, err, cloud_calls,
}
use cloud_sentinel_ai.Remediation.Guards.{
  check_all_guards, check_circuit_breaker, check_global_kill_switch, check_monthly_hard_cap,
}
use cloud_sentinel_ai.Remediation.Actions.{back_up, call, create_volume_backup, execute_action}
use cloud_sentinel_ai.Remediation.Execute.{
  started, perform, execute, proceed, dispatch, schedule, act, after_backup, finish, fetch,
}
use cloud_sentinel_ai.Remediation.Execute.Backup.{BackedUpFirst, backup_precedes_deletion}
use cloud_sentinel_ai.Remediation.Execute.Safety.{
  Authorised, Executed, execute-Authorised, execute-Executed,
}
use cloud_sentinel_ai.Remediation.Execute.Grace.{executed_once, grace_period}

-- A cloud that accepts every call, at noon of the first day.
abbrev pub env : Env
env = record {
  kill_switch_day = 0;
  kill_switch_threshold = pos 50000000000;
  month_start = 0;
  today = 0;
  breaker_day = 0;
  checked_at = hours 12;
  scheduling_at = hours 12;
  executed_at = hours 12;
  timestamp = 49 ∷ [];
  settings = λ _. none;
  cost_records = [];
  connections = [];
  aws = λ _ _. accepted (115 ∷ []);
}

abbrev pub volume : RemediationRequest
volume = record {
  id = 1;
  tenant_id = 7;
  resource_id = 118 ∷ [];
  resource_type = 69 ∷ [];
  provider = [];
  connection_id = none;
  region = [];
  action = RemediationAction.delete_volume;
  status = approved;
  estimated_monthly_savings = pos 4000000000;
  confidence_score = none;
  explainability_notes = none;
  create_backup = true;
  backup_retention_days = 30;
  backup_resource_id = none;
  backup_cost_estimate = none;
  requested_by_user_id = 3;
  reviewed_by_user_id = some 4;
  review_notes = none;
  execution_error = none;
  scheduled_execution_at = none;
  executed_at = none;
  created_at = 0;
}

abbrev pub world : World
world = record { requests = volume ∷ []; log = [] }

backup_precedes_deletion_example :
    BackedUpFirst env []
      (started volume [])
      (CloudCall.delete_volume (118 ∷ []))
      (CloudCall.create_snapshot (118 ∷ []) 30)
      (perform env volume [])
backup_precedes_deletion_example = backup_precedes_deletion env volume [] refl refl refl

execute-Authorised_example :
    (cloud_calls (execute env 1 7 true world).1.log ≡ []) ⊎ Authorised env 1 7 true world
execute-Authorised_example = execute-Authorised env 1 7 true world

execute-Executed_example : Executed env 1 7 false world (execute env 1 7 false world)
execute-Executed_example = execute-Executed env 1 7 false world

-- With the grace bypassed the volume is saved and deleted.
abbrev gone : RemediationRequest
gone = record volume {
  status = completed;
  backup_resource_id = some (115 ∷ []);
  executed_at = some (hours 12);
}

executed_once_example :
    let v = (execute env 1 7 true world).1 in
    let (x, u) = execute env 1 7 true v in
    ((e : Error) × (x ≡ err e))
    × (u.requests ≡ v.requests)
    × (cloud_calls u.log ≡ cloud_calls v.log)
unfolding execute fetch check_all_guards check_global_kill_switch check_monthly_hard_cap
    check_circuit_breaker proceed dispatch perform act after_backup finish back_up
    create_volume_backup call execute_action ◌+ℤ◌ sum_ℤ
executed_once_example =
    executed_once env 1 7 true world {s = gone} {v = (execute env 1 7 true world).1} refl (inl refl)
      env true

abbrev waiting : RemediationRequest
waiting = record volume {
  status = RemediationStatus.scheduled;
  scheduled_execution_at = some (hours 36);
}

grace_period_example :
    let v = (execute env 1 7 false world).1 in
    (cloud_calls v.log ≡ [])
    × (waiting.scheduled_execution_at ≡ some (env.scheduling_at + hours 24))
    × ((env' : Env) (bypass : Bool)
        → env'.checked_at < env.scheduling_at + hours 24
        → cloud_calls (execute env' 1 7 bypass v).1.log ≡ cloud_calls v.log)
unfolding execute fetch check_all_guards check_global_kill_switch check_monthly_hard_cap
    check_circuit_breaker proceed dispatch schedule ◌+ℤ◌ sum_ℤ
grace_period_example =
    grace_period env 1 7 world {r = volume} {s = waiting} {v = (execute env 1 7 false world).1} refl
      refl refl
