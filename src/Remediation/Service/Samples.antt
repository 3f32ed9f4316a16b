-- ===== src/Remediation/Service/Samples.antt =====
-- Requests from their creation on.
use cloud_sentinel_ai.Base.{◌≡◌, ◌≢◌, true, some, none, List, [], ◌∷◌, All, arith}
use cloud_sentinel_ai.Base.Int.{pos}
use cloud_sentinel_ai.LlmBudget as Llm
use cloud_sentinel_ai.Remediation.{RemediationAction, World, ok}
use cloud_sentinel_ai.Remediation.Guards.{check_circuit_breaker}
use cloud_sentinel_ai.Remediation.Execute.{find}
use cloud_sentinel_ai.Remediation.Service.{NewRequest}
use cloud_sentinel_ai.Remediation.Service.History.{
  Operation, create, approves, executes, run, empty,
}
use cloud_sentinel_ai.Remediation.Service.Isolation.{tenants_isolated}
use cloud_sentinel_ai.Remediation.Service.Review.{IsSound, run-IsSound, breaker_never_opens}
use cloud_sentinel_ai.Remediation.Samples.{env, world, volume}

abbrev wanted : NewRequest
wanted = record {
  tenant_id = 7;
  user_id = 3;
  resource_id = 118 ∷ [];
  resource_type = 69 ∷ [];
  action = RemediationAction.delete_volume;
  estimated_savings = pos 4000000000;
  create_backup = true;
  backup_retention_days = 30;
  backup_cost_estimate = pos 0;
  confidence_score = some 99;
  explainability_notes = none;
  provider = [];
  connection_id = none;
}

abbrev history : List Operation
history =
    create env 1 0 [] wanted
    ∷ approves 1 7 4 none
    ∷ executes env 1 7 true
    ∷ create env 2 0 [] wanted
    ∷ []

run-IsSound_example : All IsSound (run history empty).requests
run-IsSound_example = run-IsSound history

breaker_never_opens_example :
    check_circuit_breaker env 7 (run history empty) ≡ (ok tt, run history empty)
breaker_never_opens_example = breaker_never_opens history env 7

-- The tenant's budget is exhausted, and that is in the cache.
abbrev exhausted : Llm.Store
exhausted = record {
  budgets = [];
  usage = [];
  cache_enabled = true;
  blocked = (7, 600) ∷ [];
  soft = [];
  alerts = [];
}

abbrev shared_world : World
shared_world = record world { requests = record volume { tenant_id = 8 } ∷ world.requests }

seven≢eight : wanted.tenant_id ≢ 8
seven≢eight e = omega (arith, e)

tenants_isolated_example :
    find 1 8 (run history shared_world).requests ≡ some (record volume { tenant_id = 8 })
tenants_isolated_example =
    tenants_isolated history shared_world 1 8
      (seven≢eight, (seven≢eight, (seven≢eight, (seven≢eight, tt))))
