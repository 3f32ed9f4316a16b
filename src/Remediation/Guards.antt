-- ===== src/Remediation/Guards.antt =====
-- The safety guards before a remediation (`SafetyGuardrailService`, app/shared/core/safety_service.py).
-- The audit log and the notification channel are taken to accept what they are sent.
use cloud_sentinel_ai.Base.{
  ℕ, ◌*◌, ◌/◌, Instant, days, Bool, false, Option, none, some, List, ◌∷◌, ◌&&◌, ◌==◌, leb,
  if◌then◌else◌, keep, map, length,
}
use cloud_sentinel_ai.Base.Int.{ℤ, ◌+ℤ◌, ltb_ℤ, leb_ℤ, sum_ℤ}
use cloud_sentinel_ai.Costs.{total_cost}
use cloud_sentinel_ai.Remediation.{
  RemediationRequest, RemediationSettings, Env, Action, ◌>>◌, pure, raise, kill_switch_triggered,
  daily_impact, hard_cap, recent_failures, budget_alerted, is_completed, is_failed,
}

abbrev pub executed_on : ℕ → Option Instant → Bool
executed_on day none = false
executed_on day (some t) = t / days 1 == day

-- `executed_at >= ` the start of the day; a missing time is not later than any.
abbrev pub executed_since : ℕ → Option Instant → Bool
executed_since start none = false
executed_since start (some t) = leb start t

abbrev pub completed_on : ℕ → RemediationRequest → Bool
completed_on day r = is_completed r.status && executed_on day r.executed_at

abbrev pub savings_of : RemediationRequest → ℤ
savings_of r = r.estimated_monthly_savings

-- The savings of what was completed on a day, of all tenants.
unfoldable pub impact_on : ℕ → List RemediationRequest → ℤ
impact_on day requests = sum_ℤ (map savings_of (keep (completed_on day) requests))

unfoldable pub check_global_kill_switch : Env → ℤ → Action (Unit {0})
unfolding impact_on
check_global_kill_switch env impact w =
    if leb_ℤ env.kill_switch_threshold (impact_on env.kill_switch_day w.requests +ℤ impact)
    then raise (kill_switch_triggered daily_impact) w
    else pure tt w

-- The part of `_check_monthly_hard_cap` behind its early return.
unfoldable pub check_cap : ℤ → ℤ → ℕ → Action (Unit {0})
check_cap spend cap tenant w =
    if ltb_ℤ cap spend
    then raise (kill_switch_triggered hard_cap) (record w { log = budget_alerted tenant ∷ w.log })
    else pure tt w

unfoldable pub capped : Env → ℕ → Option RemediationSettings → Action (Unit {0})
unfolding check_cap
capped env tenant none = pure tt
capped env tenant (some s) =
    if s.hard_cap_enabled
    then check_cap (total_cost env.cost_records tenant env.month_start env.today)
        s.monthly_hard_cap_usd tenant
    else pure tt

unfoldable pub check_monthly_hard_cap : Env → ℕ → Action (Unit {0})
unfolding capped
check_monthly_hard_cap env tenant = capped env tenant (env.settings tenant)

abbrev pub failed_since : ℕ → Instant → RemediationRequest → Bool
failed_since tenant start r =
    r.tenant_id == tenant && is_failed r.status && executed_since start r.executed_at

unfoldable pub failure_count : Env → ℕ → List RemediationRequest → ℕ
failure_count env tenant requests =
    length (keep (failed_since tenant (env.breaker_day * days 1)) requests)

unfoldable pub check_circuit_breaker : Env → ℕ → Action (Unit {0})
unfolding failure_count
check_circuit_breaker env tenant w =
    if leb 5 (failure_count env tenant w.requests)
    then raise (kill_switch_triggered recent_failures) w
    else pure tt w

unfoldable pub check_all_guards : Env → ℕ → ℤ → Action (Unit {0})
check_all_guards env tenant impact = do
  check_global_kill_switch env impact
  check_monthly_hard_cap env tenant
  check_circuit_breaker env tenant
