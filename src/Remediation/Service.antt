-- ===== src/Remediation/Service.antt =====
-- The approval workflow of `RemediationService` (app/modules/optimization/domain/remediation.py):
-- creating, listing, approving and rejecting requests, and the emergency execution when a tenant's
-- LLM budget is exhausted. The identifier and the time of creation that the database gives a new
-- request are arguments.
use cloud_sentinel_ai.Base.{
  ℕ, Instant, Bool, true, false, Option, none, some, List, [], ◌∷◌, ◌&&◌, ◌||◌, ◌==◌, leb, ltb,
  if◌then◌else◌, keep, take, drop,
}
use cloud_sentinel_ai.Base.Int.{ℤ, pos, ltb_ℤ}
use cloud_sentinel_ai.Base.Order.{order_by}
use cloud_sentinel_ai.Base.Text.{Text, codes}
use cloud_sentinel_ai.LlmBudget as Llm
use cloud_sentinel_ai.LlmBudget.{BudgetStatus}
use cloud_sentinel_ai.Remediation.{
  RemediationStatus, pending, approved, rejected, RemediationAction, RemediationRequest, World, Env,
  Error, unauthorized, budget_exceeded, wrong_status, Result, ok, err, Action, ◌>>=◌, ◌>>◌, pure,
  raise, committed, is_pending,
}
use cloud_sentinel_ai.Remediation.Execute.{fetch, save, execute, system_user_id}
pub mod Review
pub mod Isolation
mod Samples
pub mod Listing
pub mod History

-- The arguments of `create_request`.
pub record NewRequest : Type 0 where
  pub tenant_id : ℕ
  pub user_id : ℕ
  pub resource_id : Text
  pub resource_type : Text
  pub action : RemediationAction
  pub estimated_savings : ℤ
  pub create_backup : Bool
  pub backup_retention_days : ℕ
  pub backup_cost_estimate : ℤ
  pub confidence_score : Option ℕ
  pub explainability_notes : Option Text
  pub provider : Text
  pub connection_id : Option ℕ

abbrev pub owns : ℕ → ℕ → List (ℕ × ℕ) → Bool
owns connection tenant [] = false
owns connection tenant ((c, t) ∷ rest) =
    (c == connection && t == tenant) || owns connection tenant rest

-- The connection, if one is given, is one of the tenant's.
abbrev pub connection_allowed : Env → ℕ → Option ℕ → Bool
connection_allowed env tenant none = true
connection_allowed env tenant (some c) = owns c tenant env.connections

-- `Decimal(str(x)) if x else None`
abbrev pub nonzero : ℤ → Option ℤ
nonzero (pos n) = if n == 0 then none else some (pos n)
nonzero z = some z

unfoldable pub new_request : ℕ → Instant → Text → NewRequest → RemediationRequest
new_request id now region a = record {
  id = id;
  tenant_id = a.tenant_id;
  resource_id = a.resource_id;
  resource_type = a.resource_type;
  provider = a.provider;
  connection_id = a.connection_id;
  region = region;
  action = a.action;
  status = pending;
  estimated_monthly_savings = a.estimated_savings;
  confidence_score = none;
  explainability_notes = none;
  create_backup = a.create_backup;
  backup_retention_days = a.backup_retention_days;
  backup_resource_id = none;
  backup_cost_estimate = nonzero a.backup_cost_estimate;
  requested_by_user_id = a.user_id;
  reviewed_by_user_id = none;
  review_notes = none;
  execution_error = none;
  scheduled_execution_at = none;
  executed_at = none;
  created_at = now;
}

unfoldable pub create_request : Env → ℕ → Instant → Text → NewRequest → Action RemediationRequest
unfolding new_request
create_request env id now region a w =
    if connection_allowed env a.tenant_id a.connection_id
    then (
      ok (new_request id now region a),
      record w {
        requests = new_request id now region a ∷ w.requests;
        log = committed pending ∷ w.log;
      },
    )
    else raise unauthorized w

abbrev pub pending_of : ℕ → RemediationRequest → Bool
pending_of tenant r = r.tenant_id == tenant && is_pending r.status

abbrev pub newer : RemediationRequest → RemediationRequest → Bool
newer r s = ltb s.created_at r.created_at

-- `order_by(created_at.desc()).offset(offset).limit(limit)`
unfoldable pub list_pending : ℕ → ℕ → ℕ → World → List RemediationRequest
list_pending tenant limit offset w =
    take limit (drop offset (order_by newer (keep (pending_of tenant) w.requests)))

-- Writing a review on a request, with its commit.
abbrev pub review :
    RemediationStatus → ℕ → Option Text → RemediationRequest → Action RemediationRequest
review status reviewer notes r w =
    let s = record r {
      status = status;
      reviewed_by_user_id = some reviewer;
      review_notes = notes;
    } in
    (ok s, record w { requests = save s w.requests; log = committed status ∷ w.log })

abbrev pub approve_found : ℕ → Option Text → RemediationRequest → Action RemediationRequest
approve_found reviewer notes r =
    if is_pending r.status then review approved reviewer notes r else raise (wrong_status r.status)

unfoldable pub approve : ℕ → ℕ → ℕ → Option Text → Action RemediationRequest
unfolding fetch
approve id tenant reviewer notes = fetch id tenant >>= approve_found reviewer notes

unfoldable pub reject : ℕ → ℕ → ℕ → Option Text → Action RemediationRequest
unfolding fetch
reject id tenant reviewer notes = fetch id tenant >>= review rejected reviewer notes

abbrev pub is_confident : Option ℕ → Bool
is_confident none = false
is_confident (some c) = leb 90 c

abbrev pub emergency_candidate : ℕ → RemediationRequest → Bool
emergency_candidate tenant r =
    r.tenant_id == tenant && is_pending r.status && is_confident r.confidence_score

abbrev pub saves_more : RemediationRequest → RemediationRequest → Bool
saves_more r s = ltb_ℤ s.estimated_monthly_savings r.estimated_monthly_savings

unfoldable pub candidates : ℕ → World → List RemediationRequest
candidates tenant w = order_by saves_more (keep (emergency_candidate tenant) w.requests)

-- The body of the loop of `enforce_hard_limit`: auto-approve, then execute without the grace.
unfoldable pub enforce_one : Env → ℕ → RemediationRequest → Action RemediationRequest
enforce_one env tenant r w =
    let s = record r {
      status = approved;
      reviewed_by_user_id = some system_user_id;
      review_notes = some (codes "AUTO_APPROVED: Budget Hard Limit Exceeded");
    } in
    execute env s.id tenant true
      (record w { requests = save s w.requests; log = committed approved ∷ w.log })

abbrev pub add_if_ok : Result RemediationRequest → ℕ → List ℕ → List ℕ
add_if_ok (ok _) id ids = id ∷ ids
add_if_ok (err _) id ids = ids

-- The loop: `env_of` is the environment of each request's execution.
unfoldable pub enforce_all : (ℕ → Env) → ℕ → List RemediationRequest → World → List ℕ × World
enforce_all env_of tenant [] w = ([], w)
enforce_all env_of tenant (r ∷ rs) w =
    let (x, v) = enforce_one (env_of r.id) tenant r w in
    let (ids, u) = enforce_all env_of tenant rs v in (add_if_ok x r.id ids, u)

-- What follows the check of the LLM budget.
unfoldable pub enforce_after :
    Llm.Result BudgetStatus → (ℕ → Env) → ℕ → World → Result (List ℕ) × World
enforce_after (Llm.Result.raised e) env_of tenant w = raise budget_exceeded w
enforce_after (Llm.Result.done BudgetStatus.hard_limit) env_of tenant w =
    let (ids, v) = enforce_all env_of tenant (candidates tenant w) w in (ok ids, v)
enforce_after (Llm.Result.done status) env_of tenant w = (ok [], w)

unfoldable pub enforce_hard_limit :
    (Instant → Instant)
    → Instant
    → Llm.Store
    → (ℕ → Env)
    → ℕ
    → World
    → (Result (List ℕ) × World) × Llm.Store
enforce_hard_limit month_start now llm env_of tenant w =
    let (checked, llm') = Llm.check_budget month_start now tenant llm in
    (enforce_after checked env_of tenant w, llm')
