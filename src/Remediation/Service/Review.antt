-- ===== src/Remediation/Service/Review.antt =====
-- What the review, the circuit breaker and the emergency enforcement come to over histories.
use cloud_sentinel_ai.Base.{
  ℕ, ◌*◌, days, Instant, Bool, true, false, Option, none, some, List, [], ◌≡◌, ◌≢◌, ◌⊎◌, inl, inr,
  arith, refl, All, All-map, sym, ap, length, keep-nil, subst,
}
use cloud_sentinel_ai.Base.Order.{order_by}
use cloud_sentinel_ai.Base.Text.{Text}
use cloud_sentinel_ai.LlmBudget as Llm
use cloud_sentinel_ai.LlmBudget.{BudgetStatus}
use cloud_sentinel_ai.Remediation.{
  RemediationStatus, pending, approved, rejected, completed, RemediationRequest, World, Env,
  budget_exceeded, ok, err, is_pending, cloud_calls,
}
use cloud_sentinel_ai.Remediation.Guards.{check_circuit_breaker, failure_count, failed_since}
use cloud_sentinel_ai.Remediation.Execute.{find, execute}
use cloud_sentinel_ai.Remediation.Execute.Cases.{MayRun}
use cloud_sentinel_ai.Remediation.Execute.Safety.{execute-Authorised, Transition}
use cloud_sentinel_ai.Remediation.Service.{
  NewRequest, new_request, enforce_hard_limit, enforce_after, enforce_all, candidates,
  emergency_candidate, saves_more,
}
use cloud_sentinel_ai.Remediation.Service.History.{Operation, run, empty, run-keeps, All-find}

-- A request that is past its review has a reviewer, and only one that was completed, or was then
-- rejected, has a time of execution.
pub record IsSound (r : RemediationRequest) : Type 0 where
  pub reviewed : r.status ≢ pending → r.reviewed_by_user_id ≢ none
  pub timed : r.executed_at ≢ none → (r.status ≡ completed) ⊎ (r.status ≡ rejected)

failed_uncounted :
    (tenant : ℕ) (start : Instant) (r : RemediationRequest)
    → IsSound r
    → failed_since tenant start r ≡ false
failed_uncounted tenant start r v = ground arith

MayRun-past_review :
    (env : Env) (bypass : Bool) (r : RemediationRequest) → MayRun env bypass r → r.status ≢ pending
MayRun-past_review env bypass r may = ground arith

unscored_passed_over :
    (tenant : ℕ) (r : RemediationRequest)
    → r.confidence_score ≡ none
    → emergency_candidate tenant r ≡ false
unscored_passed_over tenant r v = ground arith

new-IsSound :
    (id : ℕ) (now : Instant) (region : Text) (a : NewRequest)
    → IsSound (new_request id now region a)
unfolding new_request
new-IsSound id now region a = ground arith

review-IsSound :
    (s : RemediationStatus) (reviewer : ℕ) (notes : Option Text) (r : RemediationRequest)
    → ((s ≡ approved) × (is_pending r.status ≡ true)) ⊎ (s ≡ rejected)
    → IsSound r
    → IsSound (record r { status = s; reviewed_by_user_id = some reviewer; review_notes = notes })
review-IsSound s reviewer notes r h v = ground arith

Transition-IsSound :
    (env : Env) (bypass : Bool) (r s : RemediationRequest)
    → IsSound r
    → Transition env bypass r s
    → IsSound s
Transition-IsSound env bypass r s v (inl t) = ground arith
Transition-IsSound env bypass r s v (inr (inl t)) = subst IsSound (sym t.1) v
Transition-IsSound env bypass r s v (inr (inr t)) = ground arith

-- After every history of creations, approvals, rejections, executions and emergency
-- enforcements that starts with no requests: a request that is not pending has a
-- reviewer, and only a completed or a rejected one has a time of execution.
pub run-IsSound : (os : List Operation) → All IsSound (run os empty).requests
run-IsSound os =
    run-keeps IsSound new-IsSound
      (λ r reviewer notes v p. review-IsSound approved reviewer notes r (inl (refl, p)) v)
      (λ r reviewer notes v. review-IsSound rejected reviewer notes r (inr refl) v)
      Transition-IsSound os empty tt

-- The circuit breaker never opens: after every history from an empty store, the check of a
-- tenant's recent failures passes in every environment, since a failed request has no time of
-- execution and is not counted.
pub breaker_never_opens :
    (os : List Operation) (env : Env) (tenant : ℕ)
    → check_circuit_breaker env tenant (run os empty) ≡ (ok tt, run os empty)
unfolding check_circuit_breaker failure_count
breaker_never_opens os env tenant =
    let start = env.breaker_day * days 1 in
    let uncounted =
      All-map (λ r v. failed_uncounted tenant start r v) (run os empty).requests (run-IsSound os) in
    rw (ap length (keep-nil (failed_since tenant start) (run os empty).requests uncounted))

-- After every history from an empty store, an execution of a request calls nothing in the cloud
-- unless the request that it found had a reviewer, and was approved with the grace bypassed or
-- scheduled with its time come.
calls_are_reviewed :
    (os : List Operation) (env : Env) (id tenant : ℕ) (bypass : Bool)
    → let w = run os empty in
      (cloud_calls (execute env id tenant bypass w).1.log ≡ cloud_calls w.log)
      ⊎ ((r : RemediationRequest) × (find id tenant w.requests ≡ some r)
          × (r.reviewed_by_user_id ≢ none)
          × MayRun env bypass r)
calls_are_reviewed os env id tenant bypass =
    let w = run os empty in
    elim (execute-Authorised env id tenant bypass w) [
      | inl same ↦ inl same
      | inr (r, f, _, may) ↦
          let v = All-find IsSound id tenant w.requests (run-IsSound os) f in
          inr (r, f, v.reviewed (MayRun-past_review env bypass r may), may)
    ]

abbrev IsUnscored : RemediationRequest → Type 0
IsUnscored r = r.confidence_score ≡ none

new-IsUnscored :
    (id : ℕ) (now : Instant) (region : Text) (a : NewRequest)
    → IsUnscored (new_request id now region a)
unfolding new_request
new-IsUnscored id now region a = refl

Transition-IsUnscored :
    (env : Env) (bypass : Bool) (r s : RemediationRequest)
    → IsUnscored r
    → Transition env bypass r s
    → IsUnscored s
Transition-IsUnscored env bypass r s v (inl t) = ground arith
Transition-IsUnscored env bypass r s v (inr (inl t)) = subst IsUnscored (sym t.1) v
Transition-IsUnscored env bypass r s v (inr (inr t)) = ground arith

run-IsUnscored : (os : List Operation) → All IsUnscored (run os empty).requests
run-IsUnscored os =
    run-keeps IsUnscored new-IsUnscored (λ r reviewer notes v p. v) (λ r reviewer notes v. v)
      Transition-IsUnscored os empty tt

enforce_nothing :
    (checked : Llm.Result BudgetStatus) (env_of : ℕ → Env) (tenant : ℕ) (w : World)
    → candidates tenant w ≡ []
    → ((enforce_after checked env_of tenant w).1 ≡ w)
      × (((enforce_after checked env_of tenant w).0 ≡ ok [])
          ⊎ ((enforce_after checked env_of tenant w).0 ≡ err budget_exceeded))
unfolding enforce_after enforce_all
enforce_nothing (Llm.Result.raised e) env_of tenant w h = (refl, inr refl)
enforce_nothing (Llm.Result.done BudgetStatus.hard_limit) env_of tenant w h =
    rw (h, enforce_all) (refl, inl refl)
enforce_nothing (Llm.Result.done BudgetStatus.ok) env_of tenant w h = (refl, inl refl)
enforce_nothing (Llm.Result.done BudgetStatus.soft_limit) env_of tenant w h = (refl, inl refl)

-- The emergency enforcement never executes a request: after every history from an empty store it
-- changes nothing, and returns no identifier or raises, whatever the state of the LLM budget,
-- since no request that the service creates has a confidence score.
pub emergency_never_acts :
    (os : List Operation) (month_start : Instant → Instant) (now : Instant) (llm : Llm.Store)
    (env_of : ℕ → Env) (tenant : ℕ)
    → let x = (enforce_hard_limit month_start now llm env_of tenant (run os empty)).0 in
      (x.1 ≡ run os empty) × ((x.0 ≡ ok []) ⊎ (x.0 ≡ err budget_exceeded))
unfolding enforce_hard_limit
emergency_never_acts os month_start now llm env_of tenant =
    let w = run os empty in
    let unscored =
      All-map (λ r v. unscored_passed_over tenant r v) w.requests (run-IsUnscored os) in
    enforce_nothing _ env_of tenant w (
      unfold candidates order_by in
      ap (order_by saves_more) (keep-nil (emergency_candidate tenant) w.requests unscored))
