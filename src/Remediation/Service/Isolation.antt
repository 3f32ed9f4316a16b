-- ===== src/Remediation/Service/Isolation.antt =====
-- The calls of one tenant never touch the requests of another.
use cloud_sentinel_ai.Base.{
  ℕ, Bool, true, Option, List, [], ◌∷◌, ◌≡◌, ◌≢◌, refl, sym, ap, ◌∙◌, inr, arith, All,
  All-keep_test, All-map, if_both, keep,
}
use cloud_sentinel_ai.Base.Order.{All-order_by}
use cloud_sentinel_ai.Base.Text.{Text}
use cloud_sentinel_ai.LlmBudget as Llm
use cloud_sentinel_ai.LlmBudget.{BudgetStatus}
use cloud_sentinel_ai.Remediation.{
  RemediationStatus, approved, rejected, RemediationRequest, World, Env, Result, ok, err, Action,
  is_pending, continue,
}
use cloud_sentinel_ai.Remediation.Execute.{find, fetch, save, execute}
use cloud_sentinel_ai.Remediation.Execute.Cases.{fetch_rule}
use cloud_sentinel_ai.Remediation.Execute.Store.{find_sound, find-save_other}
use cloud_sentinel_ai.Remediation.Execute.Safety.{Executed, execute-Executed}
use cloud_sentinel_ai.Remediation.Service.{
  create_request, new_request, approve, approve_found, reject, review, enforce_hard_limit,
  enforce_after, enforce_all, enforce_one, candidates, emergency_candidate, saves_more,
  connection_allowed,
}
use cloud_sentinel_ai.Remediation.Service.History.{
  Operation, create, approves, rejects, executes, enforces, step, run,
}

-- The tenant for which an operation is called.
abbrev pub caller : Operation → ℕ
caller (create env id now region a) = a.tenant_id
caller (approves id tenant reviewer notes) = tenant
caller (rejects id tenant reviewer notes) = tenant
caller (executes env id tenant bypass) = tenant
caller (enforces month_start now llm env_of tenant) = tenant

candidate_owned :
    (tenant : ℕ) (r : RemediationRequest)
    → emergency_candidate tenant r ≡ true
    → r.tenant_id ≡ tenant
candidate_owned tenant r e = ground arith

candidates_owned : (tenant : ℕ) (w : World) → All (λ r. r.tenant_id ≡ tenant) (candidates tenant w)
unfolding candidates
candidates_owned tenant w =
    All-order_by saves_more (λ r. r.tenant_id ≡ tenant)
      (keep (emergency_candidate tenant) w.requests)
      (All-map (λ r. λ e. candidate_owned tenant r e) _
        (All-keep_test (emergency_candidate tenant) w.requests))

-- What the other tenant finds under an identifier.
module _ (id' other : ℕ) where
  abbrev view : List RemediationRequest → Option RemediationRequest
  view rs = find id' other rs

  view-save :
      (s : RemediationRequest) (rs : List RemediationRequest)
      → s.tenant_id ≢ other
      → view (save s rs) ≡ view rs
  view-save s rs h = find-save_other s rs id' other (inr h)

  view_new :
      (r : RemediationRequest) (rs : List RemediationRequest)
      → r.tenant_id ≢ other
      → view (r ∷ rs) ≡ view rs
  view_new r rs h = ground arith

  view-Executed :
      (env : Env) (id tenant : ℕ) (bypass : Bool) (w : World)
      (x : Result RemediationRequest × World)
      → tenant ≢ other
      → Executed env id tenant bypass w x
      → view x.1.requests ≡ view w.requests
  view-Executed env id tenant bypass w (err e, v) h same = ap view same
  view-Executed env id tenant bypass w (ok s, v) h (r, f, _, t, saved, _) =
      ap view saved ∙ view-save s w.requests (λ e. h (sym t ∙ e))

  view-execute :
      (env : Env) (id tenant : ℕ) (bypass : Bool) (w : World)
      → tenant ≢ other
      → view (execute env id tenant bypass w).1.requests ≡ view w.requests
  view-execute env id tenant bypass w h =
      view-Executed env id tenant bypass w (execute env id tenant bypass w) h
        (execute-Executed env id tenant bypass w)

  view-enforce_all :
      (env_of : ℕ → Env) (tenant : ℕ) (rs : List RemediationRequest) (w : World)
      → tenant ≢ other
      → All (λ r. r.tenant_id ≡ tenant) rs
      → view (enforce_all env_of tenant rs w).1.requests ≡ view w.requests
  unfolding enforce_all enforce_one
  view-enforce_all env_of tenant [] w h c = refl
  view-enforce_all env_of tenant (r ∷ rs) w h c =
      view-enforce_all env_of tenant rs (enforce_one (env_of r.id) tenant r w).1 h c.1
      ∙ view-execute (env_of r.id) r.id tenant true _ h
      ∙ view-save _ w.requests (λ e. h (sym c.0 ∙ e))

  view-enforce_after :
      (checked : Llm.Result BudgetStatus) (env_of : ℕ → Env) (tenant : ℕ) (w : World)
      → tenant ≢ other
      → view (enforce_after checked env_of tenant w).1.requests ≡ view w.requests
  unfolding enforce_after
  view-enforce_after (Llm.Result.raised e) env_of tenant w h = refl
  view-enforce_after (Llm.Result.done BudgetStatus.hard_limit) env_of tenant w h =
      view-enforce_all env_of tenant (candidates tenant w) w h (candidates_owned tenant w)
  view-enforce_after (Llm.Result.done BudgetStatus.ok) env_of tenant w h = refl
  view-enforce_after (Llm.Result.done BudgetStatus.soft_limit) env_of tenant w h = refl

  view-fetch :
      (f : RemediationRequest → Action RemediationRequest) (id tenant : ℕ) (w : World)
      → ((r : RemediationRequest)
          → r.tenant_id ≡ tenant
          → view (f r w).1.requests ≡ view w.requests)
      → view (continue f (fetch id tenant w)).1.requests ≡ view w.requests
  unfolding fetch
  view-fetch f id tenant w keeps =
      fetch_rule (λ (x : Result RemediationRequest × World). view x.1.requests ≡ view w.requests) f
        (find id tenant w.requests) w (λ _. refl)
        (λ r e. keeps r (find_sound id tenant w.requests e).1)

  view-review :
      (status : RemediationStatus) (reviewer : ℕ) (notes : Option Text) (tenant : ℕ) (w : World)
      (r : RemediationRequest)
      → tenant ≢ other
      → r.tenant_id ≡ tenant
      → view (review status reviewer notes r w).1.requests ≡ view w.requests
  view-review status reviewer notes tenant w r h t = view-save _ w.requests (λ e. h (sym t ∙ e))

  view-step :
      (o : Operation) (w : World) → caller o ≢ other → view (step o w).requests ≡ view w.requests
  unfolding step create_request approve reject enforce_hard_limit new_request
  view-step (create env id now region a) w h =
      if_both (λ (x : Result RemediationRequest × World). view x.1.requests ≡ view w.requests)
        (connection_allowed env a.tenant_id a.connection_id)
        (view_new (new_request id now region a) w.requests h) refl
  view-step (approves id tenant reviewer notes) w h =
      view-fetch (approve_found reviewer notes) id tenant w (λ r t.
        if_both (λ (m : Action RemediationRequest). view (m w).1.requests ≡ view w.requests)
          (is_pending r.status) (view-review approved reviewer notes tenant w r h t) refl)
  view-step (rejects id tenant reviewer notes) w h =
      view-fetch (review rejected reviewer notes) id tenant w
        (λ r t. view-review rejected reviewer notes tenant w r h t)
  view-step (executes env id tenant bypass) w h = view-execute env id tenant bypass w h
  view-step (enforces month_start now llm env_of tenant) w h =
      view-enforce_after _ env_of tenant w h

-- Whatever a tenant finds under an identifier, it finds after every history of creations, approvals,
-- rejections, executions and emergency enforcements that are called for other tenants.
pub tenants_isolated :
    (os : List Operation) (w : World) (id tenant : ℕ)
    → All (λ o. caller o ≢ tenant) os
    → find id tenant (run os w).requests ≡ find id tenant w.requests
unfolding run
tenants_isolated [] w id tenant h = refl
tenants_isolated (o ∷ os) w id tenant h =
    tenants_isolated os (step o w) id tenant h.1 ∙ view-step id tenant o w h.0
