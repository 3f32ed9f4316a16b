-- ===== src/Remediation/Service/History.antt =====
-- Histories of calls of the remediation service, and what holds of every request after them.
use cloud_sentinel_ai.Base.{
  ℕ, Instant, Bool, true, Option, some, List, [], ◌∷◌, ◌≡◌, arith, All, All-keep, All-keep_test,
  All-map, All-both, if_both, if_each, keep, sym, subst,
}
use cloud_sentinel_ai.Base.Order.{All-order_by}
use cloud_sentinel_ai.Base.Text.{Text}
use cloud_sentinel_ai.LlmBudget as Llm
use cloud_sentinel_ai.LlmBudget.{BudgetStatus}
use cloud_sentinel_ai.Remediation.{
  approved, rejected, RemediationRequest, World, Env, Result, ok, err, Action, is_pending, continue,
}
use cloud_sentinel_ai.Remediation.Execute.{system_user_id, is_request, find, fetch, save, execute}
use cloud_sentinel_ai.Remediation.Execute.Cases.{fetch_rule}
use cloud_sentinel_ai.Remediation.Execute.Safety.{Executed, execute-Executed, Transition}
use cloud_sentinel_ai.Remediation.Service.{
  NewRequest, new_request, create_request, approve, approve_found, reject, review,
  enforce_hard_limit, enforce_after, enforce_all, enforce_one, candidates, emergency_candidate,
  saves_more, connection_allowed,
}

-- A call of the service, with what it finds outside of it.
pub data Operation : Type 0 where
  create : Env → ℕ → Instant → Text → NewRequest → Operation
  approves rejects : ℕ → ℕ → ℕ → Option Text → Operation
  executes : Env → ℕ → ℕ → Bool → Operation
  enforces : (Instant → Instant) → Instant → Llm.Store → (ℕ → Env) → ℕ → Operation

unfoldable pub step : Operation → World → World
step (create env id now region a) w = (create_request env id now region a w).1
step (approves id tenant reviewer notes) w = (approve id tenant reviewer notes w).1
step (rejects id tenant reviewer notes) w = (reject id tenant reviewer notes w).1
step (executes env id tenant bypass) w = (execute env id tenant bypass w).1
step (enforces month_start now llm env_of tenant) w =
    (enforce_hard_limit month_start now llm env_of tenant w).0.1

unfoldable pub run : List Operation → World → World
run [] w = w
run (o ∷ os) w = run os (step o w)

abbrev pub empty : World
empty = record { requests = []; log = [] }

-- A property of requests that every step of a request's life keeps.
module _ (P : RemediationRequest → Type 0) where
  All-save :
      (s : RemediationRequest) (rs : List RemediationRequest) → P s → All P rs → All P (save s rs)
  All-save s [] p h = tt
  All-save s (x ∷ rs) p h =
      if_both (All P) (is_request s.id s.tenant_id x) {x = s ∷ rs} {y = x ∷ save s rs} (p, h.1)
        (h.0, All-save s rs p h.1)

  pub All-find :
      (id tenant : ℕ) (rs : List RemediationRequest) {r : RemediationRequest}
      → All P rs
      → find id tenant rs ≡ some r
      → P r
  All-find id tenant [] h e = cc
  All-find id tenant (x ∷ rs) {r} h e =
      if_both (λ (o : Option RemediationRequest). o ≡ some r → P r) (is_request id tenant x)
        {x = some x} {y = find id tenant rs} (λ q. let same : x ≡ r = cc in subst P same h.0)
        (λ q. All-find id tenant rs h.1 q) e

  -- Both kinds of review keep the property if they do so on the request.
  module _ (id tenant : ℕ) (w : World) (h : All P w.requests) where
    fetched :
        (f : RemediationRequest → Action RemediationRequest)
        → ((r : RemediationRequest) → P r → All P (f r w).1.requests)
        → All P (continue f (fetch id tenant w)).1.requests
    unfolding fetch
    fetched f keeps =
        fetch_rule (λ (x : Result RemediationRequest × World). All P x.1.requests) f
          (find id tenant w.requests) w (λ _. h)
          (λ r e. keeps r (All-find id tenant w.requests h e))

    executed :
        (env : Env) (bypass : Bool)
        → ((r s : RemediationRequest) → P r → Transition env bypass r s → P s)
        → All P (execute env id tenant bypass w).1.requests
    executed env bypass keeps =
        of_outcome (execute env id tenant bypass w) (execute-Executed env id tenant bypass w)
      where
        of_outcome :
            (x : Result RemediationRequest × World)
            → Executed env id tenant bypass w x
            → All P x.1.requests
        of_outcome (err e, v) same = subst (All P) (sym same) h
        of_outcome (ok s, v) (r, f, _, _, saved, t) =
            subst (All P) (sym saved)
              (All-save s w.requests (keeps r s (All-find id tenant w.requests h f) t) h)

candidate_pending :
    (tenant : ℕ) (r : RemediationRequest)
    → emergency_candidate tenant r ≡ true
    → is_pending r.status ≡ true
candidate_pending tenant r e = ground arith

-- A property that holds of every new request and is kept by each review and each transition holds
-- of every request after any history.
module _ (P : RemediationRequest → Type 0)
    (new : (id : ℕ) (now : Instant) (region : Text) (a : NewRequest)
      → P (new_request id now region a))
    (approving : (r : RemediationRequest) (reviewer : ℕ) (notes : Option Text)
      → P r
      → is_pending r.status ≡ true
      → P (record r {
        status = approved;
        reviewed_by_user_id = some reviewer;
        review_notes = notes;
      }))
    (rejecting : (r : RemediationRequest) (reviewer : ℕ) (notes : Option Text)
      → P r
      → P (record r {
        status = rejected;
        reviewed_by_user_id = some reviewer;
        review_notes = notes;
      }))
    (executing : (env : Env) (bypass : Bool) (r s : RemediationRequest)
      → P r
      → Transition env bypass r s
      → P s) where
  enforce_one-keeps :
      (env : Env) (tenant : ℕ) (r : RemediationRequest) (w : World)
      → P r
      → is_pending r.status ≡ true
      → All P w.requests
      → All P (enforce_one env tenant r w).1.requests
  unfolding enforce_one
  enforce_one-keeps env tenant r w v p h =
      executed P r.id tenant _ (All-save P _ w.requests (approving r system_user_id _ v p) h) env
        true (λ q s. executing env true q s)

  abbrev IsCandidate : RemediationRequest → Type 0
  IsCandidate r = P r × (is_pending r.status ≡ true)

  enforce_all-keeps :
      (env_of : ℕ → Env) (tenant : ℕ) (rs : List RemediationRequest) (w : World)
      → All IsCandidate rs
      → All P w.requests
      → All P (enforce_all env_of tenant rs w).1.requests
  unfolding enforce_all
  enforce_all-keeps env_of tenant [] w c h = h
  enforce_all-keeps env_of tenant (r ∷ rs) w c h =
      enforce_all-keeps env_of tenant rs (enforce_one (env_of r.id) tenant r w).1 c.1
        (enforce_one-keeps (env_of r.id) tenant r w c.0.0 c.0.1 h)

  candidates-IsCandidate :
      (tenant : ℕ) (w : World) → All P w.requests → All IsCandidate (candidates tenant w)
  unfolding candidates
  candidates-IsCandidate tenant w h =
      let kept = keep (emergency_candidate tenant) w.requests in
      All-order_by saves_more IsCandidate kept (
        All-both P (λ r. is_pending r.status ≡ true) kept
          (All-keep P (emergency_candidate tenant) w.requests h)
          (All-map (λ r e. candidate_pending tenant r e) kept
            (All-keep_test (emergency_candidate tenant) w.requests)))

  enforce_after-keeps :
      (checked : Llm.Result BudgetStatus) (env_of : ℕ → Env) (tenant : ℕ) (w : World)
      → All P w.requests
      → All P (enforce_after checked env_of tenant w).1.requests
  unfolding enforce_after
  enforce_after-keeps (Llm.Result.raised e) env_of tenant w h = h
  enforce_after-keeps (Llm.Result.done BudgetStatus.hard_limit) env_of tenant w h =
      enforce_all-keeps env_of tenant _ w (candidates-IsCandidate tenant w h) h
  enforce_after-keeps (Llm.Result.done BudgetStatus.ok) env_of tenant w h = h
  enforce_after-keeps (Llm.Result.done BudgetStatus.soft_limit) env_of tenant w h = h

  step-keeps : (o : Operation) (w : World) → All P w.requests → All P (step o w).requests
  unfolding step create_request approve reject enforce_hard_limit
  step-keeps (create env id now region a) w h =
      if_both (λ (x : Result RemediationRequest × World). All P x.1.requests)
        (connection_allowed env a.tenant_id a.connection_id) (new id now region a, h) h
  step-keeps (approves id tenant reviewer notes) w h =
      fetched P id tenant w h (approve_found reviewer notes) (λ r v.
        if_each (λ (m : Action RemediationRequest). All P (m w).1.requests) (is_pending r.status)
          (λ e. All-save P _ w.requests (approving r reviewer notes v e) h) (λ e. h))
  step-keeps (rejects id tenant reviewer notes) w h =
      fetched P id tenant w h (review rejected reviewer notes)
        (λ r v. All-save P _ w.requests (rejecting r reviewer notes v) h)
  step-keeps (executes env id tenant bypass) w h =
      executed P id tenant w h env bypass (λ q s. executing env bypass q s)
  step-keeps (enforces month_start now llm env_of tenant) w h =
      enforce_after-keeps _ env_of tenant w h

  pub run-keeps : (os : List Operation) (w : World) → All P w.requests → All P (run os w).requests
  unfolding run
  run-keeps [] w h = h
  run-keeps (o ∷ os) w h = run-keeps os (step o w) (step-keeps o w h)
