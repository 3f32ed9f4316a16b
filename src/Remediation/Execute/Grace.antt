-- ===== src/Remediation/Execute/Grace.antt =====
-- The grace period, and that an execution that has ended is not repeated.
use cloud_sentinel_ai.Base.{
  ℕ, ◌+◌, ◌<◌, hours, Bool, false, some, ◌≡◌, ◌⊎◌, inl, inr, arith, refl, ◌∙◌, sym,
}
use cloud_sentinel_ai.Remediation.{
  approved, scheduled, completed, failed, RemediationRequest, World, Env, Error, wrong_status, ok,
  err, cloud_calls,
}
use cloud_sentinel_ai.Remediation.Execute.{find, execute}
use cloud_sentinel_ai.Remediation.Execute.Cases.{MayRun, execute_rule, proceed_rule}
use cloud_sentinel_ai.Remediation.Execute.Store.{find-save_self}
use cloud_sentinel_ai.Remediation.Execute.Safety.{
  Transition, Executed, guarded, execute-Authorised, execute-Executed,
}

-- The request that an execution returned is the one that the next call finds.
found_after :
    (env : Env) (id tenant : ℕ) (bypass : Bool) (w : World) {s : RemediationRequest} {v : World}
    → execute env id tenant bypass w ≡ (ok s, v)
    → (find id tenant v.requests ≡ some s)
      × ((r : RemediationRequest) × (find id tenant w.requests ≡ some r)
          × Transition env bypass r s)
found_after env id tenant bypass w {s} {v} e =
    let h : Executed env id tenant bypass w (ok s, v) =
      rw e at (execute-Executed env id tenant bypass w) in
    let (r, f, i, t, saved, step) = h in
    (rw saved (find-save_self id tenant s w.requests i t f), (r, f, step))

-- Nothing is called if the request that is found may not run.
no_calls :
    (env : Env) (id tenant : ℕ) (bypass : Bool) (w : World)
    → ((r : RemediationRequest) → find id tenant w.requests ≡ some r → MayRun env bypass r → ⊥)
    → cloud_calls (execute env id tenant bypass w).1.log ≡ cloud_calls w.log
no_calls env id tenant bypass w never = elim (execute-Authorised env id tenant bypass w) [
  | inl same ↦ same
  | inr (r, f, _, may) ↦ absurd (never r f may)
]

-- Once an execution has ended completed or failed, every further execution of that request, in
-- whatever environment and with or without the bypass, raises, changes no request and
-- calls nothing in the cloud.
pub executed_once :
    (env : Env) (id tenant : ℕ) (bypass : Bool) (w : World) {s : RemediationRequest} {v : World}
    → execute env id tenant bypass w ≡ (ok s, v)
    → (s.status ≡ completed) ⊎ (s.status ≡ failed)
    → (env' : Env) (bypass' : Bool)
    → let (x, u) = execute env' id tenant bypass' v in
      ((e : Error) × (x ≡ err e))
      × (u.requests ≡ v.requests)
      × (cloud_calls u.log ≡ cloud_calls v.log)
executed_once env id tenant bypass w {s} {v} e ended env' bypass' =
    let found = (found_after env id tenant bypass w e).0 in
    execute_rule
      (λ x.
        ((e : Error) × (x.0 ≡ err e))
        × (x.1.requests ≡ v.requests)
        × (cloud_calls x.1.log ≡ cloud_calls v.log))
      env' id tenant bypass' v (λ missing. cc)
      (λ r x u f p. let same = guarded env' id tenant bypass' v r p in ((x, refl), same.0, same.1))
      (λ r u f p.
        let same = guarded env' id tenant bypass' v r p in
        let r-eq : some r ≡ some s = sym f ∙ found in
        proceed_rule
          (λ x.
            ((e : Error) × (x.0 ≡ err e))
            × (x.1.requests ≡ v.requests)
            × (cloud_calls x.1.log ≡ cloud_calls v.log))
          env' bypass' r u (λ may. ground arith) (λ a b. ground arith) (λ a b. ground arith)
          (λ a b. ((wrong_status r.status, refl), same.0, same.1)))

-- The first execution of an approved request without the bypass, if it returns, calls nothing in
-- the cloud and sets the request's time 24 hours after its reading of the clock; and until
-- that time no further execution calls anything, with the bypass either.
pub grace_period :
    (env : Env) (id tenant : ℕ) (w : World) {r s : RemediationRequest} {v : World}
    → find id tenant w.requests ≡ some r
    → r.status ≡ approved
    → execute env id tenant false w ≡ (ok s, v)
    → (cloud_calls v.log ≡ cloud_calls w.log)
      × (s.scheduled_execution_at ≡ some (env.scheduling_at + hours 24))
      × ((env' : Env) (bypass' : Bool)
          → env'.checked_at < env.scheduling_at + hours 24
          → cloud_calls (execute env' id tenant bypass' v).1.log ≡ cloud_calls v.log)
grace_period env id tenant w {r} {s} {v} f a e =
    let (found, (r', f', step)) = found_after env id tenant false w e in
    let r-eq : some r' ≡ some r = sym f' ∙ f in
    let at : (s.status ≡ scheduled)
        × (s.scheduled_execution_at ≡ some (env.scheduling_at + hours 24)) =
      ground arith in
    (
      rw e at (
          no_calls env id tenant false w
            λ q g may. let q-eq : some q ≡ some r = sym g ∙ f in ground arith),
      at.1,
      λ env' bypass' early.
          no_calls env' id tenant bypass' v
            (λ q g may. let q-eq : some q ≡ some s = sym g ∙ found in ground arith),
    )
