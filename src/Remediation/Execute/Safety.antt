-- ===== src/Remediation/Execute/Safety.antt =====
-- When an execution may touch the cloud, and that it does so once.
use cloud_sentinel_ai.Base.{ℕ, ◌+◌, hours, Bool, false, some, ◌≡◌, ◌⊎◌, inl, inr, refl, ◌∙◌, ap}
use cloud_sentinel_ai.Remediation.{
  approved, scheduled, RemediationRequest, World, Env, Log, Result, ok, err, cloud_calls,
}
use cloud_sentinel_ai.Remediation.Guards.{check_all_guards}
use cloud_sentinel_ai.Remediation.Execute.{find, save, schedule, perform, execute}
use cloud_sentinel_ai.Remediation.Execute.Stages.{Ended, perform-Ended}
use cloud_sentinel_ai.Remediation.Execute.Cases.{
  check_all_guards-Looks, execute_rule, proceed_rule, MayRun, Same,
}
use cloud_sentinel_ai.Remediation.Execute.Store.{find_sound}

-- The call found its request, all guards let it pass, and it may run.
abbrev pub Authorised : Env → ℕ → ℕ → Bool → World → Type 0
Authorised env id tenant bypass w =
    (r : RemediationRequest) × (find id tenant w.requests ≡ some r)
    × ((check_all_guards env tenant r.estimated_monthly_savings w).0 ≡ ok tt)
    × MayRun env bypass r

schedule_calls :
    (env : Env) (r : RemediationRequest) (log : Log)
    → cloud_calls (schedule env r log).1 ≡ cloud_calls log
unfolding schedule
schedule_calls env r log = refl

module _ (env : Env) (id tenant : ℕ) (bypass : Bool) (w : World) where
  pub guarded :
      (r : RemediationRequest) {x : Result (Unit {0})} {v : World}
      → check_all_guards env tenant r.estimated_monthly_savings w ≡ (x, v)
      → Same w (x, v)
  guarded r p = rw p at (check_all_guards-Looks env tenant r.estimated_monthly_savings w)

  -- `execute` calls nothing in the cloud unless it found the request of that tenant, every safety
  -- guard passed, and the request was either approved, with the grace period bypassed, or
  -- scheduled with its time come.
  pub execute-Authorised :
      (cloud_calls (execute env id tenant bypass w).1.log ≡ cloud_calls w.log)
      ⊎ Authorised env id tenant bypass w
  execute-Authorised =
      execute_rule
        (λ x. (cloud_calls x.1.log ≡ cloud_calls w.log) ⊎ Authorised env id tenant bypass w) env id
        tenant bypass w (λ e. inl refl) (λ r e v f p. inl (guarded r p).1)
        (λ r v f p.
          proceed_rule
            (λ x. (cloud_calls x.1.log ≡ cloud_calls w.log) ⊎ Authorised env id tenant bypass w) env
            bypass r v (λ may. inr (r, f, ap (λ x. x.0) p, may))
            (λ a b. inl (schedule_calls env r v.log ∙ (guarded r p).1)) (λ s b. inl (guarded r p).1)
            (λ a s. inl (guarded r p).1))

-- The step of a request's life that an execution makes: from approved to scheduled for 24 hours
-- later, from scheduled to itself, or, where it may run, to an end.
abbrev pub Transition : Env → Bool → RemediationRequest → RemediationRequest → Type 0
Transition env bypass r s =
    ((r.status ≡ approved)
      × (bypass ≡ false)
      × (s.status ≡ scheduled)
      × (s.scheduled_execution_at ≡ some (env.scheduling_at + hours 24))
      × (s.executed_at ≡ r.executed_at)
      × (s.confidence_score ≡ r.confidence_score)
      × (s.reviewed_by_user_id ≡ r.reviewed_by_user_id))
    ⊎ ((r.status ≡ scheduled) × (s ≡ r))
    ⊎ (MayRun env bypass r × Ended env r s)

-- What is left after an execution from `w`.
abbrev pub Executed : Env → ℕ → ℕ → Bool → World → Result RemediationRequest × World → Type 0
Executed env id tenant bypass w (err e, v) = v.requests ≡ w.requests
Executed env id tenant bypass w (ok s, v) =
    (r : RemediationRequest) × (find id tenant w.requests ≡ some r)
    × (s.id ≡ id)
    × (s.tenant_id ≡ tenant)
    × (v.requests ≡ save s w.requests)
    × Transition env bypass r s

schedule_step :
    (env : Env) (r : RemediationRequest) (log : Log)
    → let s = (schedule env r log).0 in
      (s.id ≡ r.id)
      × (s.tenant_id ≡ r.tenant_id)
      × (s.status ≡ scheduled)
      × (s.executed_at ≡ r.executed_at)
      × (s.confidence_score ≡ r.confidence_score)
      × (s.scheduled_execution_at ≡ some (env.scheduling_at + hours 24))
      × (s.reviewed_by_user_id ≡ r.reviewed_by_user_id)
unfolding schedule
schedule_step env r log = (refl, refl, refl, refl, refl, refl, refl)

module _ (env : Env) (id tenant : ℕ) (bypass : Bool) (w : World) where
  -- An execution that raises leaves every request as it was. One that returns a request `s`
  -- found it, for that tenant, and the store differs only by `s` in its place; `s` went from
  -- approved to scheduled for 24 hours later, without the bypass; or was scheduled and is
  -- unchanged; or was allowed to run and went to completed, with its time of execution set, or to
  -- failed, with that time unchanged. It never stays executing.
  pub execute-Executed : Executed env id tenant bypass w (execute env id tenant bypass w)
  execute-Executed =
      execute_rule (Executed env id tenant bypass w) env id tenant bypass w (λ e. refl)
        (λ r e v f p. (guarded env id tenant bypass w r p).0)
        (λ r v f p.
          let same = (guarded env id tenant bypass w r p).0 in
          let (i, t) = find_sound id tenant w.requests f in
          proceed_rule (Executed env id tenant bypass w) env bypass r v
            (λ may.
              let s = (perform env r v.log).0 in
              let end = perform-Ended env r v.log in
              (r, f, end.0 ∙ i, end.1 ∙ t, ap (save s) same, inr (inr (may, end))))
            (λ a b.
              let s = schedule_step env r v.log in
              (
                r,
                f,
                s.0 ∙ i,
                s.1 ∙ t,
                ap (save (schedule env r v.log).0) same,
                inl (a, b, s.2, s.5, s.3, s.4, s.6),
              ))
            (λ a b. (r, f, i, t, ap (save r) same, inr (inl (a, refl)))) (λ a b. same))
