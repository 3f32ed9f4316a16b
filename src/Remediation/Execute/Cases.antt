-- ===== src/Remediation/Execute/Cases.antt =====
-- How a call of `execute` ends, by its guards; and that the guards only look.
use cloud_sentinel_ai.Base.{
  ℕ, Bool, true, false, Option, none, some, ◌≡◌, ◌⊎◌, inl, inr, arith, refl, if_both, if_each, ◌≢◌,
  ◌∙◌,
}
use cloud_sentinel_ai.Base.Int.{ℤ, ltb_ℤ}
use cloud_sentinel_ai.Costs.{total_cost}
use cloud_sentinel_ai.Remediation.{
  RemediationStatus, approved, scheduled, wrong_status, Log, RemediationSettings, Error, not_found,
  Action, Result, ok, err, ◌>>◌, bind_rule, continue, RemediationRequest, World, Env, cloud_calls,
}
use cloud_sentinel_ai.Remediation.Guards.{
  check_all_guards, check_global_kill_switch, check_monthly_hard_cap, check_circuit_breaker,
  check_cap, capped,
}
use cloud_sentinel_ai.Remediation.Execute.{
  before, save, perform, schedule, dispatch, settle, find, or_missing, fetch, proceed, execute,
}

-- The requests and the calls of the cloud are those of `w`.
abbrev pub Same : {A : Type 0} → World → Result A × World → Type 0
Same w x = (x.1.requests ≡ w.requests) × (cloud_calls x.1.log ≡ cloud_calls w.log)

abbrev Looks : Action (Unit {0}) → Type 0
Looks m = (w : World) → Same w (m w)

>>-Looks : (m k : Action (Unit {0})) → Looks m → Looks k → Looks (m >> k)
>>-Looks m k hm hk w =
    bind_rule (Same w) (λ _. k) (m w) (λ e v p. rw p at (hm w))
      (λ a v p.
        let (q, c) = hk v in let h : Same w (ok a, v) = rw p at (hm w) in (q ∙ h.0, c ∙ h.1))

check_cap-Looks : (spend cap : ℤ) (tenant : ℕ) → Looks (check_cap spend cap tenant)
unfolding check_cap
check_cap-Looks spend cap tenant w = if_both (Same w) (ltb_ℤ cap spend) (refl, refl) (refl, refl)

capped-Looks :
    (env : Env) (tenant : ℕ) (s : Option RemediationSettings) → Looks (capped env tenant s)
unfolding capped
capped-Looks env tenant none w = (refl, refl)
capped-Looks env tenant (some s) w =
    if_both (λ (m : Action (Unit {0})). Same w (m w)) s.hard_cap_enabled
      (check_cap-Looks (total_cost env.cost_records tenant env.month_start env.today)
        s.monthly_hard_cap_usd tenant w)
      (refl, refl)

kill_switch-Looks : (env : Env) (impact : ℤ) → Looks (check_global_kill_switch env impact)
unfolding check_global_kill_switch
kill_switch-Looks env impact w = ground arith

monthly_hard_cap-Looks : (env : Env) (tenant : ℕ) → Looks (check_monthly_hard_cap env tenant)
unfolding check_monthly_hard_cap
monthly_hard_cap-Looks env tenant = capped-Looks env tenant (env.settings tenant)

circuit_breaker-Looks : (env : Env) (tenant : ℕ) → Looks (check_circuit_breaker env tenant)
unfolding check_circuit_breaker
circuit_breaker-Looks env tenant w = ground arith

-- The guards change no request and call nothing in the cloud.
pub check_all_guards-Looks :
    (env : Env) (tenant : ℕ) (impact : ℤ) (w : World)
    → Same w (check_all_guards env tenant impact w)
unfolding check_all_guards
check_all_guards-Looks env tenant impact =
    let kill_switch = check_global_kill_switch env impact in
    let cap = check_monthly_hard_cap env tenant in
    let breaker = check_circuit_breaker env tenant in
    >>-Looks kill_switch (cap >> breaker) (kill_switch-Looks env impact)
      (>>-Looks cap breaker (monthly_hard_cap-Looks env tenant) (circuit_breaker-Looks env tenant))

-- After a request was fetched: it is missing, or it was found and the rest goes on from there.
pub fetch_rule {ℓ} :
    {B : Type 0} (P : Result B × World → Type ℓ) (f : RemediationRequest → Action B)
    (o : Option RemediationRequest) (w : World)
    → (o ≡ none → P (err not_found, w))
    → ((r : RemediationRequest) → o ≡ some r → P (f r w))
    → P (continue f (or_missing o w))
fetch_rule P f none w missing going = missing refl
fetch_rule P f (some r) w missing going = going r refl

-- How an execution goes: the request is not found, or a guard stops it, or it proceeds; what the
-- guards leave has the requests and the calls of the start.
pub execute_rule {ℓ} :
    (P : Result RemediationRequest × World → Type ℓ) (env : Env) (id tenant : ℕ) (bypass : Bool)
    (w : World)
    → (find id tenant w.requests ≡ none → P (err not_found, w))
    → ((r : RemediationRequest) (e : Error) (v : World)
        → find id tenant w.requests ≡ some r
        → check_all_guards env tenant r.estimated_monthly_savings w ≡ (err e, v)
        → P (err e, v))
    → ((r : RemediationRequest) (v : World)
        → find id tenant w.requests ≡ some r
        → check_all_guards env tenant r.estimated_monthly_savings w ≡ (ok tt, v)
        → P (proceed env bypass r v))
    → P (execute env id tenant bypass w)
unfolding execute fetch
execute_rule P env id tenant bypass w missing stopped going =
    fetch_rule P
      (λ r. check_all_guards env tenant r.estimated_monthly_savings >> proceed env bypass r)
      (find id tenant w.requests) w missing
      (λ r e.
        bind_rule P (λ _. proceed env bypass r)
          (check_all_guards env tenant r.estimated_monthly_savings w) (λ x v p. stopped r x v e p)
          (λ u v p. going r v e p))

-- A request may run: it was approved and its grace is bypassed, or it was scheduled and the time
-- it was scheduled for, if it has one, has come.
abbrev pub MayRun : Env → Bool → RemediationRequest → Type 0
MayRun env bypass r =
    ((r.status ≡ approved) × (bypass ≡ true))
    ⊎ ((r.status ≡ scheduled) × (before env.checked_at r.scheduled_execution_at ≡ false))

abbrev pub finished : RemediationRequest × Log → World → Result RemediationRequest × World
finished (r, log) w = (ok r, record w { requests = save r w.requests; log = log })

-- What becomes of a request that passed the guards.
module _ {ℓ} (P : Result RemediationRequest × World → Type ℓ) (env : Env) (bypass : Bool)
    (r : RemediationRequest) (v : World)
    (performing : MayRun env bypass r → P (finished (perform env r v.log) v))
    (scheduling : r.status ≡ approved → bypass ≡ false → P (finished (schedule env r v.log) v))
    (deferring : r.status ≡ scheduled
      → before env.checked_at r.scheduled_execution_at ≡ true
      → P (finished (r, v.log) v))
    (refusing : r.status ≢ approved
      → r.status ≢ scheduled
      → P (err (wrong_status r.status), v)) where
  dispatch_rule :
      (s : RemediationStatus) → r.status ≡ s → P (settle (dispatch s env bypass r v.log) v)
  unfolding dispatch settle
  dispatch_rule approved e =
      if_each (λ (x : RemediationRequest × Log). P (finished x v)) bypass
        (λ b. performing (inl (e, b))) (λ b. scheduling e b)
  dispatch_rule scheduled e =
      if_each (λ (x : RemediationRequest × Log). P (finished x v))
        (before env.checked_at r.scheduled_execution_at) (λ b. deferring e b)
        (λ b. performing (inr (e, b)))
  dispatch_rule s e = rw (← e) (refusing (λ a. cc) (λ a. cc))

  pub proceed_rule : P (proceed env bypass r v)
  unfolding proceed
  proceed_rule = dispatch_rule r.status refl
