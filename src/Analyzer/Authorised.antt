-- ===== src/Analyzer/Authorised.antt =====
-- When an analysis may call a language model.
use Prim.Native.String.{String}
use cloud_sentinel_ai.Base.{
  ℕ, ◌≤◌, ◌≡◌, ◌≢◌, refl, Option, none, some, List, [], ◌++◌, length, ◌⊎◌, inl, inr, arith, if_both,
}
use cloud_sentinel_ai.LlmBudget.{
  BudgetStatus, hard_limit, soft_limit, Store, Result, done, raised, budget_not_found,
  budget_exceeded, check_budget,
}
use cloud_sentinel_ai.Analyzer.{choose}
use cloud_sentinel_ai.Analyzer.Invoke.{Client, Called, invoke_llm}
use cloud_sentinel_ai.Analyzer.Calls.{length-invoke_llm}
use cloud_sentinel_ai.Analyzer.Run.{
  Request, Environment, State, Outcome, check_cache, reserve, reserved_model, finish_analysis,
  call_llm, within_budget, after_reserve, unless_cached, analyze,
}

module _ {A C : Type 0} (env : Environment A C) (r : Request) where
  -- The check of the budget answered without an exception, and not with the hard limit.
  abbrev pub Allowed : Result BudgetStatus → Type 0
  Allowed answer = (status : BudgetStatus) × (answer ≡ done status) × (status ≢ hard_limit)

  -- No cached analysis serves the request, its estimate fits the budget, and the budget is not at a
  -- hard limit.
  abbrev pub IsAuthorised : State A → Type 0
  IsAuthorised s =
      (check_cache env r s ≡ none)
      × ((cost : ℕ) × (reserve env r s.store ≡ done cost))
      × Allowed (check_budget env.month_start env.now r.tenant_id s.store).0

  -- The calls that stand before those of a state are at most six, and are none or authorised.
  abbrev pub Calls : Type 0 → State A → Outcome A × State A → Type 0
  Calls Authorised s o =
      (calls : List Client) × (o.1.llm_calls ≡ calls ++ s.llm_calls)
      × (length calls ≤ 6)
      × ((calls ≡ []) ⊎ Authorised)

  finish_analysis-Calls :
      (reserved : ℕ) (model : String) (called : Called C) (s : State A) {P : Type 0}
      → length called.1 ≤ 6
      → P
      → Calls P s (finish_analysis env r reserved model called s)
  finish_analysis-Calls reserved model (none, calls) s few p = (calls, refl, few, inr p)
  finish_analysis-Calls reserved model (some answer, calls) s few p = (calls, refl, few, inr p)

  -- Nothing is called.
  none_called : (s : State A) (o : Outcome A) {P : Type 0} → Calls P s (o, s)
  none_called s o = ([], refl, omega arith, inl refl)

  call_llm-Calls :
      (reserved : ℕ) (status : BudgetStatus) (s : State A) {P : Type 0}
      → P
      → Calls P s (call_llm env r reserved status s)
  unfolding call_llm
  call_llm-Calls reserved status s p =
      let c = choose env.settings env.preferences status r.provider (some (reserved_model env r)) in
      finish_analysis-Calls reserved c.model (invoke_llm env.providers env.settings c) s
        (length-invoke_llm env.providers env.settings c) p

  within_budget-Calls :
      (reserved : ℕ) (answer : Result BudgetStatus) (store : Store) (s : State A)
      → Calls (Allowed answer) s (within_budget env r reserved (answer, store) s)
  within_budget-Calls reserved (raised e) store s = ([], refl, omega arith, inl refl)
  within_budget-Calls reserved (done hard_limit) store s = ([], refl, omega arith, inl refl)
  within_budget-Calls reserved (done soft_limit) store s =
      call_llm-Calls reserved soft_limit (record s { store = store }) (soft_limit, refl, λ e. cc)
  within_budget-Calls reserved (done BudgetStatus.ok) store s =
      call_llm-Calls reserved BudgetStatus.ok (record s { store = store })
        (BudgetStatus.ok, refl, λ e. cc)

  weaken :
      {P Q : Type 0} (s : State A) (o : Outcome A × State A) → (P → Q) → Calls P s o → Calls Q s o
  weaken s o f (calls, e, few, inl nil) = (calls, e, few, inl nil)
  weaken s o f (calls, e, few, inr p) = (calls, e, few, inr (f p))

  after_reserve-Calls :
      (answer : Result ℕ) (s : State A)
      → Calls
          (((cost : ℕ) × (answer ≡ done cost))
            × Allowed (check_budget env.month_start env.now r.tenant_id s.store).0)
          s
          (after_reserve env r answer s)
  after_reserve-Calls (raised budget_exceeded) s = ([], refl, omega arith, inl refl)
  after_reserve-Calls (raised budget_not_found) s = ([], refl, omega arith, inl refl)
  after_reserve-Calls (done cost) s =
      let checked = check_budget env.month_start env.now r.tenant_id s.store in
      if_both {A = Outcome A × State A}
        (Calls (((n : ℕ) × (done cost ≡ done n)) × Allowed checked.0) s) env.can_prepare
        (weaken s (within_budget env r cost checked s) (λ p. ((cost, refl), p))
          (within_budget-Calls cost checked.0 checked.1 s))
        ([], refl, omega arith, inl refl)

  unless_cached-Calls :
      (found : Option A) (s : State A)
      → Calls
          ((found ≡ none)
            × ((cost : ℕ) × (reserve env r s.store ≡ done cost))
            × Allowed (check_budget env.month_start env.now r.tenant_id s.store).0)
          s
          (unless_cached env r found s)
  unless_cached-Calls (some a) s = ([], refl, omega arith, inl refl)
  unless_cached-Calls none s =
      weaken s (after_reserve env r (reserve env r s.store) s) (λ p. (refl, p.0, p.1))
        (after_reserve-Calls (reserve env r s.store) s)

  -- An analysis calls a language model at most six times, and only if no cached analysis serves the
  -- request, the estimate of its cost fits the monthly budget of the tenant, and the check of that
  -- budget then answers without an exception, and not with the hard limit.
  pub analyze-Calls : (s : State A) → Calls (IsAuthorised s) s (analyze env r s)
  unfolding analyze
  analyze-Calls s = unless_cached-Calls (check_cache env r s) s
