-- ===== src/Analyzer/Run.antt =====
-- `analyze` as a whole: the cache, the budget, the calls, the record of the usage.
use Prim.Native.String.{String}
use cloud_sentinel_ai.Base.{
  ℕ, ◌*◌, Instant, Bool, ◌&&◌, Option, none, some, List, ◌++◌, ltb, ◌==◌, if◌then◌else◌,
}
use cloud_sentinel_ai.LlmBudget.{
  BudgetStatus, hard_limit, Store, Result, done, raised, budget_not_found, budget_exceeded,
  check_and_reserve, check_budget, record_usage,
}
use cloud_sentinel_ai.LlmBudget.Pricing.{estimate_cost}
use cloud_sentinel_ai.Analyzer.{Settings, Preferences, choose, or_text}
use cloud_sentinel_ai.Analyzer.Invoke.{Answer, Client, Called, Providers, invoke_llm}

pub record Request : Type 0 where
  pub tenant_id : ℕ
  pub force_refresh : Bool
  pub provider : Option String
  pub model : Option String
  pub records : ℕ

-- What the analysis meets. `llm_model` is the model of the client that the analyzer was made with, and
-- `has_recent` says that a cached analysis has records of the last days.
pub record Environment (A C : Type 0) : Type 0 where
  pub settings : Settings
  pub llm_model : String
  pub preferences : Option Preferences
  pub providers : Providers C
  pub can_prepare : Bool
  pub has_recent : A → Bool
  pub result_of : C → A
  pub month_start : Instant → Instant
  pub now : Instant
  pub slack : Bool

-- The budgets, the cached analysis of the tenant, and the clients called so far, the last one first.
pub record State (A : Type 0) : Type 0 where
  pub store : Store
  pub cached : Option A
  pub llm_calls : List Client

pub data Outcome (A : Type 0) : Type 0 where
  analysis : A → Outcome A
  over_budget analysis_error provider_error : Outcome A

abbrev pub max_500 : ℕ → ℕ
max_500 n = if ltb 500 n then n else 500

abbrev pub tokens_or_500 : Option ℕ → ℕ
tokens_or_500 none = 500
tokens_or_500 (some n) = n

module _ {A C : Type 0} (env : Environment A C) where
  -- The cached analysis, unless it is refreshed or to be renewed from recent records.
  abbrev pub usable : Option A → Option A
  usable none = none
  usable (some a) = if env.settings.enable_delta_analysis && env.has_recent a then none else some a

  unfoldable pub check_cache : Request → State A → Option A
  check_cache r s = if r.force_refresh then none else usable s.cached

  -- The model whose price is reserved; the provider is left at its default.
  abbrev pub reserved_model : Request → String
  reserved_model r = or_text r.model env.llm_model

  unfoldable pub reserve : Request → Store → Result ℕ
  reserve r =
      check_and_reserve env.month_start env.now r.tenant_id
        (estimate_cost (max_500 (r.records * 20)) 500 (reserved_model r) "openai")

  -- The usage is recorded at the chosen model, and the provider is left at its default here too.
  unfoldable pub recorded : Request → ℕ → String → Answer C → Store → Store
  recorded r reserved model answer store =
      if reserved == 0
      then store
      else record_usage env.month_start env.slack env.now r.tenant_id
          (estimate_cost (tokens_or_500 answer.prompt_tokens)
            (tokens_or_500 answer.completion_tokens) model "openai")
          store

  abbrev pub finish_analysis : Request → ℕ → String → Called C → State A → Outcome A × State A
  finish_analysis r reserved model (none, calls) s =
      (provider_error, record s { llm_calls = calls ++ s.llm_calls })
  finish_analysis r reserved model (some answer, calls) s = (
    analysis (env.result_of answer.content),
    record s {
      store = recorded r reserved model answer s.store;
      cached = some (env.result_of answer.content);
      llm_calls = calls ++ s.llm_calls;
    },
  )

  unfoldable pub call_llm : Request → ℕ → BudgetStatus → State A → Outcome A × State A
  call_llm r reserved status s =
      let c = choose env.settings env.preferences status r.provider (some (reserved_model r)) in
      finish_analysis r reserved c.model (invoke_llm env.providers env.settings c) s

  abbrev pub within_budget :
      Request → ℕ → Result BudgetStatus × Store → State A → Outcome A × State A
  within_budget r reserved (raised e, store) s = (over_budget, record s { store = store })
  within_budget r reserved (done hard_limit, store) s = (over_budget, record s { store = store })
  within_budget r reserved (done status, store) s =
      call_llm r reserved status (record s { store = store })

  abbrev pub after_reserve : Request → Result ℕ → State A → Outcome A × State A
  after_reserve r (raised budget_exceeded) s = (over_budget, s)
  after_reserve r (raised budget_not_found) s = (analysis_error, s)
  after_reserve r (done reserved) s =
      if env.can_prepare
      then within_budget r reserved (check_budget env.month_start env.now r.tenant_id s.store) s
      else (analysis_error, s)

  abbrev pub unless_cached : Request → Option A → State A → Outcome A × State A
  unless_cached r (some a) s = (analysis a, s)
  unless_cached r none s = after_reserve r (reserve r s.store) s

  unfoldable pub analyze : Request → State A → Outcome A × State A
  analyze r s = unless_cached r (check_cache r s) s
