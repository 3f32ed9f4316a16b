-- ===== src/Analyzer/Samples.antt =====
-- Analyses for concrete tenants.
use text.Mathlib.Text.{◌==◌ as str_eq}
use Prim.Native.String.{String}
use cloud_sentinel_ai.Base.{
  ℕ, ◌+◌, ◌*◌, ◌≤◌, ◌≡◌, refl, Instant, true, false, none, some, [], ◌∷◌, ◌==◌, if◌then◌else◌,
}
use cloud_sentinel_ai.LlmBudget.{
  BudgetStatus, LlmBudget, Store, soft_limit, check_and_reserve, check_budget, usage_since,
}
use cloud_sentinel_ai.LlmBudget.Pricing.{estimate_cost}
use cloud_sentinel_ai.Analyzer.{
  Settings, Preferences, Choice, choose, known_provider, validated, degraded, valid_models,
  is_safe_name, is_safe_tail,
}
use cloud_sentinel_ai.Analyzer.Invoke.{Answer, made, Providers, is_created, client_of, invoke_llm}
use cloud_sentinel_ai.Analyzer.Calls.{try_each, plan, invoke_llm-try_each}
use cloud_sentinel_ai.Analyzer.Models.{IsAllowed, choose-IsAllowed, degradation_calls_the_same}
use cloud_sentinel_ai.Analyzer.Run.{
  Request, Environment, State, recorded, check_cache, reserve, call_llm, analyze,
}
use cloud_sentinel_ai.Analyzer.Authorised.{IsAuthorised, Calls, analyze-Calls}
use cloud_sentinel_ai.Analyzer.Charges.{usage_of, price_at, recorded_at_openai_price}

abbrev settings : Settings
settings = record { llm_provider = "groq"; enable_delta_analysis = false }

-- The tenant asks for gpt-4o and has a key of its own for Anthropic.
abbrev preferences : Preferences
preferences = record {
  preferred_provider = "openai";
  preferred_model = "gpt-4o";
  api_key = λ p. if str_eq p "anthropic" then some 5 else none;
}

abbrev reply : Answer ℕ
reply = record { content = 1; prompt_tokens = some 2000; completion_tokens = none }

-- Only the fourth call is answered.
abbrev providers : Providers ℕ
providers = record { can_create = λ _. true; respond = λ _ n. if n == 3 then some reply else none }

abbrev month : Instant → Instant
month t = 0

abbrev env : Environment ℕ ℕ
env = record {
  settings = settings;
  llm_model = "llama-3.3-70b-versatile";
  preferences = some preferences;
  providers = providers;
  can_prepare = true;
  has_recent = λ _. false;
  result_of = λ n. n;
  month_start = month;
  now = 600;
  slack = true;
}

abbrev request : Request
request = record {
  tenant_id = 7;
  force_refresh = false;
  provider = none;
  model = none;
  records = 10;
}

abbrev budget : LlmBudget
budget = record {
  tenant_id = 7;
  monthly_limit_usd = 1000000000;
  alert_threshold_percent = 80;
  hard_limit = true;
  alert_sent_at = none;
}

abbrev store : Store
store = record {
  budgets = (7, budget) ∷ [];
  usage = [];
  cache_enabled = true;
  blocked = [];
  soft = [];
  alerts = [];
}

abbrev state : State ℕ
state = record { store = store; cached = none; llm_calls = [] }

-- The model that the tenant asks for is not used where the analyzer's own is passed on.
preferred_model_ignored :
    choose settings (some preferences) BudgetStatus.ok none (some "llama-3.3-70b-versatile")
    ≡ record { provider = "openai"; model = "gpt-4"; key = none }
unfolding choose known_provider validated valid_models is_safe_name is_safe_tail
preferred_model_ignored = refl

most_expensive_model :
    choose settings none BudgetStatus.ok (some "anthropic") (some "llama-3.3-70b-versatile")
    ≡ record { provider = "anthropic"; model = "claude-3-opus"; key = none }
unfolding choose known_provider validated valid_models is_safe_name is_safe_tail
most_expensive_model = refl

own_model_with_own_key :
    choose settings (some preferences) soft_limit (some "anthropic") none
    ≡ record { provider = "anthropic"; model = "claude-3-5-haiku"; key = some 5 }
unfolding choose known_provider validated valid_models is_safe_name is_safe_tail degraded
own_model_with_own_key = refl

fallback_after_three :
    (analyze env request state).1.llm_calls
    ≡ made "groq" none none
      ∷ made "openai" (some "gpt-4") none
      ∷ made "openai" (some "gpt-4") none
      ∷ made "openai" (some "gpt-4") none
      ∷ []
unfolding analyze check_cache reserve check_and_reserve usage_since estimate_cost check_budget
    call_llm invoke_llm choose known_provider validated valid_models
fallback_after_three = refl

abbrev choice : Choice
choice = record { provider = "openai"; model = "gpt-4"; key = none }

invoke_llm-try_each_example : invoke_llm providers settings choice ≡ (
    if is_created providers (client_of settings choice)
    then try_each providers (plan providers settings choice) []
    else (none, []))
invoke_llm-try_each_example = invoke_llm-try_each providers settings choice

choose-IsAllowed_example :
    IsAllowed (choose settings (some preferences) soft_limit (some "anthropic") none)
choose-IsAllowed_example =
    choose-IsAllowed settings (some preferences) soft_limit (some "anthropic") none

degradation_calls_the_same_example :
    invoke_llm providers settings (choose settings none soft_limit none none)
    ≡ invoke_llm providers settings
        (choose settings none BudgetStatus.ok none (some "mixtral-8x7b-32768"))
degradation_calls_the_same_example =
    degradation_calls_the_same providers settings none soft_limit BudgetStatus.ok none none
      (some "mixtral-8x7b-32768") refl refl

analyze-Calls_example :
    Calls env request (IsAuthorised env request state) state (analyze env request state)
analyze-Calls_example = analyze-Calls env request state

abbrev opus : String
opus = "claude-3-opus"

recorded_at_openai_price_example :
    (cost : ℕ) × ((recorded env request 620000 opus reply store).usage
      ≡ usage_of env request cost ∷ [])
    × (cost ≤ price_at "openai" opus reply + 5000)
    × (price_at "openai" opus reply ≤ cost + 5000)
    × (opus ≡ opus → 100 * cost ≤ price_at "anthropic" opus reply + 500000)
recorded_at_openai_price_example = recorded_at_openai_price env request 620000 opus reply store refl
