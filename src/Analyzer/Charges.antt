-- ===== src/Analyzer/Charges.antt =====
-- What is recorded as the cost of an analysis.
use Prim.Native.String.{String}
use cloud_sentinel_ai.Base.{ℕ, ◌+◌, ◌*◌, ◌≤◌, ◌≡◌, sym, subst, false, ◌∷◌, arith, ◌==◌}
use cloud_sentinel_ai.LlmBudget.Reserve.{record_usage_adds_row}
use cloud_sentinel_ai.LlmBudget.{LlmUsage, Store}
use cloud_sentinel_ai.LlmBudget.Pricing.{pricing_of, exact_cost, estimate_cost, estimate_cost_near}
use cloud_sentinel_ai.Analyzer.Invoke.{Answer}
use cloud_sentinel_ai.Analyzer.Run.{Request, Environment, tokens_or_500, recorded}

-- The exact price, at a provider, of the tokens that an answer reports.
abbrev pub price_at : {C : Type 0} → String → String → Answer C → ℕ
price_at provider model answer =
    exact_cost (pricing_of provider model) (tokens_or_500 answer.prompt_tokens)
      (tokens_or_500 answer.completion_tokens)

-- A model of Anthropic that OpenAI's prices do not list costs a hundred times as much or more.
opus_price :
    {C : Type 0} (answer : Answer C)
    → 100 * price_at "openai" "claude-3-opus" answer ≤ price_at "anthropic" "claude-3-opus" answer
unfolding exact_cost pricing_of
opus_price answer = omega arith

opus_price_of :
    {C : Type 0} (model : String) (answer : Answer C)
    → model ≡ "claude-3-opus"
    → 100 * price_at "openai" model answer ≤ price_at "anthropic" model answer
opus_price_of model answer e =
    subst (λ m. 100 * price_at "openai" m answer ≤ price_at "anthropic" m answer) (sym e)
      (opus_price answer)

module _ {A C : Type 0} (env : Environment A C) (r : Request) where
  abbrev pub usage_of : ℕ → LlmUsage
  usage_of cost = record { tenant_id = r.tenant_id; cost_usd = cost; created_at = env.now }

  -- The provider that answered plays no part in the cost that is recorded: if a cost
  -- was reserved, one row is added whose cost is within half of a hundredth of a cent of what the
  -- tokens cost at OpenAI's price for a model of that name. So an answer of Anthropic's
  -- claude-3-opus is recorded at a hundredth of its price at most, up to that rounding.
  pub recorded_at_openai_price :
      (reserved : ℕ) (model : String) (answer : Answer C) (s : Store)
      → (reserved == 0) ≡ false
      → (cost : ℕ) × ((recorded env r reserved model answer s).usage ≡ usage_of cost ∷ s.usage)
        × (cost ≤ price_at "openai" model answer + 5000)
        × (price_at "openai" model answer ≤ cost + 5000)
        × (model ≡ "claude-3-opus" → 100 * cost ≤ price_at "anthropic" model answer + 500000)
  unfolding recorded
  recorded_at_openai_price reserved model answer s h =
      let prompt = tokens_or_500 answer.prompt_tokens in
      let completion = tokens_or_500 answer.completion_tokens in
      let near = estimate_cost_near prompt completion model "openai" in
      (
        estimate_cost prompt completion model "openai",
        rw h (record_usage_adds_row env.month_start env.slack env.now r.tenant_id _ s),
        near.0,
        near.1,
        λ e. omega (arith, near.0, opus_price_of model answer e),
      )
