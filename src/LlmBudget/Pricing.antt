-- ===== src/LlmBudget/Pricing.antt =====
-- The price of a request (`estimate_cost`, and the table of app/shared/llm/pricing_data.py).
-- A price is in cents for a million tokens, so a token at a price of one cent costs 10^-8 dollars,
-- and the amounts below are exact before they are rounded.
use text.Mathlib.Text.{◌==◌ as str_eq}
use Prim.Native.String.{String}
use cloud_sentinel_ai.Base.{
  ℕ, ◌+◌, ◌*◌, ◌/◌, ◌%◌, ◌≤◌, ◌≡◌, Option, none, some, List, [], ◌∷◌, arith, ltb, ◌==◌,
  if◌then◌else◌,
}

pub record ProviderCost : Type 0 where
  pub input : ℕ
  pub output : ℕ

abbrev price : ℕ → ℕ → ProviderCost
price i o = record { input = i; output = o }

abbrev pub Prices : Type 0
Prices = List (String × ProviderCost)

unfoldable pub llm_pricing : List (String × Prices)
llm_pricing =
    (
      "groq",
      ("llama-3.3-70b-versatile", price 59 79)
          ∷ ("mixtral-8x7b-32768", price 27 27)
          ∷ ("default", price 59 79)
          ∷ [],
    )
    ∷ (
      "google",
      ("gemini-2.0-flash", price 25 50)
          ∷ ("gemini-1.5-pro", price 125 375)
          ∷ ("default", price 25 50)
          ∷ [],
    )
    ∷ (
      "openai",
      ("gpt-4o", price 250 1000) ∷ ("gpt-4o-mini", price 15 60) ∷ ("default", price 15 60) ∷ [],
    )
    ∷ (
      "anthropic",
      ("claude-3-7-sonnet", price 300 1500)
          ∷ ("claude-3-5-sonnet", price 300 1500)
          ∷ ("claude-3-opus", price 1500 7500)
          ∷ ("default", price 300 1500)
          ∷ [],
    )
    ∷ []

find {ℓ} : {V : Type ℓ} → String → List (String × V) → Option V
find k [] = none
find k ((j, v) ∷ rest) = if str_eq j k then some v else find k rest

or_else {ℓ} : {V : Type ℓ} → Option V → Option V → Option V
or_else none other = other
or_else (some v) other = some v

entries : Option Prices → Prices
entries none = []
entries (some p) = p

-- The fallback of an unknown provider or model: $10 for a million tokens.
known : Option ProviderCost → ProviderCost
known none = price 1000 1000
known (some p) = p

unfoldable pub pricing_of : String → String → ProviderCost
unfolding find or_else entries known llm_pricing
pricing_of provider model =
    let prices = entries (find provider llm_pricing) in
    known (or_else (find model prices) (find "default" prices))

-- `quantize(Decimal("0.0001"))`: to the nearest multiple, at a tie to the even one.
unfoldable pub quantize : ℕ → ℕ
quantize n =
    let whole = n / 10000 in
    let rest = n % 10000 in
    if ltb rest 5000
    then whole * 10000
    else if ltb 5000 rest
    then (whole + 1) * 10000
    else if whole % 2 == 0
    then whole * 10000
    else (whole + 1) * 10000

unfoldable pub exact_cost : ProviderCost → ℕ → ℕ → ℕ
exact_cost p prompt completion = prompt * p.input + completion * p.output

unfoldable pub estimate_cost : ℕ → ℕ → String → String → ℕ
unfolding quantize exact_cost pricing_of
estimate_cost prompt completion model provider =
    quantize (exact_cost (pricing_of provider model) prompt completion)

quantize_near :
    (n : ℕ) → (quantize n ≤ n + 5000) × (n ≤ quantize n + 5000) × (quantize n % 10000 ≡ 0)
unfolding quantize
quantize_near n = ground arith

-- The estimate is a whole number of hundredths of a cent, within half of one of tokens times price.
pub estimate_cost_near :
    (prompt completion : ℕ) (model provider : String)
    → let exact = exact_cost (pricing_of provider model) prompt completion in
      let estimate = estimate_cost prompt completion model provider in
      (estimate ≤ exact + 5000) × (exact ≤ estimate + 5000) × (estimate % 10000 ≡ 0)
unfolding estimate_cost
estimate_cost_near prompt completion model provider = quantize_near _

quantize_mono : (a b : ℕ) → a ≤ b → quantize a ≤ quantize b
unfolding quantize
quantize_mono a b h = ground arith

-- More tokens of either kind never cost less by the estimate.
estimate_cost_mono :
    (prompt prompt' completion completion' : ℕ) (model provider : String)
    → prompt ≤ prompt'
    → completion ≤ completion'
    → estimate_cost prompt completion model provider
      ≤ estimate_cost prompt' completion' model provider
unfolding estimate_cost exact_cost
estimate_cost_mono prompt prompt' completion completion' model provider h k =
    let p = pricing_of provider model in
    let exact : exact_cost p prompt completion ≤ exact_cost p prompt' completion' = grind arith in
    quantize_mono _ _ exact
