-- ===== src/Analyzer.antt =====
-- The analysis of costs by a language model (`FinOpsAnalyzer` of app/shared/llm/analyzer.py), for a
-- tenant and a session, which every caller passes. Providers and models are texts, and an empty text
-- counts as none. Analyses are of any type.
use text.Mathlib.Text.{◌==◌ as str_eq}
use Prim.Native.Char.{code}
use Prim.Native.String.{String}
use cloud_sentinel_ai.Base.{
  ℕ, ◌+◌, Bool, true, false, not, ◌&&◌, ◌||◌, Option, none, some, List, [], ◌∷◌, leb, ◌==◌,
  if◌then◌else◌, is_some,
}
use cloud_sentinel_ai.LlmBudget.{BudgetStatus, soft_limit}
pub mod Invoke
pub mod Run
pub mod Models
pub mod Calls
pub mod Authorised
pub mod Charges
mod Samples

-- `VALID_MODELS`; a provider that is not in it is `none`.
unfoldable pub valid_models : String → Option (List String)
valid_models provider =
    if str_eq provider "openai"
    then some ("gpt-4" ∷ "gpt-4-turbo" ∷ "gpt-4o" ∷ "gpt-4o-mini" ∷ "gpt-3.5-turbo" ∷ [])
    else if str_eq provider "anthropic"
    then some ("claude-3-opus" ∷ "claude-3-sonnet" ∷ "claude-3-5-sonnet" ∷ "claude-3-5-haiku" ∷ [])
    else if str_eq provider "google"
    then some ("gemini-pro" ∷ "gemini-1.5-pro" ∷ "gemini-1.5-flash" ∷ [])
    else if str_eq provider "groq"
    then some (
        "llama-3.3-70b-versatile" ∷ "llama3-70b-8192" ∷ "mixtral-8x7b-32768"
        ∷ "llama-3.1-8b-instant" ∷ [])
    else if str_eq provider "azure"
    then some ("gpt-4" ∷ "gpt-35-turbo" ∷ [])
    else none

abbrev pub default_model : String
default_model = "llama-3.3-70b-versatile"

abbrev pub is_model_in : String → List String → Bool
is_model_in model [] = false
is_model_in model (m ∷ ms) = str_eq m model || is_model_in model ms

-- What the tenant's row of budgets says of models, with the keys of its own by provider.
pub record Preferences : Type 0 where
  pub preferred_provider : String
  pub preferred_model : String
  pub api_key : String → Option ℕ

pub record Settings : Type 0 where
  pub llm_provider : String
  pub enable_delta_analysis : Bool

abbrev pub or_text : Option String → String → String
or_text none other = other
or_text (some text) other = text

abbrev pub preferred_provider_or : Option Preferences → String → String
preferred_provider_or none other = other
preferred_provider_or (some p) other = p.preferred_provider

abbrev pub preferred_model_or : Option Preferences → String → String
preferred_model_or none other = other
preferred_model_or (some p) other = p.preferred_model

-- `keys.get(provider or budget.preferred_provider)`
abbrev pub byok_key : Option String → Option Preferences → Option ℕ
byok_key provider none = none
byok_key provider (some p) = p.api_key (or_text provider p.preferred_provider)

-- The cheaper model of a provider that the soft limit turns to.
unfoldable pub degraded : String → String → String
degraded provider model =
    if str_eq provider "groq"
    then "llama-3.1-8b-instant"
    else if str_eq provider "openai"
    then "gpt-4o-mini"
    else if str_eq provider "google"
    then "gemini-1.5-flash"
    else if str_eq provider "anthropic"
    then "claude-3-5-haiku"
    else model

abbrev pub is_soft : BudgetStatus → Bool
is_soft soft_limit = true
is_soft _ = false

-- A letter, a digit, `.`, `-`, `:` or `/`.
abbrev pub is_safe_char : ℕ → Bool
is_safe_char c =
    (leb b'a' c && leb c b'z')
    || (leb b'A' c && leb c b'Z')
    || (leb b'0' c && leb c b'9')
    || c == b'.'
    || c == b'-'
    || c == b':'
    || c == b'/'

-- `^[a-zA-Z0-9\.\-\:\/]+$`, by which one newline may stand at the end.
unfoldable pub is_safe_tail : String → Bool
is_safe_tail String.[] = true
is_safe_tail (String.◌∷◌ c String.[]) = is_safe_char (code c) || code c == b'\n'
is_safe_tail (String.◌∷◌ c (String.◌∷◌ d s)) =
    is_safe_char (code c) && is_safe_tail (String.◌∷◌ d s)

unfoldable pub is_safe_name : String → Bool
unfolding is_safe_tail
is_safe_name String.[] = false
is_safe_name (String.◌∷◌ c s) = is_safe_char (code c) && is_safe_tail s

abbrev pub first_or : List String → String → String
first_or [] other = other
first_or (m ∷ _) other = m

abbrev pub models_of : Option (List String) → List String
models_of none = []
models_of (some ms) = ms

pub record Choice : Type 0 where
  pub provider : String
  pub model : String
  pub key : Option ℕ

-- A model that the provider has not is taken only with a key of the tenant's own and a safe name.
unfoldable pub validated : String → String → Option ℕ → Choice
unfolding valid_models is_safe_name
validated provider model key =
    let allowed = models_of (valid_models provider) in
    if is_model_in model allowed || (is_some key && is_safe_name model)
    then record { provider = provider; model = model; key = key }
    else record { provider = provider; model = first_or allowed default_model; key = key }

unfoldable pub known_provider : Settings → String → String → Option ℕ → Choice
unfolding validated
known_provider settings provider model key =
    if is_some (valid_models provider)
    then validated provider model key
    else validated settings.llm_provider default_model key

-- The provider, the model and the key of `_setup_client_and_usage`, after its check of the budget.
unfoldable pub choose :
    Settings → Option Preferences → BudgetStatus → Option String → Option String → Choice
unfolding known_provider degraded
choose settings prefs status provider model =
    let effective_provider = or_text provider (preferred_provider_or prefs settings.llm_provider) in
    let effective_model = or_text model (preferred_model_or prefs default_model) in
    known_provider settings effective_provider
      (if is_soft status then degraded effective_provider effective_model else effective_model)
      (byok_key provider prefs)
