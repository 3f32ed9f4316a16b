-- ===== src/Analyzer/Models.antt =====
-- The model that is chosen (`_setup_client_and_usage`), and the one that is called.
use text.Mathlib.TextPositions.{eq_refl as str_eq_refl}
use Prim.Native.String.{String}
use cloud_sentinel_ai.Base.{
  ℕ, ◌≡◌, ◌⊎◌, refl, sym, ◌∙◌, inl, inr, true, false, ◌||◌, ◌&&◌, Option, none, List, [], ◌∷◌,
  Bool-cases, if_both, is_some,
}
use cloud_sentinel_ai.LlmBudget.{BudgetStatus}
use cloud_sentinel_ai.Analyzer.{
  Settings, Preferences, Choice, valid_models, models_of, is_model_in, is_safe_name, default_model,
  first_or, validated, known_provider, choose, byok_key, or_text, preferred_provider_or,
}
use cloud_sentinel_ai.Analyzer.Invoke.{
  Providers, own, client_of, or_fallbacks, invoke_with_retry, invoke_llm,
}

-- The model is one of the provider's, or a safe name used with a tenant's key, or the default
-- where the provider has no models.
abbrev pub IsAllowed : Choice → Type 0
IsAllowed c =
    (is_model_in c.model (models_of (valid_models c.provider)) ≡ true)
    ⊎ ((is_some c.key ≡ true) × (is_safe_name c.model ≡ true))
    ⊎ ((models_of (valid_models c.provider) ≡ []) × (c.model ≡ default_model))

first-Allowed :
    (provider : String) (key : Option ℕ) (ms : List String)
    → models_of (valid_models provider) ≡ ms
    → IsAllowed (record { provider = provider; model = first_or ms default_model; key = key })
first-Allowed provider key [] e = inr (inr (e, refl))
first-Allowed provider key (m ∷ ms) e = inl (rw e (rw (str_eq_refl m) refl))

validated-Allowed :
    (provider model : String) (key : Option ℕ) → IsAllowed (validated provider model key)
unfolding validated
validated-Allowed provider model key =
    let allowed = models_of (valid_models provider) in
    let fallen = first-Allowed provider key allowed refl in
    elim (Bool-cases (is_model_in model allowed)) [
      | inl e ↦ rw e (inl e)
      | inr e ↦ elim (Bool-cases (is_some key)) [
        | inl k ↦ elim (Bool-cases (is_safe_name model)) [
          | inl safe ↦ rw e (rw k (rw safe (inr (inl (k, safe)))))
          | inr odd ↦ rw e (rw k (rw odd fallen))
        ]
        | inr k ↦ rw e (rw k fallen)
      ]
    ]

-- Whatever a caller, a tenant and the settings ask for, the chosen model is one that is listed for
-- the chosen provider, or has a safe name and comes with a key of the tenant, or is the default
-- model where none is listed for the provider.
pub choose-IsAllowed :
    (settings : Settings) (prefs : Option Preferences) (status : BudgetStatus)
    (provider model : Option String)
    → IsAllowed (choose settings prefs status provider model)
unfolding choose known_provider
choose-IsAllowed settings prefs status provider model =
    let wanted = or_text provider (preferred_provider_or prefs settings.llm_provider) in
    if_both IsAllowed (is_some (valid_models wanted)) (validated-Allowed wanted _ _)
      (validated-Allowed settings.llm_provider default_model _)

-- With the configured provider and no key, the client is the analyzer's own.
abbrev pub IsOwn : Settings → Choice → Type 0
IsOwn settings c = (c.provider ≡ settings.llm_provider) × (c.key ≡ none)

validated-Own :
    (settings : Settings) (model : String)
    → IsOwn settings (validated settings.llm_provider model none)
unfolding validated
validated-Own settings model =
    if_both (IsOwn settings)
      (is_model_in model (models_of (valid_models settings.llm_provider))
        || (false && is_safe_name model))
      (refl, refl) (refl, refl)

known_provider-Own :
    (settings : Settings) (model : String)
    → IsOwn settings (known_provider settings settings.llm_provider model none)
unfolding known_provider
known_provider-Own settings model =
    if_both (IsOwn settings) (is_some (valid_models settings.llm_provider))
      (validated-Own settings model) (validated-Own settings default_model)

client_of-Own : (settings : Settings) (c : Choice) → IsOwn settings c → client_of settings c ≡ own
unfolding client_of
client_of-Own settings c (e, k) = rw e (rw k (rw (str_eq_refl settings.llm_provider) refl))

module _ {C : Type 0} (p : Providers C) where
  invoke_llm-Own :
      (settings : Settings) (c : Choice)
      → IsOwn settings c
      → invoke_llm p settings c
        ≡ or_fallbacks p settings.llm_provider (invoke_with_retry p own 3 [])
  unfolding invoke_llm
  invoke_llm-Own settings c (e, k) = rw (client_of-Own settings c (e, k)) (rw e refl)

  choose-Own :
      (settings : Settings) (prefs : Option Preferences) (status : BudgetStatus)
      (provider model : Option String)
      → or_text provider (preferred_provider_or prefs settings.llm_provider) ≡ settings.llm_provider
      → byok_key provider prefs ≡ none
      → IsOwn settings (choose settings prefs status provider model)
  unfolding choose
  choose-Own settings prefs status provider model e k = rw e (rw k (known_provider-Own settings _))

  -- For the configured provider and without a key of the tenant, the soft limit changes neither
  -- which clients are called nor the answer, whatever model it turns to: all that is called is what
  -- would be called in any other state of the budget, and for any other model.
  pub degradation_calls_the_same :
      (settings : Settings) (prefs : Option Preferences) (status other : BudgetStatus)
      (provider model model' : Option String)
      → or_text provider (preferred_provider_or prefs settings.llm_provider) ≡ settings.llm_provider
      → byok_key provider prefs ≡ none
      → invoke_llm p settings (choose settings prefs status provider model)
        ≡ invoke_llm p settings (choose settings prefs other provider model')
  degradation_calls_the_same settings prefs status other provider model model' e k =
      invoke_llm-Own settings _ (choose-Own settings prefs status provider model e k)
      ∙ sym (invoke_llm-Own settings _ (choose-Own settings prefs other provider model' e k))
