-- ===== src/Analyzer/Invoke.antt =====
-- The calls of the language model (`_invoke_llm`): three attempts at the chosen provider, then one at
-- each of the other fallbacks.
use text.Mathlib.Text.{◌==◌ as str_eq}
use Prim.Native.String.{String}
use cloud_sentinel_ai.Base.{
  ℕ, zero, suc, Bool, true, not, ◌||◌, Option, none, some, List, [], ◌∷◌, if◌then◌else◌, is_some,
  length,
}
use cloud_sentinel_ai.Analyzer.{Settings, Choice}

-- An answer with the numbers of tokens that it reports, if it does.
pub record Answer (C : Type 0) : Type 0 where
  pub content : C
  pub prompt_tokens : Option ℕ
  pub completion_tokens : Option ℕ

-- The client that the analyzer was made with, or one made for a provider: with a model, or with the
-- provider's own, and with a key of the tenant or without.
pub data Client : Type 0 where
  own : Client
  made : String → Option String → Option ℕ → Client

-- What the providers do: whether a client can be made, and how the call of a client ends that comes
-- after a number of others.
pub record Providers (C : Type 0) : Type 0 where
  pub can_create : Client → Bool
  pub respond : Client → ℕ → Option (Answer C)

-- A client of its own is made for another provider than the configured one, or for a tenant's key.
unfoldable pub client_of : Settings → Choice → Client
client_of settings c =
    if not (str_eq c.provider settings.llm_provider) || is_some c.key
    then made c.provider (some c.model) c.key
    else own

abbrev pub fallback_providers : List String
fallback_providers = "groq" ∷ "openai" ∷ "anthropic" ∷ []

-- The models that stand in the list of fallbacks are only logged.
abbrev pub fallback_client : String → Client
fallback_client provider = made provider none none

-- The result, and the clients that were called, the last one first.
abbrev pub Called : Type 0 → Type 0
Called C = Option (Answer C) × List Client

module _ {C : Type 0} (p : Providers C) where
  abbrev pub is_created : Client → Bool
  is_created own = true
  is_created (made provider model key) = p.can_create (made provider model key)

  -- A call ends with its answer, or what comes next is done.
  abbrev pub answer_or :
      Client → List Client → (List Client → Called C) → Option (Answer C) → Called C
  answer_or client calls next none = next (client ∷ calls)
  answer_or client calls next (some answer) = (some answer, client ∷ calls)

  -- `_invoke_with_retry`, with the number of attempts that are left.
  unfoldable pub invoke_with_retry : Client → ℕ → List Client → Called C
  invoke_with_retry client zero calls = (none, calls)
  invoke_with_retry client (suc left) calls =
      answer_or client calls (invoke_with_retry client left) (p.respond client (length calls))

  -- The fallbacks in order; the one that has just failed is left out, and one without a client too.
  unfoldable pub fallbacks : String → List String → List Client → Called C
  fallbacks failed [] calls = (none, calls)
  fallbacks failed (f ∷ fs) calls =
      let next = fallbacks failed fs in
      if str_eq f failed || not (is_created (fallback_client f))
      then next calls
      else answer_or (fallback_client f) calls next (p.respond (fallback_client f) (length calls))

  abbrev pub or_fallbacks : String → Called C → Called C
  or_fallbacks failed (some answer, calls) = (some answer, calls)
  or_fallbacks failed (none, calls) = fallbacks failed fallback_providers calls

  -- If the client cannot be made, nothing is called.
  unfoldable pub invoke_llm : Settings → Choice → Called C
  unfolding invoke_with_retry fallbacks client_of
  invoke_llm settings c =
      let client = client_of settings c in
      if is_created client
      then or_fallbacks c.provider (invoke_with_retry client 3 [])
      else (none, [])
