-- ===== src/Analyzer/Calls.antt =====
-- Which clients an analysis calls, and when it may call any.
use text.Mathlib.Text.{◌==◌ as str_eq}
use Prim.Native.String.{String}
use cloud_sentinel_ai.Base.{
  ℕ, zero, suc, ◌+◌, ◌≤◌, ◌≡◌, refl, Bool, not, ◌||◌, Option, none, some, List, [], ◌∷◌,
  if◌then◌else◌, length, length-keep-le, if_both, keep, map, arith, Bool-cases, inl, inr,
}
use cloud_sentinel_ai.Analyzer.{Settings, Choice}
use cloud_sentinel_ai.Analyzer.Invoke.{
  Answer, Client, Providers, Called, client_of, fallback_client, fallback_providers, answer_or,
  is_created, invoke_with_retry, fallbacks, or_fallbacks, invoke_llm,
}

module _ {C : Type 0} (p : Providers C) where
  -- Clients called one after the other until one answers.
  abbrev pub try_each : List Client → List Client → Called C
  try_each [] calls = (none, calls)
  try_each (c ∷ cs) calls = answer_or p c calls (try_each cs) (p.respond c (length calls))

  answer_or-same :
      (c : Client) (calls : List Client) (f g : List Client → Called C) (r : Option (Answer C))
      → ((l : List Client) → f l ≡ g l)
      → answer_or p c calls f r ≡ answer_or p c calls g r
  answer_or-same c calls f g none h = h (c ∷ calls)
  answer_or-same c calls f g (some answer) h = refl

  abbrev pub is_other : String → String → Bool
  is_other failed f = not (str_eq f failed || not (is_created p (fallback_client f)))

  -- The fallbacks that are not left out.
  abbrev pub others : String → List Client
  others failed = map fallback_client (keep (is_other failed) fallback_providers)

  fallbacks-try_each :
      (failed : String) (fs : List String) (calls : List Client)
      → fallbacks p failed fs calls
        ≡ try_each (map fallback_client (keep (is_other failed) fs)) calls
  unfolding fallbacks
  fallbacks-try_each failed [] calls = refl
  fallbacks-try_each failed (f ∷ fs) calls =
      elim (Bool-cases (str_eq f failed || not (is_created p (fallback_client f)))) [
        | inl e ↦ rw e (fallbacks-try_each failed fs calls)
        | inr e ↦
            rw e (answer_or-same (fallback_client f) calls _ _ _ (fallbacks-try_each failed fs))
      ]

  or_fallbacks-answer_or :
      (failed : String) (c : Client) (calls : List Client) (f g : List Client → Called C)
      (r : Option (Answer C))
      → ((l : List Client) → or_fallbacks p failed (f l) ≡ g l)
      → or_fallbacks p failed (answer_or p c calls f r) ≡ answer_or p c calls g r
  or_fallbacks-answer_or failed c calls f g none h = h (c ∷ calls)
  or_fallbacks-answer_or failed c calls f g (some answer) h = refl

  -- A client a number of times, before others.
  abbrev pub repeated : ℕ → Client → List Client → List Client
  repeated zero c cs = cs
  repeated (suc n) c cs = c ∷ repeated n c cs

  or_fallbacks-invoke_with_retry :
      (failed : String) (c : Client) (n : ℕ) (calls : List Client)
      → or_fallbacks p failed (invoke_with_retry p c n calls)
        ≡ try_each (repeated n c (others failed)) calls
  unfolding invoke_with_retry
  or_fallbacks-invoke_with_retry failed c zero calls =
      fallbacks-try_each failed fallback_providers calls
  or_fallbacks-invoke_with_retry failed c (suc n) calls =
      or_fallbacks-answer_or failed c calls _ _ _ (or_fallbacks-invoke_with_retry failed c n)

  -- The clients that are called if none of them answers.
  abbrev pub plan : Settings → Choice → List Client
  plan settings c = repeated 3 (client_of settings c) (others c.provider)

  -- Where the client can be made, `_invoke_llm` calls it three times and then each of groq, openai
  -- and anthropic that is another provider and has a client, until the first one answers; where it
  -- cannot be made, nothing is called.
  pub invoke_llm-try_each :
      (settings : Settings) (c : Choice)
      → invoke_llm p settings c ≡ (
          if is_created p (client_of settings c) then try_each (plan settings c) [] else (none, []))
  unfolding invoke_llm
  invoke_llm-try_each settings c =
      rw (or_fallbacks-invoke_with_retry c.provider (client_of settings c) 3 []) refl

  length-answer_or :
      (c : Client) (calls : List Client) (next : List Client → Called C) (n : ℕ)
      (r : Option (Answer C))
      → ((l : List Client) → length (next l).1 ≤ n + length l)
      → length (answer_or p c calls next r).1 ≤ suc n + length calls
  length-answer_or c calls next n none h = omega (arith, h (c ∷ calls))
  length-answer_or c calls next n (some answer) h = omega arith

  length-try_each :
      (cs calls : List Client) → length (try_each cs calls).1 ≤ length cs + length calls
  length-try_each [] calls = omega arith
  length-try_each (c ∷ cs) calls = length-answer_or c calls (try_each cs) _ _ (length-try_each cs)

  length-map : (fs : List String) → length (map fallback_client fs) ≡ length fs
  length-map [] = refl
  length-map (f ∷ fs) = rw (length-map fs)

  length-others : (failed : String) → length (others failed) ≤ 3
  length-others failed = omega (
    arith,
    length-map (keep (is_other failed) fallback_providers),
    length-keep-le (is_other failed) fallback_providers,
  )

  -- At most six calls are made.
  pub length-invoke_llm :
      (settings : Settings) (c : Choice) → length (invoke_llm p settings c).1 ≤ 6
  length-invoke_llm settings c =
      let bound = length-try_each (plan settings c) [] in
      let few = length-others c.provider in
      rw (invoke_llm-try_each settings c) (
        if_both {A = Called C} (λ l. length l.1 ≤ 6) (is_created p (client_of settings c))
          (omega arith) (omega arith))
