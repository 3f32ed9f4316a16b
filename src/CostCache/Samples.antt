-- ===== src/CostCache/Samples.antt =====
-- A cache of one day's costs.
use cloud_sentinel_ai.Base.{
  ℕ, suc, zero, ◌≡◌, refl, Instant, seconds, true, false, none, some, List, [], ◌∷◌, arith, All,
}
use cloud_sentinel_ai.Base.Text.{Text, codes, same_text, rstrip}
use cloud_sentinel_ai.CostCache.{
  Codec, memory, get_cost_cache, in_memory, invalidate_tenant, invalidate_zombies, memory_get,
  memory_set, memory_delete, memory_delete_pattern,
}
use cloud_sentinel_ai.CostCache.Memory.{
  Request, gets, sets, deletes_pattern, answers, table, memory_refines,
}
use cloud_sentinel_ai.CostCache.Invalidation.{
  Use, is_hex, stores_costs, reads_costs, invalidates, after_uses, invalidation_deletes_nothing,
}

abbrev zeros : ℕ → Text
zeros zero = []
zeros (suc n) = b'0' ∷ zeros n

zeros_are_hex : (n : ℕ) → All (λ c. is_hex c ≡ true) (zeros n)
zeros_are_hex zero = tt
zeros_are_hex (suc n) = (refl, zeros_are_hex n)

-- A value is a number, printed as one character; every digest is of zeros.
abbrev outside : Codec ℕ
outside = record {
  dumps = λ n. n ∷ [];
  loads = λ t. elim t [ [] ↦ none | n ∷ _ ↦ some n ];
  hexdigest = λ _. zeros 64;
  isoformat = λ d. d ∷ [];
}

-- The same with digests that do not collide.
abbrev faithful : Codec ℕ
faithful = record outside { hexdigest = λ t. t }

abbrev requests : List (Instant × Request)
requests =
    (0, sets (1 ∷ []) (5 ∷ []) 60)
    ∷ (seconds 60, gets (1 ∷ []))
    ∷ (seconds 61, gets (1 ∷ []))
    ∷ (seconds 61, sets (1 ∷ []) (6 ∷ []) 60)
    ∷ (seconds 62, gets (1 ∷ []))
    ∷ (seconds 63, deletes_pattern (1 ∷ b'*' ∷ []))
    ∷ (seconds 64, gets (1 ∷ []))
    ∷ []

answered : answers memory requests [] ≡ some (5 ∷ []) ∷ none ∷ some (6 ∷ []) ∷ none ∷ []
unfolding answers memory_get memory_set memory_delete memory_delete_pattern same_text rstrip
answered = refl

memory_refines_example : answers memory requests [] ≡ answers table requests (λ _. none)
memory_refines_example = memory_refines requests (omega arith)

abbrev uses : List (Instant × Use ℕ)
uses =
    (0, stores_costs (codes "t7") 20 21 9)
    ∷ (1, reads_costs (codes "t7") 20 21)
    ∷ (2, invalidates (codes "t7"))
    ∷ []

invalidation_deletes_nothing_example :
    let s = after_uses outside uses [] in
    (invalidate_tenant memory (codes "t7") s ≡ (zero, s))
    × (invalidate_zombies memory (codes "t7") s ≡ (zero, s))
unfolding codes
invalidation_deletes_nothing_example =
    invalidation_deletes_nothing outside (λ t. (refl, zeros_are_hex 64)) uses (codes "t7")
      (λ h. cc, omega arith)

-- The factory falls back to the memory if Redis does not answer.
unhealthy_redis : get_cost_cache true false ≡ in_memory
unfolding get_cost_cache
unhealthy_redis = refl
