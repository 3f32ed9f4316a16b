-- ===== src/LlmBudget/Check.antt =====
-- The answers of `check_budget`, from the database and from the cache.
use cloud_sentinel_ai.Base.{
  ℕ, ◌+◌, ◌*◌, ◌≤◌, ◌<◌, ◌≡◌, Instant, seconds, true, false, some, arith, ◌&&◌,
}
use cloud_sentinel_ai.Base.Dict.{get, put, get-put}
use cloud_sentinel_ai.LlmBudget.{
  BudgetStatus, soft_limit, LlmBudget, Store, done, raised, budget_exceeded, current_usage, live,
  check_in, check_budget, block,
}

module _ (month_start : Instant → Instant) where
  -- Nothing about the tenant is live in the cache.
  abbrev pub IsUncached : Instant → ℕ → Store → Type 0
  IsUncached now tenant s =
      ((s.cache_enabled && live now (get tenant s.blocked)) ≡ false)
      × ((s.cache_enabled && live now (get tenant s.soft)) ≡ false)

  -- With nothing live in the cache, a tenant with a budget gets exactly one of four answers by the
  -- usage of its month: below the threshold, OK; from the threshold on but below the limit, the soft
  -- limit; at the limit or above it, an exception if the limit is hard, and else the soft limit.
  pub check_budget_answer :
      (now : Instant) (tenant : ℕ) (s : Store) {b : LlmBudget}
      → IsUncached now tenant s
      → get tenant s.budgets ≡ some b
      → let usage = current_usage month_start now tenant s in
        let answer = (check_budget month_start now tenant s).0 in
        let limit = b.monthly_limit_usd in
        let threshold = limit * b.alert_threshold_percent in
        (usage < limit → usage * 100 < threshold → answer ≡ done BudgetStatus.ok)
        × (usage < limit → threshold ≤ usage * 100 → answer ≡ done soft_limit)
        × (limit ≤ usage → b.hard_limit ≡ true → answer ≡ raised budget_exceeded)
        × (limit ≤ usage → b.hard_limit ≡ false → answer ≡ done soft_limit)
  unfolding check_budget check_in
  check_budget_answer now tenant s (p, q) h =
      rw (p, q)
        (rw (h, check_in)
          (λ u v. ground arith, λ u v. ground arith, λ u v. ground arith, λ u v. ground arith))

  -- With the cache enabled: the exception of an exhausted hard budget is raised by the call
  -- that finds it, and for 600 seconds from that call on every further call answers HARD_LIMIT,
  -- without an exception and whatever has become of the usage and the budgets.
  pub hard_limit_then_cached :
      (now later : Instant) (tenant : ℕ) (s changed : Store) {b : LlmBudget}
      → s.cache_enabled ≡ true
      → IsUncached now tenant s
      → get tenant s.budgets ≡ some b
      → b.monthly_limit_usd ≤ current_usage month_start now tenant s
      → b.hard_limit ≡ true
      → later < now + seconds 600
      → changed.cache_enabled ≡ true
      → changed.blocked ≡ (check_budget month_start now tenant s).1.blocked
      → ((check_budget month_start now tenant s).0 ≡ raised budget_exceeded)
        × (check_budget month_start later tenant changed ≡ (done BudgetStatus.hard_limit, changed))
  unfolding check_budget check_in block live
  hard_limit_then_cached now later tenant s changed {b} enabled (p, q) h over hard soon on kept =
      let answer = check_budget_answer now tenant s (p, q) h in
      let at : (check_budget month_start now tenant s).1.blocked
          ≡ put tenant (now + seconds 600) s.blocked =
        rw (p, q) (rw (h, check_in) (ground arith)) in
      (answer.2 over hard, ground (arith, get-put tenant tenant (now + seconds 600) s.blocked))
