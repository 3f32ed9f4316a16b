-- ===== src/LlmBudget.antt =====
-- The budget of the LLM requests (`LLMBudgetManager`, app/shared/llm/budget_manager.py).
-- Amounts are whole numbers of 10^-8 dollars. The first instant of an instant's month is the
-- argument `month_start`: `now.replace(day=1, hour=0, ...)` of Python's `datetime`. Redis is a table
-- of keys with the instants at which they expire.
use cloud_sentinel_ai.Base.{
  ℕ, ◌+◌, ◌*◌, ◌<◌, Instant, seconds, Bool, true, false, Option, none, some, List, [], ◌∷◌, ◌&&◌,
  ◌==◌, ltb, leb, not, if◌then◌else◌, keep, map,
}
use cloud_sentinel_ai.Base.Dict.{Dict, get, put}
pub mod Pricing
pub mod Reserve
pub mod Check
pub mod Alerts
mod Samples

pub data BudgetStatus : Type 0 where
  ok soft_limit hard_limit : BudgetStatus

pub record LlmBudget : Type 0 where
  pub tenant_id : ℕ
  pub monthly_limit_usd : ℕ
  pub alert_threshold_percent : ℕ
  pub hard_limit : Bool
  pub alert_sent_at : Option Instant

-- `LLMUsage`, the columns that the budget reads.
pub record LlmUsage : Type 0 where
  pub tenant_id : ℕ
  pub cost_usd : ℕ
  pub created_at : Instant

-- The tables, the cache and the alerts that were sent, with their severity (`true` is critical).
pub record Store : Type 0 where
  pub budgets : Dict LlmBudget
  pub usage : List LlmUsage
  pub cache_enabled : Bool
  pub blocked : Dict Instant
  pub soft : Dict Instant
  pub alerts : List (ℕ × Bool)

pub data Error : Type 0 where
  budget_not_found budget_exceeded : Error

pub data Result (A : Type 0) : Type 0 where
  done : A → Result A
  raised : Error → Result A

unfoldable pub sum : List ℕ → ℕ
sum [] = 0
sum (x ∷ xs) = x + sum xs

abbrev pub cost_of : LlmUsage → ℕ
cost_of u = u.cost_usd

abbrev pub counts : ℕ → Instant → LlmUsage → Bool
counts tenant start u = u.tenant_id == tenant && leb start u.created_at

-- `coalesce(sum(cost_usd), 0)` of a tenant since an instant.
unfoldable pub usage_since : ℕ → Instant → List LlmUsage → ℕ
unfolding sum
usage_since tenant start usage = sum (map cost_of (keep (counts tenant start) usage))

-- `usage_percent >= percent`, with `usage / limit * 100` multiplied out; it is 0 without a limit.
unfoldable pub percent_reached : ℕ → ℕ → ℕ → Bool
percent_reached usage limit percent =
    if ltb 0 limit then leb (percent * limit) (usage * 100) else leb percent 0

-- A key of the cache that has been set and has not expired.
unfoldable pub live : Instant → Option Instant → Bool
live now none = false
live now (some expiry) = ltb now expiry

-- `if cache.enabled: set(key, "1", ex=...)`
block : Instant → ℕ → Store → Store
block now tenant s =
    if s.cache_enabled then record s { blocked = put tenant (now + seconds 600) s.blocked } else s

warn : Instant → ℕ → Store → Store
warn now tenant s =
    if s.cache_enabled then record s { soft = put tenant (now + seconds 300) s.soft } else s

module _ (month_start : Instant → Instant) where
  unfoldable pub current_usage : Instant → ℕ → Store → ℕ
  current_usage now tenant s = usage_since tenant (month_start now) s.usage

  -- Steps 2 and 3 of `check_and_reserve`; `cost > limit - usage` is written `limit < usage + cost`.
  reserve_in : Instant → ℕ → ℕ → Option LlmBudget → Store → Result ℕ
  unfolding current_usage
  reserve_in now tenant cost none s = raised budget_not_found
  reserve_in now tenant cost (some b) s =
      if ltb b.monthly_limit_usd (current_usage now tenant s + cost)
      then raised budget_exceeded
      else done cost

  -- `check_and_reserve` at an estimated cost. It changes nothing in the store.
  unfoldable pub check_and_reserve : Instant → ℕ → ℕ → Store → Result ℕ
  unfolding reserve_in
  check_and_reserve now tenant cost s = reserve_in now tenant cost (get tenant s.budgets) s

  -- `budget.alert_sent_at` is set, in this year and month.
  unfoldable pub already_sent : Instant → Option Instant → Bool
  already_sent now none = false
  already_sent now (some t) = month_start t == month_start now

  alert_in : Bool → Instant → ℕ → Option LlmBudget → Store → Store
  unfolding already_sent percent_reached current_usage
  alert_in slack now tenant none s = s
  alert_in slack now tenant (some b) s =
      let usage = current_usage now tenant s in
      let limit = b.monthly_limit_usd in
      if percent_reached usage limit b.alert_threshold_percent
        && not (already_sent now b.alert_sent_at)
      then record s {
        budgets = put tenant (record b { alert_sent_at = some now }) s.budgets;
        alerts = if slack then (tenant, percent_reached usage limit 100) ∷ s.alerts else s.alerts;
      }
      else s

  -- `_check_budget_and_alert`; `slack` says that a bot token and a channel are configured.
  unfoldable pub check_budget_and_alert : Bool → Instant → ℕ → Store → Store
  unfolding alert_in
  check_budget_and_alert slack now tenant s = alert_in slack now tenant (get tenant s.budgets) s

  -- `record_usage` at an actual cost: the record, then the alert.
  unfoldable pub record_usage : Bool → Instant → ℕ → ℕ → Store → Store
  record_usage slack now tenant cost s = check_budget_and_alert slack now tenant (record s {
    usage = record { tenant_id = tenant; cost_usd = cost; created_at = now } ∷ s.usage;
  })

  check_in : Instant → ℕ → Option LlmBudget → Store → Result BudgetStatus × Store
  unfolding current_usage block warn
  check_in now tenant none s = (done BudgetStatus.ok, s)
  check_in now tenant (some b) s =
      let usage = current_usage now tenant s in
      let limit = b.monthly_limit_usd in
      if leb limit usage
      then (if b.hard_limit
          then (raised budget_exceeded, block now tenant s)
          else (done soft_limit, s))
      else if leb (limit * b.alert_threshold_percent) (usage * 100)
      then (done soft_limit, warn now tenant s)
      else (done BudgetStatus.ok, s)

  -- `check_budget`: the cache first, then the database.
  unfoldable pub check_budget : Instant → ℕ → Store → Result BudgetStatus × Store
  unfolding check_in live
  check_budget now tenant s =
      if s.cache_enabled && live now (get tenant s.blocked)
      then (done BudgetStatus.hard_limit, s)
      else if s.cache_enabled && live now (get tenant s.soft)
      then (done soft_limit, s)
      else check_in now tenant (get tenant s.budgets) s
