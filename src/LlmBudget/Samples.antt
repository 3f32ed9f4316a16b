-- ===== src/LlmBudget/Samples.antt =====
-- Concrete budgets.
use cloud_sentinel_ai.Base.{
  ℕ, ◌+◌, ◌-◌, ◌%◌, ◌≤◌, ◌≡◌, Instant, true, none, [], ◌∷◌, arith, refl, days,
}
use cloud_sentinel_ai.LlmBudget.{LlmBudget, LlmUsage, Store, usage_since}
use cloud_sentinel_ai.LlmBudget.Pricing.{estimate_cost}
use cloud_sentinel_ai.LlmBudget.Reserve.{Request, IsWithin, spend_all, spend_all-IsWithin}
use cloud_sentinel_ai.LlmBudget.Alerts.{Usage, alerts_of, record_all, alerted_once}

-- Months of thirty days.
abbrev month : Instant → Instant
month t = t - t % days 30

-- Ten dollars, alerted at eighty percent, eight of them used.
abbrev ten_dollars : LlmBudget
ten_dollars = record {
  tenant_id = 7;
  monthly_limit_usd = 1000000000;
  alert_threshold_percent = 80;
  hard_limit = true;
  alert_sent_at = none;
}

abbrev used : ℕ → LlmUsage
used cost = record { tenant_id = 7; cost_usd = cost; created_at = 500 }

abbrev store : ℕ → Store
store cost = record {
  budgets = (7, ten_dollars) ∷ [];
  usage = used cost ∷ [];
  cache_enabled = true;
  blocked = [];
  soft = [];
  alerts = [];
}

abbrev request : Request
request = record { now = 600; tenant = 7; estimate = 150000000; actual = 140000000 }

gpt_4o_costs : estimate_cost 500 500 "gpt-4o" "openai" ≡ 620000
unfolding estimate_cost
gpt_4o_costs = refl

spend_all-IsWithin_example :
    IsWithin month 0 7 1000000000 (spend_all month true (request ∷ request ∷ []) (store 800000000))
unfolding usage_since
spend_all-IsWithin_example =
    spend_all-IsWithin month true (request ∷ request ∷ []) 0 7 1000000000 (store 800000000)
      (refl, omega arith, (refl, omega arith, tt)) (ten_dollars, refl, refl, omega arith)

abbrev cached : Store
cached = record (store 0) { blocked = (7, 600000600) ∷ [] }

abbrev usage : Usage
usage = record { now = 600; tenant = 7; cost = 900000000 }

alerted_once_example :
    alerts_of 7 (record_all month true (usage ∷ usage ∷ []) (store 0)).alerts
    ≤ alerts_of 7 (store 0).alerts + 1
alerted_once_example =
    alerted_once month true (usage ∷ usage ∷ []) 600 7 (store 0) (refl, (refl, tt))
