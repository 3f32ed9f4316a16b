-- ===== src/Attribution/Samples.antt =====
-- Concrete costs and rules.
use cloud_sentinel_ai.Base.{ℕ, true, none, some, List, [], ◌∷◌, ◌++◌, ◌≡◌, refl}
use cloud_sentinel_ai.Base.Int.{ℤ, pos, ◌*ℤ◌, ◌+ℤ◌, ◌-ℤ◌, sum_ℤ}
use cloud_sentinel_ai.Costs.{preliminary, CostRecord}
use cloud_sentinel_ai.Attribution.{
  direct, percentage, fixed, Conditions, Split, many, one, AttributionRule, CostAllocation,
  splits_of, apply_rules, allocate, allocation_of, remainder, match_conditions,
}
use cloud_sentinel_ai.Attribution.Totals.{total, charged, apply_rules-total}

-- $2 of service 5 in region 3, for tenant 7.
abbrev storage : CostRecord
storage = record {
  id = 1;
  tenant_id = 7;
  account_id = 4;
  service = 5;
  region = 3;
  usage_type = none;
  cost_usd = pos 200000000;
  amount_raw = none;
  currency = 1;
  is_preliminary = true;
  cost_status = preliminary;
  timestamp = none;
  recorded_at = 20;
}

abbrev compute : CostRecord
compute = record storage { id = 2; service = 6; recorded_at = 21 }

abbrev any_service : Conditions
any_service = record { service = none; region = none; account_id = none; tags = none }

abbrev of_service : ℕ → Conditions
of_service s = record any_service { service = some s }

abbrev split : ℕ → ℤ → Split
split b pct = record { bucket = some b; percentage = some pct; amount = none }

-- 30% to bucket 1 and 70% to bucket 2
abbrev shared : AttributionRule
shared = record {
  id = 10;
  tenant_id = 7;
  priority = pos 1;
  rule_type = percentage;
  conditions = of_service 5;
  allocation = many (split 1 (pos 3000) ∷ split 2 (pos 7000) ∷ []);
  is_active = true;
}

abbrev compute_team : AttributionRule
compute_team = record shared {
  id = 11;
  rule_type = direct;
  conditions = of_service 6;
  allocation = one (split 3 (pos 0));
}

-- $5 to bucket 4, whatever the cost
abbrev flat_fee : AttributionRule
flat_fee = record shared {
  id = 12;
  rule_type = fixed;
  allocation =
      one (record { bucket = some 4; percentage = none; amount = some (pos 5000000000000) });
}

split_sum : total (allocate percentage storage 10 (splits_of shared.allocation)) ≡ pos 2000000000000
unfolding allocate allocation_of ◌*ℤ◌ ◌+ℤ◌ sum_ℤ
split_sum = refl

-- A fixed amount above the cost charges more than the cost.
overcharged : total (allocate fixed storage 12 (splits_of flat_fee.allocation)) ≡ pos 5000000000000
unfolding allocate allocation_of remainder ◌*ℤ◌ ◌+ℤ◌ ◌-ℤ◌ sum_ℤ
overcharged = refl

apply_rules-total_example :
    (as' : List CostAllocation) × (apply_rules storage ((compute_team ∷ []) ++ shared ∷ [])
      ≡ some as')
    × (total as' ≡ charged percentage storage (splits_of shared.allocation))
unfolding match_conditions
apply_rules-total_example = apply_rules-total storage (compute_team ∷ []) shared [] (refl, tt) refl

abbrev old : CostAllocation
old = record {
  cost_record_id = 1;
  recorded_at = 20;
  rule_id = none;
  allocated_to = 0;
  amount = pos 1;
  percentage = none;
}
