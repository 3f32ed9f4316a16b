-- ===== src/Costs.antt =====
-- The cost records of the tenants and the totals over them
-- (app/models/cloud.py, `CostAggregator` of app/modules/reporting/domain/aggregator.py).
-- The database's `cost_records` table is a list; a query without an order returns the table's.
-- Dates are day numbers, texts that are only compared are numbers.
use cloud_sentinel_ai.Base.{
  ℕ, Bool, Instant, Option, List, ◌&&◌, ◌==◌, leb, keep, take, map, length,
}
use cloud_sentinel_ai.Base.Int.{ℤ, sum_ℤ}

pub data CostStatus : Type 0 where
  preliminary final : CostStatus

pub record CostRecord : Type 0 where
  pub id : ℕ
  pub tenant_id : ℕ
  pub account_id : ℕ
  pub service : ℕ
  pub region : ℕ
  pub usage_type : Option ℕ
  pub cost_usd : ℤ
  pub amount_raw : Option ℤ
  pub currency : ℕ
  pub is_preliminary : Bool
  pub cost_status : CostStatus
  pub timestamp : Option Instant
  pub recorded_at : ℕ

abbrev pub max_detail_rows : ℕ
max_detail_rows = 100000

-- The condition of `count_records` and `get_summary`.
unfoldable pub in_range : ℕ → ℕ → ℕ → CostRecord → Bool
in_range tenant start end r =
    r.tenant_id == tenant && leb start r.recorded_at && leb r.recorded_at end

unfoldable pub count_records : List CostRecord → ℕ → ℕ → ℕ → ℕ
unfolding in_range
count_records table tenant start end = length (keep (in_range tenant start end) table)

abbrev pub cost_of : CostRecord → ℤ
cost_of r = r.cost_usd

-- `get_summary(...).total_cost`, for all providers: the sum over the rows that `limit` lets through.
unfoldable pub total_cost : List CostRecord → ℕ → ℕ → ℕ → ℤ
unfolding in_range
total_cost table tenant start end =
    sum_ℤ (map cost_of (take max_detail_rows (keep (in_range tenant start end) table)))
