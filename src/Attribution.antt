-- ===== src/Attribution.antt =====
-- The attribution of costs by rules (`AttributionEngine` of
-- app/modules/reporting/domain/attribution_engine.py, with app/models/attribution.py).
-- Texts that are only compared are numbers. Amounts of an allocation are whole numbers of 10^-12
-- dollars and percentages hundredths of a percent, so that a split is exact. The times at which
-- allocations are made are left out.
use cloud_sentinel_ai.Base.{
  ℕ, Bool, true, false, Option, none, some, List, [], ◌∷◌, ◌++◌, ◌&&◌, ◌==◌, not, if◌then◌else◌,
  keep, map,
}
use cloud_sentinel_ai.Base.Int.{ℤ, pos, ◌*ℤ◌, ◌-ℤ◌, ltb_ℤ, sum_ℤ}
use cloud_sentinel_ai.Base.Order.{order_by}
use cloud_sentinel_ai.Costs.{CostRecord, in_range}
pub mod Totals
pub mod Matching
pub mod Batch
mod Samples

pub data RuleType : Type 0 where
  direct percentage fixed other : RuleType

-- The keys that a rule's conditions have, with their texts; `tags` only matters as present.
pub record Conditions : Type 0 where
  pub service : Option ℕ
  pub region : Option ℕ
  pub account_id : Option ℕ
  pub tags : Option (List (ℕ × ℕ))

-- An object of an allocation; amounts are in 10^-12 dollars.
pub record Split : Type 0 where
  pub bucket : Option ℕ
  pub percentage : Option ℤ
  pub amount : Option ℤ

-- The column holds a list of objects, or one object.
pub data Allocation : Type 0 where
  many : List Split → Allocation
  one : Split → Allocation

pub record AttributionRule : Type 0 where
  pub id : ℕ
  pub tenant_id : ℕ
  pub priority : ℤ
  pub rule_type : RuleType
  pub conditions : Conditions
  pub allocation : Allocation
  pub is_active : Bool

pub record CostAllocation : Type 0 where
  pub cost_record_id : ℕ
  pub recorded_at : ℕ
  pub rule_id : Option ℕ
  pub allocated_to : ℕ
  pub amount : ℤ
  pub percentage : Option ℤ

-- "Unallocated"
abbrev pub unallocated : ℕ
unallocated = 0

abbrev pub hundred_percent : ℤ
hundred_percent = pos 10000

abbrev pub is_active_of : ℕ → AttributionRule → Bool
is_active_of tenant rule = rule.tenant_id == tenant && rule.is_active

abbrev pub sooner : AttributionRule → AttributionRule → Bool
sooner a b = ltb_ℤ a.priority b.priority

-- `order_by(priority.asc())`; rules of one priority keep the order of the table.
unfoldable pub get_active_rules : ℕ → List AttributionRule → List AttributionRule
get_active_rules tenant rules = order_by sooner (keep (is_active_of tenant) rules)

abbrev pub equals : ℕ → Option ℕ → Bool
equals x none = true
equals x (some y) = x == y

-- The record's account is a `UUID`, the condition a text of the JSON: they are never equal.
abbrev pub account_equals : ℕ → Option ℕ → Bool
account_equals account none = true
account_equals account (some text) = false

-- `cost_record.tags`: the model has no such attribute, so a condition on tags raises.
abbrev pub tags_match : Option (List (ℕ × ℕ)) → Option Bool
tags_match none = some true
tags_match (some tags) = none

-- `none` is an `AttributeError`.
unfoldable pub match_conditions : CostRecord → Conditions → Option Bool
match_conditions r c =
    if equals r.service c.service
      && equals r.region c.region
      && account_equals r.account_id c.account_id
    then tags_match c.tags
    else some false

abbrev pub splits_of : Allocation → List Split
splits_of (many splits) = splits
splits_of (one split) = split ∷ []

-- `split.get("bucket", "Unallocated")`
abbrev pub bucket_of : Option ℕ → ℕ
bucket_of none = unallocated
bucket_of (some b) = b

-- `split.get(key, 0)`
abbrev pub or_zero : Option ℤ → ℤ
or_zero none = pos 0
or_zero (some x) = x

abbrev pub first_bucket : List Split → ℕ
first_bucket [] = unallocated
first_bucket (s ∷ _) = bucket_of s.bucket

unfoldable pub allocation_of : CostRecord → Option ℕ → ℕ → ℤ → Option ℤ → CostAllocation
allocation_of r rule bucket amount pct = record {
  cost_record_id = r.id;
  recorded_at = r.recorded_at;
  rule_id = rule;
  allocated_to = bucket;
  amount = amount;
  percentage = pct;
}

-- A record's whole cost, in the unit of allocations.
abbrev pub whole : CostRecord → ℤ
whole r = r.cost_usd *ℤ hundred_percent

abbrev pub by_percentage : CostRecord → ℕ → Split → CostAllocation
by_percentage r rule s =
    let pct = or_zero s.percentage in
    allocation_of r (some rule) (bucket_of s.bucket) (r.cost_usd *ℤ pct) (some pct)

abbrev pub by_amount : CostRecord → ℕ → Split → CostAllocation
by_amount r rule s = allocation_of r (some rule) (bucket_of s.bucket) (or_zero s.amount) none

abbrev pub amount_in : Split → ℤ
amount_in s = or_zero s.amount

-- What fixed amounts leave of the cost goes to "Unallocated".
unfoldable pub remainder : CostRecord → ℕ → ℤ → List CostAllocation
unfolding allocation_of
remainder r rule remaining =
    if ltb_ℤ (pos 0) remaining
    then allocation_of r (some rule) unallocated remaining none ∷ []
    else []

-- The allocations by the rule that matched; another type of rule makes none.
unfoldable pub allocate : RuleType → CostRecord → ℕ → List Split → List CostAllocation
allocate direct r rule splits =
    allocation_of r (some rule) (first_bucket splits) (whole r) (some hundred_percent) ∷ []
allocate percentage r rule splits = map (by_percentage r rule) splits
allocate fixed r rule splits =
    map (by_amount r rule) splits ++ remainder r rule (whole r -ℤ sum_ℤ (map amount_in splits))
allocate other r rule splits = []

-- The loop of `apply_rules`: the first rule that matches is the only one.
abbrev pub otherwise {ℓ} : {A : Type ℓ} → Option Bool → A → Option A → Option A
otherwise none found rest = none
otherwise (some true) found rest = some found
otherwise (some false) found rest = rest

unfoldable pub allocations : CostRecord → List AttributionRule → Option (List CostAllocation)
allocations r [] = some []
allocations r (q ∷ rest) =
    otherwise (match_conditions r q.conditions)
      (allocate q.rule_type r q.id (splits_of q.allocation)) (allocations r rest)

unfoldable pub default_allocation : CostRecord → CostAllocation
default_allocation r = allocation_of r none unallocated (whole r) (some hundred_percent)

abbrev pub or_default : CostRecord → Option (List CostAllocation) → Option (List CostAllocation)
or_default r none = none
or_default r (some []) = some (default_allocation r ∷ [])
or_default r (some (a ∷ as')) = some (a ∷ as')

unfoldable pub apply_rules : CostRecord → List AttributionRule → Option (List CostAllocation)
apply_rules r rules = or_default r (allocations r rules)

-- The table of allocations with those of one record replaced.
abbrev pub is_about : ℕ → CostAllocation → Bool
is_about id a = a.cost_record_id == id

abbrev pub replace : ℕ → List CostAllocation → List CostAllocation → List CostAllocation
replace id new table = keep (λ a. not (is_about id a)) table ++ new

abbrev pub with_allocations :
    Option (List CostAllocation)
    → (List CostAllocation → Option (List CostAllocation))
    → Option (List CostAllocation)
with_allocations none k = none
with_allocations (some as') k = k as'

-- `process_cost_record`: the allocations made are added to the table.
unfoldable pub process_cost_record :
    CostRecord → ℕ → List AttributionRule → List CostAllocation → Option (List CostAllocation)
process_cost_record r tenant rules table =
    with_allocations (apply_rules r (get_active_rules tenant rules)) (λ new. some (table ++ new))

-- The loop over the records; an exception leaves the transaction without a commit.
unfoldable pub apply_each :
    List CostRecord → List AttributionRule → List CostAllocation → Option (List CostAllocation)
apply_each [] rules table = some table
apply_each (r ∷ rest) rules table =
    with_allocations (apply_rules r rules) (λ new. apply_each rest rules (replace r.id new table))

unfoldable pub apply_rules_to_tenant :
    ℕ
    → ℕ
    → ℕ
    → List CostRecord
    → List AttributionRule
    → List CostAllocation
    → Option (List CostAllocation)
apply_rules_to_tenant tenant start end records rules table =
    apply_each (keep (in_range tenant start end) records) (get_active_rules tenant rules) table
