-- ===== src/Attribution/Matching.antt =====
-- Which records the conditions of a rule match (`match_conditions`).
use cloud_sentinel_ai.Base.{ℕ, true, Option, none, some, ◌≡◌, ◌≢◌, ◌⊎◌, arith}
use cloud_sentinel_ai.Costs.{CostRecord}
use cloud_sentinel_ai.Attribution.{Conditions, match_conditions}

-- A condition that is absent, or names this value.
abbrev pub Allows : Option ℕ → ℕ → Type 0
Allows o x = (o ≡ none) ⊎ (o ≡ some x)

-- A rule's conditions match a record exactly if its service and its region are allowed and neither
-- an account nor tags are among the conditions. They raise exactly if service and region are
-- allowed, no account is named, and tags are among the conditions.
pub match_conditions_lem :
    (r : CostRecord) (c : Conditions)
    → (match_conditions r c ≡ some true
        → Allows c.service r.service
          × Allows c.region r.region
          × (c.account_id ≡ none)
          × (c.tags ≡ none))
      × (Allows c.service r.service
            × Allows c.region r.region
            × (c.account_id ≡ none)
            × (c.tags ≡ none)
          → match_conditions r c ≡ some true)
      × (match_conditions r c ≡ none
          → Allows c.service r.service
            × Allows c.region r.region
            × (c.account_id ≡ none)
            × (c.tags ≢ none))
      × (Allows c.service r.service
            × Allows c.region r.region
            × (c.account_id ≡ none)
            × (c.tags ≢ none)
          → match_conditions r c ≡ none)
unfolding match_conditions
match_conditions_lem r c = ground arith
