-- ===== src/Attribution/Totals.antt =====
-- What the allocations that `apply_rules` makes add up to.
use cloud_sentinel_ai.Base.{
  ℕ, ◌+◌, ◌*◌, true, false, some, List, [], ◌∷◌, ◌++◌, ◌≡◌, refl, sym, ap, ◌∙◌, map, if◌then◌else◌,
  if_each, All, arith,
}
use cloud_sentinel_ai.Base.Int.{
  ℤ, pos, pos_part, neg_part, ◌*ℤ◌, ◌+ℤ◌, ◌-ℤ◌, ltb_ℤ, sum_ℤ, int_laws, +ℤ_parts, -ℤ_parts,
  eq_of_parts,
}
use cloud_sentinel_ai.Costs.{CostRecord}
use cloud_sentinel_ai.Attribution.{
  RuleType, direct, percentage, fixed, other, Split, AttributionRule, CostAllocation, splits_of,
  or_zero, whole, by_percentage, by_amount, amount_in, remainder, allocate, allocations,
  allocation_of, default_allocation, or_default, apply_rules, match_conditions,
}

*ℤ_parts :
    (a b : ℤ)
    → pos_part (a *ℤ b) + (pos_part a * neg_part b + neg_part a * pos_part b)
      ≡ neg_part (a *ℤ b) + (pos_part a * pos_part b + neg_part a * neg_part b)
unfolding ◌*ℤ◌
*ℤ_parts a b = ground arith

*ℤ-+ℤ : (c a b : ℤ) → c *ℤ (a +ℤ b) ≡ c *ℤ a +ℤ c *ℤ b
*ℤ-+ℤ c a b =
    let S = +ℤ_parts a b in
    eq_of_parts (c *ℤ (a +ℤ b)) (c *ℤ a +ℤ c *ℤ b) (
      omega (
        arith,
        *ℤ_parts c (a +ℤ b),
        *ℤ_parts c a,
        *ℤ_parts c b,
        +ℤ_parts (c *ℤ a) (c *ℤ b),
        ap (λ t. pos_part c * t) S,
        ap (λ t. neg_part c * t) S,
      ))

*ℤ_zero : (c : ℤ) → c *ℤ pos 0 ≡ pos 0
unfolding ◌*ℤ◌
*ℤ_zero c = ground arith

+ℤ_assoc : (a b c : ℤ) → (a +ℤ b) +ℤ c ≡ a +ℤ (b +ℤ c)
+ℤ_assoc a b c = grind int_laws

+ℤ_zero : (a : ℤ) → a +ℤ pos 0 ≡ a
+ℤ_zero a = grind int_laws

abbrev pub amount_of : CostAllocation → ℤ
amount_of a = a.amount

abbrev pub percent_in : Split → ℤ
percent_in s = or_zero s.percentage

abbrev pub total : List CostAllocation → ℤ
total as' = sum_ℤ (map amount_of as')

abbrev pub max_ℤ : ℤ → ℤ → ℤ
max_ℤ a b = if ltb_ℤ a b then b else a

total-append : (as' bs : List CostAllocation) → total (as' ++ bs) ≡ total as' +ℤ total bs
unfolding sum_ℤ
total-append [] bs = grind int_laws
total-append (x ∷ xs) bs =
    ap (λ t. x.amount +ℤ t) (total-append xs bs) ∙ sym (+ℤ_assoc x.amount (total xs) (total bs))

total-by_percentage :
    (r : CostRecord) (rule : ℕ) (splits : List Split)
    → total (map (by_percentage r rule) splits) ≡ r.cost_usd *ℤ sum_ℤ (map percent_in splits)
unfolding sum_ℤ allocation_of
total-by_percentage r rule [] = sym (*ℤ_zero r.cost_usd)
total-by_percentage r rule (s ∷ ss) =
    ap (λ t. r.cost_usd *ℤ percent_in s +ℤ t) (total-by_percentage r rule ss)
    ∙ sym (*ℤ-+ℤ r.cost_usd (percent_in s) (sum_ℤ (map percent_in ss)))

total-by_amount :
    (r : CostRecord) (rule : ℕ) (splits : List Split)
    → total (map (by_amount r rule) splits) ≡ sum_ℤ (map amount_in splits)
unfolding sum_ℤ allocation_of
total-by_amount r rule [] = refl
total-by_amount r rule (s ∷ ss) = ap (λ t. amount_in s +ℤ t) (total-by_amount r rule ss)

fill_lem : (w s : ℤ) → ltb_ℤ (pos 0) (w -ℤ s) ≡ true → s +ℤ (w -ℤ s +ℤ pos 0) ≡ max_ℤ w s
fill_lem w s e = rw (+ℤ_zero (w -ℤ s)) (grind (int_laws, -ℤ_parts w s, +ℤ_parts s (w -ℤ s)))

full_lem : (w s : ℤ) → ltb_ℤ (pos 0) (w -ℤ s) ≡ false → s +ℤ pos 0 ≡ max_ℤ w s
full_lem w s e = grind (int_laws, -ℤ_parts w s, +ℤ_zero s)

-- With what the fixed amounts leave, the total is the cost, or the amounts if they are more.
fill_up :
    (r : CostRecord) (rule : ℕ) (spent : ℤ)
    → spent +ℤ total (remainder r rule (whole r -ℤ spent)) ≡ max_ℤ (whole r) spent
unfolding remainder allocation_of sum_ℤ
fill_up r rule spent =
    let w = whole r in
    if_each (λ l. spent +ℤ total l ≡ max_ℤ w spent) (ltb_ℤ (pos 0) (w -ℤ spent))
      (λ e. fill_lem w spent e) (λ e. full_lem w spent e)

-- What a rule charges for a record's cost.
abbrev pub charged : RuleType → CostRecord → List Split → ℤ
charged percentage r (s ∷ ss) = r.cost_usd *ℤ sum_ℤ (map percent_in (s ∷ ss))
charged fixed r (s ∷ ss) = max_ℤ (whole r) (sum_ℤ (map amount_in (s ∷ ss)))
charged _ r _ = whole r

-- The allocations of the first rule that matches, or the default one.
or_default_lem :
    (ty : RuleType) (r : CostRecord) (rule : ℕ) (splits : List Split)
    → (as' : List CostAllocation) × (or_default r (some (allocate ty r rule splits)) ≡ some as')
      × (total as' ≡ charged ty r splits)
unfolding allocate allocation_of default_allocation sum_ℤ remainder
or_default_lem direct r rule splits = (_, refl, +ℤ_zero (whole r))
or_default_lem percentage r rule [] = (_, refl, +ℤ_zero (whole r))
or_default_lem percentage r rule (s ∷ ss) = (_, refl, total-by_percentage r rule (s ∷ ss))
or_default_lem fixed r rule [] =
    if_each
      (λ l.
        (as' : List CostAllocation) × (or_default r (some l) ≡ some as') × (total as' ≡ whole r))
      (ltb_ℤ (pos 0) (whole r -ℤ pos 0))
      (λ e. (_, refl, grind (int_laws, -ℤ_parts (whole r) (pos 0))))
      (λ e. (_, refl, +ℤ_zero (whole r)))
or_default_lem fixed r rule (s ∷ ss) =
    let spent = sum_ℤ (map amount_in (s ∷ ss)) in
    let rest = remainder r rule (whole r -ℤ spent) in
    (
      _,
      refl,
      total-append (map (by_amount r rule) (s ∷ ss)) rest
          ∙ ap (λ t. t +ℤ total rest) (total-by_amount r rule (s ∷ ss))
          ∙ fill_up r rule spent,
    )
or_default_lem other r rule splits = (_, refl, +ℤ_zero (whole r))

-- None of these rules matches the record.
abbrev pub Unmatched : CostRecord → List AttributionRule → Type 0
Unmatched r = All (λ q. match_conditions r q.conditions ≡ some false)

allocations_skip :
    (r : CostRecord) (before after : List AttributionRule)
    → Unmatched r before
    → allocations r (before ++ after) ≡ allocations r after
unfolding allocations
allocations_skip r [] after h = refl
allocations_skip r (q ∷ before) after h = rw h.0 (allocations_skip r before after h.1)

-- Where no rule before `q` matches a record and `q` does, the allocations add up to the record's
-- cost, unless `q` has splits and its type is by percentage or by fixed amounts: then they add up
-- to the sum of the percentages of the cost, or to the larger of the cost and the sum of the
-- amounts.
pub apply_rules-total :
    (r : CostRecord) (before : List AttributionRule) (q : AttributionRule)
    (after : List AttributionRule)
    → Unmatched r before
    → match_conditions r q.conditions ≡ some true
    → (as' : List CostAllocation) × (apply_rules r (before ++ q ∷ after) ≡ some as')
      × (total as' ≡ charged q.rule_type r (splits_of q.allocation))
unfolding apply_rules allocations
apply_rules-total r before q after skipped matched =
    rw (allocations_skip r before (q ∷ after) skipped)
      (rw matched (or_default_lem q.rule_type r q.id (splits_of q.allocation)))
