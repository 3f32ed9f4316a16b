-- ===== src/Attribution/Batch.antt =====
-- The recalculation of a tenant's allocations (`apply_rules_to_tenant`).
use cloud_sentinel_ai.Base.{
  ℕ, Bool, true, false, none, some, List, [], ◌∷◌, ◌++◌, ◌≡◌, refl, ap, ◌∙◌, ◌⊎◌, inl, inr, ◌==◌,
  not, keep, keep-nil, map, All, All-append, All-keep, All-map, arith, Bool-cases,
}
use mathlib.Core.List.{append-nil}
use cloud_sentinel_ai.Base.Order.{All-order_by}
use cloud_sentinel_ai.Base.Int.{ℤ}
use cloud_sentinel_ai.Costs.{CostRecord, in_range}
use cloud_sentinel_ai.Attribution.{
  RuleType, direct, percentage, fixed, other, Split, AttributionRule, CostAllocation, splits_of,
  by_percentage, by_amount, remainder, allocate, allocations, allocation_of, default_allocation,
  or_default, apply_rules, match_conditions, is_about, replace, apply_each, apply_rules_to_tenant,
  get_active_rules, is_active_of, sooner,
}

-- The allocations of one record in a table.
abbrev pub allocations_of : ℕ → List CostAllocation → List CostAllocation
allocations_of id table = keep (is_about id) table

keep-append {ℓ} :
    {A : Type ℓ} (p : A → Bool) (xs ys : List A) → keep p (xs ++ ys) ≡ keep p xs ++ keep p ys
keep-append p [] ys = refl
keep-append p (x ∷ xs) ys = elim (Bool-cases (p x)) [
  | inl e ↦ rw e (ap (λ t. x ∷ t) (keep-append p xs ys))
  | inr e ↦ rw e (keep-append p xs ys)
]

abbrev pub IsAbout : ℕ → CostAllocation → Type 0
IsAbout id a = a.cost_record_id ≡ id

map-IsAbout :
    (id : ℕ) (f : Split → CostAllocation) (splits : List Split)
    → ((s : Split) → IsAbout id (f s))
    → All (IsAbout id) (map f splits)
map-IsAbout id f [] h = tt
map-IsAbout id f (s ∷ ss) h = (h s, map-IsAbout id f ss h)

remainder-IsAbout :
    (r : CostRecord) (rule : ℕ) (left : ℤ) → All (IsAbout r.id) (remainder r rule left)
unfolding remainder allocation_of
remainder-IsAbout r rule left = ground arith

allocate-IsAbout :
    (ty : RuleType) (r : CostRecord) (rule : ℕ) (splits : List Split)
    → All (IsAbout r.id) (allocate ty r rule splits)
unfolding allocate allocation_of
allocate-IsAbout direct r rule splits = (refl, tt)
allocate-IsAbout percentage r rule splits =
    map-IsAbout r.id (by_percentage r rule) splits (λ s. refl)
allocate-IsAbout fixed r rule splits =
    All-append (IsAbout r.id) _ _ (map-IsAbout r.id (by_amount r rule) splits (λ s. refl))
      (remainder-IsAbout r rule _)
allocate-IsAbout other r rule splits = tt

or_default-IsAbout :
    (r : CostRecord) (as' : List CostAllocation)
    → All (IsAbout r.id) as'
    → (bs : List CostAllocation) × (or_default r (some as') ≡ some bs) × All (IsAbout r.id) bs
unfolding default_allocation allocation_of
or_default-IsAbout r [] h = (_, refl, (refl, tt))
or_default-IsAbout r (a ∷ as') h = (_, refl, h)

-- A rule without tags among its conditions.
abbrev pub IsUntagged : AttributionRule → Type 0
IsUntagged q = q.conditions.tags ≡ none

untagged_match :
    (r : CostRecord) (q : AttributionRule)
    → IsUntagged q
    → (match_conditions r q.conditions ≡ some true) ⊎ (match_conditions r q.conditions ≡ some false)
unfolding match_conditions
untagged_match r q h = ground arith

allocations-IsAbout :
    (r : CostRecord) (rules : List AttributionRule)
    → All IsUntagged rules
    → (as' : List CostAllocation) × (allocations r rules ≡ some as') × All (IsAbout r.id) as'
unfolding allocations
allocations-IsAbout r [] h = ([], refl, tt)
allocations-IsAbout r (q ∷ rest) h = elim (untagged_match r q h.0) [
  | inl e ↦ rw e (_, refl, allocate-IsAbout q.rule_type r q.id (splits_of q.allocation))
  | inr e ↦ rw e (allocations-IsAbout r rest h.1)
]

apply_rules-IsAbout :
    (r : CostRecord) (rules : List AttributionRule)
    → All IsUntagged rules
    → (as' : List CostAllocation) × (apply_rules r rules ≡ some as') × All (IsAbout r.id) as'
unfolding apply_rules
apply_rules-IsAbout r rules h =
    let (made, e, about) = allocations-IsAbout r rules h in rw e (or_default-IsAbout r made about)

differs :
    (id id' : ℕ) (a : CostAllocation)
    → is_about id a ≡ true
    → (id == id') ≡ false
    → is_about id' a ≡ false
differs id id' a e h = ground arith

unlike :
    (id id' : ℕ) (a : CostAllocation) → IsAbout id a → (id == id') ≡ false → is_about id' a ≡ false
unlike id id' a e h = ground arith

keep_other :
    (id id' : ℕ) (table : List CostAllocation)
    → (id == id') ≡ false
    → allocations_of id' (keep (λ a. not (is_about id a)) table) ≡ allocations_of id' table
keep_other id id' [] h = refl
keep_other id id' (a ∷ table) h = elim (Bool-cases (is_about id a)) [
  | inl e ↦ rw e (rw (differs id id' a e h) (keep_other id id' table h))
  | inr e ↦ elim (Bool-cases (is_about id' a)) [
    | inl f ↦ rw e (rw f (ap (λ t. a ∷ t) (keep_other id id' table h)))
    | inr f ↦ rw e (rw f (keep_other id id' table h))
  ]
]

replace_other :
    (id id' : ℕ) (new table : List CostAllocation)
    → All (IsAbout id) new
    → (id == id') ≡ false
    → allocations_of id' (replace id new table) ≡ allocations_of id' table
replace_other id id' new table h e =
    keep-append (is_about id') (keep (λ a. not (is_about id a)) table) new
    ∙ rw (keep_other id id' table e) (
        rw (keep-nil (is_about id') new (All-map (λ a. λ f. unlike id id' a f e) new h))
          (append-nil (allocations_of id' table)))

-- The loop writes the allocations of none but its records.
apply_each_others :
    (records : List CostRecord) (rules : List AttributionRule) (table : List CostAllocation)
    (id : ℕ)
    → All IsUntagged rules
    → All (λ q. (q.id == id) ≡ false) records
    → (final : List CostAllocation) × (apply_each records rules table ≡ some final)
      × (allocations_of id final ≡ allocations_of id table)
unfolding apply_each
apply_each_others [] rules table id h k = (table, refl, refl)
apply_each_others (q ∷ rest) rules table id h k =
    let (new, e, about) = apply_rules-IsAbout q rules h in
    let (final, f, same) = apply_each_others rest rules (replace q.id new table) id h k.1 in
    rw e (final, f, same ∙ replace_other q.id id new table about k.0)

active-IsUntagged :
    (tenant : ℕ) (rules : List AttributionRule)
    → All IsUntagged rules
    → All IsUntagged (get_active_rules tenant rules)
unfolding get_active_rules
active-IsUntagged tenant rules h =
    All-order_by sooner IsUntagged (keep (is_active_of tenant) rules)
      (All-keep IsUntagged (is_active_of tenant) rules h)

-- If no rule has a condition on tags, a recalculation returns and leaves the allocations of every
-- record outside its tenant and range as they were.
recalculation_isolated :
    (tenant start end : ℕ) (records : List CostRecord) (rules : List AttributionRule)
    (table : List CostAllocation) (id : ℕ)
    → All IsUntagged rules
    → All (λ q. (q.id == id) ≡ false) (keep (in_range tenant start end) records)
    → (final : List CostAllocation) × (apply_rules_to_tenant tenant start end records rules table
        ≡ some final)
      × (allocations_of id final ≡ allocations_of id table)
unfolding apply_rules_to_tenant
recalculation_isolated tenant start end records rules table id h unlike_all =
    apply_each_others (keep (in_range tenant start end) records) (get_active_rules tenant rules)
      table id (active-IsUntagged tenant rules h) unlike_all
