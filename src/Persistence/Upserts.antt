-- ===== src/Persistence/Upserts.antt =====
-- Saving the same records again.
use cloud_sentinel_ai.Base.{
  ℕ, suc, ◌+◌, Bool, true, false, ◌≡◌, refl, ap, ◌∙◌, arith, Option, some, none, List, [], ◌∷◌,
  ◌&&◌, ◌||◌, ◌==◌, Bool-cases, inl, inr, if_each, length, All, All-map, is_some,
}
use cloud_sentinel_ai.Costs.{CostRecord}
use cloud_sentinel_ai.Persistence.{
  upsert, upsert_all, overwrite, conflicts, conflicts_with_any, same_value,
}

-- No column of the key is null.
abbrev pub IsKeyed : CostRecord → Type 0
IsKeyed q = (is_some q.timestamp ≡ true) × (is_some q.usage_type ≡ true)

same_value_self : (o : Option ℕ) → is_some o ≡ true → same_value o o ≡ true
same_value_self none h = h
same_value_self (some n) h = ground arith

same_value_trans :
    (a b c : Option ℕ) → same_value b c ≡ true → same_value a c ≡ true → same_value a b ≡ true
same_value_trans none b c h k = cc
same_value_trans (some a) none c h k = cc
same_value_trans (some a) (some b) none h k = cc
same_value_trans (some a) (some b) (some c) h k = ground arith

conflicts_self : (q : CostRecord) → IsKeyed q → conflicts q q ≡ true
unfolding conflicts
conflicts_self q (t, u) =
    rw (same_value_self q.timestamp t) (rw (same_value_self q.usage_type u) (ground arith))

fifth :
    (a b c d e f x : Bool)
    → (a && b && c && d && e && f) ≡ true
    → (e ≡ true → x ≡ true)
    → (a && b && c && d && x && f) ≡ true
fifth a b c d e f x h k = ground arith

usage_of : (a b c d e f : Bool) → (a && b && c && d && e && f) ≡ true → e ≡ true
usage_of a b c d e f h = ground arith

conflicts-overwrite :
    (p q r : CostRecord)
    → conflicts q r ≡ true
    → conflicts p r ≡ true
    → conflicts p (overwrite q r) ≡ true
unfolding conflicts overwrite
conflicts-overwrite p q r h k =
    let same : same_value q.usage_type r.usage_type ≡ true =
      usage_of (q.account_id == r.account_id) (same_value q.timestamp r.timestamp)
        (q.service == r.service) (q.region == r.region) (same_value q.usage_type r.usage_type)
        (q.recorded_at == r.recorded_at) h in
    fifth (p.account_id == r.account_id) (same_value p.timestamp r.timestamp)
      (p.service == r.service) (p.region == r.region) (same_value p.usage_type r.usage_type)
      (p.recorded_at == r.recorded_at) (same_value p.usage_type q.usage_type) k
      (same_value_trans p.usage_type q.usage_type r.usage_type same)

-- The table has a row with the record's key.
abbrev Present : List CostRecord → CostRecord → Type 0
Present table q = conflicts_with_any q table ≡ true

or_mono :
    (a b c d : Bool)
    → (a ≡ true → c ≡ true)
    → (b ≡ true → d ≡ true)
    → (a || b) ≡ true
    → (c || d) ≡ true
or_mono a b c d f g h = ground arith

upsert_keeps-Present :
    (p q : CostRecord) (table : List CostRecord) → Present table p → Present (upsert q table) p
unfolding upsert
upsert_keeps-Present p q [] h = absurd (cc)
upsert_keeps-Present p q (r ∷ rest) h =
    if_each (λ t. Present t p) (conflicts q r)
      (λ e.
        or_mono (conflicts p r) (conflicts_with_any p rest) _ _ (conflicts-overwrite p q r e)
          (λ k. k) h)
      (λ _.
        or_mono (conflicts p r) (conflicts_with_any p rest) _ _ (λ k. k)
          (upsert_keeps-Present p q rest) h)

or_left : (a b : Bool) → a ≡ true → (a || b) ≡ true
or_left a b h = ground arith

or_right : (a b : Bool) → b ≡ true → (a || b) ≡ true
or_right a b h = ground arith

upsert-Present : (q : CostRecord) (table : List CostRecord) → IsKeyed q → Present (upsert q table) q
unfolding upsert
upsert-Present q [] keyed = or_left (conflicts q q) false (conflicts_self q keyed)
upsert-Present q (r ∷ rest) keyed =
    if_each (λ t. Present t q) (conflicts q r)
      (λ e. or_left _ (conflicts_with_any q rest) (conflicts-overwrite q q r e e))
      (λ _. or_right (conflicts q r) _ (upsert-Present q rest keyed))

upsert_all_keeps-Present :
    (p : CostRecord) (qs table : List CostRecord)
    → Present table p
    → Present (upsert_all qs table) p
unfolding upsert_all
upsert_all_keeps-Present p [] table h = h
upsert_all_keeps-Present p (q ∷ qs) table h =
    upsert_all_keeps-Present p qs (upsert q table) (upsert_keeps-Present p q table h)

upsert_all-Present :
    (qs table : List CostRecord) → All IsKeyed qs → All (Present (upsert_all qs table)) qs
unfolding upsert_all
upsert_all-Present [] table keyed = tt
upsert_all-Present (q ∷ qs) table (here, rest) = (
  upsert_all_keeps-Present q qs (upsert q table) (upsert-Present q table here),
  upsert_all-Present qs (upsert q table) rest,
)

length-upsert :
    (q : CostRecord) (table : List CostRecord)
    → Present table q
    → length (upsert q table) ≡ length table
unfolding upsert
length-upsert q [] h = absurd (cc)
length-upsert q (r ∷ rest) h = elim (Bool-cases (conflicts q r)) [
  | inl e ↦ rw e refl
  | inr e ↦ rw e (ap (λ n. suc n) (length-upsert q rest (rw e at h)))
]

length-upsert_all :
    (qs table : List CostRecord)
    → All (Present table) qs
    → length (upsert_all qs table) ≡ length table
unfolding upsert_all
length-upsert_all [] table h = refl
length-upsert_all (q ∷ qs) table (here, rest) =
    length-upsert_all qs (upsert q table)
      (All-map (λ p k. upsert_keeps-Present p q table k) qs rest)
    ∙ length-upsert q table here

-- Saving the same records a second time adds no row, if each of them has a time and a usage type.
pub resaving_adds_none :
    (qs table : List CostRecord)
    → All IsKeyed qs
    → length (upsert_all qs (upsert_all qs table)) ≡ length (upsert_all qs table)
resaving_adds_none qs table keyed =
    length-upsert_all qs (upsert_all qs table) (upsert_all-Present qs table keyed)

fifth_false : (a b c d e f : Bool) → e ≡ false → (a && b && c && d && e && f) ≡ false
fifth_false a b c d e f h = ground arith

null_conflicts : (q r : CostRecord) → q.usage_type ≡ none → conflicts q r ≡ false
unfolding conflicts
null_conflicts q r h =
    fifth_false (q.account_id == r.account_id) (same_value q.timestamp r.timestamp)
      (q.service == r.service) (q.region == r.region) (same_value q.usage_type r.usage_type)
      (q.recorded_at == r.recorded_at) (ap (λ o. same_value o r.usage_type) h)

length-upsert_null :
    (q : CostRecord) (table : List CostRecord)
    → q.usage_type ≡ none
    → length (upsert q table) ≡ length table + 1
unfolding upsert
length-upsert_null q [] h = omega arith
length-upsert_null q (r ∷ rest) h =
    rw (null_conflicts q r h) (omega (arith, length-upsert_null q rest h))

-- Records without a usage type never replace a row: each time that they are saved, every one of them
-- adds a row, also where the same records were saved before.
without_usage_type_each_adds :
    (qs table : List CostRecord)
    → All (λ q. q.usage_type ≡ none) qs
    → length (upsert_all qs table) ≡ length table + length qs
unfolding upsert_all
without_usage_type_each_adds [] table h = omega arith
without_usage_type_each_adds (q ∷ qs) table (here, rest) =
    omega (
      arith,
      length-upsert_null q table here,
      without_usage_type_each_adds qs (upsert q table) rest,
    )
