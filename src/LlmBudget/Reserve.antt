-- ===== src/LlmBudget/Reserve.antt =====
-- What the authorisation of a request is worth.
use cloud_sentinel_ai.Base.{
  ltb, if_both, if_each, sym, ◌∙◌, ap, Bool-cases, ℕ, ◌+◌, ◌≤◌, ◌<◌, ◌≡◌, Instant, Bool, Option,
  none, some, List, [], ◌∷◌, arith, refl, inl, inr, if◌then◌else◌, ◌==◌,
}
use cloud_sentinel_ai.Base.Dict.{get, put, get-put}
use cloud_sentinel_ai.LlmBudget.{
  LlmBudget, LlmUsage, Store, Result, done, raised, counts, usage_since, current_usage,
  check_and_reserve, record_usage, check_budget_and_alert, alert_in, reserve_in,
}

-- A request to a model: when, for whom, the estimate that is reserved and the cost that is recorded.
pub record Request : Type 0 where
  pub now : Instant
  pub tenant : ℕ
  pub estimate : ℕ
  pub actual : ℕ

usage_since-cons :
    (tenant : ℕ) (start : Instant) (u : LlmUsage) (us : List LlmUsage)
    → usage_since tenant start (u ∷ us) ≡ (
        if counts tenant start u
        then u.cost_usd + usage_since tenant start us
        else usage_since tenant start us)
unfolding usage_since
usage_since-cons tenant start u us = ground arith

module _ (month_start : Instant → Instant) where
  -- A tenant's budget, and what it has used since `start` is within it.
  abbrev pub IsWithin : Instant → ℕ → ℕ → Store → Type 0
  IsWithin start tenant limit s =
      (b : LlmBudget) × (get tenant s.budgets ≡ some b)
      × (b.monthly_limit_usd ≡ limit)
      × (usage_since tenant start s.usage ≤ limit)

  -- Authorise, and if that succeeds call the model and record the cost.
  authorised : Bool → Request → Store → Result ℕ → Store
  authorised slack q s (done _) = record_usage month_start slack q.now q.tenant q.actual s
  authorised slack q s (raised _) = s

  unfoldable pub spend : Bool → Request → Store → Store
  unfolding authorised
  spend slack q s = authorised slack q s (check_and_reserve month_start q.now q.tenant q.estimate s)

  unfoldable pub spend_all : Bool → List Request → Store → Store
  spend_all slack [] s = s
  spend_all slack (q ∷ qs) s = spend_all slack qs (spend slack q s)

  -- No usage is touched, and the tenant's budget keeps its limit.
  abbrev Keeps : ℕ → LlmBudget → Store → Store → Type 0
  Keeps tenant b s s' =
      (s'.usage ≡ s.usage)
      × ((b' : LlmBudget) × (get tenant s'.budgets ≡ some b')
          × (b'.monthly_limit_usd ≡ b.monthly_limit_usd))

  put_keeps :
      (t tenant : ℕ) (now : Instant) (s : Store) (c b : LlmBudget)
      → get t s.budgets ≡ some c
      → get tenant s.budgets ≡ some b
      → (b' : LlmBudget) × (get tenant (put t (record c { alert_sent_at = some now }) s.budgets)
          ≡ some b')
        × (b'.monthly_limit_usd ≡ b.monthly_limit_usd)
  put_keeps t tenant now s c b e h =
      let c' = record c { alert_sent_at = some now } in
      elim (Bool-cases (t == tenant)) [
        | inl same ↦ (c', ground (arith, get-put t tenant c' s.budgets), ground arith)
        | inr other ↦ (b, ground (arith, get-put t tenant c' s.budgets), refl)
      ]

  alert_in-Keeps :
      (slack : Bool) (now : Instant) (t tenant : ℕ) (o : Option LlmBudget) (s : Store)
      (b : LlmBudget)
      → get t s.budgets ≡ o
      → get tenant s.budgets ≡ some b
      → Keeps tenant b s (alert_in month_start slack now t o s)
  unfolding alert_in
  alert_in-Keeps slack now t tenant none s b e h = (refl, (b, h, refl))
  alert_in-Keeps slack now t tenant (some c) s b e h =
      if_both (Keeps tenant b s) _ (refl, put_keeps t tenant now s c b e h) (refl, (b, h, refl))

  record_usage-IsWithin :
      (slack : Bool) (q : Request) (start : Instant) (tenant limit : ℕ) (s : Store)
      → IsWithin start tenant limit s
      → (q.tenant ≡ tenant → usage_since tenant start s.usage + q.actual ≤ limit)
      → IsWithin start tenant limit (record_usage month_start slack q.now q.tenant q.actual s)
  unfolding record_usage check_budget_and_alert
  record_usage-IsWithin slack q start tenant limit s (b, h, l, u) room =
      let new : LlmUsage = record {
        tenant_id = q.tenant;
        cost_usd = q.actual;
        created_at = q.now;
      } in
      let (used, (b', h', l')) =
        alert_in-Keeps slack q.now q.tenant tenant (get q.tenant s.budgets)
          (record s { usage = new ∷ s.usage }) b refl h in
      (b', h', l' ∙ l, rw used (rw usage_since-cons (ground arith)))

  authorised-IsWithin :
      (slack : Bool) (q : Request) (tenant limit : ℕ) (o : Option LlmBudget) (s : Store)
      → get q.tenant s.budgets ≡ o
      → q.actual ≤ q.estimate
      → IsWithin (month_start q.now) tenant limit s
      → IsWithin
          (month_start q.now)
          tenant
          limit
          (authorised slack q s (reserve_in month_start q.now q.tenant q.estimate o s))
  unfolding authorised reserve_in
  authorised-IsWithin slack q tenant limit none s e a h = h
  authorised-IsWithin slack q tenant limit (some c) s e a (b, g, l, u) =
      if_each (λ (x : Result ℕ). IsWithin (month_start q.now) tenant limit (authorised slack q s x))
        (ltb c.monthly_limit_usd (current_usage month_start q.now q.tenant s + q.estimate))
        (λ over. (b, g, l, u))
        (λ fits.
          record_usage-IsWithin slack q (month_start q.now) tenant limit s (b, g, l, u)
            (λ t.
              let used : current_usage month_start q.now q.tenant s
                  ≡ usage_since tenant (month_start q.now) s.usage =
                unfold current_usage in ap (λ n. usage_since n (month_start q.now) s.usage) t in
              let same : some c ≡ some b = sym e ∙ (ap (λ n. get n s.budgets) t ∙ g) in
              ground arith))

  spend-IsWithin :
      (slack : Bool) (q : Request) (tenant limit : ℕ) (s : Store)
      → q.actual ≤ q.estimate
      → IsWithin (month_start q.now) tenant limit s
      → IsWithin (month_start q.now) tenant limit (spend slack q s)
  unfolding spend check_and_reserve
  spend-IsWithin slack q tenant limit s a h =
      authorised-IsWithin slack q tenant limit (get q.tenant s.budgets) s refl a h

  -- The requests are of the month that starts at `start`, and no cost is above its estimate.
  abbrev pub AreEstimated : Instant → List Request → Type 0
  AreEstimated start [] = Unit
  AreEstimated start (q ∷ qs) =
      (month_start q.now ≡ start) × (q.actual ≤ q.estimate) × AreEstimated start qs

  -- If every request is authorised before it is recorded, one after the other, and no cost is above
  -- its estimate, then a tenant whose usage of the month is within its budget stays within it, after
  -- any requests of that month by any tenants.
  pub spend_all-IsWithin :
      (slack : Bool) (qs : List Request) (start : Instant) (tenant limit : ℕ) (s : Store)
      → AreEstimated start qs
      → IsWithin start tenant limit s
      → IsWithin start tenant limit (spend_all slack qs s)
  unfolding spend_all
  spend_all-IsWithin slack [] start tenant limit s es h = h
  spend_all-IsWithin slack (q ∷ qs) start tenant limit s (m, a, es) h =
      let h' : IsWithin (month_start q.now) tenant limit s = rw m h in
      let k = spend-IsWithin slack q tenant limit s a h' in
      spend_all-IsWithin slack qs start tenant limit (spend slack q s) es (rw m at k)

  fits_authorised :
      (now : Instant) (tenant cost : ℕ) (s : Store) {b : LlmBudget}
      → get tenant s.budgets ≡ some b
      → current_usage month_start now tenant s + cost ≤ b.monthly_limit_usd
      → check_and_reserve month_start now tenant cost s ≡ done cost
  unfolding check_and_reserve reserve_in
  fits_authorised now tenant cost s h fits = rw (h, reserve_in) (ground arith)

  alert_in_usage :
      (slack : Bool) (now : Instant) (t : ℕ) (o : Option LlmBudget) (s : Store)
      → (alert_in month_start slack now t o s).usage ≡ s.usage
  unfolding alert_in
  alert_in_usage slack now t none s = refl
  alert_in_usage slack now t (some c) s = if_both (λ (x : Store). x.usage ≡ s.usage) _ refl refl

  -- One row is added for a recorded cost.
  pub record_usage_adds_row :
      (slack : Bool) (now : Instant) (tenant cost : ℕ) (s : Store)
      → (record_usage month_start slack now tenant cost s).usage
        ≡ record { tenant_id = tenant; cost_usd = cost; created_at = now } ∷ s.usage
  unfolding record_usage check_budget_and_alert
  record_usage_adds_row slack now tenant cost s =
      alert_in_usage slack now tenant (get tenant s.budgets) _

  -- A recorded cost counts in full.
  usage-record_usage :
      (slack : Bool) (now : Instant) (tenant cost : ℕ) (s : Store)
      → month_start now ≤ now
      → current_usage month_start now tenant (record_usage month_start slack now tenant cost s)
        ≡ cost + current_usage month_start now tenant s
  unfolding record_usage check_budget_and_alert current_usage
  usage-record_usage slack now tenant cost s m =
      let new : LlmUsage = record { tenant_id = tenant; cost_usd = cost; created_at = now } in
      rw
        (alert_in_usage slack now tenant (get tenant s.budgets)
          (record s { usage = new ∷ s.usage }))
        (rw usage_since-cons (ground arith))

  -- An authorisation reserves nothing: of two requests that fit singly and not together, both are
  -- authorised if both ask before either is recorded, and once both costs are recorded the
  -- month's usage is above the limit.
  pub two_authorised_overspend :
      (slack : Bool) (now : Instant) (tenant cost : ℕ) (s : Store) {b : LlmBudget}
      → month_start now ≤ now
      → get tenant s.budgets ≡ some b
      → current_usage month_start now tenant s + cost ≤ b.monthly_limit_usd
      → b.monthly_limit_usd < current_usage month_start now tenant s + cost + cost
      → let first = check_and_reserve month_start now tenant cost s in
        let second = check_and_reserve month_start now tenant cost s in
        let once = record_usage month_start slack now tenant cost s in
        let twice = record_usage month_start slack now tenant cost once in
        (first ≡ done cost)
        × (second ≡ done cost)
        × (b.monthly_limit_usd < current_usage month_start now tenant twice)
  two_authorised_overspend slack now tenant cost s m h fits over =
      let once = record_usage month_start slack now tenant cost s in
      let ok = fits_authorised now tenant cost s h fits in
      (
        ok,
        ok,
        omega (
          arith,
          usage-record_usage slack now tenant cost s m,
          usage-record_usage slack now tenant cost once m,
        ),
      )
