-- ===== src/LlmBudget/Alerts.antt =====
-- A tenant is alerted at most once a month.
use cloud_sentinel_ai.Base.{
  ℕ, ◌+◌, ◌≤◌, ◌≡◌, Instant, Bool, Option, none, some, List, [], ◌∷◌, arith, refl, ◌==◌,
  if◌then◌else◌, if_each, Bool-cases, inl, inr, ◌&&◌, not,
}
use cloud_sentinel_ai.Base.Dict.{get, get-put}
use cloud_sentinel_ai.LlmBudget.{
  LlmBudget, LlmUsage, Store, already_sent, percent_reached, current_usage, alert_in,
  check_budget_and_alert, record_usage,
}

-- The alerts of a tenant among those that were sent.
abbrev pub alerts_of : ℕ → List (ℕ × Bool) → ℕ
alerts_of tenant [] = 0
alerts_of tenant ((t, _) ∷ rest) =
    if t == tenant then 1 + alerts_of tenant rest else alerts_of tenant rest

-- The usage that is recorded: when, for whom and at what cost.
pub record Usage : Type 0 where
  pub now : Instant
  pub tenant : ℕ
  pub cost : ℕ

module _ (month_start : Instant → Instant) where
  unfoldable pub record_all : Bool → List Usage → Store → Store
  record_all slack [] s = s
  record_all slack (u ∷ us) s =
      record_all slack us (record_usage month_start slack u.now u.tenant u.cost s)

  abbrev pub AreIn : Instant → List Usage → Type 0
  AreIn start [] = Unit
  AreIn start (u ∷ us) = (month_start u.now ≡ start) × AreIn start us

  -- How many alerts of the month the budget still allows.
  abbrev left : Instant → Option LlmBudget → ℕ
  left now none = 0
  left now (some b) = if already_sent month_start now b.alert_sent_at then 0 else 1

  abbrev potential : Instant → ℕ → Store → ℕ
  potential now tenant s = alerts_of tenant s.alerts + left now (get tenant s.budgets)

  left-le : (now : Instant) (o : Option LlmBudget) → left now o ≤ 1
  left-le now none = omega arith
  left-le now (some b) = ground arith

  sent_now :
      (now : Instant) (b : LlmBudget) → left now (some (record b { alert_sent_at = some now })) ≡ 0
  unfolding already_sent
  sent_now now b = ground arith

  alert_in-potential :
      (slack : Bool) (now : Instant) (t tenant : ℕ) (o : Option LlmBudget) (s : Store)
      → get t s.budgets ≡ o
      → potential now tenant (alert_in month_start slack now t o s) ≤ potential now tenant s
  unfolding alert_in
  alert_in-potential slack now t tenant none s e = omega arith
  alert_in-potential slack now t tenant (some c) s e =
      let c' = record c { alert_sent_at = some now } in
      if_each (λ (x : Store). potential now tenant x ≤ potential now tenant s)
        (percent_reached (current_usage month_start now t s) c.monthly_limit_usd
            c.alert_threshold_percent
          && not (already_sent month_start now c.alert_sent_at))
        (λ fires. elim (Bool-cases (t == tenant)) [
          | inl same ↦ ground (arith, get-put t tenant c' s.budgets, sent_now now c)
          | inr other ↦ ground (arith, get-put t tenant c' s.budgets)
        ])
        (λ quiet. omega arith)

  left_of_month :
      (now now' : Instant) (o : Option LlmBudget)
      → month_start now ≡ month_start now'
      → left now o ≡ left now' o
  unfolding already_sent
  left_of_month now now' none m = refl
  left_of_month now now' (some b) m = ground arith

  record_all-potential :
      (slack : Bool) (us : List Usage) (now : Instant) (tenant : ℕ) (s : Store)
      → AreIn (month_start now) us
      → potential now tenant (record_all slack us s) ≤ potential now tenant s
  unfolding record_all
  record_all-potential slack [] now tenant s h = omega arith
  record_all-potential slack (u ∷ us) now tenant s (m, h) =
      let new : LlmUsage = record { tenant_id = u.tenant; cost_usd = u.cost; created_at = u.now } in
      let s' = record_usage month_start slack u.now u.tenant u.cost s in
      let step : potential u.now tenant s' ≤ potential u.now tenant s =
        unfold record_usage check_budget_and_alert in
        alert_in-potential slack u.now u.tenant tenant (get u.tenant s.budgets)
          (record s { usage = new ∷ s.usage }) refl in
      omega (
        arith,
        record_all-potential slack us now tenant s' h,
        step,
        left_of_month u.now now (get tenant s.budgets) m,
        left_of_month u.now now (get tenant s'.budgets) m,
      )

  -- Whatever usage is recorded within one month, for whatever tenants, at most one alert of a
  -- tenant is sent.
  pub alerted_once :
      (slack : Bool) (us : List Usage) (now : Instant) (tenant : ℕ) (s : Store)
      → AreIn (month_start now) us
      → alerts_of tenant (record_all slack us s).alerts ≤ alerts_of tenant s.alerts + 1
  alerted_once slack us now tenant s h =
      omega
        (arith, record_all-potential slack us now tenant s h, left-le now (get tenant s.budgets))
