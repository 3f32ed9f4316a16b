-- ===== src/Billing/Unpaid.antt =====
-- What is paid for a tier, and when.
use cloud_sentinel_ai.Base.{
  ℕ, ◌+◌, ◌<◌, Instant, days, Bool, true, false, Option, none, some, ◌≡◌, refl, ap, ◌∙◌, arith, inl,
  inr, Option-cases, if_both, subst, nothing, one, nothing_found, scalar_one_or_none, eq→==,
}
use cloud_sentinel_ai.Base.Dict.{values, keep-put_new}
use cloud_sentinel_ai.Tiers.{PricingTier, trial, starter}
use cloud_sentinel_ai.Dunning.{TenantSubscription, Store, active, Charge, charged}
use cloud_sentinel_ai.Scheduler.{is_payment_due}
use cloud_sentinel_ai.Paystack.{find, of_tenant, save, new_subscription}
use cloud_sentinel_ai.Currency.{convert_usd_to_ngn}
use cloud_sentinel_ai.Billing.{
  Gateway, opened, placeholder, keep_or_add, checkout_price, checkout_in, create_checkout_session,
  charge_renewal, decrypted, renewal_price, payer_of, charge_payer, Payer,
}

found_placeholder :
    (id tenant : ℕ) (tier : PricingTier) (s : Store)
    → find (of_tenant tenant) s ≡ nothing
    → find (of_tenant tenant) (save (placeholder id tenant tier) s)
      ≡ one (placeholder id tenant tier)
unfolding find new_subscription
found_placeholder id tenant tier s h =
    ap (λ l. scalar_one_or_none l)
      (keep-put_new (of_tenant tenant) id (placeholder id tenant tier) s.subscriptions
        (eq→== tenant tenant refl) (nothing_found (of_tenant tenant) (values s.subscriptions) h))

never_due :
    (id tenant : ℕ) (tier : PricingTier) (now : Instant)
    → is_payment_due now (placeholder id tenant tier) ≡ false
unfolding is_payment_due new_subscription
never_due id tenant tier now = refl

create-checkout_in :
    (g : Gateway) (id tenant : ℕ) (tier : PricingTier) (email : ℕ) (is_annual : Bool) (s : Store)
    (price : ℕ)
    → checkout_price is_annual tier ≡ some price
    → create_checkout_session g id tenant tier email is_annual s
      ≡ checkout_in g id tenant tier email is_annual s
unfolding create_checkout_session
create-checkout_in g id tenant trial email true s price h = absurd (cc)
create-checkout_in g id tenant trial email false s price h = absurd (cc)
create-checkout_in g id tenant starter email is_annual s price h = refl
create-checkout_in g id tenant tier email is_annual s price h = refl

checkout_in_lem :
    (g : Gateway) (id tenant : ℕ) (tier : PricingTier) (email : ℕ) (is_annual : Bool) (s : Store)
    (price reference : ℕ)
    → find (of_tenant tenant) s ≡ nothing
    → checkout_price is_annual tier ≡ some price
    → g.initialize_transaction email (convert_usd_to_ngn price g.ngn_rate) ≡ some reference
    → checkout_in g id tenant tier email is_annual s
      ≡ (opened reference, save (placeholder id tenant tier) s)
unfolding checkout_in
checkout_in_lem g id tenant tier email is_annual s price reference h priced started =
    rw (priced, checkout_in)
      (rw (started, checkout_in) (ap (λ f. keep_or_add id tenant tier reference f s) h))

-- A tenant without a subscription that opens the checkout of a tier, and has paid nothing, has an
-- active subscription of that tier, and no billing sweep ever takes it to be due.
pub checkout_is_active :
    (g : Gateway) (id tenant : ℕ) (tier : PricingTier) (email : ℕ) (is_annual : Bool) (s : Store)
    (price reference : ℕ)
    → find (of_tenant tenant) s ≡ nothing
    → checkout_price is_annual tier ≡ some price
    → g.initialize_transaction email (convert_usd_to_ngn price g.ngn_rate) ≡ some reference
    → let (answer, t) = create_checkout_session g id tenant tier email is_annual s in
      (answer ≡ opened reference)
      × ((sub : TenantSubscription) × (find (of_tenant tenant) t ≡ one sub)
          × (sub.status ≡ active)
          × (sub.tier ≡ tier)
          × ((now : Instant) → is_payment_due now sub ≡ false))
unfolding placeholder new_subscription
checkout_is_active g id tenant tier email is_annual s price reference h priced started =
    rw
      (create-checkout_in g id tenant tier email is_annual s price priced
        ∙ checkout_in_lem g id tenant tier email is_annual s price reference h priced started)
      (
        refl,
        (
          placeholder id tenant tier,
          found_placeholder id tenant tier s h,
          refl,
          refl,
          never_due id tenant tier,
        ),
      )

-- A renewal that charges puts the next payment off by 30 days.
abbrev Renewed : Instant → Charge × TenantSubscription → Type 0
Renewed now (charged, sub) = sub.next_payment_date ≡ some (now + days 30)
Renewed now (_, sub) = Unit {0}

charge_payer-Renewed :
    (g : Gateway) (now : Instant) (code price : ℕ) (u : Option Payer) (sub : TenantSubscription)
    → Renewed now (charge_payer g now code price u sub)
charge_payer-Renewed g now code price none sub = tt
charge_payer-Renewed g now code price (some u) sub =
    if_both (Renewed now)
      (g.charge_authorization u.email (convert_usd_to_ngn price g.ngn_rate) code) refl tt

charge_renewal-Renewed :
    (g : Gateway) (now : Instant) (sub : TenantSubscription)
    → Renewed now (charge_renewal g now sub)
unfolding charge_renewal
charge_renewal-Renewed g now sub = elim (Option-cases (decrypted g sub.paystack_auth_code)) [
  | inl e ↦ rw (e, Renewed, charge_renewal) tt
  | inr (code, e) ↦ elim (Option-cases (renewal_price g sub.tier)) [
    | inl f ↦ rw (e, Renewed, charge_renewal) (rw (f, Renewed, charge_renewal) tt)
    | inr (price, f) ↦
        rw (e, Renewed, charge_renewal)
          (rw (f, Renewed, charge_renewal)
            (charge_payer-Renewed g now code price (payer_of sub.tenant_id g.users) sub))
  ]
]

not_due :
    (now later : Instant) (sub : TenantSubscription)
    → sub.next_payment_date ≡ some (now + days 30)
    → later < now + days 30
    → is_payment_due later sub ≡ false
unfolding is_payment_due
not_due now later sub e h = ground arith

-- A subscription whose renewal was charged is not due again for 30 days.
renewed_is_not_due :
    (g : Gateway) (now later : Instant) (sub sub' : TenantSubscription)
    → charge_renewal g now sub ≡ (charged, sub')
    → later < now + days 30
    → is_payment_due later sub' ≡ false
renewed_is_not_due g now later sub sub' h soon =
    not_due now later sub' (subst (Renewed now) h (charge_renewal-Renewed g now sub)) soon
