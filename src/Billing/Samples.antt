-- ===== src/Billing/Samples.antt =====
-- A tenant that opens the checkout, and one that renews.
use cloud_sentinel_ai.Base.{
  ◌+◌, Instant, days, true, false, none, some, [], ◌∷◌, ◌≡◌, refl, nothing, one,
}
use cloud_sentinel_ai.Tiers.{pro}
use cloud_sentinel_ai.Dunning.{TenantSubscription, Store, active, charged}
use cloud_sentinel_ai.Scheduler.{is_payment_due}
use cloud_sentinel_ai.Paystack.{find, of_tenant, new_subscription}
use cloud_sentinel_ai.Billing.{
  Gateway, opened, create_checkout_session, charge_renewal, placeholder,
}
use cloud_sentinel_ai.Billing.Unpaid.{checkout_is_active}

abbrev gateway : Gateway
gateway = record {
  plan_price = λ _. none;
  ngn_rate = 145012350000;
  decrypt_string = λ code. some code;
  users = record { tenant_id = 7; email = 5 } ∷ [];
  initialize_transaction = λ _ _. some 33;
  charge_authorization = λ _ _ _. true;
  disable_subscription = λ _ _. true;
}

abbrev empty : Store
empty = record { subscriptions = []; jobs = [] }

none_yet : find (of_tenant 7) empty ≡ nothing
unfolding find
none_yet = refl

checkout_is_active_example :
    let (answer, t) = create_checkout_session gateway 40 7 pro 5 false empty in
    (answer ≡ opened 33)
    × ((sub : TenantSubscription) × (find (of_tenant 7) t ≡ one sub)
        × (sub.status ≡ active)
        × (sub.tier ≡ pro)
        × ((now : Instant) → is_payment_due now sub ≡ false))
checkout_is_active_example =
    checkout_is_active gateway 40 7 pro 5 false empty 19900 33 none_yet refl refl

abbrev paying : TenantSubscription
unfolding placeholder new_subscription
paying = record (placeholder 40 7 pro) {
  paystack_auth_code = some 97;
  next_payment_date = some 100;
}

abbrev renewed : TenantSubscription
renewed = record paying { next_payment_date = some (200 + days 30) }

renewal_charged : charge_renewal gateway 200 paying ≡ (charged, renewed)
unfolding charge_renewal placeholder new_subscription
renewal_charged = refl
