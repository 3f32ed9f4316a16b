-- ===== src/Billing.antt =====
-- The checkout, the renewal and the cancellation of subscriptions (`BillingService` of
-- app/modules/reporting/domain/billing/paystack_billing.py). Prices are in cents.
-- The payment provider, the rate that `get_ngn_rate` gave, the table of plans and the encryption are
-- given by a `Gateway`.
use cloud_sentinel_ai.Base.{
  ℕ, ◌+◌, Instant, days, Bool, true, false, Option, none, some, List, [], ◌∷◌, ◌==◌, if◌then◌else◌,
  Found, nothing, one, several,
}
use cloud_sentinel_ai.Tiers.{PricingTier, free, trial, starter, growth, pro, enterprise}
use cloud_sentinel_ai.Dunning.{
  TenantSubscription, Store, cancelled, Charge, charged, declined, raised,
}
use cloud_sentinel_ai.Paystack.{find, of_tenant, save, new_subscription}
use cloud_sentinel_ai.Currency.{convert_usd_to_ngn}
pub mod Unpaid
mod Samples

-- A user as the renewal reads it.
pub record Payer : Type 0 where
  pub tenant_id : ℕ
  pub email : ℕ

-- `plan_price` is the price of the tier's row, if it has one; `initialize_transaction` gives the
-- reference, or raises; `charge_authorization` says whether the charge succeeded, and is false also if
-- it raises; `disable_subscription` is false if it raises.
pub record Gateway : Type 0 where
  pub plan_price : PricingTier → Option ℕ
  pub ngn_rate : ℕ
  pub decrypt_string : ℕ → Option ℕ
  pub users : List Payer
  pub initialize_transaction : ℕ → ℕ → Option ℕ
  pub charge_authorization : ℕ → ℕ → ℕ → Bool
  pub disable_subscription : ℕ → ℕ → Bool

-- `config["price_usd"]["annual"]` or `["monthly"]`, which raises where the price is no dictionary.
abbrev pub checkout_price : Bool → PricingTier → Option ℕ
checkout_price true starter = some 29000
checkout_price true growth = some 79000
checkout_price true pro = some 199000
checkout_price false starter = some 2900
checkout_price false growth = some 7900
checkout_price false pro = some 19900
checkout_price _ _ = none

pub data Checkout : Type 0 where
  trial_refused failed : Checkout
  opened : ℕ → Checkout

-- The placeholder, with the columns' defaults.
abbrev pub placeholder : ℕ → ℕ → PricingTier → TenantSubscription
unfolding new_subscription
placeholder id tenant tier = record (new_subscription id tenant) { tier = tier }

abbrev pub keep_or_add :
    ℕ → ℕ → PricingTier → ℕ → Found TenantSubscription → Store → Checkout × Store
keep_or_add id tenant tier reference nothing s =
    (opened reference, save (placeholder id tenant tier) s)
keep_or_add id tenant tier reference (one _) s = (opened reference, s)
keep_or_add id tenant tier reference several s = (failed, s)

unfoldable pub checkout_in : Gateway → ℕ → ℕ → PricingTier → ℕ → Bool → Store → Checkout × Store
checkout_in g id tenant tier email is_annual s = elim (checkout_price is_annual tier) [
  | none ↦ (failed, s)
  | some price ↦ elim (g.initialize_transaction email (convert_usd_to_ngn price g.ngn_rate)) [
    | none ↦ (failed, s)
    | some reference ↦ keep_or_add id tenant tier reference (find (of_tenant tenant) s) s
  ]
]

unfoldable pub create_checkout_session :
    Gateway → ℕ → ℕ → PricingTier → ℕ → Bool → Store → Checkout × Store
unfolding checkout_in
create_checkout_session g id tenant trial email is_annual s = (trial_refused, s)
create_checkout_session g id tenant tier email is_annual s =
    checkout_in g id tenant tier email is_annual s

-- The price of the configuration, where a number is taken as it is; for enterprise it is `None`, and
-- its conversion raises.
abbrev pub config_price : PricingTier → Option ℕ
config_price free = some 0
config_price trial = some 0
config_price starter = some 2900
config_price growth = some 7900
config_price pro = some 19900
config_price enterprise = none

abbrev pub renewal_price : Gateway → PricingTier → Option ℕ
renewal_price g tier = elim (g.plan_price tier) [
  | none ↦ config_price tier
  | some price ↦ some price
]

abbrev pub payer_of : ℕ → List Payer → Option Payer
payer_of tenant [] = none
payer_of tenant (u ∷ us) = if u.tenant_id == tenant then some u else payer_of tenant us

abbrev pub decrypted : Gateway → Option ℕ → Option ℕ
decrypted g none = none
decrypted g (some code) = g.decrypt_string code

abbrev pub charge_payer :
    Gateway → Instant → ℕ → ℕ → Option Payer → TenantSubscription → Charge × TenantSubscription
charge_payer g now code price none sub = (declined, sub)
charge_payer g now code price (some u) sub =
    if g.charge_authorization u.email (convert_usd_to_ngn price g.ngn_rate) code
    then (charged, record sub { next_payment_date = some (now + days 30) })
    else (declined, sub)

-- What the renewal returns, or that it raises, and the subscription.
unfoldable pub charge_renewal : Gateway → Instant → TenantSubscription → Charge × TenantSubscription
charge_renewal g now sub = elim (decrypted g sub.paystack_auth_code) [
  | none ↦ (declined, sub)
  | some code ↦ elim (renewal_price g sub.tier) [
    | none ↦ (raised, sub)
    | some price ↦ charge_payer g now code price (payer_of sub.tenant_id g.users) sub
  ]
]

pub data Cancellation : Type 0 where
  nothing_to_cancel provider_failed several_subscriptions done : Cancellation

abbrev pub cancel_with :
    Gateway → Instant → Option ℕ → Option ℕ → TenantSubscription → Store → Cancellation × Store
cancel_with g now none _ sub s = (nothing_to_cancel, s)
cancel_with g now (some code) none sub s = (nothing_to_cancel, s)
cancel_with g now (some code) (some token) sub s =
    if g.disable_subscription code token
    then (done, save (record sub { status = cancelled; canceled_at = some now }) s)
    else (provider_failed, s)

abbrev pub cancel_found :
    Gateway → Instant → Found TenantSubscription → Store → Cancellation × Store
cancel_found g now nothing s = (nothing_to_cancel, s)
cancel_found g now several s = (several_subscriptions, s)
cancel_found g now (one sub) s =
    cancel_with g now sub.paystack_subscription_code sub.paystack_email_token sub s

unfoldable pub cancel_subscription : Gateway → Instant → ℕ → Store → Cancellation × Store
cancel_subscription g now tenant s = cancel_found g now (find (of_tenant tenant) s) s
