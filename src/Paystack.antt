-- ===== src/Paystack.antt =====
-- The handling of payment events (`WebhookHandler` of
-- app/modules/reporting/domain/billing/paystack_billing.py) on the subscriptions that the recovery of
-- failed payments works on. A handler commits once, at its end; one that raises changes nothing.
use cloud_sentinel_ai.Base.{
  ℕ, Instant, Bool, true, false, Option, none, some, List, [], ◌∷◌, ◌==◌, if◌then◌else◌, keep,
  Found, nothing, one, several, scalar_one_or_none,
}
use cloud_sentinel_ai.Base.Dict.{Dict, put, values}
use cloud_sentinel_ai.Base.Text.{Text, codes, same_text}
use cloud_sentinel_ai.Events.{WebhookData, PaymentEvent}
use cloud_sentinel_ai.Tiers.{PricingTier, trial}
use cloud_sentinel_ai.Dunning.{
  SubscriptionStatus, active, cancelled, TenantSubscription, Store, Clock, process_failed_payment,
}
pub mod Delivery
pub mod Charges
mod Samples

-- The columns of a user that the email lookup reads.
pub record User : Type 0 where
  pub email_bidx : ℕ
  pub tenant_id : ℕ

-- The libraries, the cryptography of app/shared/core/security.py with its keys configured, the
-- configuration, and the users.
pub record Environment : Type 0 where
  pub parse_uuid : ℕ → Option ℕ
  pub parse_date : ℕ → Option Instant
  pub generate_blind_index : ℕ → ℕ
  pub encrypt_string : ℕ → ℕ
  pub hmac_sha512 : Text → Text → Text
  pub parse_json : Text → Option PaymentEvent
  pub secret_key : Text
  pub users : List User

-- A call of a handler: its clock, and the identifier that `uuid4` draws in it.
pub record Call : Type 0 where
  pub clock : Clock
  pub new_id : ℕ

pub data Outcome : Type 0 where
  done : Store → Outcome
  raised : Outcome

abbrev pub is : ℕ → Option ℕ → Bool
is n none = false
is n (some m) = n == m

abbrev pub has_customer : ℕ → TenantSubscription → Bool
has_customer code sub = is code sub.paystack_customer_code

abbrev pub has_code : ℕ → TenantSubscription → Bool
has_code code sub = is code sub.paystack_subscription_code

abbrev pub of_tenant : ℕ → TenantSubscription → Bool
of_tenant tenant sub = sub.tenant_id == tenant

-- The query for a subscription, ended by `scalar_one_or_none`.
unfoldable pub find : (TenantSubscription → Bool) → Store → Found TenantSubscription
find p s = scalar_one_or_none (keep p (values s.subscriptions))

abbrev pub save : TenantSubscription → Store → Store
save sub s = record s { subscriptions = put sub.id sub s.subscriptions }

-- `x or y`, for an optional value and for another that replaces it.
abbrev pub or_else : Option ℕ → Option ℕ → Option ℕ
or_else none y = y
or_else (some x) y = some x

abbrev pub date_or : (ℕ → Option Instant) → Option ℕ → Option Instant → Option Instant
date_or parse none old = old
date_or parse (some text) old = elim (parse text) [ none ↦ old | some date ↦ some date ]

unfoldable pub with_codes : Environment → WebhookData → TenantSubscription → TenantSubscription
with_codes env d sub = record sub {
  paystack_subscription_code = or_else d.subscription_code sub.paystack_subscription_code;
  paystack_email_token = or_else d.email_token sub.paystack_email_token;
  next_payment_date = date_or env.parse_date d.next_payment_date sub.next_payment_date;
  status = active;
}

abbrev pub change_found :
    (TenantSubscription → TenantSubscription) → Found TenantSubscription → Store → Outcome
change_found f nothing s = done s
change_found f (one sub) s = done (save (f sub) s)
change_found f several s = raised

unfoldable pub handle_subscription_create : Environment → WebhookData → Store → Outcome
unfolding find with_codes
handle_subscription_create env d s = elim d.customer_code [
  | none ↦ done s
  | some code ↦ change_found (with_codes env d) (find (has_customer code) s) s
]

-- The tenant of a charge: from the metadata, or else by the customer's email.
unfoldable pub tenant_by_email : Environment → Option ℕ → Found ℕ
tenant_by_email env none = nothing
tenant_by_email env (some email) =
    elim (scalar_one_or_none
      (keep (λ u. u.email_bidx == env.generate_blind_index email) env.users)) [
        | nothing ↦ nothing
        | one user ↦ one user.tenant_id
        | several ↦ several
      ]

abbrev pub parsed : (ℕ → Option ℕ) → Option ℕ → Option ℕ
parsed parse none = none
parsed parse (some text) = parse text

unfoldable pub tenant_of : Environment → WebhookData → Found ℕ
unfolding tenant_by_email
tenant_of env d = elim (parsed env.parse_uuid d.metadata_tenant_id) [
  | some tenant ↦ one tenant
  | none ↦ tenant_by_email env d.customer_email
]

-- A new row, with the columns' defaults.
unfoldable pub new_subscription : ℕ → ℕ → TenantSubscription
new_subscription id tenant = record {
  id = id;
  tenant_id = tenant;
  paystack_customer_code = none;
  paystack_subscription_code = none;
  paystack_email_token = none;
  paystack_auth_code = none;
  tier = trial;
  status = active;
  next_payment_date = none;
  canceled_at = none;
  dunning_attempts = 0;
  last_dunning_at = none;
  dunning_next_retry_at = none;
}

abbrev pub tier_or : Option PricingTier → PricingTier → PricingTier
tier_or none old = old
tier_or (some tier) old = tier

abbrev pub encrypted : (ℕ → ℕ) → Option ℕ → Option ℕ → Option ℕ
encrypted encrypt none old = old
encrypted encrypt (some code) old = some (encrypt code)

unfoldable pub activated : Environment → WebhookData → TenantSubscription → TenantSubscription
activated env d sub = record sub {
  paystack_customer_code = d.customer_code;
  paystack_auth_code = encrypted env.encrypt_string d.authorization_code sub.paystack_auth_code;
  tier = tier_or d.metadata_tier sub.tier;
  status = active;
}

-- The subscription payment of a tenant.
unfoldable pub activate_tenant : Environment → ℕ → WebhookData → ℕ → Store → Outcome
unfolding find activated new_subscription
activate_tenant env new_id d tenant s = elim (find (of_tenant tenant) s) [
  | nothing ↦ done (save (activated env d (new_subscription new_id tenant)) s)
  | one sub ↦ done (save (activated env d sub) s)
  | several ↦ raised
]

unfoldable pub handle_charge_success : Environment → ℕ → WebhookData → Store → Outcome
unfolding tenant_of activate_tenant
handle_charge_success env new_id d s = elim (tenant_of env d) [
  | nothing ↦ done s
  | one tenant ↦ if d.has_plan then activate_tenant env new_id d tenant s else done s
  | several ↦ raised
]

abbrev pub disabled : Instant → TenantSubscription → TenantSubscription
disabled now sub = record sub { status = cancelled; canceled_at = some now }

unfoldable pub handle_subscription_disable : Instant → WebhookData → Store → Outcome
unfolding find
handle_subscription_disable now d s = elim d.subscription_code [
  | none ↦ done s
  | some code ↦ change_found (disabled now) (find (has_code code) s) s
]

abbrev pub fail_found : Clock → Found TenantSubscription → Store → Outcome
fail_found c nothing s = done s
fail_found c (one sub) s = done (process_failed_payment c sub.id s).1
fail_found c several s = raised

unfoldable pub handle_invoice_failed : Clock → WebhookData → Store → Outcome
unfolding find
handle_invoice_failed c d s = elim d.subscription_code [
  | none ↦ done s
  | some code ↦ fail_found c (find (has_code code) s) s
]

abbrev pub Handler : Type 0
Handler = Environment → Call → WebhookData → Store → Outcome

-- The dictionary of the handlers, in `handle`.
abbrev pub handlers : List (Text × Handler)
handlers =
    (codes "subscription.create", λ env c d s. handle_subscription_create env d s)
    ∷ (
      codes "subscription.disable",
      λ env c d s. handle_subscription_disable c.clock.canceled_at d s,
    )
    ∷ (codes "charge.success", λ env c d s. handle_charge_success env c.new_id d s)
    ∷ (codes "invoice.payment_failed", λ env c d s. handle_invoice_failed c.clock d s)
    ∷ []

abbrev pub get_handler : Text → List (Text × Handler) → Option Handler
get_handler event [] = none
get_handler event ((name, h) ∷ rest) =
    if same_text name event then some h else get_handler event rest

abbrev pub run_handler : Option Handler → Environment → Call → WebhookData → Store → Outcome
run_handler none env c d s = done s
run_handler (some h) env c d s = h env c d s

-- What `handle` does with an event once it is verified and parsed.
unfoldable pub dispatch : Environment → Call → PaymentEvent → Store → Outcome
dispatch env c e s = elim e.event [
  | none ↦ done s
  | some event ↦ run_handler (get_handler event handlers) env c e.data_ s
]

-- A signature or a key that is empty is none.
unfoldable pub verify_signature : Environment → Text → Text → Bool
unfolding same_text
verify_signature env payload [] = false
verify_signature env payload (x ∷ signature) = elim env.secret_key [
  | [] ↦ false
  | k ∷ key ↦ same_text (env.hmac_sha512 (k ∷ key) payload) (x ∷ signature)
]

pub data Handling : Type 0 where
  unauthorized invalid_json failed : Handling
  success : Store → Handling

abbrev pub handling_of : Outcome → Handling
handling_of (done s) = success s
handling_of raised = failed

unfoldable pub handle : Environment → Call → Text → Text → Store → Handling
unfolding verify_signature dispatch
handle env c payload signature s =
    if verify_signature env payload signature
    then elim (env.parse_json payload) [
      | none ↦ invalid_json
      | some e ↦ handling_of (dispatch env c e s)
    ]
    else unauthorized
