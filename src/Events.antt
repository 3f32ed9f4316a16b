-- ===== src/Events.antt =====
-- The payment events that arrive as webhooks, as far as the code reads them (`event["data"]`,
-- app/modules/reporting/domain/billing/paystack_billing.py). A text that is only compared or handed
-- to a library is a number, and one that is empty or missing is `none`.
use cloud_sentinel_ai.Base.{ℕ, Bool, Option}
use cloud_sentinel_ai.Base.Text.{Text}
use cloud_sentinel_ai.Tiers.{PricingTier}

pub record WebhookData : Type 0 where
  pub customer_code : Option ℕ
  pub customer_email : Option ℕ
  pub subscription_code : Option ℕ
  pub email_token : Option ℕ
  pub next_payment_date : Option ℕ
  pub metadata_tenant_id : Option ℕ
  pub metadata_tier : Option PricingTier
  pub has_plan : Bool
  pub authorization_code : Option ℕ
  pub reference : Option Text

-- The body of a webhook.
pub record PaymentEvent : Type 0 where
  pub event : Option Text
  pub data_ : WebhookData
