-- ===== src/Paystack/Samples.antt =====
-- A tenant that pays for the first time.
use cloud_sentinel_ai.Base.{true, false, none, some, [], ◌∷◌, ◌≡◌, refl, ◌+◌, ◌++◌}
use cloud_sentinel_ai.Events.{WebhookData}
use cloud_sentinel_ai.Tiers.{growth}
use cloud_sentinel_ai.Dunning.{Store, active}
use cloud_sentinel_ai.Paystack.{Environment, done, find, handle_charge_success, verify_signature}
use cloud_sentinel_ai.Paystack.Charges.{IsKeyed}

-- No text is an identifier, so that the tenant is found by its email.
abbrev environment : Environment
environment = record {
  parse_uuid = λ _. none;
  parse_date = λ text. some text;
  generate_blind_index = λ email. email + 1000;
  encrypt_string = λ code. code + 7;
  hmac_sha512 = λ key body. key ++ body;
  parse_json = λ _. none;
  secret_key = 1 ∷ [];
  users = record { email_bidx = 1005; tenant_id = 7 } ∷ [];
}

abbrev paid : WebhookData
paid = record {
  customer_code = some 11;
  customer_email = some 5;
  subscription_code = none;
  email_token = none;
  next_payment_date = none;
  metadata_tenant_id = some 3;
  metadata_tier = some growth;
  has_plan = true;
  authorization_code = some 90;
  reference = none;
}

abbrev empty : Store
empty = record { subscriptions = []; jobs = [] }

abbrev activated_store : Store
activated_store = record {
  subscriptions =
      (
        40,
        record {
          id = 40;
          tenant_id = 7;
          paystack_customer_code = some 11;
          paystack_subscription_code = none;
          paystack_email_token = none;
          paystack_auth_code = some 97;
          tier = growth;
          status = active;
          next_payment_date = none;
          canceled_at = none;
          dunning_attempts = 0;
          last_dunning_at = none;
          dunning_next_retry_at = none;
        },
      )
      ∷ [];
  jobs = [];
}

first_charge : handle_charge_success environment 40 paid empty ≡ done activated_store
unfolding handle_charge_success find
first_charge = refl

empty-IsKeyed : IsKeyed empty
unfolding find
empty-IsKeyed tenant sub h = absurd (cc)

signed : verify_signature environment (2 ∷ []) (1 ∷ 2 ∷ []) ≡ true
unfolding verify_signature
signed = refl

unsigned : verify_signature environment (2 ∷ []) (3 ∷ 2 ∷ []) ≡ false
unfolding verify_signature
unsigned = refl
