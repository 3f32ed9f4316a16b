-- ===== src/Webhooks/Samples.antt =====
-- The webhook of an invoice that was not paid.
use cloud_sentinel_ai.Base.{
  ℕ, ◌+◌, Instant, hours, true, false, none, some, List, [], ◌∷◌, ◌++◌, ◌≡◌, ◌≢◌, refl, arith, one,
}
use cloud_sentinel_ai.Base.Text.{Text, codes}
use cloud_sentinel_ai.Events.{PaymentEvent}
use cloud_sentinel_ai.Tiers.{growth}
use cloud_sentinel_ai.Jobs.{Webhook, timed_out}
use cloud_sentinel_ai.Dunning.{TenantSubscription, Store, active, attention}
use cloud_sentinel_ai.Base.Dict.{get}
use cloud_sentinel_ai.Paystack.{Environment, Call, find, has_code, verify_signature}
use cloud_sentinel_ai.Webhooks.{
  Library, Request, HttpRequest, succeeded, store_webhook, find_done, find_queued, handle_webhook,
  process_paystack_webhook, reference_of, request_of_event, several_found,
}
use cloud_sentinel_ai.Webhooks.Unique.{
  Single, Event, received, started, ended, stuck_detected, run, webhooks_are_unique,
}
use cloud_sentinel_ai.Webhooks.Retries.{after_processing}
use cloud_sentinel_ai.Webhooks.Endpoint.{job_of, IsNew}
use cloud_sentinel_ai.Webhooks.Twice.{failure_counted_twice}

abbrev unpaid : PaymentEvent
unpaid = record {
  event = some (codes "invoice.payment_failed");
  data_ = record {
    customer_code = some 11;
    customer_email = none;
    subscription_code = some 21;
    email_token = none;
    next_payment_date = none;
    metadata_tenant_id = none;
    metadata_tier = none;
    has_plan = false;
    authorization_code = none;
    reference = some (8 ∷ []);
  };
}

abbrev environment : Environment
environment = record {
  parse_uuid = λ _. none;
  parse_date = λ text. some text;
  generate_blind_index = λ email. email + 1000;
  encrypt_string = λ code. code + 7;
  hmac_sha512 = λ key body. key ++ body;
  parse_json = λ _. some unpaid;
  secret_key = 1 ∷ [];
  users = [];
}

abbrev first_of : Text → ℕ
first_of [] = 0
first_of (c ∷ _) = c

abbrev library : Library
library = record { sha256 = first_of; show = λ now. now ∷ [] }

abbrev subscription : TenantSubscription
subscription = record {
  id = 5;
  tenant_id = 7;
  paystack_customer_code = some 11;
  paystack_subscription_code = some 21;
  paystack_email_token = none;
  paystack_auth_code = some 77;
  tier = growth;
  status = active;
  next_payment_date = some 100;
  canceled_at = none;
  dunning_attempts = 0;
  last_dunning_at = none;
  dunning_next_retry_at = none;
}

abbrev billing : Store
billing = record { subscriptions = (5, subscription) ∷ []; jobs = [] }

abbrev call_at : ℕ → Call
call_at t = record {
  clock = record { charged_at = t; now = t; enqueued_at = t; canceled_at = t; job_id = t };
  new_id = t;
}

abbrev request : HttpRequest
request = record {
  is_production = true;
  is_known_origin = true;
  body = 2 ∷ [];
  signature = 1 ∷ 2 ∷ [];
}

abbrev forged : HttpRequest
forged = record request { signature = 3 ∷ [] }

request_is_signed : verify_signature environment (2 ∷ []) (1 ∷ 2 ∷ []) ≡ true
unfolding verify_signature
request_is_signed = refl

is_new : IsNew library 1000 unpaid billing
unfolding find_done find_queued
is_new = (refl, refl)

is_found : find (has_code 21) billing ≡ one subscription
unfolding find
is_found = refl

failure_counted_twice_example :
    let (answer, t) = handle_webhook environment library (call_at 1000) 9 1000 request billing in
    (answer ≡ succeeded)
    × ((u : Store) × (after_processing
            (process_paystack_webhook environment (call_at 2000) (job_of library 9 1000 unpaid) t)
          ≡ some u)
        × ((twice : TenantSubscription) × (get 5 u.subscriptions ≡ some twice)
            × (twice.dunning_attempts ≡ 2)
            × (twice.status ≡ attention)))
failure_counted_twice_example =
    failure_counted_twice environment library (call_at 1000) (call_at 2000) 9 1000 request unpaid 21
      subscription billing refl request_is_signed refl refl refl is_found refl refl is_new

abbrev stored_webhook : Webhook
stored_webhook = record {
  provider = codes "paystack";
  event_type = codes "invoice.payment_failed";
  payload = unpaid;
  idempotency_key = 112;
  reference = 8 ∷ [];
}

same_reference :
    reference_of library 2000 (request_of_event unpaid)
    ≡ reference_of library 1000 (request_of_event unpaid)
unfolding reference_of
same_reference = refl

abbrev evening : List Event
evening =
    received library 9 1000 (request_of_event unpaid)
    ∷ started 1001 9
    ∷ received library 10 1002 (request_of_event unpaid)
    ∷ ended 1003 timed_out 9
    ∷ stuck_detected (hours 2)
    ∷ received library 11 (hours 2) (request_of_event unpaid)
    ∷ []

webhooks_are_unique_example :
    Single (run evening [])
    × ((lib : Library) (id : ℕ) (now : Instant) (r : Request)
        → (store_webhook lib id now r (run evening [])).0 ≢ several_found)
webhooks_are_unique_example = webhooks_are_unique evening [] (λ key. omega arith)
