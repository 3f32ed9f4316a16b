-- ===== src/Webhooks.antt =====
-- The durable processing of webhooks (`WebhookRetryService` and `process_paystack_webhook` of
-- app/modules/reporting/domain/billing/webhook_retry.py, and the endpoint `handle_webhook` of
-- app/modules/reporting/api/v1/billing.py). A webhook is stored as a job, and handled at once; the
-- workers handle its job again.
use cloud_sentinel_ai.Base.{
  ℕ, ◌+◌, Instant, Bool, true, false, not, Option, none, some, List, [], ◌∷◌, ◌++◌, ◌==◌, ◌&&◌,
  ◌||◌, ltb, if◌then◌else◌, keep, Found, nothing, one, several, scalar_one_or_none,
}
use cloud_sentinel_ai.Base.Order.{order_by}
use cloud_sentinel_ai.Base.Text.{Text, codes, same_text}
use cloud_sentinel_ai.Events.{WebhookData, PaymentEvent}
use cloud_sentinel_ai.Jobs.{
  BackgroundJob, JobType, JobStatus, completed, running, Payload, webhook_of, Webhook, is_pending,
  is_running, enqueue_job, new_job,
}
use cloud_sentinel_ai.Dunning.{Store}
use cloud_sentinel_ai.Paystack.{
  Environment, Call, Outcome, done, raised, handle_subscription_create, handle_charge_success,
  handle_subscription_disable, handle_invoice_failed, verify_signature, handle, Handling,
}
pub mod Unique
pub mod Retries
pub mod Endpoint
pub mod Twice
mod Samples

abbrev pub webhook_max_attempts : ℕ
webhook_max_attempts = 5

-- The hash of a text, as a number, and how an instant is printed.
pub record Library : Type 0 where
  pub sha256 : Text → ℕ
  pub show : Instant → Text

abbrev pub colon : Text
colon = codes ":"

unfoldable pub generate_idempotency_key : Library → Text → Text → Text → ℕ
generate_idempotency_key lib provider event_type reference =
    lib.sha256 (provider ++ (colon ++ (event_type ++ (colon ++ reference))))

abbrev pub is_webhook_type : JobType → Bool
is_webhook_type JobType.webhook_retry = true
is_webhook_type _ = false

abbrev pub has_idempotency_key : ℕ → Option Payload → Bool
has_idempotency_key key (some (webhook_of w)) = w.idempotency_key == key
has_idempotency_key key _ = false

abbrev pub is_completed : JobStatus → Bool
is_completed completed = true
is_completed _ = false

-- The webhook's jobs.
abbrev pub is_of : ℕ → BackgroundJob → Bool
is_of key j = is_webhook_type j.job_type && has_idempotency_key key j.payload

unfoldable pub is_done_of : ℕ → BackgroundJob → Bool
is_done_of key j = is_of key j && is_completed j.status

unfoldable pub is_queued_of : ℕ → BackgroundJob → Bool
is_queued_of key j = is_of key j && (is_pending j.status || is_running j.status)

-- The query of `is_duplicate`.
unfoldable pub find_done : ℕ → List BackgroundJob → Found BackgroundJob
unfolding is_done_of
find_done key jobs = scalar_one_or_none (keep (is_done_of key) jobs)

unfoldable pub find_queued : ℕ → List BackgroundJob → Found BackgroundJob
unfolding is_queued_of
find_queued key jobs = scalar_one_or_none (keep (is_queued_of key) jobs)

-- `reference or payload.get("data", {}).get("reference", str(now))`
abbrev pub reference_or : Text → Option Text → Text → Text
reference_or [] none now = now
reference_or [] (some reference) now = reference
reference_or (c ∷ cs) _ now = c ∷ cs

pub data Stored : Type 0 where
  duplicate several_found : Stored
  already_queued stored : BackgroundJob → Stored

-- What `store_webhook` is called with, and the clock, the identifier and the library in the call.
pub record Request : Type 0 where
  pub provider : Text
  pub event_type : Text
  pub payload : PaymentEvent
  pub reference : Text

unfoldable pub reference_of : Library → Instant → Request → Text
reference_of lib now r = reference_or r.reference r.payload.data_.reference (lib.show now)

unfoldable pub key_of : Library → Instant → Request → ℕ
unfolding generate_idempotency_key reference_of
key_of lib now r = generate_idempotency_key lib r.provider r.event_type (reference_of lib now r)

unfoldable pub webhook_of_request : Library → Instant → Request → Webhook
unfolding key_of reference_of
webhook_of_request lib now r = record {
  provider = r.provider;
  event_type = r.event_type;
  payload = r.payload;
  idempotency_key = key_of lib now r;
  reference = reference_of lib now r;
}

-- The part of `store_webhook` after the key; what the two queries find is given.
unfoldable pub store_found :
    Found BackgroundJob
    → Found BackgroundJob
    → ℕ
    → Instant
    → Webhook
    → List BackgroundJob
    → Stored × List BackgroundJob
unfolding enqueue_job new_job
store_found several _ id now w jobs = (several_found, jobs)
store_found (one _) _ id now w jobs = (duplicate, jobs)
store_found nothing several id now w jobs = (several_found, jobs)
store_found nothing (one j) id now w jobs = (already_queued j, jobs)
store_found nothing nothing id now w jobs =
    let (j, jobs') =
      enqueue_job id now JobType.webhook_retry none (some (webhook_of w)) none webhook_max_attempts
        jobs in
    (stored j, jobs')

unfoldable pub store_webhook :
    Library → ℕ → Instant → Request → List BackgroundJob → Stored × List BackgroundJob
unfolding store_found find_done find_queued webhook_of_request
store_webhook lib id now r jobs =
    let w = webhook_of_request lib now r in
    store_found (find_done w.idempotency_key jobs) (find_queued w.idempotency_key jobs) id now w
      jobs

abbrev pub has_provider : Option Text → Option Payload → Bool
has_provider none _ = true
has_provider (some name) (some (webhook_of w)) = same_text name w.provider
has_provider (some name) _ = false

unfoldable pub is_pending_webhook : Option Text → BackgroundJob → Bool
is_pending_webhook provider j =
    is_webhook_type j.job_type && is_pending j.status && has_provider provider j.payload

abbrev pub is_earlier : BackgroundJob → BackgroundJob → Bool
is_earlier i j = ltb i.scheduled_for j.scheduled_for

-- `if provider:`
abbrev pub given : Option Text → Option Text
given (some []) = none
given provider = provider

unfoldable pub get_pending_webhooks : Option Text → List BackgroundJob → List BackgroundJob
unfolding is_pending_webhook order_by
get_pending_webhooks provider jobs =
    order_by is_earlier (keep (is_pending_webhook (given provider)) jobs)

-- What `process_paystack_webhook` returns, with the store; `raises` stands for an exception.
pub data Processed : Type 0 where
  missing_payload raises : Processed
  processed ignored : Store → Processed

abbrev pub processed_of : Outcome → Processed
processed_of (done s) = processed s
processed_of raised = raises

unfoldable pub route : Environment → Call → Text → WebhookData → Store → Processed
unfolding same_text
route env c event d s =
    if same_text event (codes "subscription.create")
    then processed_of (handle_subscription_create env d s)
    else if same_text event (codes "charge.success")
    then processed_of (handle_charge_success env c.new_id d s)
    else if same_text event (codes "subscription.disable")
    then processed_of (handle_subscription_disable c.clock.canceled_at d s)
    else if same_text event (codes "invoice.payment_failed")
    then processed_of (handle_invoice_failed c.clock d s)
    else ignored s

-- `webhook_data.get("event", payload.get("event_type"))`
abbrev pub event_or : Option Text → Text → Text
event_or none event_type = event_type
event_or (some event) _ = event

unfoldable pub process_webhook : Environment → Call → Webhook → Store → Processed
unfolding route
process_webhook env c w s = route env c (event_or w.payload.event w.event_type) w.payload.data_ s

-- A payload of another kind has neither an event nor data.
unfoldable pub process_paystack_webhook : Environment → Call → BackgroundJob → Store → Processed
unfolding process_webhook
process_paystack_webhook env c j s = elim j.payload [
  | none ↦ missing_payload
  | some (webhook_of w) ↦ process_webhook env c w s
  | some _ ↦ ignored s
]

pub data Response : Type 0 where
  forbidden unauthorized server_error succeeded : Response
  duplicate_ignored : Response
  queued : ℕ → Response

abbrev pub or_unknown : Option Text → Text
or_unknown none = codes "unknown"
or_unknown (some event) = event

abbrev pub or_empty : Option Text → Text
or_empty none = []
or_empty (some reference) = reference

abbrev pub request_of_event : PaymentEvent → Request
request_of_event e = record {
  provider = codes "paystack";
  event_type = or_unknown e.event;
  payload = e;
  reference = or_empty e.data_.reference;
}

abbrev pub response_of : ℕ → Handling → Store → Response × Store
response_of id (Handling.success s') s = (succeeded, s')
response_of id Handling.unauthorized s = (queued id, s)
response_of id Handling.invalid_json s = (queued id, s)
response_of id Handling.failed s = (queued id, s)

-- The end of the endpoint: the webhook is stored, and, unless it was done before, handled.
abbrev pub handle_stored :
    Environment → Call → Text → Text → Stored → List BackgroundJob → Store → Response × Store
handle_stored env c body signature duplicate jobs s = (duplicate_ignored, record s { jobs = jobs })
handle_stored env c body signature several_found jobs s = (server_error, s)
handle_stored env c body signature (already_queued j) jobs s =
    let s' = record s { jobs = jobs } in response_of j.id (handle env c body signature s') s'
handle_stored env c body signature (stored j) jobs s =
    let s' = record s { jobs = jobs } in response_of j.id (handle env c body signature s') s'

-- The request, as the endpoint sees it.
pub record HttpRequest : Type 0 where
  pub is_production : Bool
  pub is_known_origin : Bool
  pub body : Text
  pub signature : Text

-- How the endpoint refuses a request, and otherwise the parsed body.
pub data Checked : Type 0 where
  refused : Response → Checked
  accepted : PaymentEvent → Checked

unfoldable pub check_request : Environment → HttpRequest → Checked
check_request env r =
    if r.is_production && not r.is_known_origin
    then refused forbidden
    else if verify_signature env r.body r.signature
    then elim (env.parse_json r.body) [ none ↦ refused unauthorized | some e ↦ accepted e ]
    else refused unauthorized

-- `id` and `now` are those of the job that the endpoint may store.
unfoldable pub handle_webhook :
    Environment → Library → Call → ℕ → Instant → HttpRequest → Store → Response × Store
unfolding check_request
handle_webhook env lib c id now r s = elim (check_request env r) [
  | refused response ↦ (response, s)
  | accepted e ↦
      let (answer, jobs) = store_webhook lib id now (request_of_event e) s.jobs in
      handle_stored env c r.body r.signature answer jobs s
]
