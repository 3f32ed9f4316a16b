-- ===== src/Webhooks/Retries.antt =====
-- A webhook's second storing, and the second handling of it by the workers.
use cloud_sentinel_ai.Base.{
  ℕ, Instant, true, false, ◌≡◌, refl, sym, ap, subst, ◌∙◌, Option, none, some, List, ◌∷◌, eq→==,
  Bool-cases, inl, inr, Found, nothing, one, several, nothing_found,
}
use cloud_sentinel_ai.Base.Text.{Text, codes, same_text, same_text-eq, same_text_comm}
use cloud_sentinel_ai.Events.{WebhookData, PaymentEvent}
use cloud_sentinel_ai.Jobs.{BackgroundJob, JobType, Webhook, webhook_of, enqueue_job, new_job}
use cloud_sentinel_ai.Dunning.{Store}
use cloud_sentinel_ai.Paystack.{
  Environment, Call, Outcome, done, raised, Handling, handling_of, handlers, get_handler,
  run_handler, dispatch, verify_signature, handle, handle_subscription_create,
  handle_charge_success, handle_subscription_disable, handle_invoice_failed,
}
use cloud_sentinel_ai.Webhooks.{
  is_of, Library, Request, key_of, reference_of, generate_idempotency_key, webhook_of_request,
  Stored, already_queued, stored, find_done, find_queued, is_done_of, is_queued_of, store_found,
  store_webhook, Processed, processed_of, route, process_webhook,
}

-- The answer to the same webhook's second storing.
abbrev pub again : Stored → Stored
again (stored j) = already_queued j
again answer = answer

-- The store that a handling leaves, if it does not raise.
abbrev pub after_processing : Processed → Option Store
after_processing (Processed.processed s) = some s
after_processing (Processed.ignored s) = some s
after_processing _ = none

abbrev pub after_handling : Handling → Option Store
after_handling (Handling.success s) = some s
after_handling _ = none

abbrev after : Outcome → Option Store
after (done s) = some s
after raised = none

after-processed_of : (o : Outcome) → after_processing (processed_of o) ≡ after o
after-processed_of (done s) = refl
after-processed_of raised = refl

after-handling_of : (o : Outcome) → after_handling (handling_of o) ≡ after o
after-handling_of (done s) = refl
after-handling_of raised = refl

abbrev Agrees : Environment → Call → WebhookData → Store → Text → Type 0
Agrees env c d s event =
    after_processing (route env c event d s)
    ≡ after (run_handler (get_handler event handlers) env c d s)

Agrees-at :
    (env : Environment) (c : Call) (d : WebhookData) (s : Store) (event name : Text)
    → same_text event name ≡ true
    → Agrees env c d s name
    → Agrees env c d s event
Agrees-at env c d s event name e h = subst (Agrees env c d s) (sym (same_text-eq event name e)) h

other_way : (s t : Text) → same_text s t ≡ false → same_text t s ≡ false
other_way s t e = same_text_comm t s ∙ e

module _ (env : Environment) (c : Call) (d : WebhookData) (s : Store) where
  Agrees-create : Agrees env c d s (codes "subscription.create")
  unfolding route same_text codes
  Agrees-create = after-processed_of (handle_subscription_create env d s)

  Agrees-charge : Agrees env c d s (codes "charge.success")
  unfolding route same_text codes
  Agrees-charge = after-processed_of (handle_charge_success env c.new_id d s)

  Agrees-disable : Agrees env c d s (codes "subscription.disable")
  unfolding route same_text codes
  Agrees-disable = after-processed_of (handle_subscription_disable c.clock.canceled_at d s)

  Agrees-failed : Agrees env c d s (codes "invoice.payment_failed")
  unfolding route same_text codes
  Agrees-failed = after-processed_of (handle_invoice_failed c.clock d s)

-- The chain of tests and the dictionary choose the same handler.
route-dispatch :
    (env : Environment) (c : Call) (d : WebhookData) (s : Store) (event : Text)
    → Agrees env c d s event
unfolding route
route-dispatch env c d s event =
    let create = codes "subscription.create" in
    let charge = codes "charge.success" in
    let disable = codes "subscription.disable" in
    let failed = codes "invoice.payment_failed" in
    elim (Bool-cases (same_text event create)) [
      | inl e ↦ Agrees-at env c d s event create e (Agrees-create env c d s)
      | inr e1 ↦ elim (Bool-cases (same_text event charge)) [
        | inl e ↦ Agrees-at env c d s event charge e (Agrees-charge env c d s)
        | inr e2 ↦ elim (Bool-cases (same_text event disable)) [
          | inl e ↦ Agrees-at env c d s event disable e (Agrees-disable env c d s)
          | inr e3 ↦ elim (Bool-cases (same_text event failed)) [
            | inl e ↦ Agrees-at env c d s event failed e (Agrees-failed env c d s)
            | inr e4 ↦
                rw (e1, other_way event create e1)
                  (rw (e2, other_way event charge e2)
                    (rw (e3, other_way event disable e3) (rw (e4, other_way event failed e4) refl)))
          ]
        ]
      ]
    ]

pub handle_lem :
    (env : Environment) (c : Call) (body signature : Text) (e : PaymentEvent) (s : Store)
    → verify_signature env body signature ≡ true
    → env.parse_json body ≡ some e
    → handle env c body signature s ≡ handling_of (dispatch env c e s)
unfolding handle
handle_lem env c body signature e s v p = rw v (rw p refl)

dispatch_lem :
    (env : Environment) (c : Call) (e : PaymentEvent) (event : Text) (s : Store)
    → e.event ≡ some event
    → dispatch env c e s ≡ run_handler (get_handler event handlers) env c e.data_ s
unfolding dispatch
dispatch_lem env c e event s named = rw named refl

-- For a webhook whose body is signed and parses and names its event, the workers' processing of the
-- stored job does to any store what the handling of the request does to it: it leaves the same
-- store, or both raise.
pub process_webhook-handle :
    (env : Environment) (c : Call) (body signature : Text) (w : Webhook) (event : Text) (s : Store)
    → verify_signature env body signature ≡ true
    → env.parse_json body ≡ some w.payload
    → w.payload.event ≡ some event
    → after_processing (process_webhook env c w s) ≡ after_handling (handle env c body signature s)
unfolding process_webhook
process_webhook-handle env c body signature w event s v p named =
    rw named (route-dispatch env c w.payload.data_ s event)
    ∙ sym (after-handling_of (run_handler (get_handler event handlers) env c w.payload.data_ s))
    ∙ sym (
        ap after_handling (
          handle_lem env c body signature w.payload s v p
          ∙ ap handling_of (dispatch_lem env c w.payload event s named)))

is_of_new :
    (key id : ℕ) (now : Instant) (w : Webhook)
    → w.idempotency_key ≡ key
    → is_of key (new_job id now JobType.webhook_retry none (some (webhook_of w)) none 5) ≡ true
unfolding new_job
is_of_new key id now w e = eq→== w.idempotency_key key e

done_after :
    (key id : ℕ) (now : Instant) (w : Webhook) (jobs : List BackgroundJob)
    → w.idempotency_key ≡ key
    → find_done key jobs ≡ nothing
    → find_done key (new_job id now JobType.webhook_retry none (some (webhook_of w)) none 5 ∷ jobs)
      ≡ nothing
unfolding find_done is_done_of new_job
done_after key id now w jobs e h = rw (eq→== w.idempotency_key key e) h

queued_after :
    (key id : ℕ) (now : Instant) (w : Webhook) (jobs : List BackgroundJob)
    → w.idempotency_key ≡ key
    → find_queued key jobs ≡ nothing
    → let j = new_job id now JobType.webhook_retry none (some (webhook_of w)) none 5 in
      find_queued key (j ∷ jobs) ≡ one j
unfolding find_queued is_queued_of new_job
queued_after key id now w jobs e h =
    rw (eq→== w.idempotency_key key e) (rw (nothing_found (is_queued_of key) jobs h) refl)

store_found-again :
    (d q : Found BackgroundJob) (id id' : ℕ) (now now' : Instant) (key : ℕ) (w w' : Webhook)
    (jobs : List BackgroundJob)
    → w.idempotency_key ≡ key
    → find_done key jobs ≡ d
    → find_queued key jobs ≡ q
    → let (answer, after) = store_found d q id now w jobs in
      store_found (find_done key after) (find_queued key after) id' now' w' after
      ≡ (again answer, after)
unfolding store_found enqueue_job
store_found-again several q id id' now now' key w w' jobs e ed eq = rw ed refl
store_found-again (one _) q id id' now now' key w w' jobs e ed eq = rw ed refl
store_found-again nothing several id id' now now' key w w' jobs e ed eq = rw ed (rw eq refl)
store_found-again nothing (one _) id id' now now' key w w' jobs e ed eq = rw ed (rw eq refl)
store_found-again nothing nothing id id' now now' key w w' jobs e ed eq =
    rw (done_after key id now w jobs e ed) (rw (queued_after key id now w jobs e eq) refl)

same_key :
    (lib : Library) (now now' : Instant) (r : Request)
    → reference_of lib now' r ≡ reference_of lib now r
    → key_of lib now r ≡ key_of lib now' r
unfolding key_of
same_key lib now now' r same = sym (ap (generate_idempotency_key lib r.provider r.event_type) same)

-- Storing a webhook a second time, with the same reference, changes nothing, and answers with the job
-- that the first time stored or found, or that the webhook is a duplicate, or that several jobs
-- are found, as the first time.
pub store_webhook-again :
    (lib : Library) (id id' : ℕ) (now now' : Instant) (r : Request) (jobs : List BackgroundJob)
    → reference_of lib now' r ≡ reference_of lib now r
    → let (answer, after) = store_webhook lib id now r jobs in
      store_webhook lib id' now' r after ≡ (again answer, after)
unfolding store_webhook webhook_of_request
store_webhook-again lib id id' now now' r jobs same =
    let key = key_of lib now r in
    let (answer, after) = store_webhook lib id now r jobs in
    let w = webhook_of_request lib now r in
    let w' = webhook_of_request lib now' r in
    subst
      (λ k.
        store_found (find_done k after) (find_queued k after) id' now' w' after
        ≡ (again answer, after))
      (same_key lib now now' r same)
      (store_found-again (find_done key jobs) (find_queued key jobs) id id' now now' key w w' jobs
        refl refl refl)
