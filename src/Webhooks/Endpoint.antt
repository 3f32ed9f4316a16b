-- ===== src/Webhooks/Endpoint.antt =====
-- A webhook from its request to its second handling by the workers.
use cloud_sentinel_ai.Base.{
  ℕ, Instant, Bool, true, false, not, ◌≡◌, refl, sym, ap, subst, ◌∙◌, arith, none, some, List, [],
  ◌∷◌, ◌++◌, is_some, ◌&&◌, nothing,
}
use cloud_sentinel_ai.Base.Text.{Text}
use cloud_sentinel_ai.Events.{PaymentEvent}
use cloud_sentinel_ai.Jobs.{BackgroundJob, JobType, webhook_of, new_job, enqueue_job, is_due}
use cloud_sentinel_ai.Dunning.{Store}
use cloud_sentinel_ai.Paystack.{
  Environment, Call, Outcome, done, raised, handling_of, dispatch, verify_signature, handle,
}
use cloud_sentinel_ai.Paystack.Delivery.{Extends, OnlyAdds, dispatch-OnlyAdds}
use cloud_sentinel_ai.Webhooks.{
  Library, key_of, webhook_of_request, find_done, find_queued, store_found, store_webhook, stored,
  process_paystack_webhook, process_webhook, Response, handle_webhook, HttpRequest, check_request,
  accepted, request_of_event, response_of,
}
use cloud_sentinel_ai.Webhooks.Retries.{
  after_processing, after_handling, process_webhook-handle, handle_lem,
}

abbrev pub is_foreign : HttpRequest → Bool
is_foreign r = r.is_production && not r.is_known_origin

abbrev pub is_acceptable : Environment → HttpRequest → Bool
is_acceptable env r =
    not (is_foreign r)
    && (verify_signature env r.body r.signature && is_some (env.parse_json r.body))

-- The job of a new webhook.
abbrev pub job_of : Library → ℕ → Instant → PaymentEvent → BackgroundJob
job_of lib id now e =
    new_job id now JobType.webhook_retry none
      (some (webhook_of (webhook_of_request lib now (request_of_event e)))) none 5

abbrev pub with_job : BackgroundJob → Store → Store
with_job j s = record s { jobs = j ∷ s.jobs }

-- No job for the webhook is pending, running or completed.
abbrev pub IsNew : Library → Instant → PaymentEvent → Store → Type 0
IsNew lib now e s =
    let key = key_of lib now (request_of_event e) in
    (find_done key s.jobs ≡ nothing) × (find_queued key s.jobs ≡ nothing)

store_new :
    (lib : Library) (id : ℕ) (now : Instant) (e : PaymentEvent) (s : Store)
    → IsNew lib now e s
    → store_webhook lib id now (request_of_event e) s.jobs
      ≡ (stored (job_of lib id now e), job_of lib id now e ∷ s.jobs)
unfolding store_webhook store_found enqueue_job webhook_of_request
store_new lib id now e s (d, q) = rw (d, store_found) (rw (q, store_found) refl)

accepted_lem :
    (env : Environment) (r : HttpRequest) (e : PaymentEvent)
    → is_foreign r ≡ false
    → verify_signature env r.body r.signature ≡ true
    → env.parse_json r.body ≡ some e
    → check_request env r ≡ accepted e
unfolding check_request
accepted_lem env r e f v p = rw f (rw v (rw p refl))

pub new_lem :
    (env : Environment) (lib : Library) (c : Call) (id : ℕ) (now : Instant) (r : HttpRequest)
    (e : PaymentEvent) (s : Store)
    → is_foreign r ≡ false
    → verify_signature env r.body r.signature ≡ true
    → env.parse_json r.body ≡ some e
    → IsNew lib now e s
    → let s1 = with_job (job_of lib id now e) s in
      handle_webhook env lib c id now r s ≡ response_of id (handling_of (dispatch env c e s1)) s1
unfolding handle_webhook new_job
new_lem env lib c id now r e s f v p new =
    rw (accepted_lem env r e f v p, handle_webhook)
      (rw (store_new lib id now e s new, handle_webhook)
        (ap (λ h. response_of id h (with_job (job_of lib id now e) s))
          (handle_lem env c r.body r.signature e (with_job (job_of lib id now e) s) v p)))

job_is_due :
    (lib : Library) (id : ℕ) (now : Instant) (e : PaymentEvent)
    → is_due now (job_of lib id now e) ≡ true
unfolding is_due new_job
job_is_due lib id now e = ground arith

process_job :
    (env : Environment) (lib : Library) (c : Call) (id : ℕ) (now : Instant) (e : PaymentEvent)
    (s : Store)
    → process_paystack_webhook env c (job_of lib id now e) s
      ≡ process_webhook env c (webhook_of_request lib now (request_of_event e)) s
unfolding process_paystack_webhook new_job
process_job env lib c id now e s = refl

after_response :
    (id : ℕ) (o : Outcome) (s : Store)
    → OnlyAdds s o
    → Extends s (response_of id (handling_of o) s).1
after_response id (done t) s h = h
after_response id raised s h = ([], refl)

-- A signed webhook, of a permitted origin, that names its event and is new: the request handles it,
-- and leaves its job in the table as it was stored, due at once; so the workers run the same handler
-- for it again, on the store that the request leaves or that they find later.
pub handled_again :
    (env : Environment) (lib : Library) (c : Call) (id : ℕ) (now : Instant) (r : HttpRequest)
    (e : PaymentEvent) (event : Text) (s : Store)
    → is_foreign r ≡ false
    → verify_signature env r.body r.signature ≡ true
    → env.parse_json r.body ≡ some e
    → e.event ≡ some event
    → IsNew lib now e s
    → let (answer, t) = handle_webhook env lib c id now r s in
      let j = job_of lib id now e in
      ((answer, t) ≡ response_of id (handle env c r.body r.signature (with_job j s)) (with_job j s))
      × ((added : List BackgroundJob) × (t.jobs ≡ added ++ (j ∷ s.jobs)))
      × (is_due now j ≡ true)
      × ((d : Call) (u : Store)
          → after_processing (process_paystack_webhook env d j u)
            ≡ after_handling (handle env d r.body r.signature u))
unfolding webhook_of_request
handled_again env lib c id now r e event s f v p named new =
    let j = job_of lib id now e in
    let s1 = with_job j s in
    let h = new_lem env lib c id now r e s f v p new in
    let o = dispatch env c e s1 in
    (
      h ∙ ap (λ x. response_of id x s1) (sym (handle_lem env c r.body r.signature e s1 v p)),
      subst (λ (x : Response × Store). Extends s1 x.1) (sym h)
          (after_response id o s1 (dispatch-OnlyAdds env c e s1)),
      job_is_due lib id now e,
      λ d u.
          ap after_processing (process_job env lib d id now e u)
          ∙ process_webhook-handle env d r.body r.signature
              (webhook_of_request lib now (request_of_event e)) event u v p named,
    )
