-- ===== src/Webhooks/Twice.antt =====
-- One failed invoice, and what its webhook counts.
use cloud_sentinel_ai.Base.{
  ℕ, ◌+◌, ◌<◌, Instant, true, false, ◌≡◌, refl, ap, ◌∙◌, arith, some, one, one_found,
  scalar_one_or_none, keep,
}
use cloud_sentinel_ai.Base.Dict.{get, values, keep-put}
use cloud_sentinel_ai.Base.Text.{codes, same_text}
use cloud_sentinel_ai.Events.{PaymentEvent}
use cloud_sentinel_ai.Dunning.{
  TenantSubscription, attention, Store, Clock, process_failed_payment, attempted,
}
use cloud_sentinel_ai.Dunning.Recovery.{Has, waiting, failed_lem, failed_subscriptions}
use cloud_sentinel_ai.Paystack.{
  Environment, Call, done, dispatch, verify_signature, handling_of, has_code, find,
  handle_invoice_failed,
}
use cloud_sentinel_ai.Webhooks.{
  Library, succeeded, handle_webhook, HttpRequest, process_paystack_webhook, response_of,
}
use cloud_sentinel_ai.Webhooks.Retries.{after_processing, after_handling, handle_lem}
use cloud_sentinel_ai.Webhooks.Endpoint.{
  is_foreign, job_of, with_job, IsNew, handled_again, new_lem,
}

invoice_lem :
    (env : Environment) (c : Call) (e : PaymentEvent) (s : Store)
    → e.event ≡ some (codes "invoice.payment_failed")
    → dispatch env c e s ≡ handle_invoice_failed c.clock e.data_ s
unfolding dispatch same_text codes
invoice_lem env c e s named = rw named refl

failed_once :
    (env : Environment) (c : Call) (e : PaymentEvent) (code : ℕ) (sub : TenantSubscription)
    (s : Store)
    → e.event ≡ some (codes "invoice.payment_failed")
    → e.data_.subscription_code ≡ some code
    → find (has_code code) s ≡ one sub
    → dispatch env c e s ≡ done (process_failed_payment c.clock sub.id s).1
unfolding handle_invoice_failed
failed_once env c e code sub s named coded found =
    invoice_lem env c e s named
    ∙ rw (coded, handle_invoice_failed) (rw (found, handle_invoice_failed) refl)

-- The same subscription is found after a failure of it.
found_after :
    (c : Clock) (code : ℕ) (sub : TenantSubscription) (s : Store)
    → Has s sub
    → find (has_code code) s ≡ one sub
    → sub.dunning_attempts + 1 < 3
    → find (has_code code) (process_failed_payment c sub.id s).1 ≡ one (waiting c sub)
unfolding find waiting attempted
found_after c code sub s has found few =
    let (kept, coded) = one_found (has_code code) (values s.subscriptions) sub found in
    ap (λ d. scalar_one_or_none (keep (has_code code) (values d)))
      (failed_subscriptions c sub s has few)
    ∙ ap (λ l. scalar_one_or_none l)
        (keep-put (has_code code) sub.id sub (waiting c sub) s.subscriptions coded coded has kept)

-- A signed webhook, of a permitted origin, that is new and says that an invoice of a subscription with
-- no failure counted was not paid: after the request has handled it and a worker has run its job, two
-- failed attempts are counted.
pub failure_counted_twice :
    (env : Environment) (lib : Library) (c d : Call) (id : ℕ) (now : Instant) (r : HttpRequest)
    (e : PaymentEvent) (code : ℕ) (sub : TenantSubscription) (s : Store)
    → is_foreign r ≡ false
    → verify_signature env r.body r.signature ≡ true
    → env.parse_json r.body ≡ some e
    → e.event ≡ some (codes "invoice.payment_failed")
    → e.data_.subscription_code ≡ some code
    → find (has_code code) s ≡ one sub
    → Has s sub
    → sub.dunning_attempts ≡ 0
    → IsNew lib now e s
    → let (answer, t) = handle_webhook env lib c id now r s in
      (answer ≡ succeeded)
      × ((u : Store) × (after_processing (process_paystack_webhook env d (job_of lib id now e) t)
            ≡ some u)
          × ((twice : TenantSubscription) × (get sub.id u.subscriptions ≡ some twice)
              × (twice.dunning_attempts ≡ 2)
              × (twice.status ≡ attention)))
unfolding waiting attempted find
failure_counted_twice env lib c d id now r e code sub s f v p named coded found has fresh new =
    let s1 = with_job (job_of lib id now e) s in
    let t = (process_failed_payment c.clock sub.id s1).1 in
    let sub1 = waiting c.clock sub in
    let few : sub.dunning_attempts + 1 < 3 = omega (arith, fresh) in
    let few1 : sub1.dunning_attempts + 1 < 3 = omega (arith, fresh) in
    let found1 = found_after c.clock code sub s1 has found few in
    let has1 = (failed_lem c.clock sub s1 has few).1 in
    let once = failed_once env c e code sub s1 named coded found in
    let response =
      new_lem env lib c id now r e s f v p new ∙ ap (λ o. response_of id (handling_of o) s1) once in
    let (_, _, _, again) = handled_again env lib c id now r e _ s f v p named new in
    let twice = failed_once env d e code sub1 t named coded found1 in
    rw response (
      refl,
      (
        (process_failed_payment d.clock sub1.id t).1,
        again d t
            ∙ ap after_handling
                (handle_lem env d r.body r.signature e t v p ∙ ap handling_of twice),
        (waiting d.clock sub1, (failed_lem d.clock sub1 t has1 few1).1, omega (arith, fresh), refl),
      ),
    )
