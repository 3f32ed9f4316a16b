-- ===== src/Paystack/Delivery.antt =====
-- What the handlers leave alone.
use cloud_sentinel_ai.Base.{
  ℕ, Option, List, [], ◌∷◌, ◌++◌, ◌≡◌, refl, leb, if_both, Option-cases, inl, inr, Found, nothing,
  one, several, Found-cases,
}
use cloud_sentinel_ai.Base.Dict.{get}
use cloud_sentinel_ai.Base.Text.{Text, codes, same_text}
use cloud_sentinel_ai.Events.{WebhookData, PaymentEvent}
use cloud_sentinel_ai.Jobs.{BackgroundJob, enqueue_job}
use cloud_sentinel_ai.Dunning.{
  TenantSubscription, Answer, Store, Clock, process_failed_payment, schedule_or_end, attempted,
}
use cloud_sentinel_ai.Paystack.{
  Environment, Call, Outcome, done, raised, find, change_found, handle_subscription_create,
  has_customer, with_codes, tenant_of, activate_tenant, of_tenant, handle_charge_success, disabled,
  has_code, handle_subscription_disable, fail_found, handle_invoice_failed, Handler, handlers,
  get_handler, run_handler, dispatch,
}

-- The jobs of the store stay as they are, with new ones in front.
abbrev pub Extends : Store → Store → Type 0
Extends s t = (added : List BackgroundJob) × (t.jobs ≡ added ++ s.jobs)

-- A handler that does not raise only adds jobs.
abbrev pub OnlyAdds : Store → Outcome → Type 0
OnlyAdds s (done t) = Extends s t
OnlyAdds s raised = Unit {0}

process_failed_payment-Extends :
    (c : Clock) (id : ℕ) (s : Store) → Extends s (process_failed_payment c id s).1
unfolding process_failed_payment schedule_or_end enqueue_job attempted
process_failed_payment-Extends c id s = elim (Option-cases (get id s.subscriptions)) [
  | inl e ↦ rw e ([], refl)
  | inr (sub, e) ↦ rw e (
      if_both (λ (x : Answer × Store). Extends s x.1) (leb 3 (attempted c sub).dunning_attempts)
        ([], refl) (_ ∷ [], refl))
]

change_found-OnlyAdds :
    (f : TenantSubscription → TenantSubscription) (found : Found TenantSubscription) (s : Store)
    → OnlyAdds s (change_found f found s)
change_found-OnlyAdds f nothing s = ([], refl)
change_found-OnlyAdds f (one sub) s = ([], refl)
change_found-OnlyAdds f several s = tt

create-OnlyAdds :
    (env : Environment) (d : WebhookData) (s : Store)
    → OnlyAdds s (handle_subscription_create env d s)
unfolding handle_subscription_create
create-OnlyAdds env d s = elim (Option-cases d.customer_code) [
  | inl e ↦ rw e ([], refl)
  | inr (code, e) ↦ rw e (change_found-OnlyAdds (with_codes env d) (find (has_customer code) s) s)
]

disable-OnlyAdds :
    (now : ℕ) (d : WebhookData) (s : Store) → OnlyAdds s (handle_subscription_disable now d s)
unfolding handle_subscription_disable
disable-OnlyAdds now d s = elim (Option-cases d.subscription_code) [
  | inl e ↦ rw e ([], refl)
  | inr (code, e) ↦ rw e (change_found-OnlyAdds (disabled now) (find (has_code code) s) s)
]

fail_found-OnlyAdds :
    (c : Clock) (found : Found TenantSubscription) (s : Store) → OnlyAdds s (fail_found c found s)
fail_found-OnlyAdds c nothing s = ([], refl)
fail_found-OnlyAdds c (one sub) s = process_failed_payment-Extends c sub.id s
fail_found-OnlyAdds c several s = tt

failed-OnlyAdds :
    (c : Clock) (d : WebhookData) (s : Store) → OnlyAdds s (handle_invoice_failed c d s)
unfolding handle_invoice_failed
failed-OnlyAdds c d s = elim (Option-cases d.subscription_code) [
  | inl e ↦ rw e ([], refl)
  | inr (code, e) ↦ rw e (fail_found-OnlyAdds c (find (has_code code) s) s)
]

activate-OnlyAdds :
    (env : Environment) (new_id : ℕ) (d : WebhookData) (tenant : ℕ) (s : Store)
    → OnlyAdds s (activate_tenant env new_id d tenant s)
unfolding activate_tenant
activate-OnlyAdds env new_id d tenant s = elim (Found-cases (find (of_tenant tenant) s)) [
  | inl e ↦ rw (e, OnlyAdds, activate_tenant) ([], refl)
  | inr (inl (sub, e)) ↦ rw (e, OnlyAdds, activate_tenant) ([], refl)
  | inr (inr e) ↦ rw (e, OnlyAdds, activate_tenant) tt
]

charge-OnlyAdds :
    (env : Environment) (new_id : ℕ) (d : WebhookData) (s : Store)
    → OnlyAdds s (handle_charge_success env new_id d s)
unfolding handle_charge_success
charge-OnlyAdds env new_id d s = elim (Found-cases (tenant_of env d)) [
  | inl e ↦ rw (e, OnlyAdds, handle_charge_success) ([], refl)
  | inr (inl (tenant, e)) ↦
      rw (e, OnlyAdds, handle_charge_success)
        (if_both (OnlyAdds s) d.has_plan (activate-OnlyAdds env new_id d tenant s) ([], refl))
  | inr (inr e) ↦ rw (e, OnlyAdds, handle_charge_success) tt
]

abbrev Chosen : Environment → Call → WebhookData → Store → Option Handler → Type 0
Chosen env c d s h = OnlyAdds s (run_handler h env c d s)

Chosen-OnlyAdds :
    (env : Environment) (c : Call) (d : WebhookData) (s : Store) (event : Text)
    → Chosen env c d s (get_handler event handlers)
Chosen-OnlyAdds env c d s event =
    let P = Chosen env c d s in
    if_both P (same_text (codes "subscription.create") event) (create-OnlyAdds env d s) (
      if_both P (same_text (codes "subscription.disable") event)
        (disable-OnlyAdds c.clock.canceled_at d s)
        (if_both P (same_text (codes "charge.success") event) (charge-OnlyAdds env c.new_id d s) (
          if_both P (same_text (codes "invoice.payment_failed") event) (failed-OnlyAdds c.clock d s)
            ([], refl))))

pub dispatch-OnlyAdds :
    (env : Environment) (c : Call) (e : PaymentEvent) (s : Store) → OnlyAdds s (dispatch env c e s)
unfolding dispatch
dispatch-OnlyAdds env c e s = elim (Option-cases e.event) [
  | inl h ↦ rw h ([], refl)
  | inr (event, h) ↦ rw h (Chosen-OnlyAdds env c e.data_ s event)
]
