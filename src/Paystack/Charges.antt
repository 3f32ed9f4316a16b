-- ===== src/Paystack/Charges.antt =====
-- The same successful charge, reported twice.
use cloud_sentinel_ai.Base.{
  ℕ, Bool, true, false, Option, some, none, ◌≡◌, refl, sym, if◌then◌else◌, subst, ap, ◌∙◌, inl, inr,
  nothing, one, several, Found-cases, one_found, nothing_found, scalar_one_or_none, eq→==,
}
use cloud_sentinel_ai.Base.Dict.{values, keep-put, keep-put_new, put-put}
use cloud_sentinel_ai.Events.{WebhookData}
use cloud_sentinel_ai.Tiers.{PricingTier}
use cloud_sentinel_ai.Dunning.{TenantSubscription, Store}
use cloud_sentinel_ai.Dunning.Recovery.{Has}
use cloud_sentinel_ai.Paystack.{
  Environment, Outcome, done, raised, find, of_tenant, save, activated, new_subscription, tier_or,
  encrypted, activate_tenant, tenant_of, handle_charge_success,
}

-- What the query by tenant finds is in the table under its identifier.
abbrev pub IsKeyed : Store → Type 0
IsKeyed s =
    (tenant : ℕ) (sub : TenantSubscription) → find (of_tenant tenant) s ≡ one sub → Has s sub

tier_or_again :
    (tier : Option PricingTier) (old : PricingTier)
    → tier_or tier (tier_or tier old) ≡ tier_or tier old
tier_or_again none old = refl
tier_or_again (some tier) old = refl

encrypted_again :
    (f : ℕ → ℕ) (code old : Option ℕ)
    → encrypted f code (encrypted f code old) ≡ encrypted f code old
encrypted_again f none old = refl
encrypted_again f (some code) old = refl

activated_again :
    (env : Environment) (d : WebhookData) (sub : TenantSubscription)
    → activated env d (activated env d sub) ≡ activated env d sub
unfolding activated
activated_again env d sub =
    rw (tier_or_again d.metadata_tier sub.tier)
      (rw (encrypted_again env.encrypt_string d.authorization_code sub.paystack_auth_code) refl)

-- Once the tenant's row is an activated one, another activation changes nothing.
settled :
    (env : Environment) (new_id : ℕ) (d : WebhookData) (tenant : ℕ) (sub : TenantSubscription)
    (s : Store)
    → let t = save (activated env d sub) s in
      find (of_tenant tenant) t ≡ one (activated env d sub)
      → activate_tenant env new_id d tenant t ≡ done t
unfolding activate_tenant
settled env new_id d tenant sub s h =
    rw (h, activate_tenant)
      (rw (activated_again env d sub) (
        ap (λ subs. done (record s { subscriptions = subs }))
          (put-put (activated env d sub).id (activated env d sub) s.subscriptions)))

of_own_tenant :
    (env : Environment) (id tenant : ℕ) (d : WebhookData)
    → of_tenant tenant (activated env d (new_subscription id tenant)) ≡ true
unfolding activated new_subscription
of_own_tenant env id tenant d = eq→== tenant tenant refl

found_new :
    (env : Environment) (new_id : ℕ) (d : WebhookData) (tenant : ℕ) (s : Store)
    → find (of_tenant tenant) s ≡ nothing
    → let sub = activated env d (new_subscription new_id tenant) in
      find (of_tenant tenant) (save sub s) ≡ one sub
unfolding find
found_new env new_id d tenant s h =
    let sub = activated env d (new_subscription new_id tenant) in
    ap (λ l. scalar_one_or_none l)
      (keep-put_new (of_tenant tenant) sub.id sub s.subscriptions
        (of_own_tenant env new_id tenant d)
        (nothing_found (of_tenant tenant) (values s.subscriptions) h))

found_old :
    (env : Environment) (d : WebhookData) (tenant : ℕ) (sub : TenantSubscription) (s : Store)
    → find (of_tenant tenant) s ≡ one sub
    → Has s sub
    → find (of_tenant tenant) (save (activated env d sub) s) ≡ one (activated env d sub)
unfolding find activated
found_old env d tenant sub s h has =
    let (kept, own) = one_found (of_tenant tenant) (values s.subscriptions) sub h in
    ap (λ l. scalar_one_or_none l)
      (keep-put (of_tenant tenant) sub.id sub (activated env d sub) s.subscriptions own own has
        kept)

-- Another run leaves the store as the first has left it.
abbrev Steady : (Store → Outcome) → Outcome → Type 0
Steady f (done t) = f t ≡ done t
Steady f raised = Unit {0}

activate-Steady :
    (env : Environment) (id id' : ℕ) (d : WebhookData) (tenant : ℕ) (s : Store)
    → IsKeyed s
    → Steady (activate_tenant env id' d tenant) (activate_tenant env id d tenant s)
unfolding activate_tenant
activate-Steady env id id' d tenant s keyed = elim (Found-cases (find (of_tenant tenant) s)) [
  | inl e ↦
      rw (e, Steady, activate_tenant)
        (settled env id' d tenant (new_subscription id tenant) s (found_new env id d tenant s e))
  | inr (inl (sub, e)) ↦
      rw (e, Steady, activate_tenant)
        (settled env id' d tenant sub s (found_old env d tenant sub s e (keyed tenant sub e)))
  | inr (inr e) ↦ rw (e, Steady, activate_tenant) tt
]

no_tenant :
    (env : Environment) (id : ℕ) (d : WebhookData) (s : Store)
    → tenant_of env d ≡ nothing
    → handle_charge_success env id d s ≡ done s
unfolding handle_charge_success
no_tenant env id d s e = rw (e, handle_charge_success) refl

with_tenant :
    (env : Environment) (id : ℕ) (d : WebhookData) (s : Store) (tenant : ℕ)
    → tenant_of env d ≡ one tenant
    → handle_charge_success env id d s
      ≡ (if d.has_plan then activate_tenant env id d tenant s else done s)
unfolding handle_charge_success
with_tenant env id d s tenant e = rw (e, handle_charge_success) refl

only_if-Steady :
    (b : Bool) (f : Store → Outcome) (x : Outcome) (s t : Store)
    → Steady f x
    → (if b then x else done s) ≡ done t
    → (if b then f t else done t) ≡ done t
only_if-Steady true f x s t steady h = subst (Steady f) h steady
only_if-Steady false f x s t steady h = refl

several_raise :
    (env : Environment) (id : ℕ) (d : WebhookData) (s t : Store)
    → tenant_of env d ≡ several
    → handle_charge_success env id d s ≡ done t
    → ⊥
unfolding handle_charge_success
several_raise env id d s t e h =
    let wrong : raised ≡ done t = rw (e, handle_charge_success) at h in cc

-- Handling the same successful charge a second time leaves the subscriptions and the jobs as the first
-- time has left them, whether it found the tenant's subscription, made it, or had nothing to do.
pub charge_success_again :
    (env : Environment) (id id' : ℕ) (d : WebhookData) (s t : Store)
    → IsKeyed s
    → handle_charge_success env id d s ≡ done t
    → handle_charge_success env id' d t ≡ done t
charge_success_again env id id' d s t keyed h = elim (Found-cases (tenant_of env d)) [
  | inl e ↦ no_tenant env id' d t e
  | inr (inl (tenant, e)) ↦
      with_tenant env id' d t tenant e
      ∙ only_if-Steady d.has_plan (activate_tenant env id' d tenant)
          (activate_tenant env id d tenant s) s t (activate-Steady env id id' d tenant s keyed)
          (sym (with_tenant env id d s tenant e) ∙ h)
  | inr (inr e) ↦ absurd (several_raise env id d s t e h)
]
