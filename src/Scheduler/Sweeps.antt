-- ===== src/Scheduler/Sweeps.antt =====
-- Which tenants a cohort has, and what repeated sweeps enqueue.
use mathlib.Core.Logic.{◌↔◌}
use cloud_sentinel_ai.Base.{
  ℕ, ◌+◌, ◌*◌, ◌/◌, Instant, hours, Bool, true, false, not, ◌≡◌, ◌≢◌, refl, sym, ap, ◌∙◌, arith,
  Option, some, none, List, [], ◌∷◌, if_both, if_each, ◌&&◌, ◌||◌, leb, All, keep, subst,
  All-keep_stronger,
}
use cloud_sentinel_ai.Tiers.{PricingTier, free, enterprise}
use cloud_sentinel_ai.Jobs.{BackgroundJob, JobType, DeduplicationKey, new_job}
use cloud_sentinel_ai.Scheduler.{
  TenantCohort, high_value, active, dormant, Tenant, hour, get_tenant_cohort, in_cohort, bucket_of,
  key_of, row, same_key, is_key, has_key, some_has_key, insert_unless_known, insert_all, is_target,
  cohort_rows, enqueue_cohort, is_low_carbon_window,
}

-- A cohort's query selects a tenant, other than of the free plan, exactly if the classification puts
-- the tenant into the cohort when nothing is known of its activity.
cohorts_agree :
    (now : Instant) (cohort : TenantCohort) (t : Tenant)
    → t.plan ≢ free
    → (in_cohort cohort t.plan ≡ true) ↔ (get_tenant_cohort now t none ≡ cohort)
unfolding in_cohort get_tenant_cohort
cohorts_agree now cohort t paid = agree cohort t.plan paid
  where
    agree :
        (c : TenantCohort) (p : PricingTier)
        → p ≢ free
        → (in_cohort c p ≡ true) ↔ (get_tenant_cohort now (record { id = 0; plan = p }) none ≡ c)
    agree high_value enterprise h = ((λ _. refl), (λ _. refl))
    agree c p h = ground arith

-- Outside the low-carbon window, a remediation that is put off by four hours falls into the window,
-- unless the hour is 17, 18 or 19.
delayed_into_window :
    (now : Instant)
    → is_low_carbon_window now ≡ false
    → is_low_carbon_window (now + hours 4) ≡ not (leb 17 (hour now) && leb (hour now) 19)
unfolding is_low_carbon_window
delayed_into_window now h = ground arith

-- The hours in a period of a cohort.
abbrev pub period : TenantCohort → ℕ
period high_value = 6
period active = 3
period dormant = 1

bucket_of_lem :
    (c : TenantCohort) (now : Instant) → bucket_of c now ≡ now / hours (period c) * hours (period c)
unfolding bucket_of
bucket_of_lem high_value now = omega arith
bucket_of_lem active now = omega arith
bucket_of_lem dormant now = omega arith

abbrev Known : List BackgroundJob → BackgroundJob → Type 0
Known jobs j = some_has_key j.deduplication_key jobs ≡ true

or_right : (a b : Bool) → b ≡ true → (a || b) ≡ true
or_right a b h = ground arith

insert_unless_known-keeps :
    (o : Option DeduplicationKey) (j : BackgroundJob) (jobs : List BackgroundJob)
    → some_has_key o jobs ≡ true
    → some_has_key o (insert_unless_known j jobs).1 ≡ true
unfolding insert_unless_known
insert_unless_known-keeps none j jobs h = cc
insert_unless_known-keeps (some k) j jobs h =
    if_both (λ (x : ℕ × List BackgroundJob). some_has_key (some k) x.1 ≡ true)
      (some_has_key j.deduplication_key jobs) h (or_right (has_key k j) _ h)

insert_all-keeps :
    (o : Option DeduplicationKey) (js jobs : List BackgroundJob)
    → some_has_key o jobs ≡ true
    → some_has_key o (insert_all js jobs).1 ≡ true
unfolding insert_all
insert_all-keeps o [] jobs h = h
insert_all-keeps o (j ∷ js) jobs h =
    insert_all-keeps o js (insert_unless_known j jobs).1 (insert_unless_known-keeps o j jobs h)

same_key_self : (k : DeduplicationKey) → same_key k k ≡ true
same_key_self k = ground arith

or_left : (a b : Bool) → a ≡ true → (a || b) ≡ true
or_left a b h = ground arith

has_key_self :
    (k : DeduplicationKey) (j : BackgroundJob) → j.deduplication_key ≡ some k → has_key k j ≡ true
has_key_self k j e = ap (is_key k) e ∙ same_key_self k

insert_unless_known-Known :
    (k : DeduplicationKey) (j : BackgroundJob) (jobs : List BackgroundJob)
    → j.deduplication_key ≡ some k
    → some_has_key (some k) (insert_unless_known j jobs).1 ≡ true
unfolding insert_unless_known
insert_unless_known-Known k j jobs e =
    if_each (λ (x : ℕ × List BackgroundJob). some_has_key (some k) x.1 ≡ true)
      (some_has_key j.deduplication_key jobs)
      (λ known. sym (ap (λ o. some_has_key o jobs) e) ∙ known)
      (λ _. or_left (has_key k j) _ (has_key_self k j e))

-- The three keys of a tenant are in the table.
abbrev Scanned : ℕ → List BackgroundJob → Tenant → Type 0
Scanned bucket jobs t =
    (some_has_key (some (key_of t.id JobType.finops_analysis bucket)) jobs ≡ true)
    × (some_has_key (some (key_of t.id JobType.zombie_scan bucket)) jobs ≡ true)
    × (some_has_key (some (key_of t.id JobType.cost_ingestion bucket)) jobs ≡ true)

row_is_known :
    (draw : DeduplicationKey → ℕ) (now : Instant) (type : JobType) (tenant bucket : ℕ)
    (jobs : List BackgroundJob)
    → let k = key_of tenant type bucket in
      some_has_key (some k) (insert_unless_known (row draw now type tenant none now bucket) jobs).1
      ≡ true
unfolding row new_job
row_is_known draw now type tenant bucket jobs =
    insert_unless_known-Known (key_of tenant type bucket) (row draw now type tenant none now bucket)
      jobs refl

cohort_rows-Scanned :
    (draw : DeduplicationKey → ℕ) (now : Instant) (c : TenantCohort) (ts : List Tenant)
    (jobs : List BackgroundJob)
    → All (Scanned (bucket_of c now) (insert_all (cohort_rows draw now c ts) jobs).1) ts
unfolding cohort_rows insert_all
cohort_rows-Scanned draw now c [] jobs = tt
cohort_rows-Scanned draw now c (t ∷ ts) jobs =
    let b = bucket_of c now in
    let rows = cohort_rows draw now c ts in
    let r1 = row draw now JobType.finops_analysis t.id none now b in
    let r2 = row draw now JobType.zombie_scan t.id none now b in
    let r3 = row draw now JobType.cost_ingestion t.id none now b in
    let jobs1 = (insert_unless_known r1 jobs).1 in
    let jobs2 = (insert_unless_known r2 jobs1).1 in
    let jobs3 = (insert_unless_known r3 jobs2).1 in
    (
      (
        insert_all-keeps (some (key_of t.id JobType.finops_analysis b)) (r2 ∷ r3 ∷ rows) jobs1
            (row_is_known draw now JobType.finops_analysis t.id b jobs),
        insert_all-keeps (some (key_of t.id JobType.zombie_scan b)) (r3 ∷ rows) jobs2
            (row_is_known draw now JobType.zombie_scan t.id b jobs1),
        insert_all-keeps (some (key_of t.id JobType.cost_ingestion b)) rows jobs3
            (row_is_known draw now JobType.cost_ingestion t.id b jobs2),
      ),
      cohort_rows-Scanned draw now c ts jobs3,
    )

insert_all_known :
    (draw : DeduplicationKey → ℕ) (now : Instant) (c : TenantCohort) (ts : List Tenant)
    (jobs : List BackgroundJob)
    → All (Scanned (bucket_of c now) jobs) ts
    → insert_all (cohort_rows draw now c ts) jobs ≡ (0, jobs)
unfolding cohort_rows insert_all insert_unless_known row new_job
insert_all_known draw now c [] jobs h = refl
insert_all_known draw now c (t ∷ ts) jobs ((h1, h2, h3), hs) =
    rw h1 (rw h2 (rw h3 (rw (insert_all_known draw now c ts jobs hs) refl)))

stronger :
    (c : TenantCohort) (locked locked' : ℕ → Bool)
    → ((id : ℕ) → locked id ≡ false)
    → (t : Tenant) → is_target c locked' t ≡ true
    → is_target c locked t ≡ true
unfolding is_target
stronger c locked locked' unlocked t h = rw (unlocked t.id) (ground arith)

-- A second sweep of a cohort in the same period, of six hours for the high-value tenants, three for
-- the active and one for the dormant, inserts no job and leaves the table as it is, whichever rows
-- other transactions have locked by then, if no row was locked at the first.
pub same_period_adds_nothing :
    (draw draw' : DeduplicationKey → ℕ) (now now' : Instant) (locked locked' : ℕ → Bool)
    (cohort : TenantCohort) (ts : List Tenant) (jobs : List BackgroundJob)
    → now / hours (period cohort) ≡ now' / hours (period cohort)
    → ((id : ℕ) → locked id ≡ false)
    → let swept = (enqueue_cohort draw now locked cohort ts jobs).1 in
      enqueue_cohort draw' now' locked' cohort ts swept ≡ (0, swept)
unfolding enqueue_cohort
same_period_adds_nothing draw draw' now now' locked locked' c ts jobs same unlocked =
    let swept = (insert_all (cohort_rows draw now c (keep (is_target c locked) ts)) jobs).1 in
    let e : bucket_of c now ≡ bucket_of c now' =
      bucket_of_lem c now ∙ ap (λ n. n * hours (period c)) same ∙ sym (bucket_of_lem c now') in
    insert_all_known draw' now' c (keep (is_target c locked') ts) swept (
      All-keep_stronger (Scanned (bucket_of c now') swept) (is_target c locked)
        (is_target c locked') ts (stronger c locked locked' unlocked)
        (subst (λ b. All (Scanned b swept) (keep (is_target c locked) ts)) e
          (cohort_rows-Scanned draw now c (keep (is_target c locked) ts) jobs)))
