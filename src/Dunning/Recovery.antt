-- ===== src/Dunning/Recovery.antt =====
-- One subscription from its first failed payment to its recovery or its end.
use cloud_sentinel_ai.Base.{
  ◌+◌, ◌≤◌, ◌<◌, days, none, some, ◌≡◌, ◌≢◌, refl, ap, ◌∙◌, arith, eq→==, lt→leb, le→leb, length,
}
use cloud_sentinel_ai.Base.Dict.{Dict, get, put, get-put}
use cloud_sentinel_ai.Jobs.{enqueue_job, new_job}
use cloud_sentinel_ai.Tiers.{trial}
use cloud_sentinel_ai.Dunning.{
  active, cancelled, TenantSubscription, Store, Clock, scheduled_retry, downgraded, attempted,
  handle_final_failure, next_retry, retry_delay_days, schedule_or_end, process_failed_payment,
  Charge, charged, declined, raised, handle_retry_success, retry_in, retry_payment,
}

-- The table has this subscription under its identifier.
abbrev pub Has : Store → TenantSubscription → Type 0
Has s sub = get sub.id s.subscriptions ≡ some sub

get-put_same :
    (sub : TenantSubscription) (d : Dict TenantSubscription)
    → get sub.id (put sub.id sub d) ≡ some sub
get-put_same sub d = get-put sub.id sub.id sub d ∙ rw (eq→== sub.id sub.id refl) refl

-- The subscription after a failure with attempts left.
unfoldable pub waiting : Clock → TenantSubscription → TenantSubscription
unfolding attempted
waiting c sub = record (attempted c sub) {
  dunning_next_retry_at = some (next_retry c (attempted c sub));
}

pub failed_lem :
    (c : Clock) (sub : TenantSubscription) (s : Store)
    → Has s sub
    → sub.dunning_attempts + 1 < 3
    → let x = process_failed_payment c sub.id s in
      (x.0 ≡ scheduled_retry (sub.dunning_attempts + 1) (next_retry c (attempted c sub)))
      × Has x.1 (waiting c sub)
      × (length x.1.jobs ≡ length s.jobs + 1)
unfolding process_failed_payment schedule_or_end attempted waiting enqueue_job new_job
failed_lem c sub s found few = rw found (
    rw (lt→leb 3 (sub.dunning_attempts + 1) few)
      (refl, get-put_same (waiting c sub) s.subscriptions, omega arith))

pub failed_subscriptions :
    (c : Clock) (sub : TenantSubscription) (s : Store)
    → Has s sub
    → sub.dunning_attempts + 1 < 3
    → (process_failed_payment c sub.id s).1.subscriptions
      ≡ put sub.id (waiting c sub) s.subscriptions
unfolding process_failed_payment schedule_or_end attempted waiting
failed_subscriptions c sub s found few =
    rw found (rw (lt→leb 3 (sub.dunning_attempts + 1) few) refl)

ended_lem :
    (c : Clock) (sub : TenantSubscription) (s : Store)
    → Has s sub
    → 3 ≤ sub.dunning_attempts + 1
    → let x = process_failed_payment c sub.id s in
      (x.0 ≡ downgraded) × Has x.1 (handle_final_failure c (attempted c sub)) × (x.1.jobs ≡ s.jobs)
unfolding process_failed_payment schedule_or_end attempted handle_final_failure
ended_lem c sub s found many = rw found (
    rw (le→leb 3 (sub.dunning_attempts + 1) many)
      (refl, get-put_same (handle_final_failure c (attempted c sub)) s.subscriptions, refl))

retry_in_failed :
    (c : Clock) (how : Charge) (sub : TenantSubscription) (s : Store)
    → how ≢ charged
    → retry_in c how (some sub) s ≡ process_failed_payment c sub.id s
retry_in_failed c charged sub s h = absurd (h refl)
retry_in_failed c declined sub s h = refl
retry_in_failed c raised sub s h = refl

retry_failed :
    (c : Clock) (how : Charge) (sub : TenantSubscription) (s : Store)
    → Has s sub
    → how ≢ charged
    → retry_payment c how sub.id s ≡ process_failed_payment c sub.id s
unfolding retry_payment
retry_failed c how sub s found h = rw found (retry_in_failed c how sub s h)

-- A subscription with no failure counted, whose payment fails and then both of its retries: the
-- retries are due one day after the first failure and three days after the second, each with a job,
-- and the third failure adds no job and cancels it, in the trial tier, with no retry due.
pub third_failure_ends :
    (c1 c2 c3 : Clock) (how2 how3 : Charge) (sub : TenantSubscription) (s : Store)
    → Has s sub
    → sub.dunning_attempts ≡ 0
    → how2 ≢ charged
    → how3 ≢ charged
    → let (a1, s1) = process_failed_payment c1 sub.id s in
      let (a2, s2) = retry_payment c2 how2 sub.id s1 in
      let (a3, s3) = retry_payment c3 how3 sub.id s2 in
      (a1 ≡ scheduled_retry 1 (c1.now + days 1))
      × (a2 ≡ scheduled_retry 2 (c2.now + days 3))
      × (a3 ≡ downgraded)
      × (length s3.jobs ≡ length s.jobs + 2)
      × ((ended : TenantSubscription) × (get sub.id s3.subscriptions ≡ some ended)
          × (ended.status ≡ cancelled)
          × (ended.tier ≡ trial)
          × (ended.dunning_attempts ≡ 3)
          × (ended.dunning_next_retry_at ≡ none))
unfolding waiting attempted next_retry retry_delay_days handle_final_failure
third_failure_ends c1 c2 c3 how2 how3 sub s found fresh h2 h3 =
    let sub1 = waiting c1 sub in
    let sub2 = waiting c2 sub1 in
    let s1 = (process_failed_payment c1 sub.id s).1 in
    let (e1, found1, jobs1) = failed_lem c1 sub s found (omega (arith, fresh)) in
    let (e2, found2, jobs2) = failed_lem c2 sub1 s1 found1 (omega (arith, fresh)) in
    let s2 = (process_failed_payment c2 sub.id s1).1 in
    let (e3, found3, jobs3) = ended_lem c3 sub2 s2 found2 (omega (arith, fresh)) in
    rw (retry_failed c2 how2 sub1 s1 found1 h2) (
      rw (retry_failed c3 how3 sub2 s2 found2 h3) (
        e1 ∙ rw fresh refl,
        e2 ∙ rw fresh refl,
        e3,
        omega (arith, jobs1, jobs2, ap (λ j. length j) jobs3),
        (_, found3, refl, refl, omega (arith, fresh), refl),
      ))

-- A failed payment that a retry recovers leaves the subscription as it was, apart from its next
-- payment, due 30 days after the charge: active, in its tier, out of dunning.
pub recovered :
    (c d : Clock) (sub : TenantSubscription) (s : Store)
    → Has s sub
    → sub.status ≡ active
    → sub.dunning_attempts ≡ 0
    → sub.last_dunning_at ≡ none
    → sub.dunning_next_retry_at ≡ none
    → let t = (retry_payment d charged sub.id (process_failed_payment c sub.id s).1).1 in
      get sub.id t.subscriptions
      ≡ some (record sub { next_payment_date = some (d.charged_at + days 30) })
unfolding waiting attempted handle_retry_success retry_payment
recovered c d sub s found e0 e1 e2 e3 =
    let (_, found1, _) = failed_lem c sub s found (omega (arith, e1)) in
    rw found1 (
      get-put_same (handle_retry_success d (waiting c sub))
        (process_failed_payment c sub.id s).1.subscriptions
      ∙ rw e0 (rw e1 (rw e2 (rw e3 refl))))
