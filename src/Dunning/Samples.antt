-- ===== src/Dunning/Samples.antt =====
-- A subscription whose payments fail.
use cloud_sentinel_ai.Base.{ℕ, ◌+◌, days, none, some, List, [], ◌∷◌, ◌≡◌, ◌≢◌, refl, length, arith}
use cloud_sentinel_ai.Base.Dict.{get}
use cloud_sentinel_ai.Tiers.{growth, trial}
use cloud_sentinel_ai.Dunning.{
  active, cancelled, TenantSubscription, Store, Clock, scheduled_retry, downgraded, charged,
  declined, raised, process_failed_payment, retry_payment, retry_delay_days,
}
use cloud_sentinel_ai.Dunning.History.{Event, payment_failed, retried}
use cloud_sentinel_ai.Dunning.Recovery.{third_failure_ends}

abbrev paying : TenantSubscription
paying = record {
  id = 5;
  tenant_id = 7;
  paystack_customer_code = none;
  paystack_subscription_code = none;
  paystack_email_token = none;
  paystack_auth_code = some 77;
  tier = growth;
  status = active;
  next_payment_date = some 100;
  canceled_at = none;
  dunning_attempts = 0;
  last_dunning_at = none;
  dunning_next_retry_at = none;
}

abbrev billing : Store
billing = record { subscriptions = (5, paying) ∷ []; jobs = [] }

abbrev at : ℕ → Clock
at t = record { charged_at = t; now = t + 1; enqueued_at = t + 2; canceled_at = t + 2; job_id = t }

second_delay : retry_delay_days 2 ≡ 3
unfolding retry_delay_days
second_delay = refl

declined≢charged : declined ≢ charged
declined≢charged e = ground arith

raised≢charged : raised ≢ charged
raised≢charged e = ground arith

abbrev failures : List Event
failures =
    payment_failed (at 1000) 5 ∷ retried (at 2000) declined 5 ∷ retried (at 3000) raised 5 ∷ []

third_failure_ends_example :
    let (a1, s1) = process_failed_payment (at 1000) 5 billing in
    let (a2, s2) = retry_payment (at 2000) declined 5 s1 in
    let (a3, s3) = retry_payment (at 3000) raised 5 s2 in
    (a1 ≡ scheduled_retry 1 (1001 + days 1))
    × (a2 ≡ scheduled_retry 2 (2001 + days 3))
    × (a3 ≡ downgraded)
    × (length s3.jobs ≡ 0 + 2)
    × ((ended : TenantSubscription) × (get 5 s3.subscriptions ≡ some ended)
        × (ended.status ≡ cancelled)
        × (ended.tier ≡ trial)
        × (ended.dunning_attempts ≡ 3)
        × (ended.dunning_next_retry_at ≡ none))
third_failure_ends_example =
    third_failure_ends (at 1000) (at 2000) (at 3000) declined raised paying billing refl refl
      declined≢charged raised≢charged
