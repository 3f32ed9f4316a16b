-- ===== src/Dunning.antt =====
-- The recovery of failed payments (`DunningService` of
-- app/modules/reporting/domain/billing/dunning_service.py, with `TenantSubscription` of
-- paystack_billing.py beside it). The table of subscriptions is a dictionary by identifier. A
-- charge is given by how `charge_renewal` ended; the emails are taken not to matter and are left
-- out.
use cloud_sentinel_ai.Base.{
  ℕ, zero, suc, ◌+◌, ◌-◌, Instant, days, Bool, true, false, Option, none, some, List, [], ◌∷◌, leb,
  if◌then◌else◌, length,
}
use cloud_sentinel_ai.Base.Dict.{Dict, get, put}
use cloud_sentinel_ai.Jobs.{JobType, Payload, subscription_attempt, BackgroundJob, enqueue_job}
use cloud_sentinel_ai.Tiers.{PricingTier, trial}
pub mod History
pub mod Recovery
mod Samples

pub data SubscriptionStatus : Type 0 where
  active non_renewing attention completed cancelled : SubscriptionStatus

pub record TenantSubscription : Type 0 where
  pub id : ℕ
  pub tenant_id : ℕ
  pub paystack_customer_code : Option ℕ
  pub paystack_subscription_code : Option ℕ
  pub paystack_email_token : Option ℕ
  pub paystack_auth_code : Option ℕ
  pub tier : PricingTier
  pub status : SubscriptionStatus
  pub next_payment_date : Option Instant
  pub canceled_at : Option Instant
  pub dunning_attempts : ℕ
  pub last_dunning_at : Option Instant
  pub dunning_next_retry_at : Option Instant

pub record Store : Type 0 where
  pub subscriptions : Dict TenantSubscription
  pub jobs : List BackgroundJob

-- The readings of the clock in one call, and the identifier of the job that it may enqueue.
pub record Clock : Type 0 where
  pub charged_at : Instant
  pub now : Instant
  pub enqueued_at : Instant
  pub canceled_at : Instant
  pub job_id : ℕ

pub data Answer : Type 0 where
  not_found reactivated downgraded : Answer
  scheduled_retry : ℕ → Instant → Answer

abbrev pub dunning_retry_schedule_days : List ℕ
dunning_retry_schedule_days = 1 ∷ 3 ∷ 7 ∷ []

abbrev pub dunning_max_attempts : ℕ
dunning_max_attempts = 3

-- `xs[min(n, len(xs) - 1)]`
abbrev pub get_or_last : ℕ → List ℕ → ℕ
get_or_last n [] = 0
get_or_last n (x ∷ []) = x
get_or_last zero (x ∷ _ ∷ _) = x
get_or_last (suc n) (_ ∷ y ∷ rest) = get_or_last n (y ∷ rest)

unfoldable pub retry_delay_days : ℕ → ℕ
retry_delay_days attempt = get_or_last (attempt - 1) dunning_retry_schedule_days

-- The counted failure.
unfoldable pub attempted : Clock → TenantSubscription → TenantSubscription
attempted c sub = record sub {
  dunning_attempts = sub.dunning_attempts + 1;
  last_dunning_at = some c.now;
  status = attention;
}

-- `_handle_final_failure`
unfoldable pub handle_final_failure : Clock → TenantSubscription → TenantSubscription
handle_final_failure c sub = record sub {
  status = cancelled;
  tier = trial;
  canceled_at = some c.canceled_at;
  dunning_next_retry_at = none;
}

unfoldable pub next_retry : Clock → TenantSubscription → Instant
unfolding retry_delay_days
next_retry c sub = c.now + days (retry_delay_days sub.dunning_attempts)

-- The part of `process_failed_payment` after the count: the end, or another attempt and its job.
unfoldable pub schedule_or_end : Clock → TenantSubscription → Store → Answer × Store
schedule_or_end c sub s =
    if leb dunning_max_attempts sub.dunning_attempts
    then (
      downgraded,
      record s { subscriptions = put sub.id (handle_final_failure c sub) s.subscriptions },
    )
    else (
      scheduled_retry sub.dunning_attempts (next_retry c sub),
      record {
        subscriptions =
            put sub.id (record sub { dunning_next_retry_at = some (next_retry c sub) })
              s.subscriptions;
        jobs =
            (enqueue_job c.job_id c.enqueued_at JobType.dunning (some sub.tenant_id)
              (some (subscription_attempt sub.id (sub.dunning_attempts + 1)))
              (some (next_retry c sub)) 3 s.jobs).1;
      },
    )

abbrev pub failed_in : Clock → Option TenantSubscription → Store → Answer × Store
failed_in c none s = (not_found, s)
failed_in c (some sub) s = schedule_or_end c (attempted c sub) s

unfoldable pub process_failed_payment : Clock → ℕ → Store → Answer × Store
process_failed_payment c id s = failed_in c (get id s.subscriptions) s

-- How `charge_renewal` ended.
pub data Charge : Type 0 where
  charged declined raised : Charge

-- A renewal that was charged: the next payment in 30 days, and `_handle_retry_success`.
unfoldable pub handle_retry_success : Clock → TenantSubscription → TenantSubscription
handle_retry_success c sub = record sub {
  next_payment_date = some (c.charged_at + days 30);
  status = active;
  dunning_attempts = 0;
  last_dunning_at = none;
  dunning_next_retry_at = none;
}

abbrev pub retry_in : Clock → Charge → Option TenantSubscription → Store → Answer × Store
retry_in c how none s = (not_found, s)
retry_in c charged (some sub) s = (
  reactivated,
  record s { subscriptions = put sub.id (handle_retry_success c sub) s.subscriptions },
)
retry_in c declined (some sub) s = process_failed_payment c sub.id s
retry_in c raised (some sub) s = process_failed_payment c sub.id s

unfoldable pub retry_payment : Clock → Charge → ℕ → Store → Answer × Store
retry_payment c how id s = retry_in c how (get id s.subscriptions) s
