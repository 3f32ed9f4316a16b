-- ===== src/Jobs/Retry.antt =====
-- The life of a job over its attempts.
use cloud_sentinel_ai.Base.{
  ◌+◌, ◌*◌, ◌^◌, ◌≤◌, ◌<◌, ◌≡◌, Instant, seconds, true, false, none, some, List, [], ◌∷◌, arith,
  refl, length, ◌∙◌,
}
use cloud_sentinel_ai.Base.Text.{Text}
use cloud_sentinel_ai.Jobs.{
  pending, completed, dead_letter, BackgroundJob, is_due, Ending, finished, timed_out, cancelled,
  raised, start_job, end_job, retry_or_bury, process_single_job,
}

-- A job of the queue has no more attempts than it may have, and none left once it is buried.
pub record IsSound (j : BackgroundJob) : Type 0 where
  pub capped : j.attempts ≤ j.max_attempts
  pub buried : j.status ≡ dead_letter → j.attempts ≡ j.max_attempts

-- Where each ending leaves a job `j` that is now `k`.
abbrev pub Settled : Ending → BackgroundJob → BackgroundJob → Type 0
Settled (finished r) j k = (k.status ≡ completed) × (k.result ≡ some r) × (k.error_message ≡ none)
Settled timed_out j k =
    (j.attempts + 1 < j.max_attempts → k.status ≡ pending)
    × (j.attempts + 1 ≡ j.max_attempts → k.status ≡ dead_letter)
Settled cancelled j k = k.status ≡ pending
Settled (raised e) j k =
    (j.attempts + 1 < j.max_attempts → k.status ≡ pending)
    × (j.attempts + 1 ≡ j.max_attempts → k.status ≡ dead_letter)

-- A due job that is processed has one attempt more, within its maximum, and is not left running or
-- failed. If its handler returned it is completed with that result and no error; if the handler
-- timed out or raised it is pending while attempts are left and else in the dead letter
-- queue; if it was cancelled it is pending.
pub process_single_job-IsSound :
    (now start end : Instant) (ending : Ending) (j : BackgroundJob)
    → is_due now j ≡ true
    → let k = process_single_job start end ending j in
      IsSound k
      × (k.attempts ≡ j.attempts + 1)
      × (k.max_attempts ≡ j.max_attempts)
      × Settled ending j k
unfolding process_single_job start_job end_job retry_or_bury is_due
process_single_job-IsSound now start end (finished r) j h = ground arith
process_single_job-IsSound now start end timed_out j h = ground arith
process_single_job-IsSound now start end cancelled j h = ground arith
process_single_job-IsSound now start end (raised e) j h = ground arith

-- A job that is cancelled in its last attempt is lost: it is pending for ever, since it is neither
-- due at any time, nor in the dead letter queue.
pub cancelled_is_lost :
    (start end : Instant) (j : BackgroundJob)
    → j.attempts + 1 ≡ j.max_attempts
    → let k = process_single_job start end cancelled j in
      (k.status ≡ pending) × ((now : Instant) → is_due now k ≡ false)
unfolding process_single_job start_job end_job is_due
cancelled_is_lost start end j h = (refl, λ now. ground arith)

-- Attempts that all fail: when each starts and ends, and by a timeout or an exception.
pub data Failure : Type 0 where
  times_out : Instant → Instant → Failure
  raises : Instant → Instant → Text → Failure

unfoldable pub fail_once : Failure → BackgroundJob → BackgroundJob
fail_once (times_out start end) = process_single_job start end timed_out
fail_once (raises start end e) = process_single_job start end (raised e)

unfoldable pub fail_all : List Failure → BackgroundJob → BackgroundJob
fail_all [] j = j
fail_all (f ∷ fs) j = fail_all fs (fail_once f j)

abbrev pub ended_at : Failure → Instant
ended_at (times_out start end) = end
ended_at (raises start end e) = end

-- A failed attempt with one left behind it waits for 60 seconds, doubled for every earlier attempt.
fail_once_waits :
    (f : Failure) (j : BackgroundJob)
    → j.attempts + 1 < j.max_attempts
    → let k = fail_once f j in
      (k.status ≡ pending)
      × (k.attempts ≡ j.attempts + 1)
      × (k.max_attempts ≡ j.max_attempts)
      × (k.scheduled_for ≡ ended_at f + seconds (60 * 2 ^ j.attempts))
unfolding fail_once process_single_job start_job end_job retry_or_bury
fail_once_waits (times_out start end) j h = ground arith
fail_once_waits (raises start end e) j h = ground arith

fail_once_buries :
    (f : Failure) (j : BackgroundJob)
    → j.attempts + 1 ≡ j.max_attempts
    → ((fail_once f j).status ≡ dead_letter) × ((fail_once f j).completed_at ≡ some (ended_at f))
unfolding fail_once process_single_job start_job end_job retry_or_bury
fail_once_buries (times_out start end) j h = ground arith
fail_once_buries (raises start end e) j h = ground arith

fail_all_waits :
    (fs : List Failure) (j : BackgroundJob)
    → j.status ≡ pending
    → j.attempts + length fs < j.max_attempts
    → let k = fail_all fs j in
      (k.status ≡ pending)
      × (k.attempts ≡ j.attempts + length fs)
      × (k.max_attempts ≡ j.max_attempts)
unfolding fail_all
fail_all_waits [] j p h = (p, omega arith, refl)
fail_all_waits (f ∷ fs) j p h =
    let (pend, n, m, _) = fail_once_waits f j (omega arith) in
    let (pend', n', m') = fail_all_waits fs (fail_once f j) pend (omega arith) in
    (pend', omega arith, m' ∙ m)

-- A job whose attempts all fail, by timeouts or exceptions, is retried until its attempts are used
-- up and no longer: after every failure but the last it is pending with that many attempts, the
-- next one scheduled 60 seconds after the failure, doubled for every attempt before; after
-- the last it is in the dead letter queue and closed at that failure.
pub retries_until_buried :
    (fs : List Failure) (next last : Failure) (j : BackgroundJob)
    → j.status ≡ pending
    → j.attempts + length fs + 2 ≡ j.max_attempts
    → let k = fail_once next (fail_all fs j) in
      (k.status ≡ pending)
      × (k.attempts ≡ j.attempts + length fs + 1)
      × (k.scheduled_for ≡ ended_at next + seconds (60 * 2 ^ (j.attempts + length fs)))
      × ((fail_once last k).status ≡ dead_letter)
      × ((fail_once last k).completed_at ≡ some (ended_at last))
retries_until_buried fs next last j p h =
    let (pend, n, m) = fail_all_waits fs j p (omega arith) in
    let k = fail_all fs j in
    let (pend', n', m', at) = fail_once_waits next k (omega arith) in
    let (dead, closed) = fail_once_buries last (fail_once next k) (omega arith) in
    (pend', omega arith, rw (← n) at, dead, closed)
