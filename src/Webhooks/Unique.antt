-- ===== src/Webhooks/Unique.antt =====
-- At most one job of each webhook is waiting, running or done.
use cloud_sentinel_ai.Base.{
  ℕ, ◌≤◌, Instant, Bool, true, false, ◌≡◌, ◌≢◌, refl, sym, ap, ◌∙◌, arith, Option, none, some, List,
  [], ◌∷◌, map, keep, if_each, inr, ◌⊎◌, ◌&&◌, ◌||◌, ◌==◌, and_mono, and_or, count, count-map-le,
  count-le-add, count-le, count-keep, Found, nothing, one, several, scalar_one_or_none,
  nothing_found, several_found, length,
}
use cloud_sentinel_ai.Jobs.{
  BackgroundJob, JobType, JobStatus, pending, running, completed, Payload, webhook_of, Webhook,
  Ending, enqueue_job, new_job, start_due, end_running, on_row, is_pending, is_running,
}
use cloud_sentinel_ai.Jobs.Rows.{is_live, Keeps, start_due-Keeps, end_running-Keeps, on_row-Keeps}
use cloud_sentinel_ai.Scheduler.{detect_stuck_jobs}
use cloud_sentinel_ai.Scheduler.Stuck.{detect_stuck_job-Keeps}
use cloud_sentinel_ai.Webhooks.{
  Stored, Library, Request, key_of, is_webhook_type, is_of, is_completed, is_done_of, is_queued_of,
  find_done, find_queued, has_idempotency_key, webhook_of_request, store_found, store_webhook,
}

abbrev pub is_live_of : ℕ → BackgroundJob → Bool
is_live_of key j = is_of key j && is_live j.status

abbrev pub Single : List BackgroundJob → Type 0
Single jobs = (key : ℕ) → count (is_live_of key) jobs ≤ 1

-- What happens to the table of jobs.
pub data Event : Type 0 where
  received : Library → ℕ → Instant → Request → Event
  other_enqueued :
      ℕ
      → Instant
      → (type : JobType) → is_webhook_type type ≡ false
      → Option ℕ
      → Option Payload
      → Option Instant
      → ℕ
      → Event
  started : Instant → ℕ → Event
  ended : Instant → Ending → ℕ → Event
  stuck_detected : Instant → Event

unfoldable pub step : Event → List BackgroundJob → List BackgroundJob
step (received lib id now r) jobs = (store_webhook lib id now r jobs).1
step (other_enqueued id now type other tenant payload at max) jobs =
    (enqueue_job id now type tenant payload at max jobs).1
step (started now id) jobs = map (on_row (start_due now) id) jobs
step (ended now e id) jobs = map (on_row (end_running now e) id) jobs
step (stuck_detected now) jobs = detect_stuck_jobs now jobs

unfoldable pub run : List Event → List BackgroundJob → List BackgroundJob
run [] jobs = jobs
run (e ∷ es) jobs = run es (step e jobs)

live-cases :
    (s : JobStatus)
    → is_live s ≡ true
    → (is_completed s ≡ true) ⊎ ((is_pending s || is_running s) ≡ true)
live-cases pending h = inr refl
live-cases running h = inr refl
live-cases s h = ground arith

completed-is_live : (s : JobStatus) → is_completed s ≡ true → is_live s ≡ true
completed-is_live completed h = refl
completed-is_live s h = ground arith

queued-is_live : (s : JobStatus) → (is_pending s || is_running s) ≡ true → is_live s ≡ true
queued-is_live pending h = refl
queued-is_live s h = ground arith

done_or_queued :
    (key : ℕ) (j : BackgroundJob)
    → is_live_of key j ≡ true
    → (is_done_of key j ≡ true) ⊎ (is_queued_of key j ≡ true)
unfolding is_done_of is_queued_of
done_or_queued key j h = and_or (is_of key j) _ _ (is_live j.status) (live-cases j.status) h

live_of_done : (key : ℕ) (j : BackgroundJob) → is_done_of key j ≡ true → is_live_of key j ≡ true
unfolding is_done_of
live_of_done key j h =
    and_mono (is_of key j) (is_completed j.status) _ (completed-is_live j.status) h

live_of_queued : (key : ℕ) (j : BackgroundJob) → is_queued_of key j ≡ true → is_live_of key j ≡ true
unfolding is_queued_of
live_of_queued key j h =
    and_mono (is_of key j) (is_pending j.status || is_running j.status) _ (queued-is_live j.status)
      h

-- A query that finds nothing counts nothing.
none_counted :
    (p : BackgroundJob → Bool) (jobs : List BackgroundJob)
    → scalar_one_or_none (keep p jobs) ≡ nothing
    → count p jobs ≡ 0
none_counted p jobs h = count-keep p jobs ∙ ap (λ l. length l) (nothing_found p jobs h)

none_live :
    (key : ℕ) (jobs : List BackgroundJob)
    → find_done key jobs ≡ nothing
    → find_queued key jobs ≡ nothing
    → count (is_live_of key) jobs ≡ 0
unfolding find_done find_queued
none_live key jobs d q = omega (
  arith,
  none_counted (is_done_of key) jobs d,
  none_counted (is_queued_of key) jobs q,
  count-le-add (is_done_of key) (is_queued_of key) (is_live_of key) jobs (done_or_queued key),
)

is_of_same :
    (key : ℕ) (w : Webhook) (j : BackgroundJob)
    → j.payload ≡ some (webhook_of w)
    → is_of key j ≡ true
    → w.idempotency_key ≡ key
is_of_same key w j e h =
    let t : has_idempotency_key key j.payload ≡ true =
      right (is_webhook_type j.job_type) (has_idempotency_key key j.payload) h in
    same_number (rw e at t)
  where
    same_number : (w.idempotency_key == key) ≡ true → w.idempotency_key ≡ key
    same_number t = ground arith

    right : (a b : Bool) → (a && b) ≡ true → b ≡ true
    right a b t = ground arith

add-Single :
    (w : Webhook) (j : BackgroundJob) (jobs : List BackgroundJob)
    → j.payload ≡ some (webhook_of w)
    → count (is_live_of w.idempotency_key) jobs ≡ 0
    → Single jobs
    → Single (j ∷ jobs)
add-Single w j jobs e free h key =
    if_each (λ n. n ≤ 1) (is_live_of key j)
      (λ live. omega (arith, zero_for key (is_of_same key w j e (left _ _ live)))) (λ _. h key)
  where
    left : (a b : Bool) → (a && b) ≡ true → a ≡ true
    left a b t = ground arith

    zero_for : (k : ℕ) → w.idempotency_key ≡ k → count (is_live_of k) jobs ≡ 0
    zero_for k same = sym (ap (λ n. count (is_live_of n) jobs) same) ∙ free

store_found-Single :
    (d q : Found BackgroundJob) (id : ℕ) (now : Instant) (w : Webhook) (jobs : List BackgroundJob)
    → find_done w.idempotency_key jobs ≡ d
    → find_queued w.idempotency_key jobs ≡ q
    → Single jobs
    → Single (store_found d q id now w jobs).1
unfolding store_found enqueue_job new_job
store_found-Single several q id now w jobs ed eq h = h
store_found-Single (one _) q id now w jobs ed eq h = h
store_found-Single nothing several id now w jobs ed eq h = h
store_found-Single nothing (one _) id now w jobs ed eq h = h
store_found-Single nothing nothing id now w jobs ed eq h =
    add-Single w (new_job id now JobType.webhook_retry none (some (webhook_of w)) none 5) jobs refl
      (none_live w.idempotency_key jobs ed eq) h

is_live_of-Keeps :
    (key : ℕ) (i j : BackgroundJob) → Keeps i j → is_live_of key j ≡ true → is_live_of key i ≡ true
is_live_of-Keeps key i j (_, type, payload, live) h =
    and_mono (is_of key i) (is_live j.status) (is_live i.status) live (
      sym (
        ap (λ t. (is_webhook_type t && has_idempotency_key key j.payload) && is_live j.status) type
        ∙ ap (λ p. (is_webhook_type i.job_type && has_idempotency_key key p) && is_live j.status)
            payload)
      ∙ h)

map-Single :
    (f : BackgroundJob → BackgroundJob) (jobs : List BackgroundJob)
    → ((j : BackgroundJob) → Keeps j (f j))
    → Single jobs
    → Single (map f jobs)
map-Single f jobs keeps h key = omega (
  arith,
  h key,
  count-map-le (is_live_of key) f jobs (λ j. is_live_of-Keeps key j (f j) (keeps j)),
)

step-Single : (e : Event) (jobs : List BackgroundJob) → Single jobs → Single (step e jobs)
unfolding step store_webhook detect_stuck_jobs enqueue_job new_job
step-Single (received lib id now r) jobs h =
    store_found-Single _ _ id now (webhook_of_request lib now r) jobs refl refl h
step-Single (other_enqueued id now type other tenant payload at max) jobs h =
    λ key. rw other (h key)
step-Single (started now id) jobs h = map-Single _ jobs (on_row-Keeps _ (start_due-Keeps now) id) h
step-Single (ended now e id) jobs h =
    map-Single _ jobs (on_row-Keeps _ (end_running-Keeps now e) id) h
step-Single (stuck_detected now) jobs h = map-Single _ jobs (detect_stuck_job-Keeps now) h

run-Single : (es : List Event) (jobs : List BackgroundJob) → Single jobs → Single (run es jobs)
unfolding run
run-Single [] jobs h = h
run-Single (e ∷ es) jobs h = run-Single es (step e jobs) (step-Single e jobs h)

one_done : (key : ℕ) (jobs : List BackgroundJob) → Single jobs → find_done key jobs ≢ several
unfolding find_done
one_done key jobs h e = absurd (
    omega (
      arith,
      h key,
      several_found (is_done_of key) jobs e,
      count-le (is_live_of key) (is_done_of key) jobs (live_of_done key),
    ))

one_queued : (key : ℕ) (jobs : List BackgroundJob) → Single jobs → find_queued key jobs ≢ several
unfolding find_queued
one_queued key jobs h e = absurd (
    omega (
      arith,
      h key,
      several_found (is_queued_of key) jobs e,
      count-le (is_live_of key) (is_queued_of key) jobs (live_of_queued key),
    ))

stored_or_found :
    (d q : Found BackgroundJob) (id : ℕ) (now : Instant) (w : Webhook) (jobs : List BackgroundJob)
    → d ≢ several
    → q ≢ several
    → (store_found d q id now w jobs).0 ≢ Stored.several_found
unfolding store_found
stored_or_found several q id now w jobs hd hq = absurd (hd refl)
stored_or_found (one _) q id now w jobs hd hq = λ e. cc
stored_or_found nothing several id now w jobs hd hq = absurd (hq refl)
stored_or_found nothing (one _) id now w jobs hd hq = λ e. cc
stored_or_found nothing nothing id now w jobs hd hq = λ e. cc

-- However webhooks arrive, one after the other, and jobs of other types are enqueued, while workers
-- start and end jobs and the detector of stuck jobs runs: at most one job for an idempotency key is
-- pending, running or completed, so that storing a webhook never finds several.
pub webhooks_are_unique :
    (es : List Event) (jobs : List BackgroundJob)
    → Single jobs
    → Single (run es jobs)
      × ((lib : Library) (id : ℕ) (now : Instant) (r : Request)
          → (store_webhook lib id now r (run es jobs)).0 ≢ Stored.several_found)
unfolding store_webhook webhook_of_request
webhooks_are_unique es jobs h =
    let kept = run-Single es jobs h in
    (
      kept,
      λ lib id now r.
          stored_or_found _ _ id now (webhook_of_request lib now r) (run es jobs)
            (one_done (key_of lib now r) (run es jobs) kept)
            (one_queued (key_of lib now r) (run es jobs) kept),
    )
