-- ===== src/Currency/Rates.antt =====
-- How long a fetched rate serves, and how near the conversion is.
use cloud_sentinel_ai.Base.{
  ℕ, ◌+◌, ◌*◌, ◌%◌, ◌≤◌, ◌<◌, Instant, hours, true, false, Option, none, some, ◌≡◌, refl, arith, ap,
  ◌∙◌, if◌then◌else◌,
}
use cloud_sentinel_ai.Currency.{
  ExchangeRate, Outside, fetched, is_fresh, read_cache, from_api, from_cache, get_ngn_rate,
  convert_usd_to_ngn,
}

-- The cache is of no use: it cannot be read, has no row, or its row is too old.
abbrev IsStale : Instant → Option ExchangeRate → Type 0
IsStale now none = Unit {0}
IsStale now (some r) = is_fresh now r ≡ false

stale_asks :
    (out : Outside) (now : Instant) (rate_obj row : Option ExchangeRate)
    → IsStale now rate_obj
    → from_cache out now rate_obj row ≡ from_api out now rate_obj (fetched out) row
stale_asks out now none row h = refl
stale_asks out now (some r) row h = rw (h, from_cache) refl

fresh_serves :
    (out : Outside) (now later : Instant) (rate : ℕ)
    → out.can_read ≡ true
    → later < now + hours 24
    → let row : Option ExchangeRate = some (record { rate = rate; last_updated = now }) in
      get_ngn_rate out later row ≡ (rate, row)
unfolding get_ngn_rate
fresh_serves out now later rate readable soon = rw (readable, get_ngn_rate) (ground arith)

asked :
    (out : Outside) (now : Instant) (row : Option ExchangeRate) (rate : ℕ)
    → IsStale now (read_cache out row)
    → fetched out ≡ some rate
    → out.can_write ≡ true
    → get_ngn_rate out now row
      ≡ (rate, some (record { rate = out.numeric rate; last_updated = now }))
unfolding get_ngn_rate
asked out now row rate stale answered written =
    stale_asks out now (read_cache out row) row stale
    ∙ ap (λ a. from_api out now (read_cache out row) a row) answered
    ∙ ap
        (λ b.
          (rate, if b then some (record { rate = out.numeric rate; last_updated = now }) else row))
        written

-- Where the cache is of no use and the service answers, the rate is its answer; a call in the next
-- 24 hours that can read the cache takes the rate that the column keeps, whatever the service would
-- answer then, and changes nothing.
rate_is_kept :
    (out out' : Outside) (now later : Instant) (row : Option ExchangeRate) (rate : ℕ)
    → IsStale now (read_cache out row)
    → fetched out ≡ some rate
    → out.can_write ≡ true
    → out'.can_read ≡ true
    → later < now + hours 24
    → let (first, row') = get_ngn_rate out now row in
      (first ≡ rate) × (get_ngn_rate out' later row' ≡ (out.numeric rate, row'))
rate_is_kept out out' now later row rate stale answered written readable soon =
    rw (asked out now row rate stale answered written)
      (refl, fresh_serves out' now later (out.numeric rate) readable soon)

-- The conversion is a whole number of naira, in kobo, at most half a naira from the exact amount.
convert_usd_to_ngn_near :
    (usd_amount rate : ℕ)
    → let kobo = convert_usd_to_ngn usd_amount rate in
      (kobo % 100 ≡ 0)
      × (kobo * 100000000 ≤ usd_amount * rate + 5000000000)
      × (usd_amount * rate ≤ kobo * 100000000 + 5000000000)
unfolding convert_usd_to_ngn
convert_usd_to_ngn_near usd_amount rate = ground arith
