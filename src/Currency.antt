-- ===== src/Currency.antt =====
-- The exchange rate of dollars to naira, with its cache in the database, and the conversion
-- (app/modules/reporting/domain/billing/currency.py). A rate is a whole number of hundred-millionths,
-- an amount of dollars a whole number of cents.
use cloud_sentinel_ai.Base.{
  ℕ, ◌+◌, ◌*◌, ◌/◌, ◌%◌, Instant, hours, Bool, true, false, Option, none, some, ltb, if◌then◌else◌,
}
pub mod Rates
mod Samples

-- The row of the two currencies, which are its primary key.
pub record ExchangeRate : Type 0 where
  pub rate : ℕ
  pub last_updated : Instant

-- What one call meets: whether its query and its update succeed, the configured key, what
-- `_fetch_from_api` returns or that it raises, and the rate that the column keeps of one.
pub record Outside : Type 0 where
  pub can_read : Bool
  pub can_write : Bool
  pub has_api_key : Bool
  pub fetch_from_api : Option ℕ
  pub numeric : ℕ → ℕ
  pub fallback_ngn_rate : ℕ

abbrev pub cache_ttl_hours : ℕ
cache_ttl_hours = 24

abbrev pub is_fresh : Instant → ExchangeRate → Bool
is_fresh now r = ltb now (r.last_updated + hours cache_ttl_hours)

-- `rate_obj` after the query.
abbrev pub read_cache : Outside → Option ExchangeRate → Option ExchangeRate
read_cache out row = if out.can_read then row else none

abbrev pub update_db_cache : Outside → Instant → ℕ → Option ExchangeRate → Option ExchangeRate
update_db_cache out now rate row =
    if out.can_write then some (record { rate = out.numeric rate; last_updated = now }) else row

abbrev pub last_resort : Outside → Option ExchangeRate → ℕ
last_resort out none = out.fallback_ngn_rate
last_resort out (some r) = r.rate

abbrev pub fetched : Outside → Option ℕ
fetched out = if out.has_api_key then out.fetch_from_api else none

abbrev pub from_api :
    Outside
    → Instant
    → Option ExchangeRate
    → Option ℕ
    → Option ExchangeRate
    → ℕ × Option ExchangeRate
from_api out now rate_obj none row = (last_resort out rate_obj, row)
from_api out now rate_obj (some rate) row = (rate, update_db_cache out now rate row)

abbrev pub from_cache :
    Outside → Instant → Option ExchangeRate → Option ExchangeRate → ℕ × Option ExchangeRate
from_cache out now none row = from_api out now none (fetched out) row
from_cache out now (some r) row =
    if is_fresh now r then (r.rate, row) else from_api out now (some r) (fetched out) row

unfoldable pub get_ngn_rate : Outside → Instant → Option ExchangeRate → ℕ × Option ExchangeRate
get_ngn_rate out now row = from_cache out now (read_cache out row) row

-- `round`, to the nearest whole naira and from a half to the even one.
unfoldable pub round_naira : ℕ → ℕ
round_naira n =
    let q = n / 10000000000 in
    let r = n % 10000000000 in
    if ltb r 5000000000 then q else if ltb 5000000000 r then q + 1 else q + q % 2

unfoldable pub convert_usd_to_ngn : ℕ → ℕ → ℕ
unfolding round_naira
convert_usd_to_ngn usd_amount rate = round_naira (usd_amount * rate) * 100
