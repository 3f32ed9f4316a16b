-- ===== src/Currency/Samples.antt =====
-- Rates on concrete days.
use cloud_sentinel_ai.Base.{ℕ, hours, true, false, Option, none, some, ◌≡◌, refl}
use cloud_sentinel_ai.Currency.{
  ExchangeRate, Outside, get_ngn_rate, convert_usd_to_ngn, round_naira,
}

abbrev answering : Outside
answering = record {
  can_read = true;
  can_write = true;
  has_api_key = true;
  fetch_from_api = some 145012345678;
  numeric = λ _. 145012350000;
  fallback_ngn_rate = 145000000000;
}

abbrev silent : Outside
silent = record answering { fetch_from_api = none }

abbrev unwritable : Outside
unwritable = record answering { can_write = false }

abbrev unreadable : Outside
unreadable = record silent { can_read = false }

abbrev row_at : ℕ → Option ExchangeRate
row_at rate = some (record { rate = rate; last_updated = 0 })

fetched_and_kept : get_ngn_rate answering 0 none ≡ (145012345678, row_at 145012350000)
unfolding get_ngn_rate
fetched_and_kept = refl

stale_rate_serves :
    get_ngn_rate silent (hours 24) (row_at 144000000000) ≡ (144000000000, row_at 144000000000)
unfolding get_ngn_rate
stale_rate_serves = refl

failed_write_keeps_row :
    get_ngn_rate unwritable (hours 24) (row_at 144000000000) ≡ (145012345678, row_at 144000000000)
unfolding get_ngn_rate
failed_write_keeps_row = refl

fallback_serves :
    get_ngn_rate unreadable 0 (row_at 144000000000) ≡ (145000000000, row_at 144000000000)
unfolding get_ngn_rate
fallback_serves = refl

-- 29 dollars at 1450.50 naira are 42064.5 naira, which is rounded to the even 42064.
half_to_even : convert_usd_to_ngn 2900 145050000000 ≡ 4206400
unfolding convert_usd_to_ngn round_naira
half_to_even = refl
