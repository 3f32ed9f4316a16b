-- ===== src/Persistence/Samples.antt =====
-- A few hourly records of one account.
use cloud_sentinel_ai.Base.{
  ◌+◌, hours, days, true, none, some, List, [], ◌∷◌, ◌≡◌, refl, map, length,
}
use cloud_sentinel_ai.Base.Int.{pos}
use cloud_sentinel_ai.Costs.{CostRecord}
use cloud_sentinel_ai.Persistence.{
  Usage, row_of, conflicts, upsert_all, save_records_stream, save_summary,
}
use cloud_sentinel_ai.Persistence.Batches.{batches_upsert_all}
use cloud_sentinel_ai.Persistence.Upserts.{resaving_adds_none}

abbrev first_hour : Usage
first_hour = record {
  id = 1;
  service = some 5;
  region = none;
  cost_usd = pos 300;
  amount_raw = none;
  currency = 9;
  timestamp = days 20000;
  usage_type = none;
}

abbrev second_hour : Usage
second_hour = record first_hour { id = 2; timestamp = days 20000 + hours 1 }

abbrev usages : List Usage
usages = first_hour ∷ second_hour ∷ []

batches_upsert_all_example :
    (save_records_stream 7 4 usages [] ≡ some (2, upsert_all (map (row_of 7 4) usages) []))
    × (save_summary true (map (row_of 7 4) usages) []
        ≡ some (2, upsert_all (map (row_of 7 4) usages) []))
unfolding row_of conflicts
batches_upsert_all_example = batches_upsert_all 7 4 usages [] refl

abbrev row : CostRecord
unfolding row_of
row = row_of 7 4 first_hour

resaving_adds_none_example :
    length (upsert_all (row ∷ []) (upsert_all (row ∷ []) [])) ≡ length (upsert_all (row ∷ []) [])
unfolding row_of
resaving_adds_none_example = resaving_adds_none (row ∷ []) [] ((refl, refl), tt)

abbrev untyped : CostRecord
untyped = record row { usage_type = none }

abbrev table : List CostRecord
table = record row { id = 1 } ∷ record row { id = 2; timestamp = some (days 21000) } ∷ []
