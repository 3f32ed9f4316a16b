-- ===== src/Persistence.antt =====
-- The storing of cost records (`CostPersistenceService` of
-- app/modules/reporting/domain/persistence.py), on PostgreSQL. The table is a list; a new row goes to
-- its end. `none` means that a call raises. A date is the number of its day, and the day of an
-- instant is by UTC.
use cloud_sentinel_ai.Base.{
  ℕ, zero, suc, ◌+◌, ◌-◌, ◌/◌, Instant, days, Bool, true, false, not, Option, none, some, List, [],
  ◌∷◌, ◌++◌, ◌&&◌, ◌||◌, ◌==◌, leb, ltb, if◌then◌else◌, keep, map, take, drop, length,
}
use cloud_sentinel_ai.Base.Int.{ℤ}
use cloud_sentinel_ai.Costs.{CostRecord, CostStatus, preliminary, final}
pub mod Batches
pub mod Upserts
pub mod Cleanup
mod Samples

-- A row of the stream; `id` is the identifier that its row is given. A missing usage type differs
-- from one that is `None`.
pub record Usage : Type 0 where
  pub id : ℕ
  pub service : Option ℕ
  pub region : Option ℕ
  pub cost_usd : ℤ
  pub amount_raw : Option ℤ
  pub currency : ℕ
  pub timestamp : Instant
  pub usage_type : Option (Option ℕ)

-- The numbers of the texts "Unknown", "Global" and "Usage".
abbrev pub unknown : ℕ
unknown = 0

abbrev pub global : ℕ
global = 1

abbrev pub usage : ℕ
usage = 2

abbrev pub text_or : ℕ → Option ℕ → ℕ
text_or default none = default
text_or default (some text) = text

abbrev pub usage_type_or : Option (Option ℕ) → Option ℕ
usage_type_or none = some usage
usage_type_or (some type) = type

unfoldable pub row_of : ℕ → ℕ → Usage → CostRecord
row_of tenant account u = record {
  id = u.id;
  tenant_id = tenant;
  account_id = account;
  service = text_or unknown u.service;
  region = text_or global u.region;
  usage_type = usage_type_or u.usage_type;
  cost_usd = u.cost_usd;
  amount_raw = u.amount_raw;
  currency = u.currency;
  is_preliminary = true;
  cost_status = preliminary;
  timestamp = some u.timestamp;
  recorded_at = u.timestamp / days 1;
}

-- In a unique constraint, no null equals another.
abbrev pub same_value : Option ℕ → Option ℕ → Bool
same_value none _ = false
same_value (some _) none = false
same_value (some a) (some b) = a == b

-- The columns of `uix_account_cost_granularity`.
unfoldable pub conflicts : CostRecord → CostRecord → Bool
conflicts q r =
    q.account_id == r.account_id
    && same_value q.timestamp r.timestamp
    && q.service == r.service
    && q.region == r.region
    && same_value q.usage_type r.usage_type
    && q.recorded_at == r.recorded_at

-- The row that an upsert changes.
unfoldable pub overwrite : CostRecord → CostRecord → CostRecord
overwrite q r = record r {
  cost_usd = q.cost_usd;
  amount_raw = q.amount_raw;
  currency = q.currency;
  usage_type = q.usage_type;
}

unfoldable pub upsert : CostRecord → List CostRecord → List CostRecord
unfolding conflicts overwrite
upsert q [] = q ∷ []
upsert q (r ∷ rest) = if conflicts q r then overwrite q r ∷ rest else r ∷ upsert q rest

unfoldable pub upsert_all : List CostRecord → List CostRecord → List CostRecord
unfolding upsert
upsert_all [] table = table
upsert_all (q ∷ qs) table = upsert_all qs (upsert q table)

abbrev pub conflicts_with_any : CostRecord → List CostRecord → Bool
conflicts_with_any q [] = false
conflicts_with_any q (r ∷ rest) = conflicts q r || conflicts_with_any q rest

-- Two rows of one statement have the same key.
abbrev pub has_repeat : List CostRecord → Bool
has_repeat [] = false
has_repeat (q ∷ qs) = conflicts_with_any q qs || has_repeat qs

-- `_bulk_upsert`: PostgreSQL refuses a statement that would change a row twice.
unfoldable pub bulk_upsert : List CostRecord → List CostRecord → Option (List CostRecord)
unfolding upsert_all
bulk_upsert values table = if has_repeat values then none else some (upsert_all values table)

abbrev pub batch_size : ℕ
batch_size = 500

-- The loop of `save_records_stream`, from its batch and its count on.
unfoldable pub save_stream :
    ℕ → List CostRecord → List CostRecord → List CostRecord → Option (ℕ × List CostRecord)
unfolding bulk_upsert
save_stream saved batch [] table = elim batch [
  | [] ↦ some (saved, table)
  | v ∷ vs ↦ elim (bulk_upsert (v ∷ vs) table) [
    | none ↦ none
    | some table' ↦ some (saved + length (v ∷ vs), table')
  ]
]
save_stream saved batch (q ∷ qs) table =
    let batch' = batch ++ (q ∷ []) in
    if leb batch_size (length batch')
    then elim (bulk_upsert batch' table) [
      | none ↦ none
      | some table' ↦ save_stream (saved + length batch') [] qs table'
    ]
    else save_stream saved batch' qs table

unfoldable pub save_records_stream :
    ℕ → ℕ → List Usage → List CostRecord → Option (ℕ × List CostRecord)
unfolding save_stream row_of
save_records_stream tenant account us table =
    save_stream 0 [] (map (row_of tenant account) us) table

-- The loop of `save_summary` over the values of its records, with fuel. Of records that are not
-- preliminary the check for adjustments raises, at the first batch.
unfoldable pub save_batches :
    ℕ → Bool → ℕ → List CostRecord → List CostRecord → Option (ℕ × List CostRecord)
unfolding bulk_upsert
save_batches fuel is_preliminary saved [] table = some (saved, table)
save_batches zero is_preliminary saved (q ∷ qs) table = none
save_batches (suc fuel) is_preliminary saved (q ∷ qs) table =
    let batch = take batch_size (q ∷ qs) in
    if is_preliminary
    then elim (bulk_upsert batch table) [
      | none ↦ none
      | some table' ↦
          save_batches fuel is_preliminary (saved + length batch) (drop batch_size (q ∷ qs)) table'
    ]
    else none

unfoldable pub save_summary :
    Bool → List CostRecord → List CostRecord → Option (ℕ × List CostRecord)
unfolding save_batches
save_summary is_preliminary values table =
    save_batches (length values) is_preliminary 0 values table

abbrev pub is_between : Instant → Instant → Option Instant → Bool
is_between start end none = false
is_between start end (some t) = leb start t && leb t end

unfoldable pub clear_range : ℕ → Instant → Instant → List CostRecord → List CostRecord
clear_range account start end table =
    keep (λ r. not (r.account_id == account && is_between start end r.timestamp)) table

abbrev pub is_before : Instant → Option Instant → Bool
is_before cutoff none = false
is_before cutoff (some t) = ltb t cutoff

abbrev pub has_id : ℕ → List CostRecord → Bool
has_id id [] = false
has_id id (r ∷ rest) = r.id == id || has_id id rest

abbrev pub cleanup_batch_size : ℕ
cleanup_batch_size = 5000

-- The rows whose identifiers the next batch has.
unfoldable pub cleanup_batch : Instant → List CostRecord → List CostRecord
cleanup_batch cutoff table =
    take cleanup_batch_size (keep (λ r. is_before cutoff r.timestamp) table)

unfoldable pub delete_ids : List CostRecord → List CostRecord → List CostRecord
delete_ids batch table = keep (λ r. not (has_id r.id batch)) table

-- The loop of `cleanup_old_records`, with fuel; `none` means that the fuel ran out.
unfoldable pub cleanup_loop : ℕ → Instant → ℕ → List CostRecord → Option (ℕ × List CostRecord)
unfolding cleanup_batch delete_ids
cleanup_loop zero cutoff deleted table = none
cleanup_loop (suc fuel) cutoff deleted table = elim (cleanup_batch cutoff table) [
  | [] ↦ some (deleted, table)
  | r ∷ rs ↦ cleanup_loop fuel cutoff (deleted + length (r ∷ rs)) (delete_ids (r ∷ rs) table)
]

abbrev pub cutoff_of : Instant → ℕ → Instant
cutoff_of now retention = days (now / days 1 - retention)

unfoldable pub cleanup_old_records :
    ℕ → Instant → ℕ → List CostRecord → Option (ℕ × List CostRecord)
unfolding cleanup_loop
cleanup_old_records fuel now retention table = cleanup_loop fuel (cutoff_of now retention) 0 table

abbrev pub is_preliminary_status : CostStatus → Bool
is_preliminary_status preliminary = true
is_preliminary_status final = false

unfoldable pub finalize : ℕ → CostRecord → CostRecord
finalize cutoff r =
    if is_preliminary_status r.cost_status && leb r.recorded_at cutoff
    then record r { cost_status = final; is_preliminary = false }
    else r

-- `finalize_batch`
unfoldable pub finalize_batch : ℕ → ℕ → List CostRecord → List CostRecord
unfolding finalize
finalize_batch today days_ago table = map (finalize (today - days_ago)) table
