-- ===== src/Persistence/Batches.antt =====
-- Saving records in batches and saving them one by one.
use mathlib.Core.List.{append-nil, append_assoc}
use cloud_sentinel_ai.Base.{
  ℕ, zero, suc, ◌+◌, ◌≤◌, Bool, true, false, ◌≡◌, refl, sym, ap, subst, ◌∙◌, arith, Option, some,
  List, [], ◌∷◌, ◌++◌, ◌||◌, Bool-cases, inl, inr, leb, take, drop, take-append-drop, length,
  length-append, map,
}
use cloud_sentinel_ai.Costs.{CostRecord}
use cloud_sentinel_ai.Persistence.{
  Usage, row_of, upsert, upsert_all, conflicts_with_any, has_repeat, bulk_upsert, save_stream,
  save_records_stream, save_batches, save_summary,
}

upsert_all-append :
    (xs ys table : List CostRecord)
    → upsert_all (xs ++ ys) table ≡ upsert_all ys (upsert_all xs table)
unfolding upsert_all
upsert_all-append [] ys table = refl
upsert_all-append (x ∷ xs) ys table = upsert_all-append xs ys (upsert x table)

conflicts_with_any-append :
    (q : CostRecord) (xs ys : List CostRecord)
    → conflicts_with_any q (xs ++ ys) ≡ false
    → conflicts_with_any q xs ≡ false
conflicts_with_any-append q [] ys h = refl
conflicts_with_any-append q (x ∷ xs) ys h = ground (arith, conflicts_with_any-append q xs ys)

or_false : (a b : Bool) → (a || b) ≡ false → (a ≡ false) × (b ≡ false)
or_false a b h = ground arith

or_both : (a b : Bool) → a ≡ false → b ≡ false → (a || b) ≡ false
or_both a b h k = ground arith

has_repeat-append :
    (xs ys : List CostRecord)
    → has_repeat (xs ++ ys) ≡ false
    → (has_repeat xs ≡ false) × (has_repeat ys ≡ false)
has_repeat-append [] ys h = (refl, h)
has_repeat-append (x ∷ xs) ys h =
    let (here, rest) = or_false (conflicts_with_any x (xs ++ ys)) (has_repeat (xs ++ ys)) h in
    let (left, right) = has_repeat-append xs ys rest in
    (or_both _ _ (conflicts_with_any-append x xs ys here) left, right)

bulk_upsert_lem :
    (qs table : List CostRecord)
    → has_repeat qs ≡ false
    → bulk_upsert qs table ≡ some (upsert_all qs table)
unfolding bulk_upsert
bulk_upsert_lem qs table h = rw h refl

saved_lem :
    (saved : ℕ) (xs ys table : List CostRecord)
    → ◌≡◌ {A = Option (ℕ × List CostRecord)}
        (some (saved + length xs + length ys, upsert_all ys (upsert_all xs table)))
        (some (saved + length (xs ++ ys), upsert_all (xs ++ ys) table))
saved_lem saved xs ys table =
    ap (λ l. some (saved + length xs + length ys, l)) (sym (upsert_all-append xs ys table))
    ∙ ap (λ n. some (n, upsert_all (xs ++ ys) table)) (omega (arith, length-append xs ys))

rest_fits :
    (fuel : ℕ) (q : CostRecord) (qs : List CostRecord)
    → length (q ∷ qs) ≤ suc fuel
    → length (drop 500 (q ∷ qs)) ≤ fuel
rest_fits fuel q qs h = omega (
  arith,
  length-append (take 500 (q ∷ qs)) (drop 500 (q ∷ qs)),
  ap (λ l. length l) (take-append-drop 500 (q ∷ qs)),
)

save_stream_lem :
    (saved : ℕ) (batch qs table : List CostRecord)
    → has_repeat (batch ++ qs) ≡ false
    → save_stream saved batch qs table
      ≡ some (saved + length (batch ++ qs), upsert_all (batch ++ qs) table)
unfolding save_stream upsert_all
save_stream_lem saved [] [] table h = ap (λ n. some (n, table)) (omega arith)
save_stream_lem saved (v ∷ vs) [] table h =
    let plain : has_repeat (v ∷ vs) ≡ false =
      subst (λ l. has_repeat l ≡ false) (append-nil (v ∷ vs)) h in
    rw (bulk_upsert_lem (v ∷ vs) table plain, save_stream)
      (ap (λ l. some (saved + length l, upsert_all l table)) (sym (append-nil (v ∷ vs))))
save_stream_lem saved batch (q ∷ qs) table h =
    let batch' = batch ++ (q ∷ []) in
    let whole : batch' ++ qs ≡ batch ++ (q ∷ qs) = append_assoc batch (q ∷ []) qs in
    let fine : has_repeat (batch' ++ qs) ≡ false =
      subst (λ l. has_repeat l ≡ false) (sym whole) h in
    let (fine_batch, fine_rest) = has_repeat-append batch' qs fine in
    elim (Bool-cases (leb 500 (length batch'))) [
      | inl full ↦ rw full (
          rw (bulk_upsert_lem batch' table fine_batch) (
            save_stream_lem (saved + length batch') [] qs (upsert_all batch' table) fine_rest
            ∙ saved_lem saved batch' qs table
            ∙ ap (λ l. some (saved + length l, upsert_all l table)) whole))
      | inr short ↦ rw short (
          save_stream_lem saved batch' qs table fine
          ∙ ap (λ l. some (saved + length l, upsert_all l table)) whole)
    ]

-- A batch at a time, the stream saves what the upserts of all rows, one after the other, save.
save_batches_lem :
    (fuel saved : ℕ) (qs table : List CostRecord)
    → length qs ≤ fuel
    → has_repeat qs ≡ false
    → save_batches fuel true saved qs table ≡ some (saved + length qs, upsert_all qs table)
unfolding save_batches upsert_all
save_batches_lem fuel saved [] table enough h = ap (λ n. some (n, table)) (omega arith)
save_batches_lem zero saved (q ∷ qs) table enough h = absurd (omega arith)
save_batches_lem (suc fuel) saved (q ∷ qs) table enough h =
    let batch = take 500 (q ∷ qs) in
    let rest = drop 500 (q ∷ qs) in
    let whole : batch ++ rest ≡ q ∷ qs = take-append-drop 500 (q ∷ qs) in
    let (fine_batch, fine_rest) =
      has_repeat-append batch rest (subst (λ l. has_repeat l ≡ false) (sym whole) h) in
    rw (bulk_upsert_lem batch table fine_batch) (
      save_batches_lem fuel (saved + length batch) rest (upsert_all batch table)
        (rest_fits fuel q qs enough) fine_rest
      ∙ saved_lem saved batch rest table
      ∙ ap (λ l. some (saved + length l, upsert_all l table)) whole)

-- Rows of which no two have the same key, saved as a stream or as a summary of preliminary records,
-- in batches of 500: both ways save what upserting the rows one after the other saves, and report
-- their number.
pub batches_upsert_all :
    (tenant account : ℕ) (us : List Usage) (table : List CostRecord)
    → has_repeat (map (row_of tenant account) us) ≡ false
    → let rows = map (row_of tenant account) us in
      (save_records_stream tenant account us table ≡ some (length rows, upsert_all rows table))
      × (save_summary true rows table ≡ some (length rows, upsert_all rows table))
unfolding save_records_stream save_summary
batches_upsert_all tenant account us table h =
    let rows = map (row_of tenant account) us in
    (
      save_stream_lem 0 [] rows table h ∙ ap (λ n. some (n, upsert_all rows table)) (omega arith),
      save_batches_lem (length rows) 0 rows table (omega arith) h
          ∙ ap (λ n. some (n, upsert_all rows table)) (omega arith),
    )
