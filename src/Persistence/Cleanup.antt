-- ===== src/Persistence/Cleanup.antt =====
-- The retention cleanup ends, and deletes the old records only.
use cloud_sentinel_ai.Base.{Instant, Bool, not, ◌≡◌, List, All}
use cloud_sentinel_ai.Costs.{CostRecord}
use cloud_sentinel_ai.Persistence.{is_before}

abbrev pub is_old : Instant → CostRecord → Bool
is_old cutoff r = is_before cutoff r.timestamp

abbrev pub is_kept : Instant → CostRecord → Bool
is_kept cutoff r = not (is_before cutoff r.timestamp)

-- Rows with one identifier are all old or all kept.
abbrev pub AgreeOnAge : Instant → List CostRecord → Type 0
AgreeOnAge cutoff table =
    All (λ r. All (λ q. q.id ≡ r.id → is_old cutoff q ≡ is_old cutoff r) table) table
