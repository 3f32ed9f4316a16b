-- ===== src/Connections/Gates.antt =====
-- The plan that Azure and GCP are asked for.
use cloud_sentinel_ai.Base.{ℕ, ◌≡◌, refl, ap, true, some, nothing}
use cloud_sentinel_ai.Connections.{Database}
use cloud_sentinel_ai.Connections.Services.{Response, not_found}
use cloud_sentinel_ai.Connections.Routes.{
  gate, gated, check_growth_tier, plan_of, create_azure_connection, create_gcp_connection,
  verify_azure_connection, verify_gcp_connection,
}
use cloud_sentinel_ai.Connections.Calls.{
  Call, call, needs_growth, creates_aws, creates_azure, creates_gcp, verifies_aws, verifies_azure,
  verifies_gcp, deletes_aws, deletes_azure, deletes_gcp, syncs, links,
}

refused :
    (tenant : ℕ) (c : Call) (db : Database) (r : Response)
    → needs_growth c ≡ true
    → check_growth_tier tenant db ≡ some r
    → call tenant c db ≡ (r, db)
unfolding call create_azure_connection create_gcp_connection verify_azure_connection
    verify_gcp_connection
refused tenant (creates_azure id body) db r h g = rw (g, gated) refl
refused tenant (creates_gcp id body) db r h g = rw (g, gated) refl
refused tenant (verifies_azure id v) db r h g = rw (g, gated) refl
refused tenant (verifies_gcp id v) db r h g = rw (g, gated) refl
refused tenant (creates_aws id body) db r h g = absurd (cc)
refused tenant (verifies_aws id v) db r h g = absurd (cc)
refused tenant (deletes_aws id) db r h g = absurd (cc)
refused tenant (deletes_azure id) db r h g = absurd (cc)
refused tenant (deletes_gcp id) db r h g = absurd (cc)
refused tenant (syncs id members) db r h g = absurd (cc)
refused tenant (links id new_id given) db r h g = absurd (cc)

-- The same with 404 for a tenant that has no row.
unknown_tenant :
    (tenant : ℕ) (c : Call) (db : Database)
    → needs_growth c ≡ true
    → plan_of tenant db ≡ nothing
    → call tenant c db ≡ (not_found, db)
unfolding check_growth_tier
unknown_tenant tenant c db h p = refused tenant c db not_found h (ap gate p)
