-- ===== src/Erasure/Samples.antt =====
-- A tenant with costs, two users and a neighbour.
use cloud_sentinel_ai.Base.{ℕ, ◌≡◌, refl, false, none, some, List, [], ◌∷◌}
use cloud_sentinel_ai.Connections.Routes.{owner, admin, has_role}
use cloud_sentinel_ai.Erasure.{
  Row, Tables, AllocationRow, erasure_complete, forbidden, unless, erase, delete_cost_audits,
  delete_cost_records, delete_findings, delete_connections, delete_rules, delete_settings,
  delete_cloud_accounts, delete_users, request_data_erasure,
}
use cloud_sentinel_ai.Erasure.Order.{is_blocked, erased, erase_lem}
use cloud_sentinel_ai.Erasure.Blocked.{is_complete, never_erased}

abbrev row : ℕ → ℕ → Row
row id tenant = record { id = id; tenant_id = tenant }

abbrev tables : List AllocationRow → Tables
tables allocations = record {
  cost_audit_logs = record { cost_record_id = 1 } ∷ record { cost_record_id = 2 } ∷ [];
  cost_records =
      record { id = 1; tenant_id = 7; account_id = 4; attribution_id = none }
      ∷ record { id = 2; tenant_id = 8; account_id = 5; attribution_id = none }
      ∷ [];
  anomaly_markers = row 1 7 ∷ [];
  remediation_requests =
      record { tenant_id = 7; requested_by_user_id = 10; reviewed_by_user_id = some 11 } ∷ [];
  remediation_settings = [];
  discovered_accounts = record { management_connection_id = 3 } ∷ [];
  aws_connections = row 3 7 ∷ [];
  azure_connections = [];
  gcp_connections = [];
  cost_allocations = allocations;
  attribution_rules = row 6 7 ∷ [];
  llm_usage = [];
  llm_budgets = [];
  notification_settings = [];
  carbon_settings = [];
  background_jobs = row 1 7 ∷ row 2 8 ∷ [];
  cloud_accounts = row 4 7 ∷ row 5 8 ∷ [];
  users = row 10 7 ∷ row 11 7 ∷ row 12 8 ∷ [];
  audit_logs = record { tenant_id = 7; actor_id = some 10 } ∷ [];
  deleted_counts = [];
}

completed :
    (request_data_erasure owner 7 10 "DELETE ALL MY DATA" (tables [])).0
    ≡ erasure_complete (
        ("cost_records", 1)
        ∷ ("anomaly_markers", 1)
        ∷ ("remediation_requests", 1)
        ∷ ("discovered_accounts", 1)
        ∷ ("llm_usage_records", 0)
        ∷ ("background_jobs", 1)
        ∷ ("cloud_accounts", 1)
        ∷ ("other_users", 1)
        ∷ [])
unfolding request_data_erasure erase delete_cost_audits delete_cost_records delete_findings
    delete_connections delete_rules delete_settings delete_cloud_accounts delete_users has_role
completed = refl

admins_may_not :
    request_data_erasure admin 7 10 "DELETE ALL MY DATA" (tables []) ≡ (forbidden, tables [])
unfolding request_data_erasure has_role
admins_may_not = refl

abbrev allocated : Tables
allocated = tables (record { cost_record_id = 1; rule_id = some 6 } ∷ [])

erase_lem_example :
    erase 7 10 (tables []) ≡ unless (is_blocked 7 10 (tables [])) (erased 7 10 (tables []))
erase_lem_example = erase_lem 7 10 (tables [])

never_erased_example :
    (is_complete (request_data_erasure owner 7 10 "DELETE ALL MY DATA" allocated).0 ≡ false)
    × ((request_data_erasure owner 7 10 "DELETE ALL MY DATA" allocated).1 ≡ allocated)
never_erased_example = never_erased 7 10 allocated owner "DELETE ALL MY DATA" refl
