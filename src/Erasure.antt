-- ===== src/Erasure.antt =====
-- The erasure of a tenant's data (`request_data_erasure` of app/modules/governance/api/v1/audit.py) on
-- PostgreSQL. A row has the columns that the deletions and the foreign keys of app/models read; the
-- key of a cost record, an identifier and a date, is one number. A foreign key without `ondelete` lets
-- no row be deleted that another row refers to.
use text.Mathlib.Text.{◌==◌ as str_eq}
use Prim.Native.String.{String}
use cloud_sentinel_ai.Base.{
  ℕ, Bool, true, false, not, ◌&&◌, ◌||◌, Option, none, some, List, [], ◌∷◌, ◌++◌, ◌==◌,
  if◌then◌else◌, keep, length,
}
use cloud_sentinel_ai.Connections.Routes.{UserRole, owner, has_role}
pub mod Order
pub mod Blocked
mod Samples

-- A row of which only the tenant and the identifier matter here.
pub record Row : Type 0 where
  pub id : ℕ
  pub tenant_id : ℕ

pub record CostRow : Type 0 where
  pub id : ℕ
  pub tenant_id : ℕ
  pub account_id : ℕ
  pub attribution_id : Option ℕ

pub record CostAuditRow : Type 0 where
  pub cost_record_id : ℕ

pub record AllocationRow : Type 0 where
  pub cost_record_id : ℕ
  pub rule_id : Option ℕ

pub record RemediationRow : Type 0 where
  pub tenant_id : ℕ
  pub requested_by_user_id : ℕ
  pub reviewed_by_user_id : Option ℕ

pub record DiscoveredRow : Type 0 where
  pub management_connection_id : ℕ

pub record AuditRow : Type 0 where
  pub tenant_id : ℕ
  pub actor_id : Option ℕ

-- The tables, with the counts of the running request by their names.
pub record Tables : Type 0 where
  pub cost_audit_logs : List CostAuditRow
  pub cost_records : List CostRow
  pub anomaly_markers : List Row
  pub remediation_requests : List RemediationRow
  pub remediation_settings : List Row
  pub discovered_accounts : List DiscoveredRow
  pub aws_connections : List Row
  pub azure_connections : List Row
  pub gcp_connections : List Row
  pub cost_allocations : List AllocationRow
  pub attribution_rules : List Row
  pub llm_usage : List Row
  pub llm_budgets : List Row
  pub notification_settings : List Row
  pub carbon_settings : List Row
  pub background_jobs : List Row
  pub cloud_accounts : List Row
  pub users : List Row
  pub audit_logs : List AuditRow
  pub deleted_counts : List (String × ℕ)

-- `id IN (SELECT id ...)`
abbrev pub is_row_of : ℕ → List Row → Bool
is_row_of id [] = false
is_row_of id (r ∷ rs) = r.id == id || is_row_of id rs

abbrev pub is_among_costs : ℕ → List CostRow → Bool
is_among_costs id [] = false
is_among_costs id (r ∷ rs) = r.id == id || is_among_costs id rs

abbrev pub refers_to : List Row → Option ℕ → Bool
refers_to rows none = false
refers_to rows (some id) = is_row_of id rows

abbrev pub any : {R : Type 0} → (R → Bool) → List R → Bool
any p [] = false
any p (r ∷ rs) = p r || any p rs

-- The rows that a deletion leaves.
abbrev pub without : {R : Type 0} → (R → Bool) → List R → List R
without p rows = keep (λ r. not (p r)) rows

abbrev pub counted :
    {R : Type 0} → String → (R → Bool) → List R → List (String × ℕ) → List (String × ℕ)
counted name p rows counts = counts ++ ((name, length (keep p rows)) ∷ [])

-- A deletion that foreign keys may refuse.
abbrev pub unless : Bool → Tables → Option Tables
unless refused t = if refused then none else some t

infixl 5 ◌>>=◌
abbrev pub ◌>>=◌ : Option Tables → (Tables → Option Tables) → Option Tables
none >>= next = none
some t >>= next = next t

module _ (tenant : ℕ) where
  abbrev pub is_own_row : Row → Bool
  is_own_row r = r.tenant_id == tenant

  abbrev pub is_own_cost : CostRow → Bool
  is_own_cost r = r.tenant_id == tenant

  abbrev pub is_own_request : RemediationRow → Bool
  is_own_request r = r.tenant_id == tenant

  -- An id is one of the tenant's cost records.
  abbrev pub is_of_own_cost : List CostRow → ℕ → Bool
  is_of_own_cost costs id = is_among_costs id (keep is_own_cost costs)

  -- Users of the tenant but the one who asks.
  abbrev pub is_other_user : ℕ → Row → Bool
  is_other_user user r = r.tenant_id == tenant && not (r.id == user)

  -- 1. What was noted of changes to the cost records.
  unfoldable pub delete_cost_audits : Tables → Tables
  delete_cost_audits t = record t {
    cost_audit_logs =
        without (λ a. is_of_own_cost t.cost_records a.cost_record_id) t.cost_audit_logs;
  }

  -- 2.
  unfoldable pub delete_cost_records : Tables → Option Tables
  delete_cost_records t =
      unless
        (any (λ a. is_of_own_cost t.cost_records a.cost_record_id) t.cost_audit_logs
          || any (λ a. is_of_own_cost t.cost_records a.cost_record_id) t.cost_allocations)
        (record t {
          cost_records = without is_own_cost t.cost_records;
          deleted_counts = counted "cost_records" is_own_cost t.cost_records t.deleted_counts;
        })

  -- 3. and 4.
  unfoldable pub delete_findings : Tables → Tables
  delete_findings t = record t {
    anomaly_markers = without is_own_row t.anomaly_markers;
    remediation_requests = without is_own_request t.remediation_requests;
    remediation_settings = without is_own_row t.remediation_settings;
    discovered_accounts =
        without (λ d. is_row_of d.management_connection_id (keep is_own_row t.aws_connections))
          t.discovered_accounts;
    deleted_counts =
        counted "discovered_accounts"
          (λ (d : DiscoveredRow).
            is_row_of d.management_connection_id (keep is_own_row t.aws_connections))
          t.discovered_accounts
          (counted "remediation_requests" is_own_request t.remediation_requests
            (counted "anomaly_markers" is_own_row t.anomaly_markers t.deleted_counts));
  }

  -- 5. The connections, which have no discovered accounts any more, and the allocations of what cost records the tenant has by now.
  unfoldable pub delete_connections : Tables → Tables
  delete_connections t = record t {
    aws_connections = without is_own_row t.aws_connections;
    azure_connections = without is_own_row t.azure_connections;
    gcp_connections = without is_own_row t.gcp_connections;
    cost_allocations =
        without (λ a. is_of_own_cost t.cost_records a.cost_record_id) t.cost_allocations;
  }

  unfoldable pub delete_rules : Tables → Option Tables
  delete_rules t =
      let rules = keep is_own_row t.attribution_rules in
      unless
        (any (λ (a : AllocationRow). refers_to rules a.rule_id) t.cost_allocations
          || any (λ (c : CostRow). refers_to rules c.attribution_id) t.cost_records)
        (record t { attribution_rules = without is_own_row t.attribution_rules })

  -- 6., 7. and 8.
  unfoldable pub delete_settings : Tables → Tables
  delete_settings t = record t {
    llm_usage = without is_own_row t.llm_usage;
    llm_budgets = without is_own_row t.llm_budgets;
    notification_settings = without is_own_row t.notification_settings;
    carbon_settings = without is_own_row t.carbon_settings;
    background_jobs = without is_own_row t.background_jobs;
    deleted_counts =
        counted "background_jobs" is_own_row t.background_jobs
          (counted "llm_usage_records" is_own_row t.llm_usage t.deleted_counts);
  }

  -- 9.
  unfoldable pub delete_cloud_accounts : Tables → Option Tables
  delete_cloud_accounts t =
      unless
        (any (λ (c : CostRow). is_row_of c.account_id (keep is_own_row t.cloud_accounts))
          t.cost_records)
        (record t {
          cloud_accounts = without is_own_row t.cloud_accounts;
          deleted_counts = counted "cloud_accounts" is_own_row t.cloud_accounts t.deleted_counts;
        })

  abbrev pub names_user : List Row → RemediationRow → Bool
  names_user users r =
      is_row_of r.requested_by_user_id users || refers_to users r.reviewed_by_user_id

  -- 10. The audit log is kept, and refers to users.
  unfoldable pub delete_users : ℕ → Tables → Option Tables
  delete_users user t =
      let others = keep (is_other_user user) t.users in
      unless
        (any (λ (a : AuditRow). refers_to others a.actor_id) t.audit_logs
          || any (names_user others) t.remediation_requests)
        (record t {
          users = without (is_other_user user) t.users;
          deleted_counts = counted "other_users" (is_other_user user) t.users t.deleted_counts;
        })

  -- The deletions in their order; the first one that is refused ends them.
  unfoldable pub erase : ℕ → Tables → Option Tables
  unfolding delete_cost_audits delete_cost_records delete_findings delete_connections delete_rules
      delete_settings delete_cloud_accounts delete_users
  erase user t = do
    costs ← delete_cost_records (delete_cost_audits (record t { deleted_counts = [] }))
    rules ← delete_rules (delete_connections (delete_findings costs))
    accounts ← delete_cloud_accounts (delete_settings rules)
    delete_users user accounts

pub data ErasureAnswer : Type 0 where
  erasure_complete : List (String × ℕ) → ErasureAnswer
  forbidden bad_request failed : ErasureAnswer

-- `db.rollback()` if a deletion raises.
abbrev pub answer_of : Tables → Option Tables → ErasureAnswer × Tables
answer_of t none = (failed, t)
answer_of t (some t') = (erasure_complete t'.deleted_counts, t')

unfoldable pub request_data_erasure : UserRole → ℕ → ℕ → String → Tables → ErasureAnswer × Tables
unfolding erase
request_data_erasure role tenant user confirmation t =
    if not (has_role owner role)
    then (forbidden, t)
    else if not (str_eq confirmation "DELETE ALL MY DATA")
    then (bad_request, t)
    else answer_of t (erase tenant user t)
