-- ===== src/Erasure/Order.antt =====
-- What the deletions come to, one after the other.
use cloud_sentinel_ai.Base.{
  ℕ, ◌≡◌, refl, ◌∙◌, ap, Bool, true, false, ◌||◌, Option, List, [], ◌∷◌, Bool-cases, inl, inr, keep,
}
use cloud_sentinel_ai.Erasure.{
  CostRow, CostAuditRow, AllocationRow, DiscoveredRow, AuditRow, Tables, any, without, counted,
  unless, is_row_of, refers_to, ◌>>=◌, is_own_row, is_own_cost, is_own_request, is_of_own_cost,
  is_other_user, names_user, delete_cost_audits, delete_cost_records, delete_findings,
  delete_connections, delete_rules, delete_settings, delete_cloud_accounts, delete_users, erase,
}

module _ {R : Type 0} (p : R → Bool) where
  any-without : (rows : List R) → any p (without p rows) ≡ false
  any-without [] = refl
  any-without (r ∷ rs) = elim (Bool-cases (p r)) [
    | inl e ↦ rw e (any-without rs)
    | inr e ↦ rw e (rw e (any-without rs))
  ]

  keep-without : (rows : List R) → keep p (without p rows) ≡ []
  keep-without [] = refl
  keep-without (r ∷ rs) = elim (Bool-cases (p r)) [
    | inl e ↦ rw e (keep-without rs)
    | inr e ↦ rw e (rw e (keep-without rs))
  ]

  without_none : (rows : List R) → ((r : R) → p r ≡ false) → without p rows ≡ rows
  without_none [] none_passes = refl
  without_none (r ∷ rs) none_passes = rw (none_passes r) (rw (without_none rs none_passes) refl)

module _ (tenant user : ℕ) (t : Tables) where
  -- No cost record of the tenant is left when the allocations are deleted.
  allocations_stay :
      without
        (λ (a : AllocationRow).
          is_of_own_cost tenant (without (is_own_cost tenant) t.cost_records) a.cost_record_id)
        t.cost_allocations
      ≡ t.cost_allocations
  allocations_stay =
      without_none _ t.cost_allocations
        (λ a. rw (keep-without (is_own_cost tenant) t.cost_records) refl)

  -- An allocation refers to a cost record of the tenant.
  abbrev pub is_allocated : Bool
  is_allocated =
      any (λ (a : AllocationRow). is_of_own_cost tenant t.cost_records a.cost_record_id)
        t.cost_allocations

  -- An allocation, or a cost record of another tenant, refers to a rule of the tenant.
  abbrev pub is_rule_used : Bool
  is_rule_used =
      let rules = keep (is_own_row tenant) t.attribution_rules in
      any (λ (a : AllocationRow). refers_to rules a.rule_id) t.cost_allocations
      || any (λ (c : CostRow). refers_to rules c.attribution_id)
          (without (is_own_cost tenant) t.cost_records)

  -- A cost record of another tenant refers to a cloud account of the tenant.
  abbrev pub is_account_used : Bool
  is_account_used =
      any (λ (c : CostRow). is_row_of c.account_id (keep (is_own_row tenant) t.cloud_accounts))
        (without (is_own_cost tenant) t.cost_records)

  -- The audit log, or a request of another tenant, refers to another user of the tenant.
  abbrev pub is_user_named : Bool
  is_user_named =
      let others = keep (is_other_user tenant user) t.users in
      any (λ (a : AuditRow). refers_to others a.actor_id) t.audit_logs
      || any (names_user tenant others) (without (is_own_request tenant) t.remediation_requests)

  abbrev pub is_blocked : Bool
  is_blocked = is_allocated || (is_rule_used || (is_account_used || is_user_named))

  abbrev pub is_of_own_connection : DiscoveredRow → Bool
  is_of_own_connection d =
      is_row_of d.management_connection_id (keep (is_own_row tenant) t.aws_connections)

  -- Every table without the rows of the tenant, but for the allocations and the audit log, which are
  -- as they were, and the user who asks.
  abbrev pub erased : Tables
  erased = record t {
    cost_audit_logs =
        without (λ (a : CostAuditRow). is_of_own_cost tenant t.cost_records a.cost_record_id)
          t.cost_audit_logs;
    cost_records = without (is_own_cost tenant) t.cost_records;
    anomaly_markers = without (is_own_row tenant) t.anomaly_markers;
    remediation_requests = without (is_own_request tenant) t.remediation_requests;
    remediation_settings = without (is_own_row tenant) t.remediation_settings;
    discovered_accounts = without is_of_own_connection t.discovered_accounts;
    aws_connections = without (is_own_row tenant) t.aws_connections;
    azure_connections = without (is_own_row tenant) t.azure_connections;
    gcp_connections = without (is_own_row tenant) t.gcp_connections;
    attribution_rules = without (is_own_row tenant) t.attribution_rules;
    llm_usage = without (is_own_row tenant) t.llm_usage;
    llm_budgets = without (is_own_row tenant) t.llm_budgets;
    notification_settings = without (is_own_row tenant) t.notification_settings;
    carbon_settings = without (is_own_row tenant) t.carbon_settings;
    background_jobs = without (is_own_row tenant) t.background_jobs;
    cloud_accounts = without (is_own_row tenant) t.cloud_accounts;
    users = without (is_other_user tenant user) t.users;
    deleted_counts = counted "other_users" (is_other_user tenant user) t.users (
        counted "cloud_accounts" (is_own_row tenant) t.cloud_accounts (
          counted "background_jobs" (is_own_row tenant) t.background_jobs (
            counted "llm_usage_records" (is_own_row tenant) t.llm_usage (
              counted "discovered_accounts" is_of_own_connection t.discovered_accounts (
                counted "remediation_requests" (is_own_request tenant) t.remediation_requests (
                  counted "anomaly_markers" (is_own_row tenant) t.anomaly_markers
                    (counted "cost_records" (is_own_cost tenant) t.cost_records [])))))));
  }

  step :
      (refused rest : Bool) (s e : Tables) (next : Tables → Option Tables)
      → next s ≡ unless rest e
      → (unless refused s >>= next) ≡ unless (refused || rest) e
  step true rest s e next h = refl
  step false rest s e next h = h

  -- After the cost records.
  abbrev costs_gone : Tables
  costs_gone = record t {
    cost_audit_logs = erased.cost_audit_logs;
    cost_records = erased.cost_records;
    deleted_counts = counted "cost_records" (is_own_cost tenant) t.cost_records [];
  }

  costs_first :
      delete_cost_records tenant (delete_cost_audits tenant (record t { deleted_counts = [] }))
      ≡ unless is_allocated costs_gone
  unfolding delete_cost_records delete_cost_audits
  costs_first =
      let is_noted = λ (a : CostAuditRow). is_of_own_cost tenant t.cost_records a.cost_record_id in
      ap (λ b. unless (b || is_allocated) costs_gone) (any-without is_noted t.cost_audit_logs)

  -- After the connections.
  abbrev connections_gone : Tables
  connections_gone = record costs_gone {
    anomaly_markers = erased.anomaly_markers;
    remediation_requests = erased.remediation_requests;
    remediation_settings = erased.remediation_settings;
    discovered_accounts = erased.discovered_accounts;
    aws_connections = erased.aws_connections;
    azure_connections = erased.azure_connections;
    gcp_connections = erased.gcp_connections;
    deleted_counts = counted "discovered_accounts" is_of_own_connection t.discovered_accounts (
        counted "remediation_requests" (is_own_request tenant) t.remediation_requests (
          counted "anomaly_markers" (is_own_row tenant) t.anomaly_markers
            costs_gone.deleted_counts));
  }

  connections_next :
      delete_connections tenant (delete_findings tenant costs_gone) ≡ connections_gone
  unfolding delete_connections delete_findings
  connections_next =
      ap (λ rows. record connections_gone { cost_allocations = rows }) allocations_stay

  abbrev after_accounts : Tables → Option Tables
  after_accounts accounts = delete_users tenant user accounts

  abbrev after_rules : Tables → Option Tables
  after_rules rules = delete_cloud_accounts tenant (delete_settings tenant rules) >>= after_accounts

  -- After the cloud accounts.
  abbrev accounts_gone : Tables
  accounts_gone = record erased {
    users = t.users;
    deleted_counts = counted "cloud_accounts" (is_own_row tenant) t.cloud_accounts (
        counted "background_jobs" (is_own_row tenant) t.background_jobs (
          counted "llm_usage_records" (is_own_row tenant) t.llm_usage
            connections_gone.deleted_counts));
  }

  abbrev after_costs : Tables → Option Tables
  after_costs costs =
      delete_rules tenant (delete_connections tenant (delete_findings tenant costs)) >>= after_rules

  rest_last :
      (delete_rules tenant connections_gone >>= after_rules)
      ≡ unless (is_rule_used || (is_account_used || is_user_named)) erased
  unfolding delete_rules delete_settings delete_cloud_accounts delete_users
  rest_last =
      let rules_gone = record connections_gone { attribution_rules = erased.attribution_rules } in
      step is_rule_used (is_account_used || is_user_named) rules_gone erased after_rules
        (step is_account_used is_user_named accounts_gone erased after_accounts refl)

  -- The erasure is refused exactly when one of these finds that it deletes: an allocation that of a
  -- cost record or a rule of the tenant, a cost record of another tenant a rule or a cloud account,
  -- the audit log or a request of another tenant another user. Otherwise it leaves the tables
  -- without the rows of the tenant and the rows that belong to its cost records and connections, and
  -- counts those; the allocations, the audit log, the user who asks, and the rows of other tenants
  -- stay as they are.
  pub erase_lem : erase tenant user t ≡ unless is_blocked erased
  unfolding erase
  erase_lem =
      ap (λ costs. costs >>= after_costs) costs_first
      ∙ step is_allocated (is_rule_used || (is_account_used || is_user_named)) costs_gone erased
          after_costs (ap (λ s. delete_rules tenant s >>= after_rules) connections_next ∙ rest_last)
