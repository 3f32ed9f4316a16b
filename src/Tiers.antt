-- ===== src/Tiers.antt =====
-- The subscription tiers with their features and limits, and the gates on them
-- (app/shared/core/pricing.py). A text that names no feature is `none`, a user without a tier and a
-- text that names no tier likewise. A limit of `none` means that there is none.
use cloud_sentinel_ai.Base.{
  ℕ, Bool, true, false, Option, none, some, List, [], ◌∷◌, ◌==◌, if◌then◌else◌, ◌||◌, Found,
  nothing, one, several, scalar_one_or_none, keep,
}
pub mod Upgrades
mod Samples

pub data PricingTier : Type 0 where
  free trial starter growth pro enterprise : PricingTier

pub data FeatureFlag : Type 0 where
  dashboards cost_tracking alerts slack_integration zombie_scan llm_analysis : FeatureFlag
  ai_insights multi_cloud multi_region greenops carbon_tracking : FeatureFlag
  auto_remediation api_access forecasting sso dedicated_support audit_logs : FeatureFlag
  hourly_scans ai_analysis_detailed precision_discovery owner_attribution : FeatureFlag
  gitops_remediation : FeatureFlag

-- `TIER_CONFIG[tier]["features"]`
unfoldable pub has_in_config : PricingTier → FeatureFlag → Bool
has_in_config free dashboards = true
has_in_config free cost_tracking = true
has_in_config free zombie_scan = true
has_in_config free greenops = true
has_in_config free carbon_tracking = true
has_in_config free _ = false
has_in_config trial dashboards = true
has_in_config trial alerts = true
has_in_config trial zombie_scan = true
has_in_config trial _ = false
has_in_config starter dashboards = true
has_in_config starter cost_tracking = true
has_in_config starter alerts = true
has_in_config starter zombie_scan = true
has_in_config starter ai_insights = true
has_in_config starter multi_region = true
has_in_config starter carbon_tracking = true
has_in_config starter greenops = true
has_in_config starter _ = false
has_in_config growth dashboards = true
has_in_config growth cost_tracking = true
has_in_config growth alerts = true
has_in_config growth zombie_scan = true
has_in_config growth ai_insights = true
has_in_config growth multi_region = true
has_in_config growth carbon_tracking = true
has_in_config growth greenops = true
has_in_config growth auto_remediation = true
has_in_config growth precision_discovery = true
has_in_config growth owner_attribution = true
has_in_config growth _ = false
has_in_config pro dashboards = true
has_in_config pro cost_tracking = true
has_in_config pro alerts = true
has_in_config pro zombie_scan = true
has_in_config pro ai_insights = true
has_in_config pro multi_region = true
has_in_config pro carbon_tracking = true
has_in_config pro greenops = true
has_in_config pro auto_remediation = true
has_in_config pro sso = true
has_in_config pro api_access = true
has_in_config pro dedicated_support = true
has_in_config pro hourly_scans = true
has_in_config pro ai_analysis_detailed = true
has_in_config pro slack_integration = true
has_in_config pro audit_logs = true
has_in_config pro gitops_remediation = true
has_in_config pro precision_discovery = true
has_in_config pro owner_attribution = true
has_in_config pro _ = false
has_in_config enterprise _ = true

-- The names of the limits, and any other name.
pub data LimitName : Type 0 where
  max_aws_accounts max_azure_tenants max_gcp_projects : LimitName
  ai_insights_per_month scan_frequency_hours : LimitName
  zombie_scans_per_day llm_analyses_per_day retention_days unknown_limit : LimitName

-- `TIER_CONFIG[tier]["limits"].get(name, 0)`
unfoldable pub limit_in_config : PricingTier → LimitName → Option ℕ
limit_in_config free max_aws_accounts = some 1
limit_in_config free ai_insights_per_month = some 0
limit_in_config free scan_frequency_hours = some 24
limit_in_config free zombie_scans_per_day = some 1
limit_in_config free llm_analyses_per_day = some 0
limit_in_config free _ = some 0
limit_in_config trial zombie_scans_per_day = some 5
limit_in_config trial llm_analyses_per_day = some 1
limit_in_config trial retention_days = some 14
limit_in_config trial _ = some 0
limit_in_config starter max_aws_accounts = some 5
limit_in_config starter max_azure_tenants = some 2
limit_in_config starter max_gcp_projects = some 3
limit_in_config starter ai_insights_per_month = some 10
limit_in_config starter scan_frequency_hours = some 24
limit_in_config starter retention_days = some 90
limit_in_config starter _ = some 0
limit_in_config growth max_aws_accounts = some 20
limit_in_config growth max_azure_tenants = some 10
limit_in_config growth max_gcp_projects = some 15
limit_in_config growth retention_days = some 365
limit_in_config growth _ = some 0
limit_in_config pro max_aws_accounts = some 25
limit_in_config pro ai_insights_per_month = some 100
limit_in_config pro scan_frequency_hours = some 1
limit_in_config pro zombie_scans_per_day = some 100
limit_in_config pro llm_analyses_per_day = some 100
limit_in_config pro retention_days = some 730
limit_in_config pro _ = some 0
limit_in_config enterprise max_aws_accounts = some 999
limit_in_config enterprise ai_insights_per_month = some 999
limit_in_config enterprise zombie_scans_per_day = none
limit_in_config enterprise llm_analyses_per_day = none
limit_in_config enterprise retention_days = none
limit_in_config enterprise _ = some 0

-- Every tier has an entry, so that `get_tier_config` never takes its default.
unfoldable pub is_feature_enabled : PricingTier → Option FeatureFlag → Bool
unfolding has_in_config
is_feature_enabled tier none = false
is_feature_enabled tier (some feature) = has_in_config tier feature

unfoldable pub get_tier_limit : PricingTier → LimitName → Option ℕ
unfolding limit_in_config
get_tier_limit tier name = limit_in_config tier name

pub data Access : Type 0 where
  unauthorized forbidden allowed : Access

-- The tier of a user, where the gates read it.
abbrev pub tier_or_starter : Option PricingTier → PricingTier
tier_or_starter none = starter
tier_or_starter (some tier) = tier

abbrev pub rank : PricingTier → ℕ
rank free = 0
rank trial = 1
rank starter = 2
rank growth = 3
rank pro = 4
rank enterprise = 5

abbrev pub is_one_of : PricingTier → List PricingTier → Bool
is_one_of tier [] = false
is_one_of tier (t ∷ ts) = rank tier == rank t || is_one_of tier ts

-- `requires_tier`; the outer `none` is no user.
unfoldable pub requires_tier : List PricingTier → Option (Option PricingTier) → Access
requires_tier tiers none = unauthorized
requires_tier tiers (some tier) =
    if is_one_of (tier_or_starter tier) tiers then allowed else forbidden

unfoldable pub requires_feature : Option FeatureFlag → Option (Option PricingTier) → Access
unfolding is_feature_enabled
requires_feature feature none = unauthorized
requires_feature feature (some tier) =
    if is_feature_enabled (tier_or_starter tier) feature then allowed else forbidden

-- The columns of a tenant that the lookup reads; a plan that names no tier is `none`.
pub record TenantPlan : Type 0 where
  pub id : ℕ
  pub plan : Option PricingTier

abbrev pub plan_or_free : Found TenantPlan → PricingTier
plan_or_free nothing = free
plan_or_free several = free
plan_or_free (one t) = elim t.plan [ none ↦ free | some tier ↦ tier ]

-- An identifier that does not parse is `none`; every error gives the free tier.
unfoldable pub get_tenant_tier : Option ℕ → List TenantPlan → PricingTier
get_tenant_tier none tenants = free
get_tenant_tier (some id) tenants =
    plan_or_free (scalar_one_or_none (keep (λ t. t.id == id) tenants))

-- `TierGuard.require`, in a guard that was entered for a tenant.
unfoldable pub require : Option ℕ → List TenantPlan → FeatureFlag → Access
unfolding get_tenant_tier is_feature_enabled
require tenant tenants feature =
    if is_feature_enabled (get_tenant_tier tenant tenants) (some feature)
    then allowed
    else forbidden
