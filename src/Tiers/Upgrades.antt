-- ===== src/Tiers/Upgrades.antt =====
-- What an upgrade to the next paid tier keeps.
use mathlib.Core.Bool.{not}
use cloud_sentinel_ai.Base.{ℕ, Bool, true, false, Option, none, some, ◌≡◌, arith, leb}
use cloud_sentinel_ai.Tiers.{
  PricingTier, starter, growth, pro, enterprise, FeatureFlag, LimitName, ai_insights_per_month,
  max_azure_tenants, max_gcp_projects, scan_frequency_hours, has_in_config, is_feature_enabled,
  get_tier_limit, allowed, requires_feature,
}

-- A step to the next paid tier.
pub data Upgrade : Type 0 where
  to_growth to_pro to_enterprise : Upgrade

abbrev pub before : Upgrade → PricingTier
before to_growth = starter
before to_pro = growth
before to_enterprise = pro

abbrev pub after : Upgrade → PricingTier
after to_growth = growth
after to_pro = pro
after to_enterprise = enterprise

has_in_config-Upgrade :
    (u : Upgrade) (f : FeatureFlag)
    → has_in_config (before u) f ≡ true
    → has_in_config (after u) f ≡ true
unfolding has_in_config
has_in_config-Upgrade to_growth f h = ground arith
has_in_config-Upgrade to_pro f h = ground arith
has_in_config-Upgrade to_enterprise f h = ground arith

-- An upgrade from one paid tier to the next keeps every endpoint open that its feature's gate lets the
-- user's tier through to.
upgrade_keeps_access :
    (u : Upgrade) (feature : Option FeatureFlag)
    → requires_feature feature (some (some (before u))) ≡ allowed
    → requires_feature feature (some (some (after u))) ≡ allowed
unfolding requires_feature is_feature_enabled
upgrade_keeps_access u none h = h
upgrade_keeps_access u (some f) h = ground (arith, has_in_config-Upgrade u f)

-- `none` is above every number.
abbrev pub is_at_most : Option ℕ → Option ℕ → Bool
is_at_most _ none = true
is_at_most none (some _) = false
is_at_most (some a) (some b) = leb a b

-- The limits that an upgrade lowers.
abbrev pub is_lowered : Upgrade → LimitName → Bool
is_lowered to_growth ai_insights_per_month = true
is_lowered to_growth scan_frequency_hours = true
is_lowered to_pro max_azure_tenants = true
is_lowered to_pro max_gcp_projects = true
is_lowered to_enterprise scan_frequency_hours = true
is_lowered _ _ = false

-- Of all limits, an upgrade lowers just these: to growth the AI insights, from 10 a month to none, and
-- the hours between scans; to pro the Azure tenants and the GCP projects, to none; to enterprise the
-- hours between scans.
upgrade_lowers :
    (u : Upgrade) (name : LimitName)
    → is_at_most (get_tier_limit (before u) name) (get_tier_limit (after u) name)
      ≡ not (is_lowered u name)
unfolding get_tier_limit
upgrade_lowers to_growth name = ground arith
upgrade_lowers to_pro name = ground arith
upgrade_lowers to_enterprise name = ground arith
