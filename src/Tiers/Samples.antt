-- ===== src/Tiers/Samples.antt =====
-- A team on the growth tier that moves to pro.
use cloud_sentinel_ai.Base.{some, ◌≡◌, refl}
use cloud_sentinel_ai.Tiers.{
  growth, auto_remediation, has_in_config, is_feature_enabled, allowed, requires_feature,
}

growth_remediates : requires_feature (some auto_remediation) (some (some growth)) ≡ allowed
unfolding requires_feature is_feature_enabled has_in_config
growth_remediates = refl
