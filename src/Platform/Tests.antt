-- ===== src/Platform/Tests.antt =====
-- The first tenant of a platform.
use open_civic.Common.{◌≡◌, refl, true, false, none, []}
use open_civic.Platform.Provisioning.{
  Platform, is_slug, normalized_slug, ensure_default_plans, default_plans,
}

abbrev empty_platform : Platform
empty_platform = record { tenants = []; plans = []; licences = []; store = none }

normalized : normalized_slug " Bonn-2 " ≡ "bonn-2"
unfolding normalized_slug
normalized = refl

well_formed : is_slug "bonn-2" ≡ true
unfolding is_slug
well_formed = refl

hyphen_first : is_slug "-bonn" ≡ false
unfolding is_slug
hyphen_first = refl

plans_once : ensure_default_plans (ensure_default_plans []).1 ≡ (0, default_plans)
unfolding ensure_default_plans
plans_once = refl
