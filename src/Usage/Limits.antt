-- ===== src/Usage/Limits.antt =====
-- The limit of a tenant's plan, which the edge reads from the cache, and the gauges of a developer's
-- keys. The percentage of a gauge, a rounded float, is not modelled.
pub mod Hydrated
use text.Mathlib.Text.{◌==◌ as str_eq}
use open_civic.Common.{
  ℕ, ◌-◌, String, Bool, true, false, not, ◌&&◌, Option, none, some, List, [], ◌∷◌, map, ltb, leb,
  ◌==◌, if◌then◌else◌, holds, is_some, get_or,
}
use open_civic.Common.Order.{order_by, count}
use open_civic.Common.Table.{Table, select}
use open_civic.Auth.RateLimit.{Store, cache_tenant_rate_limit}
use open_civic.Auth.ApiKeys.{ApiKey}
use open_civic.Usage.Rollup.{UsageEvent}

-- The name and the limit of `Plan`.
pub record Plan : Type 0 where
  pub name : String
  pub api_rate_limit_per_min : Option ℕ

-- `_TIER_DEFAULT_LIMITS`
unfoldable pub tier_default_limit : String → Option ℕ
tier_default_limit tier =
    if str_eq tier "standard"
    then some 1000
    else if str_eq tier "professional"
    then some 2500
    else if str_eq tier "enterprise"
    then some 5000
    else none

abbrev positive : Option ℕ → Option ℕ
positive none = none
positive (some n) = if ltb 0 n then some n else none

-- `resolve_rate_limit_for_tier`, with the platform's default.
unfoldable pub resolve_rate_limit_for_tier : ℕ → String → Option ℕ → ℕ
unfolding tier_default_limit
resolve_rate_limit_for_tier default tier plan_limit = elim (positive plan_limit) [
  | some n ↦ n
  | none ↦ get_or (tier_default_limit tier) default
]

unfoldable pub plan_name : String → String
plan_name tier =
    if str_eq tier "professional"
    then "Professional"
    else if str_eq tier "enterprise"
    then "Enterprise"
    else "Standard"

first_named : String → List Plan → Option Plan
first_named n [] = none
first_named n (p ∷ ps) = if str_eq p.name n then some p else first_named n ps

-- `_lookup_plan_limit`
unfoldable pub lookup_plan_limit : List Plan → String → Option ℕ
unfolding plan_name first_named
lookup_plan_limit plans tier = elim (first_named (plan_name tier) plans) [
  | none ↦ none
  | some p ↦ p.api_rate_limit_per_min
]

-- `hydrate_tenant_rate_limit`
unfoldable pub hydrate_tenant_rate_limit :
    ℕ → ℕ → List Plan → ℕ → String → Option Store → ℕ × Option Store
unfolding lookup_plan_limit resolve_rate_limit_for_tier cache_tenant_rate_limit
hydrate_tenant_rate_limit now default plans tenant_id tier s =
    let limit = resolve_rate_limit_for_tier default tier (lookup_plan_limit plans tier) in
    (limit, cache_tenant_rate_limit now tenant_id limit s)

pub record Gauge : Type 0 where
  pub api_key_id : ℕ
  pub name : String
  pub limit_per_minute : ℕ
  pub used_last_minute : ℕ
  pub remaining : ℕ

-- `key.rate_limit_override or settings.DEFAULT_API_RATE_LIMIT_PER_MIN`
unfoldable pub gauge_limit : ℕ → Option ℕ → ℕ
gauge_limit default override = get_or (positive override) default

unfoldable pub used_since : ℕ → ℕ → List UsageEvent → ℕ
unfolding count
used_since since key events =
    count (λ e. holds e.api_key_id key && str_eq e.event_type "api_call" && leb since e.created_at)
      events

unfoldable pub gauge_of : ℕ → ℕ → List UsageEvent → ℕ × ApiKey → Gauge
unfolding gauge_limit used_since
gauge_of now default events (k, key) =
    let limit = gauge_limit default key.rate_limit_override in
    let used = used_since (now - 60) k events in
    record {
      api_key_id = k;
      name = key.name;
      limit_per_minute = limit;
      used_last_minute = used;
      remaining = limit - used;
    }

-- `gauges_for_owner`: the newest key first.
unfoldable pub gauges_for_owner : ℕ → ℕ → List UsageEvent → ℕ → Table ApiKey → List Gauge
unfolding select order_by gauge_of
gauges_for_owner now default events owner_id keys = map (gauge_of now default events) (
    order_by (λ (i, x) (j, y). leb y.created_at x.created_at)
      (select (λ k r. r.owner_id == owner_id && not (is_some r.revoked_at)) keys))
