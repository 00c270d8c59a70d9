-- ===== src/Usage/Limits/Hydrated.antt =====
-- What the edge enforces after the limit of a tenant was written to the cache.
use open_civic.Common.{
  ℕ, ◌+◌, ◌<◌, ◌≡◌, refl, ap, ◌∙◌, String, Bool, true, false, Option, none, some, List, ltb, get_or,
  if◌then◌else◌, ==_refl, Bool-cases, inl, inr, arith, lt→ltb,
}
use open_civic.Common.Cache.{cache_get, cache_get-cache_set_later}
use open_civic.Auth.RateLimit.{
  Store, resolve_limit_per_minute, get_tenant_rate_limit, cache_tenant_rate_limit,
}
use open_civic.Usage.Limits.{
  Plan, tier_default_limit, resolve_rate_limit_for_tier, lookup_plan_limit,
  hydrate_tenant_rate_limit,
}

tier_default-pos :
    (default : ℕ) (tier : String) → 0 < default → 0 < get_or (tier_default_limit tier) default
unfolding tier_default_limit
tier_default-pos default tier h = ground arith

resolved-pos :
    (default : ℕ) (tier : String) (plan_limit : Option ℕ)
    → 0 < default
    → 0 < resolve_rate_limit_for_tier default tier plan_limit
unfolding resolve_rate_limit_for_tier
resolved-pos default tier none h = tier_default-pos default tier h
resolved-pos default tier (some n) h = elim (Bool-cases (ltb 0 n)) [
  | inl plan ↦ rw (plan, resolve_rate_limit_for_tier) (ground (arith, plan))
  | inr no_plan ↦ rw (no_plan, resolve_rate_limit_for_tier) (tier_default-pos default tier h)
]

resolve_cached :
    (default limit : ℕ) (b : Bool)
    → 0 < limit
    → resolve_limit_per_minute default none (if b then some limit else none)
      ≡ (if b then limit else default)
unfolding resolve_limit_per_minute
resolve_cached default limit true h = rw (lt→ltb 0 limit h, resolve_limit_per_minute) refl
resolve_cached default limit false h = refl

-- Where the platform's default is positive and the store can be reached, the edge gives a tenant,
-- whose key has no limit of its own, the limit of its plan or tier for an hour after it was
-- written, and the default from then on.
pub hydrate_tenant_rate_limit_lem :
    (now later default tenant_id : ℕ) (plans : List Plan) (tier : String) (s : Store)
    → 0 < default
    → resolve_limit_per_minute default none (
        get_tenant_rate_limit later tenant_id
          (hydrate_tenant_rate_limit now default plans tenant_id tier (some s)).1)
      ≡ (if ltb later (now + 3600)
          then resolve_rate_limit_for_tier default tier (lookup_plan_limit plans tier)
          else default)
unfolding hydrate_tenant_rate_limit get_tenant_rate_limit cache_tenant_rate_limit
hydrate_tenant_rate_limit_lem now later default tenant_id plans tier s h =
    let limit = resolve_rate_limit_for_tier default tier (lookup_plan_limit plans tier) in
    let big = resolved-pos default tier (lookup_plan_limit plans tier) h in
    let read =
      cache_get-cache_set_later now later tenant_id tenant_id 3600 limit s.tenant_limits
        (omega arith) in
    ap (resolve_limit_per_minute default none) (
      read
      ∙ ap
          (λ b.
            if b
            then (if ltb later (now + 3600) then some limit else none)
            else cache_get later tenant_id s.tenant_limits)
          (==_refl tenant_id))
    ∙ resolve_cached default limit (ltb later (now + 3600)) big
