-- ===== src/Platform/Provisioning/Registry.antt =====
-- The register of tenants: every slug is well formed and belongs to one tenant.
use Prim.Native.String.{String}
use open_civic.Common.{
  ℕ, ◌+◌, ◌<◌, ◌≡◌, ap, ◌∙◌, true, false, none, some, [], ◌∷◌, ltb, if◌then◌else◌,
}
use open_civic.Common.Table.{Table}
use open_civic.Auth.RateLimit.{Store, resolve_limit_per_minute, get_tenant_rate_limit}
use open_civic.Usage.Limits.{
  resolve_rate_limit_for_tier, lookup_plan_limit, hydrate_tenant_rate_limit,
}
use open_civic.Usage.Limits.Hydrated.{hydrate_tenant_rate_limit_lem}
use open_civic.Workers.Tenants.{Tenant}
use open_civic.Platform.Provisioning.{
  Platform, Provisioned, is_slug, normalized_slug, slug_taken, tenant_of, register,
  ensure_default_plans, provision,
}

abbrev pub IsRegistry : Table Tenant → Type 0
IsRegistry [] = Unit
IsRegistry ((k, r) ∷ t) = (is_slug r.slug ≡ true) × (slug_taken r.slug t ≡ false) × IsRegistry t

module _ (now default tenant_id licence_id : ℕ) (slug display_name tier : String)
    (p : Platform) where
  abbrev wanted : Tenant
  wanted = tenant_of (normalized_slug slug) display_name tier

  abbrev end : Provisioned
  end = provision now default tenant_id licence_id slug display_name tier p

  pub provision_limit :
      (later : ℕ) (s : Store)
      → 0 < default
      → p.store ≡ some s
      → resolve_limit_per_minute default none (
          get_tenant_rate_limit later tenant_id
            (register now default tenant_id licence_id wanted p).store)
        ≡ (if ltb later (now + 3600)
            then resolve_rate_limit_for_tier default tier
                (lookup_plan_limit (ensure_default_plans p.plans).1 tier)
            else default)
  unfolding register tenant_of
  provision_limit later s pos there =
      ap
        (λ store. resolve_limit_per_minute default none (
          get_tenant_rate_limit later tenant_id
            (hydrate_tenant_rate_limit now default (ensure_default_plans p.plans).1 tenant_id tier
              store).1))
        there
      ∙ hydrate_tenant_rate_limit_lem now later default tenant_id (ensure_default_plans p.plans).1
          tier s pos
