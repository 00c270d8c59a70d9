-- ===== src/Platform/Provisioning.antt =====
-- backend/app/services/platform/tenant_provisioning_service.py and plan_seed_service.py beside it, with
-- the part of the task `provision_tenant` that runs them. New keys are arguments; whether the marker
-- of the storage prefix is written changes nothing that is modelled.
pub mod Registry
use Prim.Native.Char.{Char, code}
use Prim.Native.String.{◌∷◌ as ◌:>◌, ◌++◌ as ◌<>◌, char_at}
use text.Mathlib.Text.{◌==◌ as str_eq}
use open_civic.Common.{
  ℕ, suc, ◌+◌, ◌-◌, String, Bool, true, false, not, ◌&&◌, ◌||◌, Option, none, some, List, [], ◌∷◌,
  ◌++◌, all, any, leb, ◌==◌, if◌then◌else◌, length,
}
use open_civic.Common.Text.{codes, strip}
use open_civic.Common.Table.{Table, insert, select}
use open_civic.Auth.RateLimit.{Store}
use open_civic.Usage.Limits.{Plan, hydrate_tenant_rate_limit}
use open_civic.Workers.Tenants.{Tenant}

-- `str.lower` of a character, for what becomes an ASCII letter.
lower_char : Char → Char
lower_char c =
    let n = code c in
    if leb 65 n && leb n 90
    then char_at "abcdefghijklmnopqrstuvwxyz" (n - 65)
    else if n == 8490
    then char_at "k" 0
    else c

unfoldable pub lower : String → String
unfolding lower_char
lower String.[] = ""
lower (c :> s) = lower_char c :> lower s

is_alphanumeric : ℕ → Bool
is_alphanumeric n = (leb 97 n && leb n 122) || (leb 48 n && leb n 57)

ends_well : List ℕ → Bool
unfolding is_alphanumeric
ends_well [] = false
ends_well (x ∷ []) = is_alphanumeric x
ends_well (x ∷ y ∷ ys) = ends_well (y ∷ ys)

starts_well : List ℕ → Bool
unfolding is_alphanumeric
starts_well [] = false
starts_well (x ∷ xs) = is_alphanumeric x

-- `_SLUG_PATTERN`: 1 to 63 letters, digits and hyphens, with no hyphen at either end.
unfoldable pub is_slug : String → Bool
unfolding codes starts_well ends_well is_alphanumeric
is_slug s =
    let cs = codes s in
    leb (length cs) 63
    && starts_well cs
    && ends_well cs
    && all (λ n. is_alphanumeric n || n == 45) cs

-- `slug.strip().lower()`
unfoldable pub normalized_slug : String → String
unfolding strip lower
normalized_slug slug = lower (strip slug)

abbrev default_plan : String → ℕ → Plan
default_plan name limit = record { name = name; api_rate_limit_per_min = some limit }

-- The names and limits of `DEFAULT_PLANS`.
abbrev pub default_plans : List Plan
default_plans =
    default_plan "Standard" 1000
    ∷ default_plan "Professional" 2500
    ∷ default_plan "Enterprise" 5000
    ∷ []

unfoldable pub has_plan : String → List Plan → Bool
has_plan name plans = any (λ p. str_eq p.name name) plans

add_missing : List Plan → List Plan → ℕ × List Plan
unfolding has_plan
add_missing [] plans = (0, plans)
add_missing (spec ∷ specs) plans =
    let known = has_plan spec.name plans in
    let (created, after) = add_missing specs (if known then plans else plans ++ spec ∷ []) in
    (if known then created else suc created, after)

-- `ensure_default_plans`
unfoldable pub ensure_default_plans : List Plan → ℕ × List Plan
unfolding add_missing
ensure_default_plans plans = add_missing default_plans plans

pub record Licence : Type 0 where
  pub tenant_id : ℕ
  pub name : String
  pub spdx_id : String

pub record Platform : Type 0 where
  pub tenants : Table Tenant
  pub plans : List Plan
  pub licences : Table Licence
  pub store : Option Store

-- `_seed_default_licence`
unfoldable pub seed_default_licence : ℕ → ℕ → Table Licence → Table Licence
unfolding select
seed_default_licence new tenant_id licences =
    elim (select (λ k l. l.tenant_id == tenant_id) licences) [
      | [] ↦
          insert new
            (record {
              tenant_id = tenant_id;
              name = "Open Government Licence";
              spdx_id = "OGL-UK-3.0";
            })
            licences
      | x ∷ xs ↦ licences
    ]

unfoldable pub slug_taken : String → Table Tenant → Bool
slug_taken slug tenants = any (λ row. str_eq row.1.slug slug) tenants

pub data ProvisionError : Type 0 where
  validation_error slug_conflict : ProvisionError

pub data Provisioned : Type 0 where
  provisioned : ℕ → Tenant → Platform → Provisioned
  refused : ProvisionError → Provisioned

unfoldable pub tenant_of : String → String → String → Tenant
unfolding strip
tenant_of slug display_name tier = record {
  slug = slug;
  display_name = strip display_name;
  tier = tier;
  schema_name = if str_eq tier "professional" then some ("schema_" <> slug) else none;
  status = "active";
  deleted_at = none;
}

-- The rows and the limit that a new tenant gets.
unfoldable pub register : ℕ → ℕ → ℕ → ℕ → Tenant → Platform → Platform
unfolding ensure_default_plans seed_default_licence hydrate_tenant_rate_limit
register now default tenant_id licence_id t p =
    let plans = (ensure_default_plans p.plans).1 in
    record {
      tenants = insert tenant_id t p.tenants;
      plans = plans;
      licences = seed_default_licence licence_id tenant_id p.licences;
      store = (hydrate_tenant_rate_limit now default plans tenant_id t.tier p.store).1;
    }

-- `provision`
unfoldable pub provision : ℕ → ℕ → ℕ → ℕ → String → String → String → Platform → Provisioned
unfolding normalized_slug is_slug slug_taken tenant_of register
provision now default tenant_id licence_id slug display_name tier p =
    let normalized = normalized_slug slug in
    if not (is_slug normalized)
    then refused validation_error
    else if slug_taken normalized p.tenants
    then refused slug_conflict
    else let t = tenant_of normalized display_name tier in
      provisioned tenant_id t (register now default tenant_id licence_id t p)
