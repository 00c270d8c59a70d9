-- ===== src/Auth/Tests/Edge.antt =====
-- API keys, users and gateway decisions on small data.
use Prim.Native.Char.{code}
use Prim.Native.String.{◌∷◌ as ◌:>◌}
use mathlib.Core.Option
use open_civic.Common.Text.{is_empty, is_word, upper_is, rstrip, partition}
use text.Mathlib.Text.{◌==◌ as str_eq}
use open_civic.Common.{
  ℕ, zero, suc, ◌==◌, if◌then◌else◌, ◌≡◌, ◌⊎◌, refl, String, true, false, Option, none, some, [],
  ◌∷◌,
}
use open_civic.Common.Cache.{empty}
use open_civic.Common.Table.{Table, find}
use open_civic.Session.{User, active}
use open_civic.Auth.ApiKeys.{
  ApiKey, KeyStore, denied, invalid_key, resolve_api_key_identity, revoke, find_by_hash,
}
use open_civic.Auth.ApiKeys.Lifecycle.{resolve_api_key_identity-revoke}
use open_civic.Auth.Users.{
  Settings, UuidText, CurrentUser, Claims, words, absent, Auth, granted, refused, invalid_token,
  user_from_gateway_headers, get_current_user, is_trusted, roles_from_claims, authenticate_token,
  resolve_keycloak_user, resolve_user_from_claims,
}
use open_civic.Auth.Users.Decisions.{get_current_user_origin}
use open_civic.Auth.Gateway.{
  GatewayIdentity, build_gateway_trust_headers, classify_gateway_path, evaluate_gateway_auth,
  resolve_gateway_identity, no_headers,
}
use open_civic.Auth.Gateway.Trust.{
  IsLawful, user_from_gateway_headers-build, evaluate_gateway_auth-IsGuarded, IsGuarded,
}

abbrev owner : User
owner = record {
  email = "a@b";
  name = "A";
  roles = "developer" ∷ [];
  status = active;
  mfa_enabled = true;
  scim_external_id = none;
  created_at = 1;
  deleted_at = none;
}

abbrev users : ℕ → Table User
users t = (5, owner) ∷ []

abbrev a_key : ApiKey
a_key = record {
  tenant_id = 3;
  name = "ci";
  key_hash = 77;
  scopes = "read" ∷ [];
  owner_id = 5;
  rate_limit_override = none;
  last_used_at = none;
  expires_at = some 120;
  revoked_at = none;
  created_at = 1;
}

abbrev keys : KeyStore
keys = record { keys = (40, a_key) ∷ []; users = users; identities = empty }

resolve_api_key_identity-revoke_example :
    (resolve_api_key_identity 30 77 (revoke 20 40 5 keys).1).0 ≡ denied invalid_key
unfolding find find_by_hash
resolve_api_key_identity-revoke_example =
    resolve_api_key_identity-revoke 20 30 40 5 a_key keys refl refl refl refl

-- A text form of identifiers: as many letters as the number, and an end.
unary : ℕ → String
unary zero = "u"
unary (suc n) = "x" :> unary n

count_letters : String → Option ℕ
count_letters String.[] = none
count_letters (c :> s) =
    let rest = count_letters s in if code c == 117 then some 0 else Option.map suc rest

abbrev uuid : UuidText
uuid = record { show = unary; parse = count_letters }

count_letters-unary : (n : ℕ) → count_letters (unary n) ≡ some n
unfolding unary count_letters
count_letters-unary zero = refl
count_letters-unary (suc n) = rw (count_letters-unary n) refl

unary_filled : (n : ℕ) → is_empty (unary n) ≡ false
unfolding unary is_empty
unary_filled zero = refl
unary_filled (suc n) = refl

uuid-IsLawful : IsLawful uuid
uuid-IsLawful = record { parse-show = count_letters-unary; show_filled = unary_filled }

abbrev production : Settings
production = record {
  edge_auth_enabled = true;
  gateway_auth_secret = "s3cret";
  gateway_rate_limit_enabled = true;
  keycloak_enabled = true;
  mfa_enforcement_enabled = true;
  dev_auth_enabled = false;
  dev_auth_token = "d";
  dev_steward_auth_token = "s";
  dev_admin_auth_token = "a";
  dev_developer_auth_token = "v";
  dev_user_id = 1;
  dev_steward_user_id = 2;
  dev_admin_user_id = 3;
  dev_developer_user_id = 4;
  dev_tenant_id = 3;
}

abbrev developer_user : CurrentUser
developer_user = record { user_id = 5; tenant_id = 3; roles = "developer" ∷ [] }

abbrev identity : GatewayIdentity
identity = record {
  user_id = 5;
  tenant_id = 3;
  roles = "developer" ∷ "viewer" ∷ [];
  auth_type = "jwt";
  api_key_id = none;
  rate_limit_per_min = none;
}

abbrev claims : Claims
claims = record { email = words "a@b"; tenant_id = absent; realm_roles = [] }

abbrev provider : String → Auth Claims
provider token = if str_eq token "good" then granted claims else refused invalid_token

get_current_user_origin_example :
    ((is_trusted production no_headers ≡ true)
      × (user_from_gateway_headers uuid production no_headers ≡ granted (some developer_user)))
    ⊎ ((token : String) × (c : Claims) × (some "good" ≡ some token)
        × (production.keycloak_enabled ≡ true)
        × (provider token ≡ granted c))
unfolding get_current_user user_from_gateway_headers is_empty authenticate_token
    resolve_keycloak_user resolve_user_from_claims roles_from_claims
get_current_user_origin_example =
    get_current_user_origin uuid production users provider no_headers (some "good") developer_user
      refl refl

user_from_gateway_headers-build_example :
    user_from_gateway_headers uuid production
      (build_gateway_trust_headers uuid production (some identity))
    ≡ granted (some (record { user_id = 5; tenant_id = 3; roles = "developer" ∷ "viewer" ∷ [] }))
unfolding is_empty is_word
user_from_gateway_headers-build_example =
    user_from_gateway_headers-build uuid production uuid-IsLawful refl refl identity
      ((refl, refl), ((refl, refl), tt))

evaluate_gateway_auth-IsGuarded_example :
    IsGuarded uuid production none
      (evaluate_gateway_auth uuid production
        (λ x. 0)
        60
        users
        provider
        100
        "GET"
        "/api/v1/users?x=1"
        (some "Bearer good")
        none
        none
        keys
        none)
      (resolve_gateway_identity uuid production
        (λ x. 0)
        60
        users
        provider
        100
        (some "Bearer good")
        none
        keys).0
unfolding classify_gateway_path upper_is rstrip partition
evaluate_gateway_auth-IsGuarded_example =
    evaluate_gateway_auth-IsGuarded uuid production (λ x. 0) 60 users provider 100 "GET"
      "/api/v1/users?x=1" (some "Bearer good") none none keys none refl
