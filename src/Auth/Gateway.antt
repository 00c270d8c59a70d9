-- ===== src/Auth/Gateway.antt =====
-- backend/app/services/auth/gateway_auth.py: the decision on every request at the edge, over the API
-- keys, the tokens and the rate limit. SHA-256 is a parameter, for keys and for fingerprints.
mod Request
pub mod Trust
unfoldable pub use Request.*
use Prim.Native.Char.{code}
use text.Mathlib.Text.{◌==◌ as str_eq, starts_with}
use open_civic.Common.{
  ℕ, ◌==◌, ◌≡◌, String, Bool, true, false, not, ◌&&◌, ◌||◌, Option, none, some, List, [], ◌∷◌,
  if◌then◌else◌, any, get_or,
}
use open_civic.Common.Text.{is_empty, is_space, strip, rstrip, partition, join, upper_is, lower_is}
use open_civic.Common.Table.{Table}
use open_civic.Session.{User}
use open_civic.Auth.ApiKeys
use open_civic.Auth.ApiKeys.{KeyStore, KeyIdentity, resolve_api_key_identity}
use open_civic.Auth.RateLimit
use open_civic.Auth.RateLimit.{Client, Decision, consume_rate_limit}
use open_civic.Auth.Users.{
  Settings, UuidText, Headers, Claims, CurrentUser, Auth, granted, refused, AuthError,
  authentication_required, invalid_token, authenticate_token,
}

pub record GatewayIdentity : Type 0 where
  pub user_id : ℕ
  pub tenant_id : ℕ
  pub roles : List String
  pub auth_type : String
  pub api_key_id : Option ℕ
  pub rate_limit_per_min : Option ℕ

abbrev pub no_headers : Headers
no_headers = record {
  trust = none;
  user = none;
  tenant = none;
  roles = none;
  auth_type = none;
  api_key_id = none;
}

-- `build_gateway_trust_headers`
unfoldable pub build_gateway_trust_headers : UuidText → Settings → Option GatewayIdentity → Headers
build_gateway_trust_headers uuid settings identity =
    if is_empty settings.gateway_auth_secret then no_headers else elim identity [
      | none ↦ record no_headers { trust = some settings.gateway_auth_secret }
      | some i ↦ record {
        trust = some settings.gateway_auth_secret;
        user = some (uuid.show i.user_id);
        tenant = some (uuid.show i.tenant_id);
        roles = some (join i.roles);
        auth_type = some i.auth_type;
        api_key_id = elim i.api_key_id [ none ↦ none | some k ↦ some (uuid.show k) ];
      }
    ]

-- The identity of a key that was resolved; every refusal is an `InvalidToken`.
unfoldable pub key_identity : ApiKeys.Answer KeyIdentity → Auth (Option GatewayIdentity)
key_identity (ApiKeys.denied e) = refused invalid_token
key_identity (ApiKeys.found i) = granted (
    some (record {
      user_id = i.user_id;
      tenant_id = i.tenant_id;
      roles = i.roles;
      auth_type = "api_key";
      api_key_id = some i.api_key_id;
      rate_limit_per_min = i.rate_limit_per_min;
    }))

unfoldable pub jwt_identity : Auth CurrentUser → Auth (Option GatewayIdentity)
jwt_identity (refused e) = refused e
jwt_identity (granted u) = granted (
    some (record {
      user_id = u.user_id;
      tenant_id = u.tenant_id;
      roles = u.roles;
      auth_type = "jwt";
      api_key_id = none;
      rate_limit_per_min = none;
    }))

-- `except (AuthenticationRequired, InvalidToken): identity = None`
unfoldable pub or_anonymous : Auth (Option GatewayIdentity) → Auth (Option GatewayIdentity)
or_anonymous (refused authentication_required) = granted none
or_anonymous (refused invalid_token) = granted none
or_anonymous r = r

pub record Answer : Type 0 where
  pub status : ℕ
  pub headers : Headers
  pub rate_limit : Option Decision  -- the X-RateLimit headers

client_of : Option GatewayIdentity → Option String → Client
client_of none fingerprint = record {
  tenant_id = none;
  user_id = none;
  api_key_id = none;
  fingerprint = fingerprint;
}
client_of (some i) fingerprint = record {
  tenant_id = some i.tenant_id;
  user_id = some i.user_id;
  api_key_id = i.api_key_id;
  fingerprint = fingerprint;
}

override_of : Option GatewayIdentity → Option ℕ
override_of none = none
override_of (some i) = i.rate_limit_per_min

module _ (uuid : UuidText) (settings : Settings) (digest : String → ℕ) (default_limit : ℕ) where
  -- What follows once it is known who the client is.
  unfoldable pub answer :
      ℕ
      → GatewayAuthMode
      → Option String
      → Option GatewayIdentity
      → Option RateLimit.Store
      → Answer × Option RateLimit.Store
  unfolding client_of override_of
  answer now required fingerprint none limits =
      (record { status = 401; headers = no_headers; rate_limit = none }, limits)
  answer now mode fingerprint identity limits =
      let headers = build_gateway_trust_headers uuid settings identity in
      let (decision, limits') =
        consume_rate_limit digest default_limit now (client_of identity fingerprint)
          (override_of identity) limits in
      if settings.gateway_rate_limit_enabled
      then (
        record {
          status = if decision.allowed then 200 else 429;
          headers = headers;
          rate_limit = some decision;
        },
        limits',
      )
      else (record { status = 200; headers = headers; rate_limit = none }, limits)

  unfoldable pub after_resolution :
      ℕ
      → GatewayAuthMode
      → Option String
      → Auth (Option GatewayIdentity)
      → KeyStore
      → Option RateLimit.Store
      → Auth Answer × KeyStore × Option RateLimit.Store
  after_resolution now mode fingerprint resolved keys limits = elim (or_anonymous resolved) [
    | refused e ↦ (refused e, keys, limits)
    | granted identity ↦
        let (a, limits') = answer now mode fingerprint identity limits in (granted a, keys, limits')
  ]

  module _ (users : ℕ → Table User) (validate_token : String → Auth Claims) where
    -- `resolve_gateway_identity`
    unfoldable pub resolve_gateway_identity :
        ℕ → Option String → Option String → KeyStore → Auth (Option GatewayIdentity) × KeyStore
    resolve_gateway_identity now authorization x_api_key keys =
        let by_token : Auth (Option GatewayIdentity) × KeyStore =
          elim (extract_bearer_token authorization) [
            | none ↦ (granted none, keys)
            | some token ↦ if is_empty token then (granted none, keys) else (
              jwt_identity (authenticate_token uuid settings users validate_token token),
              keys,
            )
          ] in
        elim (extract_api_key authorization x_api_key) [
          | none ↦ by_token
          | some raw ↦
              if is_empty raw
              then by_token
              else (let (r, keys') = resolve_api_key_identity now (digest raw) keys in
                  (key_identity r, keys'))
        ]

    -- `evaluate_gateway_auth`: the answer, or the exception that was not caught.
    unfoldable pub evaluate_gateway_auth :
        ℕ
        → String
        → String
        → Option String
        → Option String
        → Option String
        → KeyStore
        → Option RateLimit.Store
        → Auth Answer × KeyStore × Option RateLimit.Store
    evaluate_gateway_auth now method uri authorization x_api_key fingerprint keys limits =
        let mode = classify_gateway_path method uri in
        let (resolved, keys') = resolve_gateway_identity now authorization x_api_key keys in
        elim mode [
          | open_to_all ↦ (
            granted (record {
              status = 200;
              headers = build_gateway_trust_headers uuid settings none;
              rate_limit = none;
            }),
            keys,
            limits,
          )
          | m ↦ after_resolution now m fingerprint resolved keys' limits
        ]
