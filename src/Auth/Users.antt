-- ===== src/Auth/Users.antt =====
-- Who a request is from: backend/app/api/v1/dependencies/auth.py and permissions.py, and
-- backend/app/services/auth/user_resolver.py and mfa_enforcement.py. The validation of a JWT is a
-- parameter; so is the text form of identifiers, `str(uuid)` and `uuid.UUID(text)`.
pub mod Decisions
use text.Mathlib.Text.{◌==◌ as str_eq}
use open_civic.Common.{
  ℕ, ◌≡◌, String, Bool, true, false, not, ◌&&◌, ◌||◌, Option, none, some, List, [], ◌∷◌,
  if◌then◌else◌, any, map, filter, get_or,
}
use open_civic.Common.Text.{is_empty, strip, split}
use open_civic.Common.Table.{Table, find}
use open_civic.Session.{User}

pub record Settings : Type 0 where
  pub edge_auth_enabled : Bool
  pub gateway_auth_secret : String
  pub gateway_rate_limit_enabled : Bool
  pub keycloak_enabled : Bool
  pub mfa_enforcement_enabled : Bool
  pub dev_auth_enabled : Bool
  pub dev_auth_token : String
  pub dev_steward_auth_token : String
  pub dev_admin_auth_token : String
  pub dev_developer_auth_token : String
  pub dev_user_id : ℕ
  pub dev_steward_user_id : ℕ
  pub dev_admin_user_id : ℕ
  pub dev_developer_user_id : ℕ
  pub dev_tenant_id : ℕ

-- The text form of identifiers.
pub record UuidText : Type 0 where
  pub show : ℕ → String
  pub parse : String → Option ℕ

pub data AuthError : Type 0 where
  authentication_required invalid_token user_not_found value_error permission_denied : AuthError

pub data Auth (A : Type 0) : Type 0 where
  granted : A → Auth A
  refused : AuthError → Auth A

infixl 5 ◌>>=◌
abbrev pub ◌>>=◌ : {A B : Type 0} → Auth A → (A → Auth B) → Auth B
m >>= f = elim m [ granted a ↦ f a | refused e ↦ refused e ]

pub record CurrentUser : Type 0 where
  pub user_id : ℕ
  pub tenant_id : ℕ
  pub roles : List String

-- The headers of a request that the code reads.
pub record Headers : Type 0 where
  pub trust : Option String
  pub user : Option String
  pub tenant : Option String
  pub roles : Option String
  pub auth_type : Option String
  pub api_key_id : Option String

-- A claim of a token: absent, a string, or another value, by its Python text.
pub data Claim : Type 0 where
  absent : Claim
  words : String → Claim
  other : String → Claim

pub record Claims : Type 0 where
  pub email : Claim
  pub tenant_id : Claim
  pub realm_roles : List Claim  -- empty where `realm_access` is no such object

is_platform_role : String → Bool
is_platform_role r =
    any (str_eq r) (
      "org_admin" ∷ "data_publisher" ∷ "data_steward" ∷ "developer" ∷ "viewer" ∷ "super_admin" ∷ [])

-- `_roles_from_claims`
unfoldable pub roles_from_claims : List Claim → List String
unfolding is_platform_role
roles_from_claims [] = []
roles_from_claims (words r ∷ cs) =
    let rest = roles_from_claims cs in if is_platform_role r then r ∷ rest else rest
roles_from_claims (_ ∷ cs) = roles_from_claims cs

-- `select(User).where(User.email == email)` in the session of a tenant.
find_by_email : String → Table User → Option (ℕ × User)
find_by_email e [] = none
find_by_email e ((k, u) ∷ t) = if str_eq u.email e then some (k, u) else find_by_email e t

or_roles : List String → List String → List String
or_roles [] rs = rs
or_roles (x ∷ xs) rs = x ∷ xs

-- `[role.strip() for role in raw.split(",") if role.strip()]`
unfoldable pub parse_roles : String → List String
parse_roles raw = filter (λ r. not (is_empty r)) (map strip (split 44 raw))

unfoldable pub parse_uuid : UuidText → String → Auth ℕ
parse_uuid uuid s = elim (uuid.parse s) [ none ↦ refused value_error | some n ↦ granted n ]

-- Whether one of the roles is in `MFA_REQUIRED_ROLES`.
unfoldable pub is_privileged : List String → Bool
is_privileged roles =
    any (λ r. any (str_eq r) ("org_admin" ∷ "data_steward" ∷ "data_publisher" ∷ "developer" ∷ []))
      roles

module _ (settings : Settings) where
  -- `get_settings().EDGE_AUTH_ENABLED and …`: the request carries the gateway's secret.
  unfoldable pub is_trusted : Headers → Bool
  is_trusted h =
      settings.edge_auth_enabled
      && not (is_empty settings.gateway_auth_secret)
      && (elim h.trust [ none ↦ false | some t ↦ str_eq t settings.gateway_auth_secret ])

  -- `_resolve_dev_user`
  unfoldable pub resolve_dev_user : String → Auth CurrentUser
  resolve_dev_user token =
      let user : ℕ → String → Auth CurrentUser = λ id role.
        granted (record { user_id = id; tenant_id = settings.dev_tenant_id; roles = role ∷ [] }) in
      if not settings.dev_auth_enabled
      then refused invalid_token
      else if str_eq token settings.dev_steward_auth_token
      then user settings.dev_steward_user_id "data_steward"
      else if str_eq token settings.dev_admin_auth_token
      then user settings.dev_admin_user_id "org_admin"
      else if str_eq token settings.dev_developer_auth_token
      then user settings.dev_developer_user_id "developer"
      else if str_eq token settings.dev_auth_token
      then user settings.dev_user_id "data_publisher"
      else refused invalid_token

module _ (uuid : UuidText) (settings : Settings) where
  -- `_user_from_gateway_headers`; a user or a tenant that is no identifier raises.
  unfoldable pub user_from_gateway_headers : Headers → Auth (Option CurrentUser)
  unfolding is_trusted parse_uuid parse_roles
  user_from_gateway_headers h =
      let user_raw = get_or h.user "" in
      let tenant_raw = get_or h.tenant "" in
      if not (is_trusted settings h)
      then granted none
      else if is_empty user_raw || is_empty tenant_raw
      then granted none
      else (parse_uuid uuid user_raw >>= λ user_id. parse_uuid uuid tenant_raw >>= λ tenant_id.
          granted (
            some (record {
              user_id = user_id;
              tenant_id = tenant_id;
              roles = parse_roles (get_or h.roles "");
            })))

module _ (uuid : UuidText) (settings : Settings) (users : ℕ → Table User) where
  -- `resolve_user_from_claims`, in the session of the tenant that was set.
  unfoldable pub resolve_user_from_claims : ℕ → Claims → Auth CurrentUser
  unfolding parse_uuid find_by_email or_roles
  resolve_user_from_claims session_tenant claims = elim claims.email [
    | absent ↦ refused user_not_found
    | other t ↦ refused user_not_found
    | words email ↦
        if is_empty email
        then refused user_not_found
        else ((elim claims.tenant_id [
          | absent ↦ granted settings.dev_tenant_id
          | other t ↦ refused user_not_found
          | words t ↦ parse_uuid uuid t
        ])
            >>= λ tenant_id. elim (find_by_email email (users session_tenant)) [
              | none ↦ refused user_not_found
              | some (k, u) ↦ granted (record {
                user_id = k;
                tenant_id = tenant_id;
                roles = or_roles (roles_from_claims claims.realm_roles) u.roles;
              })
            ])
  ]

  -- `assert_mfa_enrolled`, in the session of the tenant.
  unfoldable pub assert_mfa_enrolled : ℕ → ℕ → List String → Auth (Unit {0})
  assert_mfa_enrolled session_tenant user_id roles =
      if not settings.mfa_enforcement_enabled
      then granted tt
      else if not (is_privileged roles)
      then granted tt
      else elim (find user_id (users session_tenant)) [
        | none ↦ refused permission_denied
        | some u ↦ if u.mfa_enabled then granted tt else refused permission_denied
      ]

  -- The checker of `require_roles`.
  unfoldable pub require_roles : List String → CurrentUser → Auth CurrentUser
  unfolding assert_mfa_enrolled
  require_roles allowed u =
      if not (any (λ r. any (str_eq r) u.roles) allowed)
      then refused permission_denied
      else (assert_mfa_enrolled u.tenant_id u.user_id u.roles >>= λ _. granted u)

  module _ (validate_token : String → Auth Claims) where
    -- `_resolve_keycloak_user`
    unfoldable pub resolve_keycloak_user : String → Auth CurrentUser
    unfolding parse_uuid
    resolve_keycloak_user token = validate_token token >>= λ claims.
        (elim claims.tenant_id [
          | absent ↦ granted settings.dev_tenant_id
          | words t ↦ parse_uuid uuid t
          | other t ↦ parse_uuid uuid t
        ])
        >>= λ tenant_id. resolve_user_from_claims tenant_id claims

    -- `_authenticate_token`
    unfoldable pub authenticate_token : String → Auth CurrentUser
    authenticate_token token =
        let dev_token = any (str_eq token) (
          settings.dev_auth_token ∷ settings.dev_steward_auth_token ∷ settings.dev_admin_auth_token
          ∷ settings.dev_developer_auth_token ∷ []) in
        if settings.dev_auth_enabled && dev_token
        then resolve_dev_user settings token
        else if settings.keycloak_enabled
        then resolve_keycloak_user token
        else if settings.dev_auth_enabled
        then refused invalid_token
        else refused authentication_required

    -- `get_current_user`, with the bearer token if there is one.
    unfoldable pub get_current_user : Headers → Option String → Auth CurrentUser
    get_current_user h credentials = user_from_gateway_headers uuid settings h >>= λ gateway_user.
        elim gateway_user [
          | some u ↦ granted u
          | none ↦ elim credentials [
            | none ↦ refused authentication_required
            | some token ↦ authenticate_token token
          ]
        ]

    -- `get_current_user_optional`
    unfoldable pub get_current_user_optional : Headers → Option String → Auth (Option CurrentUser)
    get_current_user_optional h credentials =
        user_from_gateway_headers uuid settings h >>= λ gateway_user. elim gateway_user [
          | some u ↦ granted (some u)
          | none ↦ if is_trusted settings h then granted none else elim credentials [
            | none ↦ granted none
            | some token ↦ elim (get_current_user h (some token)) [
              | granted u ↦ granted (some u)
              | refused e ↦ granted none
            ]
          ]
        ]
