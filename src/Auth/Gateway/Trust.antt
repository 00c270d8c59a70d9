-- ===== src/Auth/Gateway/Trust.antt =====
-- What the services believe of a request that the gateway let pass.
use text.Mathlib.TextPositions.{eq_refl}
use open_civic.Common.{
  ℕ, ◌≡◌, refl, String, true, false, not, inl, inr, Option, none, some, List, [], ◌∷◌, map, filter,
  All, Bool-cases,
}
use open_civic.Common.Text.{is_empty, is_word, strip, split, join, split-join, strip-word}
use open_civic.Auth.Users.{
  Settings, UuidText, Headers, Auth, granted, refused, authentication_required, invalid_token,
  Claims, get_current_user_optional, parse_uuid, is_trusted, parse_roles, user_from_gateway_headers,
}
use open_civic.Auth.Gateway.{
  GatewayIdentity, build_gateway_trust_headers, classify_gateway_path, required, Answer,
  or_anonymous, no_headers, resolve_gateway_identity, evaluate_gateway_auth, answer,
  after_resolution,
}
use open_civic.Common.Table.{Table}
use open_civic.Session.{User}
use open_civic.Auth.ApiKeys.{KeyStore}
use open_civic.Auth.RateLimit

-- What `str(uuid)` and `uuid.UUID` promise.
pub record IsLawful (uuid : UuidText) : Type 0 where
  pub parse-show : (n : ℕ) → uuid.parse (uuid.show n) ≡ some n
  pub show_filled : (n : ℕ) → is_empty (uuid.show n) ≡ false

-- A role that has a name and neither a space nor a comma in it.
abbrev pub IsRole : String → Type 0
IsRole r = (is_word r ≡ true) × (is_empty r ≡ false)

kept : (rs : List String) → All IsRole rs → filter (λ r. not (is_empty r)) (map strip rs) ≡ rs
kept [] h = refl
kept (r ∷ rs) h = rw (strip-word r h.0.0, h.0.1, kept rs h.1) refl

words : (rs : List String) → All IsRole rs → All (λ r. is_word r ≡ true) rs
words [] h = tt
words (r ∷ rs) h = (h.0.0, words rs h.1)

parse_roles-join : (rs : List String) → All IsRole rs → parse_roles (join rs) ≡ rs
unfolding parse_roles join split strip
parse_roles-join [] h = refl
parse_roles-join (r ∷ rs) h = rw (split-join r rs (words (r ∷ rs) h)) (kept (r ∷ rs) h)

module _ (uuid : UuidText) (settings : Settings) (law : IsLawful uuid)
    (edge : settings.edge_auth_enabled ≡ true)
    (secret : is_empty settings.gateway_auth_secret ≡ false) where
  headers_of : GatewayIdentity → Headers
  headers_of i = record {
    trust = some settings.gateway_auth_secret;
    user = some (uuid.show i.user_id);
    tenant = some (uuid.show i.tenant_id);
    roles = some (join i.roles);
    auth_type = some i.auth_type;
    api_key_id = elim i.api_key_id [ none ↦ none | some k ↦ some (uuid.show k) ];
  }

  build-some :
      (i : GatewayIdentity) → build_gateway_trust_headers uuid settings (some i) ≡ headers_of i
  unfolding build_gateway_trust_headers headers_of
  build-some i = rw (secret, build_gateway_trust_headers)

  read :
      (i : GatewayIdentity)
      → All IsRole i.roles
      → user_from_gateway_headers uuid settings (headers_of i)
        ≡ granted (some (record { user_id = i.user_id; tenant_id = i.tenant_id; roles = i.roles }))
  unfolding user_from_gateway_headers is_trusted headers_of parse_uuid
  read i h = rw (
    edge,
    secret,
    eq_refl settings.gateway_auth_secret,
    law.show_filled i.user_id,
    law.show_filled i.tenant_id,
    headers_of,
    parse_uuid,
    law.parse-show i.user_id,
    law.parse-show i.tenant_id,
    parse_roles-join i.roles h,
  )

  -- Where the edge is on, its secret is not empty and the text form of identifiers can be read
  -- back, a service reads from the headers of the gateway the user, the tenant and the roles that
  -- the gateway wrote, for roles that are words.
  pub user_from_gateway_headers-build :
      (i : GatewayIdentity)
      → All IsRole i.roles
      → user_from_gateway_headers uuid settings (build_gateway_trust_headers uuid settings (some i))
        ≡ granted (some (record { user_id = i.user_id; tenant_id = i.tenant_id; roles = i.roles }))
  user_from_gateway_headers-build i h = rw (build-some i) (read i h)

  anonymous : Headers
  anonymous = record no_headers { trust = some settings.gateway_auth_secret }

  build-none : build_gateway_trust_headers uuid settings none ≡ anonymous
  unfolding build_gateway_trust_headers anonymous
  build-none = rw (secret, build_gateway_trust_headers)

  read_anonymous : user_from_gateway_headers uuid settings anonymous ≡ granted none
  unfolding user_from_gateway_headers is_trusted anonymous is_empty
  read_anonymous = rw (edge, secret, eq_refl settings.gateway_auth_secret)

  trusted_anonymous : is_trusted settings anonymous ≡ true
  unfolding is_trusted anonymous
  trusted_anonymous = rw (edge, secret, eq_refl settings.gateway_auth_secret)

  optional_anonymous :
      (users : ℕ → Table User) (validate_token : String → Auth Claims) (credentials : Option String)
      → get_current_user_optional uuid settings users validate_token anonymous credentials
        ≡ granted none
  unfolding get_current_user_optional
  optional_anonymous users validate_token credentials =
      rw (read_anonymous, trusted_anonymous, get_current_user_optional)

  -- The headers of an anonymous request name nobody, and no token is looked at in their place,
  -- where the edge is on and its secret is not empty.
  pub get_current_user_optional-build :
      (users : ℕ → Table User) (validate_token : String → Auth Claims) (credentials : Option String)
      → get_current_user_optional uuid settings users validate_token
          (build_gateway_trust_headers uuid settings none)
          credentials
        ≡ granted none
  get_current_user_optional-build users validate_token credentials =
      rw build-none (optional_anonymous users validate_token credentials)

abbrev refusal : Answer
refusal = record { status = 401; headers = no_headers; rate_limit = none }

abbrev pub Result : Type 0
Result = Auth Answer × KeyStore × Option RateLimit.Store

-- What a protected path answers, by what the credentials stand for.
abbrev pub IsGuarded :
    UuidText → Settings → Option RateLimit.Store → Result → Auth (Option GatewayIdentity) → Type 0
IsGuarded uuid settings limits out (granted (some i)) =
    (a : Answer) × (out.0 ≡ granted a)
    × (a.headers ≡ build_gateway_trust_headers uuid settings (some i))
IsGuarded uuid settings limits out (granted none) = (out.0 ≡ granted refusal) × (out.2 ≡ limits)
IsGuarded uuid settings limits out (refused authentication_required) =
    (out.0 ≡ granted refusal) × (out.2 ≡ limits)
IsGuarded uuid settings limits out (refused invalid_token) =
    (out.0 ≡ granted refusal) × (out.2 ≡ limits)
IsGuarded uuid settings limits out (refused e) = out.0 ≡ refused e

module _ (uuid : UuidText) (settings : Settings) (digest : String → ℕ) (default_limit : ℕ) where
  answer_headers :
      (now : ℕ) (fingerprint : Option String) (i : GatewayIdentity)
      (limits : Option RateLimit.Store)
      → (answer uuid settings digest default_limit now required fingerprint
          (some i)
          limits).0.headers
        ≡ build_gateway_trust_headers uuid settings (some i)
  unfolding answer
  answer_headers now fingerprint i limits = elim (Bool-cases settings.gateway_rate_limit_enabled) [
    | inl on ↦ rw (on, answer)
    | inr off ↦ rw (off, answer)
  ]

  no_answer :
      (now : ℕ) (fingerprint : Option String) (limits : Option RateLimit.Store)
      → let (a, limits') =
          answer uuid settings digest default_limit now required fingerprint none limits in
        (granted a ≡ granted refusal) × (limits' ≡ limits)
  unfolding answer
  no_answer now fingerprint limits = (refl, refl)

  after_resolution-IsGuarded :
      (now : ℕ) (fingerprint : Option String) (keys : KeyStore) (limits : Option RateLimit.Store)
      (r : Auth (Option GatewayIdentity))
      → IsGuarded uuid settings limits
          (after_resolution uuid settings digest default_limit now required fingerprint r keys
            limits)
          r
  unfolding after_resolution or_anonymous
  after_resolution-IsGuarded now fingerprint keys limits (granted (some i)) = (
    (answer uuid settings digest default_limit now required fingerprint (some i) limits).0,
    refl,
    answer_headers now fingerprint i limits,
  )
  after_resolution-IsGuarded now fingerprint keys limits (granted none) =
      no_answer now fingerprint limits
  after_resolution-IsGuarded now fingerprint keys limits (refused authentication_required) =
      no_answer now fingerprint limits
  after_resolution-IsGuarded now fingerprint keys limits (refused invalid_token) =
      no_answer now fingerprint limits
  after_resolution-IsGuarded now fingerprint keys limits (refused e) = refl

  module _ (users : ℕ → Table User) (validate_token : String → Auth Claims) where
    -- On a protected path the gateway lets a request pass only with the headers of the identity
    -- that its key or its token stands for; a request without one gets 401 and no header, and
    -- counts nothing; any other exception of the lookup is not caught.
    pub evaluate_gateway_auth-IsGuarded :
        (now : ℕ) (method uri : String) (authorization x_api_key fingerprint : Option String)
        (keys : KeyStore) (limits : Option RateLimit.Store)
        → classify_gateway_path method uri ≡ required
        → IsGuarded uuid settings limits
            (evaluate_gateway_auth uuid settings digest default_limit users validate_token now
              method uri authorization x_api_key fingerprint keys limits)
            (resolve_gateway_identity uuid settings digest default_limit users validate_token now
              authorization x_api_key keys).0
    unfolding evaluate_gateway_auth
    evaluate_gateway_auth-IsGuarded now method uri authorization x_api_key fingerprint keys limits
          protected =
        let (r, keys') =
          resolve_gateway_identity uuid settings digest default_limit users validate_token now
            authorization x_api_key keys in
        rw (protected, evaluate_gateway_auth)
          (after_resolution-IsGuarded now fingerprint keys' limits r)
