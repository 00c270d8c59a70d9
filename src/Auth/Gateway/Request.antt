-- ===== src/Auth/Gateway/Request.antt =====
-- What backend/app/services/auth/gateway_auth.py reads of a request: its path and its credentials.
use Prim.Native.Char.{code}
use text.Mathlib.Text.{◌==◌ as str_eq, starts_with}
use open_civic.Common.{
  ◌==◌, String, Bool, not, ◌||◌, Option, none, some, [], ◌∷◌, if◌then◌else◌, any,
}
use open_civic.Common.Text.{is_empty, strip, rstrip, partition, upper_is, lower_is}

pub data GatewayAuthMode : Type 0 where
  open_to_all optionally required : GatewayAuthMode

public_exact : String → Bool
public_exact path = any (str_eq path) (
    "/api/v1/health/live" ∷ "/api/v1/health/ready" ∷ "/api/v1/auth/config" ∷ "/api/v1/openapi.json"
    ∷ [])

public_prefix : String → Bool
public_prefix path =
    any (starts_with path)
      ("/api/v1/portal/" ∷ "/api/v1/auth/" ∷ "/api/v1/internal/" ∷ "/api/v1/scim/" ∷ [])

optional_prefix : String → Bool
optional_prefix path =
    any (starts_with path)
      ("/api/v1/datasets" ∷ "/api/v1/search" ∷ "/api/v1/feedback" ∷ "/api/v1/analytics" ∷ [])

or_root : String → String
or_root String.[] = "/"
or_root s = s

-- `classify_gateway_path`; 63 is the code of `?`, 47 of `/`.
unfoldable pub classify_gateway_path : String → String → GatewayAuthMode
unfolding public_exact public_prefix optional_prefix or_root
classify_gateway_path method uri =
    let path = or_root (rstrip (λ c. code c == 47) (partition 63 uri).0) in
    if upper_is method "OPTIONS"
    then open_to_all
    else if public_exact path
    then open_to_all
    else if public_prefix path
    then open_to_all
    else if optional_prefix path
    then optionally
    else required

-- `extract_bearer_token`; 32 is the code of the space.
unfoldable pub extract_bearer_token : Option String → Option String
extract_bearer_token none = none
extract_bearer_token (some authorization) =
    let parts = partition 32 authorization in
    if not (lower_is parts.0 "bearer") || is_empty parts.1 then none else some (strip parts.1)

key_of_token : Option String → Option String
key_of_token none = none
key_of_token (some token) = if starts_with token "oc_" then some token else none

-- `extract_api_key`
unfoldable pub extract_api_key : Option String → Option String → Option String
unfolding key_of_token
extract_api_key authorization none = key_of_token (extract_bearer_token authorization)
extract_api_key authorization (some x) =
    if starts_with x "oc_"
    then some (strip x)
    else key_of_token (extract_bearer_token authorization)
