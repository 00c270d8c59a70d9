-- ===== src/Auth/ApiKeys.antt =====
-- API keys: backend/app/repositories/api_key_repository.py, backend/app/services/auth/api_key_cache.py
-- and `_resolve_api_key_identity` of backend/app/services/auth/gateway_auth.py. A key is known by the
-- number of its SHA-256 digest; the drawn key material is an argument.
pub mod Lifecycle
use text.Mathlib.Text.{◌==◌ as str_eq}
use open_civic.Common.{
  ℕ, ◌+◌, ◌-◌, ◌≡◌, String, Bool, true, false, not, ◌&&◌, ◌||◌, Option, none, some, List, [], ◌∷◌,
  ltb, leb, ◌==◌, if◌then◌else◌, all, is_some,
}
use open_civic.Common.Cache.{Cache, cache_get, cache_set, cache_delete}
use open_civic.Common.Table.{Table, find, insert, update, select}
use open_civic.Common.Order.{order_by}
use open_civic.Session.{User}

-- `ApiKey`
pub record ApiKey : Type 0 where
  pub tenant_id : ℕ
  pub name : String
  pub key_hash : ℕ
  pub scopes : List String
  pub owner_id : ℕ
  pub rate_limit_override : Option ℕ
  pub last_used_at : Option ℕ
  pub expires_at : Option ℕ
  pub revoked_at : Option ℕ
  pub created_at : ℕ

-- `CachedApiKeyIdentity`, and the gateway's identity of an API key.
pub record KeyIdentity : Type 0 where
  pub user_id : ℕ
  pub tenant_id : ℕ
  pub roles : List String
  pub api_key_id : ℕ
  pub rate_limit_per_min : Option ℕ

pub record KeyStore : Type 0 where
  pub keys : Table ApiKey
  pub users : ℕ → Table User  -- what each tenant's session sees
  pub identities : Cache KeyIdentity  -- apikey:identity:{hash}

pub data KeyError : Type 0 where
  invalid_key key_expired owner_not_found key_not_found invalid_scopes : KeyError

pub data Answer (A : Type 0) : Type 0 where
  found : A → Answer A
  denied : KeyError → Answer A

abbrev pub cache_ttl_seconds : ℕ
cache_ttl_seconds = 300

-- `is_cache_fresh`: whether the last use is so old that it is recorded again.
unfoldable pub is_cache_fresh : ℕ → Option ℕ → Bool
is_cache_fresh now none = true
is_cache_fresh now (some t) = ltb 30 (now - t)

-- `select(ApiKey).where(ApiKey.key_hash == key_hash)`
unfoldable pub find_by_hash : ℕ → Table ApiKey → Option (ℕ × ApiKey)
find_by_hash h [] = none
find_by_hash h ((k, r) ∷ t) = if r.key_hash == h then some (k, r) else find_by_hash h t

unfoldable pub expired : ℕ → Option ℕ → Bool
expired now none = false
expired now (some t) = ltb t now

-- `get_cached_api_key_identity`
unfoldable pub get_cached_api_key_identity : ℕ → ℕ → KeyStore → Option KeyIdentity
get_cached_api_key_identity now h s = cache_get now h s.identities

-- `set_cached_api_key_identity`
unfoldable pub set_cached_api_key_identity : ℕ → ℕ → KeyIdentity → KeyStore → KeyStore
set_cached_api_key_identity now h i s = record s {
  identities = cache_set now h i (some cache_ttl_seconds) s.identities;
}

-- `invalidate_api_key_cache`
unfoldable pub invalidate_api_key_cache : ℕ → KeyStore → KeyStore
invalidate_api_key_cache h s = record s { identities = cache_delete h s.identities }

unfoldable pub identity_of : ℕ → ApiKey → User → KeyIdentity
identity_of k r owner = record {
  user_id = r.owner_id;
  tenant_id = r.tenant_id;
  roles = owner.roles;
  api_key_id = k;
  rate_limit_per_min = r.rate_limit_override;
}

unfoldable pub touch : ℕ → ℕ → ApiKey → KeyStore → KeyStore
touch now k r s =
    if is_cache_fresh now r.last_used_at
    then record s { keys = update k (λ r'. record r' { last_used_at = some now }) s.keys }
    else s

-- What is done with the row of a key that is not in the cache.
unfoldable pub check_key : ℕ → ℕ → ℕ × ApiKey → KeyStore → Answer KeyIdentity × KeyStore
unfolding expired identity_of touch
check_key now h (k, r) s =
    if is_some r.revoked_at
    then (denied invalid_key, s)
    else if expired now r.expires_at
    then (denied key_expired, s)
    else elim (find r.owner_id (s.users r.tenant_id)) [
      | none ↦ (denied owner_not_found, s)
      | some owner ↦ (
        found (identity_of k r owner),
        set_cached_api_key_identity now h (identity_of k r owner) (touch now k r s),
      )
    ]

-- `_resolve_api_key_identity`
unfoldable pub resolve_api_key_identity : ℕ → ℕ → KeyStore → Answer KeyIdentity × KeyStore
resolve_api_key_identity now h s = elim (get_cached_api_key_identity now h s) [
  | some i ↦ (found i, s)
  | none ↦ elim (find_by_hash h s.keys) [
    | none ↦ (denied invalid_key, s)
    | some row ↦ check_key now h row s
  ]
]

unfoldable pub allowed_scope : String → Bool
allowed_scope scope = str_eq scope "read" || str_eq scope "write" || str_eq scope "admin"

or_read : List String → List String
or_read [] = "read" ∷ []
or_read (x ∷ xs) = x ∷ xs

-- `list_for_owner`: the newest first.
unfoldable pub list_for_owner : ℕ → KeyStore → Table ApiKey
list_for_owner owner_id s =
    order_by (λ (i, x) (j, y). leb y.created_at x.created_at)
      (select (λ k r. r.owner_id == owner_id) s.keys)

-- `get_for_owner`
unfoldable pub get_for_owner : ℕ → ℕ → KeyStore → Answer ApiKey
get_for_owner key_id owner_id s = elim (find key_id s.keys) [
  | none ↦ denied key_not_found
  | some r ↦ if r.owner_id == owner_id then found r else denied key_not_found
]

-- `create`, with the digest of the drawn key.
unfoldable pub create_key :
    ℕ → ℕ → ℕ → ℕ → ℕ → String → List String → Option ℕ → KeyStore → Answer ApiKey × KeyStore
unfolding allowed_scope or_read
create_key now key_id key_hash tenant_id owner_id name scopes expires_at s =
    if not (all allowed_scope scopes)
    then (denied invalid_scopes, s)
    else (let r : ApiKey = record {
      tenant_id = tenant_id;
      name = name;
      key_hash = key_hash;
      scopes = or_read scopes;
      owner_id = owner_id;
      rate_limit_override = none;
      last_used_at = none;
      expires_at = expires_at;
      revoked_at = none;
      created_at = now;
    } in
        (found r, record s { keys = insert key_id r s.keys }))

-- `revoke`
unfoldable pub revoke : ℕ → ℕ → ℕ → KeyStore → Answer ApiKey × KeyStore
revoke now key_id owner_id s = elim (get_for_owner key_id owner_id s) [
  | denied e ↦ (denied e, s)
  | found r ↦ if is_some r.revoked_at then (found r, s) else (
    found (record r { revoked_at = some now }),
    invalidate_api_key_cache r.key_hash
        (record s { keys = update key_id (λ r'. record r' { revoked_at = some now }) s.keys }),
  )
]
