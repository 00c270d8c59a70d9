-- ===== src/Auth/Scim/Suspension.antt =====
-- What a suspended user can still open.
use open_civic.Common.{ℕ, ◌≡◌, String, some, if◌then◌else◌}
use open_civic.Common.Cache.{cache_get}
use open_civic.Common.Table.{Table}
use open_civic.Session.{User}
use open_civic.Auth.ApiKeys.{
  ApiKey, KeyIdentity, found, resolve_api_key_identity, get_cached_api_key_identity,
}
use open_civic.Auth.Scim.{Directory, is_live_key_of, revoke_api_keys_for_user, suspend_user}

revoked_row : ℕ → ℕ → ApiKey → ApiKey
revoked_row now id r = if is_live_key_of id r then record r { revoked_at = some now } else r

-- A key whose identity is in the cache of the gateway opens it until the entry is over, though its
-- owner has been suspended.
pub resolve_api_key_identity-suspend_user :
    (now later h id : ℕ) (u : User) (reason : String) (d : Directory) (i : KeyIdentity)
    → get_cached_api_key_identity later h d.keys ≡ some i
    → (resolve_api_key_identity later h (suspend_user now id u reason d).keys).0 ≡ found i
unfolding suspend_user revoke_api_keys_for_user resolve_api_key_identity get_cached_api_key_identity
resolve_api_key_identity-suspend_user now later h id u reason d i cached =
    let entry : cache_get later h d.keys.identities ≡ some i = cached in
    rw (entry, resolve_api_key_identity, get_cached_api_key_identity)
