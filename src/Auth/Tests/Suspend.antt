-- ===== src/Auth/Tests/Suspend.antt =====
-- A user with a session and a key is suspended.
use open_civic.Common.{ℕ, ◌≡◌, refl, true, none, some, [], ◌∷◌}
use open_civic.Common.Cache.{empty, cache_get, cache_set}
use open_civic.Session.{User, active}
use open_civic.Auth.ApiKeys.{
  KeyIdentity, KeyStore, found, resolve_api_key_identity, get_cached_api_key_identity,
}
use open_civic.Auth.Refresh.{RefreshSession, Keys, create_session}
use open_civic.Auth.SessionIndex.{Index, register_keycloak_refresh}
use open_civic.Auth.Scim.{Directory, suspend_user}
use open_civic.Auth.Scim.Suspension.{resolve_api_key_identity-suspend_user}

abbrev analyst : User
analyst = record {
  email = "a@b";
  name = "A";
  roles = "developer" ∷ [];
  status = active;
  mfa_enabled = true;
  scim_external_id = none;
  created_at = 1;
  deleted_at = none;
}

abbrev session_of : ℕ → ℕ → RefreshSession
session_of user family = record {
  user_id = user;
  tenant_id = 3;
  roles = "developer" ∷ [];
  family_id = family;
}

sessions : Keys
sessions = create_session 100 0 8 (session_of 6 4) (
    create_session 100 0 1 (session_of 5 9)
      (record { sessions = empty; families = empty; users = empty }))

abbrev cached : KeyIdentity
cached = record {
  user_id = 5;
  tenant_id = 3;
  roles = "developer" ∷ [];
  api_key_id = 40;
  rate_limit_per_min = none;
}

abbrev keys : KeyStore
keys = record {
  keys =
      (
        40,
        record {
          tenant_id = 3;
          name = "ci";
          key_hash = 77;
          scopes = "read" ∷ [];
          owner_id = 5;
          rate_limit_override = none;
          last_used_at = none;
          expires_at = none;
          revoked_at = none;
          created_at = 1;
        },
      )
      ∷ [];
  users = λ t. (5, analyst) ∷ [];
  identities = cache_set 0 77 cached (some 300) empty;
}

abbrev index : Index
index = register_keycloak_refresh 20 5 "kc" (record { tokens = empty; sent = [] })

directory : Directory
unfolding sessions
directory = record {
  users = (5, analyst) ∷ [];
  events = [];
  keys = keys;
  sessions = sessions;
  index = index;
}

resolve_api_key_identity-suspend_user_example :
    (resolve_api_key_identity 100 77 (suspend_user 40 5 analyst "left" directory).keys).0
    ≡ found cached
unfolding directory get_cached_api_key_identity cache_get cache_set
resolve_api_key_identity-suspend_user_example =
    resolve_api_key_identity-suspend_user 40 100 77 5 analyst "left" directory cached refl
