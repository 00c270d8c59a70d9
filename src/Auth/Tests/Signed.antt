-- ===== src/Auth/Tests/Signed.antt =====
-- A user who signs in twice, signs out once, and is suspended.
use Prim.Native.String.{String}
use open_civic.Common.{◌≡◌, refl, true, none, [], arith}
use open_civic.Common.Cache.{empty, cache_get}
use open_civic.Auth.SessionIndex.{
  Index, has_token, tokens_at, register_keycloak_refresh, unregister_keycloak_refresh,
  revoke_keycloak_sessions_for_user,
}
use open_civic.Auth.SessionIndex.Revoked.{revoke_keycloak_sessions_for_user-register}

abbrev signed_in : Index
signed_in = register_keycloak_refresh 100 7 "a" (record { tokens = empty; sent = [] })

signed_out : cache_get 300 7 (unregister_keycloak_refresh 200 7 "a" signed_in).tokens ≡ none
unfolding cache_get register_keycloak_refresh unregister_keycloak_refresh
signed_out = refl

revoke_keycloak_sessions_for_user-register_example :
    (has_token "b"
        (revoke_keycloak_sessions_for_user 300 7
          (register_keycloak_refresh 200 7 "b" signed_in)).1.sent
      ≡ true)
    × ((u : String)
        → has_token u (tokens_at 200 7 signed_in.tokens) ≡ true
        → has_token u
            (revoke_keycloak_sessions_for_user 300 7
              (register_keycloak_refresh 200 7 "b" signed_in)).1.sent
          ≡ true)
    × (cache_get 400 7
          (revoke_keycloak_sessions_for_user 300 7
            (register_keycloak_refresh 200 7 "b" signed_in)).1.tokens
        ≡ none)
revoke_keycloak_sessions_for_user-register_example =
    revoke_keycloak_sessions_for_user-register 200 300 400 7 "b" signed_in (omega arith)
