-- ===== src/Auth/SessionIndex.antt =====
-- backend/app/services/auth/keycloak_session_index.py. The keyspace `keycloak:refresh:user:` holds
-- lists of tokens; the JSON of a list is the list, and is never empty text. What is sent to the
-- identity provider is kept in order: the client swallows its failures.
pub mod Revoked
use text.Mathlib.Text.{◌==◌ as str_eq}
use open_civic.Common.{
  ℕ, String, Bool, true, false, ◌||◌, Option, none, some, List, [], ◌∷◌, ◌++◌, length,
  if◌then◌else◌,
}
use open_civic.Common.Cache.{Cache, cache_get, cache_set, cache_delete}

pub record Index : Type 0 where
  pub tokens : Cache (List String)
  pub sent : List String

abbrev pub refresh_cookie_max_age_seconds : ℕ
refresh_cookie_max_age_seconds = 604800

-- `refresh_token in tokens`
unfoldable pub has_token : String → List String → Bool
has_token token [] = false
has_token token (x ∷ xs) = str_eq x token || has_token token xs

-- `tokens.remove(token)`: the first that is equal.
unfoldable pub remove_token : String → List String → List String
remove_token token [] = []
remove_token token (x ∷ xs) =
    let rest = remove_token token xs in if str_eq x token then xs else x ∷ rest

-- `json.loads(raw) if raw else []`
unfoldable pub tokens_at : ℕ → ℕ → Cache (List String) → List String
unfolding cache_get
tokens_at now user_id c = elim (cache_get now user_id c) [ none ↦ [] | some ts ↦ ts ]

unfoldable pub with_token : String → List String → List String
unfolding has_token
with_token token ts = if has_token token ts then ts else ts ++ token ∷ []

unfoldable pub register_keycloak_refresh : ℕ → ℕ → String → Index → Index
unfolding tokens_at with_token cache_set
register_keycloak_refresh now user_id refresh_token s = record s {
  tokens =
      cache_set now user_id (with_token refresh_token (tokens_at now user_id s.tokens))
        (some refresh_cookie_max_age_seconds) s.tokens;
}

-- The list without the token is written back, and an empty one is deleted.
unfoldable pub write_back : ℕ → ℕ → List String → Cache (List String) → Cache (List String)
unfolding cache_set cache_delete
write_back now user_id [] c = cache_delete user_id c
write_back now user_id (t ∷ ts) c =
    cache_set now user_id (t ∷ ts) (some refresh_cookie_max_age_seconds) c

unfoldable pub unregister_keycloak_refresh : ℕ → ℕ → String → Index → Index
unfolding cache_get has_token remove_token write_back
unregister_keycloak_refresh now user_id refresh_token s = elim (cache_get now user_id s.tokens) [
  | none ↦ s
  | some ts ↦
      if has_token refresh_token ts
      then record s { tokens = write_back now user_id (remove_token refresh_token ts) s.tokens }
      else s
]

-- How many tokens were sent, and the index.
unfoldable pub revoke_keycloak_sessions_for_user : ℕ → ℕ → Index → ℕ × Index
unfolding cache_get cache_delete
revoke_keycloak_sessions_for_user now user_id s = elim (cache_get now user_id s.tokens) [
  | none ↦ (0, s)
  | some ts ↦ (length ts, record { tokens = cache_delete user_id s.tokens; sent = s.sent ++ ts })
]
