-- ===== src/Auth/SessionIndex/Revoked.antt =====
-- A revocation sends every token of the index, and leaves none.
use Prim.Native.String.{String}
use text.Mathlib.TextPositions.{eq_refl}
use open_civic.Common.{
  ℕ, ◌+◌, ◌<◌, ◌≡◌, refl, ap, ◌∙◌, Bool, true, false, ◌||◌, none, some, List, [], ◌∷◌, ◌++◌, length,
  lt→ltb, ==_refl, Bool-cases, Option-cases, inl, inr, arith,
}
use open_civic.Common.Cache.{
  cache_get, cache_delete, cache_get-cache_set_later, cache_get-cache_delete,
}
use open_civic.Auth.SessionIndex.{
  Index, refresh_cookie_max_age_seconds, has_token, tokens_at, with_token,
  register_keycloak_refresh, revoke_keycloak_sessions_for_user,
}

has_token-append :
    (t : String) (xs ys : List String) → has_token t (xs ++ ys) ≡ (has_token t xs || has_token t ys)
unfolding has_token
has_token-append t [] ys = refl
has_token-append t (x ∷ xs) ys = ground (arith, has_token-append t xs ys)

has_token-with_token : (t : String) (ts : List String) → has_token t (with_token t ts) ≡ true
unfolding with_token has_token
has_token-with_token t ts = elim (Bool-cases (has_token t ts)) [
  | inl there ↦ rw (there, with_token) there
  | inr new ↦ rw (new, with_token) (has_token-append t ts (t ∷ []) ∙ rw (new, eq_refl t) refl)
]

kept-with_token :
    (t u : String) (ts : List String) → has_token u ts ≡ true → has_token u (with_token t ts) ≡ true
unfolding with_token
kept-with_token t u ts h = elim (Bool-cases (has_token t ts)) [
  | inl there ↦ rw (there, with_token) h
  | inr new ↦ rw (new, with_token) (has_token-append u ts (t ∷ []) ∙ rw h refl)
]

read_registered :
    (now later user_id : ℕ) (t : String) (s : Index)
    → later < now + refresh_cookie_max_age_seconds
    → cache_get later user_id (register_keycloak_refresh now user_id t s).tokens
      ≡ some (with_token t (tokens_at now user_id s.tokens))
unfolding register_keycloak_refresh
read_registered now later user_id t s soon =
    let ts = with_token t (tokens_at now user_id s.tokens) in
    cache_get-cache_set_later now later user_id user_id refresh_cookie_max_age_seconds ts s.tokens
      (omega arith)
    ∙ rw (==_refl user_id, lt→ltb later (now + refresh_cookie_max_age_seconds) soon) refl

revoked_all :
    (now user_id : ℕ) (s : Index) (ts : List String)
    → cache_get now user_id s.tokens ≡ some ts
    → revoke_keycloak_sessions_for_user now user_id s
      ≡ (length ts, record { tokens = cache_delete user_id s.tokens; sent = s.sent ++ ts })
unfolding revoke_keycloak_sessions_for_user
revoked_all now user_id s ts e = rw (e, revoke_keycloak_sessions_for_user) refl

sent_at_end :
    (u : String) (xs ys : List String) → has_token u ys ≡ true → has_token u (xs ++ ys) ≡ true
sent_at_end u xs ys h = has_token-append u xs ys ∙ or_true (has_token u xs) (has_token u ys) h
  where
    or_true : (a b : Bool) → b ≡ true → (a || b) ≡ true
    or_true true b e = refl
    or_true false b e = e

-- What the index of the user has is sent.
pub revoked_sent :
    (now user_id : ℕ) (u : String) (s : Index)
    → has_token u (tokens_at now user_id s.tokens) ≡ true
    → has_token u (revoke_keycloak_sessions_for_user now user_id s).1.sent ≡ true
unfolding tokens_at has_token
revoked_sent now user_id u s h = elim (Option-cases (cache_get now user_id s.tokens)) [
  | inl missing ↦ cc (rw (missing, tokens_at) at h)
  | inr (ts, there) ↦
      ap (λ p. has_token u p.1.sent) (revoked_all now user_id s ts there)
      ∙ sent_at_end u s.sent ts (rw (there, tokens_at) at h)
]

pub revoked_none_left :
    (now user_id : ℕ) (s : Index)
    → cache_get now user_id (revoke_keycloak_sessions_for_user now user_id s).1.tokens ≡ none
unfolding revoke_keycloak_sessions_for_user
revoked_none_left now user_id s = elim (Option-cases (cache_get now user_id s.tokens)) [
  | inl missing ↦ rw (missing, revoke_keycloak_sessions_for_user) missing
  | inr (ts, there) ↦
      ap (λ p. cache_get now user_id p.1.tokens) (revoked_all now user_id s ts there)
      ∙ cache_get-cache_delete now user_id user_id s.tokens
      ∙ rw (==_refl user_id) refl
]

-- A revocation of a user within a week of a sign-in sends the token of that sign-in and every
-- token that the index of the user had at that time, and no token is left in the index of the
-- user.
pub revoke_keycloak_sessions_for_user-register :
    (now later last user_id : ℕ) (t : String) (s : Index)
    → later < now + refresh_cookie_max_age_seconds
    → (has_token t
          (revoke_keycloak_sessions_for_user later user_id
            (register_keycloak_refresh now user_id t s)).1.sent
        ≡ true)
      × ((u : String)
          → has_token u (tokens_at now user_id s.tokens) ≡ true
          → has_token u
              (revoke_keycloak_sessions_for_user later user_id
                (register_keycloak_refresh now user_id t s)).1.sent
            ≡ true)
      × (cache_get last user_id
            (revoke_keycloak_sessions_for_user later user_id
              (register_keycloak_refresh now user_id t s)).1.tokens
          ≡ none)
unfolding register_keycloak_refresh
revoke_keycloak_sessions_for_user-register now later last user_id t s soon =
    let registered = register_keycloak_refresh now user_id t s in
    let ts = with_token t (tokens_at now user_id s.tokens) in
    let all_sent =
      revoked_all later user_id registered ts (read_registered now later user_id t s soon) in
    (
      ap (λ p. has_token t p.1.sent) all_sent
          ∙ sent_at_end t s.sent ts (has_token-with_token t (tokens_at now user_id s.tokens)),
      λ u h.
          ap (λ p. has_token u p.1.sent) all_sent
          ∙ sent_at_end u s.sent ts (kept-with_token t u (tokens_at now user_id s.tokens) h),
      ap (λ p. cache_get last user_id p.1.tokens) all_sent
          ∙ cache_get-cache_delete last user_id user_id registered.tokens
          ∙ rw (==_refl user_id) refl,
    )
