-- ===== src/Auth/Refresh.antt =====
-- `RefreshService` of backend/app/services/auth/refresh_service.py. The three prefixes of its keys
-- are three keyspaces; tokens and families are numbers, drawn by the caller where the source calls
-- `secrets`.
pub mod Rotation
pub mod Revocation
use open_civic.Common.{
  ℕ, suc, ◌≡◌, String, Bool, true, false, not, Option, none, some, List, [], ◌∷◌, ◌++◌, ◌==◌,
  if◌then◌else◌, contains, length, holds, get_or,
}
use open_civic.Common.Cache.{Cache, cache_get, cache_set, cache_delete}

-- `RefreshSession`, which is also the stored payload.
pub record RefreshSession : Type 0 where
  pub user_id : ℕ
  pub tenant_id : ℕ
  pub roles : List String
  pub family_id : ℕ

pub record Keys : Type 0 where
  pub sessions : Cache RefreshSession  -- refresh:session:{token}
  pub families : Cache ℕ  -- refresh:family:{family_id}
  pub users : Cache (List ℕ)  -- refresh:user:{user_id}

pub data TokenError : Type 0 where
  invalid_refresh refresh_token_reuse : TokenError

pub data Loaded (A : Type 0) : Type 0 where
  loaded : A → Loaded A
  refused : TokenError → Loaded A

-- The test of the family's active token.
check_active : ℕ → RefreshSession → Option ℕ → Loaded RefreshSession
check_active token r active = if holds active token then loaded r else refused refresh_token_reuse

-- `load_session`
unfoldable pub load_session : ℕ → ℕ → Keys → Loaded RefreshSession
unfolding check_active
load_session now token s = elim (cache_get now token s.sessions) [
  | none ↦ refused invalid_refresh
  | some r ↦ check_active token r (cache_get now r.family_id s.families)
]

module _ (ttl : ℕ) where
  -- `_register_family`
  unfoldable pub register_family : ℕ → ℕ → ℕ → Keys → Keys
  register_family now user_id family_id s =
      let families = get_or (cache_get now user_id s.users) [] in
      if contains families family_id then s else record s {
        users = cache_set now user_id (families ++ (family_id ∷ [])) (some ttl) s.users;
      }

  -- `create_session`, with the drawn token and family.
  unfoldable pub create_session : ℕ → ℕ → RefreshSession → Keys → Keys
  unfolding register_family
  create_session now token r s = register_family now r.user_id r.family_id (record s {
    sessions = cache_set now token r (some ttl) s.sessions;
    families = cache_set now r.family_id token (some ttl) s.families;
  })

  -- `rotate`: the old session is deleted and the new token joins the family.
  unfoldable pub rotate : ℕ → ℕ → ℕ → Keys → Loaded RefreshSession × Keys
  rotate now old_token new_token s = elim (load_session now old_token s) [
    | refused e ↦ (refused e, s)
    | loaded r ↦ (
      loaded r,
      create_session now new_token r (record s { sessions = cache_delete old_token s.sessions }),
    )
  ]

-- `revoke_family`
unfoldable pub revoke_family : ℕ → ℕ → Keys → Keys
revoke_family now family_id s = elim (cache_get now family_id s.families) [
  | none ↦ record s { families = cache_delete family_id s.families }
  | some active ↦ record s {
    sessions = cache_delete active s.sessions;
    families = cache_delete family_id s.families;
  }
]

revoke_families : ℕ → List ℕ → Keys → Keys
revoke_families now [] s = s
revoke_families now (f ∷ fs) s = revoke_families now fs (revoke_family now f s)

-- `revoke_user_sessions`, with the number of families that it revoked.
unfoldable pub revoke_user_sessions : ℕ → ℕ → Keys → ℕ × Keys
unfolding revoke_families
revoke_user_sessions now user_id s = elim (cache_get now user_id s.users) [
  | none ↦ (0, s)
  | some families ↦
      let s' = revoke_families now families s in
      (length families, record s' { users = cache_delete user_id s'.users })
]
