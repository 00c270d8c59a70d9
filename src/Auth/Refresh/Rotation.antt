-- ===== src/Auth/Refresh/Rotation.antt =====
-- What a refresh token is good for after each operation.
use open_civic.Common.{
  ℕ, ◌+◌, ◌<◌, ◌≡◌, ◌≢◌, refl, Bool, true, false, Option, none, some, List, arith, ◌==◌,
  if◌then◌else◌, ltb, ==_refl, ne→==, lt→ltb, inl, inr, Option-cases, Bool-cases, holds,
}
use open_civic.Common.Cache.{
  Cache, cache_get, cache_set, cache_delete, cache_get-cache_set, cache_get-cache_delete,
  cache_get-cache_set_later,
}
use open_civic.Auth.Refresh.{
  RefreshSession, Keys, loaded, refused, invalid_refresh, register_family, create_session,
  load_session, rotate,
}

pub ruleset cache_laws = (arith, cache_get-cache_set, cache_get-cache_delete)

module _ (ttl : ℕ) where
  register_family-sessions :
      (now u f : ℕ) (s : Keys) → (register_family ttl now u f s).sessions ≡ s.sessions
  unfolding register_family
  register_family-sessions now u f s = ground arith

  register_family-families :
      (now u f : ℕ) (s : Keys) → (register_family ttl now u f s).families ≡ s.families
  unfolding register_family
  register_family-families now u f s = ground arith

  module _ (now later token j : ℕ) (r : RefreshSession) (s : Keys) (pos : 0 < ttl) where
    pub create_session-sessions : cache_get later j (create_session ttl now token r s).sessions ≡ (
        if j == token
        then (if ltb later (now + ttl) then some r else none)
        else cache_get later j s.sessions)
    unfolding create_session
    create_session-sessions =
        rw register_family-sessions
          (cache_get-cache_set_later now later token j ttl r s.sessions pos)

    pub create_session-families : cache_get later j (create_session ttl now token r s).families ≡ (
        if j == r.family_id
        then (if ltb later (now + ttl) then some token else none)
        else cache_get later j s.families)
    unfolding create_session
    create_session-families =
        rw register_family-families
          (cache_get-cache_set_later now later r.family_id j ttl token s.families pos)

  -- A new token loads the session that it was created for, until its time to live is over.
  pub load_session-create_session :
      (now later token : ℕ) (r : RefreshSession) (s : Keys)
      → 0 < ttl
      → later < now + ttl
      → load_session later token (create_session ttl now token r s) ≡ loaded r
  unfolding load_session
  load_session-create_session now later token r s pos soon =
      rw
        (
          create_session-sessions now later token token r s pos,
          ==_refl token,
          lt→ltb later (now + ttl) soon,
          load_session,
        )
        (rw
          (
            create_session-families now later token r.family_id r s pos,
            ==_refl r.family_id,
            lt→ltb later (now + ttl) soon,
          )
          (ground arith))

  pub rotate_inv :
      (now old new : ℕ) (s s' : Keys) (r : RefreshSession)
      → rotate ttl now old new s ≡ (loaded r, s')
      → (load_session now old s ≡ loaded r)
        × (s' ≡ create_session ttl now new r (record s { sessions = cache_delete old s.sessions }))
  unfolding rotate
  rotate_inv now old new s s' r e = ground arith

  old_gone :
      (now later old new : ℕ) (r : RefreshSession) (s : Keys)
      → 0 < ttl
      → old ≢ new
      → load_session later old
          (create_session ttl now new r (record s { sessions = cache_delete old s.sessions }))
        ≡ refused invalid_refresh
  unfolding load_session
  old_gone now later old new r s pos apart =
      let s0 = record s { sessions = cache_delete old s.sessions } in
      rw (
        create_session-sessions now later new old r s0 pos,
        ne→== old new apart,
        cache_get-cache_delete later old old s.sessions,
        ==_refl old,
        load_session,
      )

  -- A rotation that goes through hands the identity to the new token for its time to live, and the
  -- old token, where it is another, is refused in that time.
  pub rotate_lem :
      (now later old new : ℕ) (s s' : Keys) (r : RefreshSession)
      → 0 < ttl
      → old ≢ new
      → later < now + ttl
      → rotate ttl now old new s ≡ (loaded r, s')
      → (load_session now old s ≡ loaded r)
        × (load_session later new s' ≡ loaded r)
        × (load_session later old s' ≡ refused invalid_refresh)
  rotate_lem now later old new s s' r pos apart soon e =
      let (was, made) = rotate_inv now old new s s' r e in
      let s0 = record s { sessions = cache_delete old s.sessions } in
      (
        was,
        rw made (load_session-create_session now later new r s0 pos soon),
        rw made (old_gone now later old new r s pos apart),
      )

pub load_session-active :
    (now a : ℕ) (s : Keys) (r : RefreshSession)
    → load_session now a s ≡ loaded r
    → cache_get now r.family_id s.families ≡ some a
unfolding load_session
load_session-active now a s r e = ground arith

-- Two tokens that load at one time in one family are the same.
pub load_session_unique :
    (now a b : ℕ) (s : Keys) (r q : RefreshSession)
    → load_session now a s ≡ loaded r
    → load_session now b s ≡ loaded q
    → r.family_id ≡ q.family_id
    → a ≡ b
load_session_unique now a b s r q e f same =
    let x = load_session-active now a s r e in
    let y = load_session-active now b s q f in ground arith
