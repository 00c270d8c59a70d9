-- ===== src/Auth/ApiKeys/Lifecycle.antt =====
-- What a key opens from its creation to its revocation.
use open_civic.Common.{
  ℕ, ◌+◌, ◌<◌, ◌≡◌, refl, ap, ◌∙◌, String, true, false, Option, none, some, List, [], ◌∷◌, ◌==◌,
  ==_refl, lt→ltb, if◌then◌else◌, all, is_some, arith,
}
use open_civic.Common.Cache.{cache_get, cache_get-cache_set_later, cache_get-cache_delete}
use open_civic.Common.Table.{Table, find, insert, update}
use open_civic.Session.{User}
use open_civic.Auth.ApiKeys.{
  ApiKey, KeyIdentity, KeyStore, found, denied, invalid_key, is_cache_fresh, find_by_hash,
  get_cached_api_key_identity, set_cached_api_key_identity, invalidate_api_key_cache, check_key,
  resolve_api_key_identity, get_for_owner, create_key, revoke, identity_of, expired, touch,
  allowed_scope, or_read,
}

-- Where a row is found by its digest, an update of that row is found too.
find_by_hash-update :
    (h k now : ℕ) (r : ApiKey) (t : Table ApiKey)
    → find_by_hash h t ≡ some (k, r)
    → find_by_hash h (update k (λ r'. record r' { revoked_at = some now }) t)
      ≡ some (k, record r { revoked_at = some now })
unfolding find_by_hash update
find_by_hash-update h k now r [] e = cc
find_by_hash-update h k now r ((j, r') ∷ t) e = ground (arith, find_by_hash-update h k now r t)

check_key_revoked :
    (now h k : ℕ) (r : ApiKey) (s : KeyStore)
    → is_some r.revoked_at ≡ true
    → check_key now h (k, r) s ≡ (denied invalid_key, s)
unfolding check_key
check_key_revoked now h k r s e = rw (e, check_key)

check_key_found :
    (now h k : ℕ) (r : ApiKey) (owner : User) (s : KeyStore)
    → is_some r.revoked_at ≡ false
    → expired now r.expires_at ≡ false
    → find r.owner_id (s.users r.tenant_id) ≡ some owner
    → check_key now h (k, r) s ≡ (
      found (identity_of k r owner),
      set_cached_api_key_identity now h (identity_of k r owner) (touch now k r s),
    )
unfolding check_key
check_key_found now h k r owner s live valid owned = rw (live, valid, owned, check_key)

-- The store after the key `k` of a digest is revoked.
closed : ℕ → ℕ → ℕ → KeyStore → KeyStore
closed now k h s =
    invalidate_api_key_cache h
      (record s { keys = update k (λ r'. record r' { revoked_at = some now }) s.keys })

revoke_live :
    (now k owner_id : ℕ) (r : ApiKey) (s : KeyStore)
    → find k s.keys ≡ some r
    → r.owner_id ≡ owner_id
    → is_some r.revoked_at ≡ false
    → revoke now k owner_id s
      ≡ (found (record r { revoked_at = some now }), closed now k r.key_hash s)
unfolding revoke get_for_owner closed
revoke_live now k owner_id r s there own live =
    let same : (r.owner_id == owner_id) ≡ true = ground arith in
    rw (there, same, live, get_for_owner, revoke)

not_cached :
    (now later k h : ℕ) (s : KeyStore)
    → get_cached_api_key_identity later h (closed now k h s) ≡ none
unfolding closed invalidate_api_key_cache get_cached_api_key_identity
not_cached now later k h s = rw (cache_get-cache_delete later h h s.identities, ==_refl h)

resolve_api_key_identity-closed :
    (now later k : ℕ) (r : ApiKey) (s : KeyStore)
    → find_by_hash r.key_hash s.keys ≡ some (k, r)
    → resolve_api_key_identity later r.key_hash (closed now k r.key_hash s)
      ≡ (denied invalid_key, closed now k r.key_hash s)
unfolding resolve_api_key_identity closed invalidate_api_key_cache
resolve_api_key_identity-closed now later k r s by_hash =
    let r' : ApiKey = record r { revoked_at = some now } in
    rw (
      not_cached now later k r.key_hash s,
      resolve_api_key_identity,
      find_by_hash-update r.key_hash k now r s.keys by_hash,
      check_key_revoked later r.key_hash k r' (closed now k r.key_hash s) refl,
    )

-- A live key that its owner revokes opens nothing from then on, at any later time.
pub resolve_api_key_identity-revoke :
    (now later k owner_id : ℕ) (r : ApiKey) (s : KeyStore)
    → find k s.keys ≡ some r
    → find_by_hash r.key_hash s.keys ≡ some (k, r)
    → r.owner_id ≡ owner_id
    → is_some r.revoked_at ≡ false
    → (resolve_api_key_identity later r.key_hash (revoke now k owner_id s).1).0 ≡ denied invalid_key
resolve_api_key_identity-revoke now later k owner_id r s there by_hash own live = rw (
  revoke_live now k owner_id r s there own live,
  resolve_api_key_identity-closed now later k r s by_hash,
)

touch_identities :
    (now k : ℕ) (r : ApiKey) (s : KeyStore) → (touch now k r s).identities ≡ s.identities
unfolding touch
touch_identities now k r s =
    elim (is_cache_fresh now r.last_used_at)
      as (λ b.
        (if b
          then record s { keys = update k (λ r'. record r' { last_used_at = some now }) s.keys }
          else s).identities
        ≡ s.identities) [ true ↦ refl | false ↦ refl ]

cached_later :
    (now later h k : ℕ) (r : ApiKey) (i : KeyIdentity) (keys : Table ApiKey) (s : KeyStore)
    → later < now + 300
    → get_cached_api_key_identity later h
        (record (set_cached_api_key_identity now h i (touch now k r s)) { keys = keys })
      ≡ some i
unfolding get_cached_api_key_identity set_cached_api_key_identity
cached_later now later h k r i keys s soon = rw (
  cache_get-cache_set_later now later h h 300 i (touch now k r s).identities (omega arith),
  ==_refl h,
  lt→ltb later (now + 300) soon,
)

-- A key that opened an identity opens the same again until its cached identity is over, whatever
-- has become of the table of keys, its expiry included.
pub resolve_api_key_identity-again :
    (now later h k : ℕ) (r : ApiKey) (owner : User) (keys : Table ApiKey) (s : KeyStore)
    → get_cached_api_key_identity now h s ≡ none
    → find_by_hash h s.keys ≡ some (k, r)
    → is_some r.revoked_at ≡ false
    → expired now r.expires_at ≡ false
    → find r.owner_id (s.users r.tenant_id) ≡ some owner
    → later < now + 300
    → (i : KeyIdentity) × (s' : KeyStore) × (resolve_api_key_identity now h s ≡ (found i, s'))
      × (resolve_api_key_identity later h (record s' { keys = keys })
          ≡ (found i, record s' { keys = keys }))
unfolding resolve_api_key_identity
resolve_api_key_identity-again now later h k r owner keys s fresh by_hash live valid owned soon =
    let i = identity_of k r owner in
    let s' = set_cached_api_key_identity now h i (touch now k r s) in
    let opens = check_key_found now h k r owner s live valid owned in
    (
      i,
      s',
      rw (fresh, by_hash, opens, resolve_api_key_identity),
      rw (cached_later now later h k r i keys s soon, resolve_api_key_identity),
    )

resolve_inserted :
    (later k : ℕ) (r : ApiKey) (owner : User) (s : KeyStore)
    → get_cached_api_key_identity later r.key_hash s ≡ none
    → is_some r.revoked_at ≡ false
    → expired later r.expires_at ≡ false
    → find r.owner_id (s.users r.tenant_id) ≡ some owner
    → (resolve_api_key_identity later r.key_hash (record s { keys = insert k r s.keys })).0
      ≡ found (identity_of k r owner)
unfolding resolve_api_key_identity get_cached_api_key_identity find_by_hash
resolve_inserted later k r owner s fresh live valid owned =
    let empty : cache_get later r.key_hash s.identities ≡ none = fresh in
    let opens =
      check_key_found later r.key_hash k r owner (record s { keys = insert k r s.keys }) live valid
        owned in
    rw (
      empty,
      resolve_api_key_identity,
      get_cached_api_key_identity,
      find_by_hash,
      ==_refl r.key_hash,
      opens,
    )

create_key_good :
    (now k h tenant_id owner_id : ℕ) (name : String) (scopes : List String) (expires_at : Option ℕ)
    (s : KeyStore)
    → all allowed_scope scopes ≡ true
    → (create_key now k h tenant_id owner_id name scopes expires_at s).1 ≡ record s {
      keys =
          insert k
            (record {
              tenant_id = tenant_id;
              name = name;
              key_hash = h;
              scopes = or_read scopes;
              owner_id = owner_id;
              rate_limit_override = none;
              last_used_at = none;
              expires_at = expires_at;
              revoked_at = none;
              created_at = now;
            })
            s.keys;
    }
unfolding create_key
create_key_good now k h tenant_id owner_id name scopes expires_at s good = rw (good, create_key)

-- A key that was created with good scopes and is not cached opens the identity of its owner,
-- unless it has expired.
pub resolve_api_key_identity-create_key :
    (now later k h tenant_id owner_id : ℕ) (name : String) (scopes : List String)
    (expires_at : Option ℕ) (owner : User) (s : KeyStore)
    → all allowed_scope scopes ≡ true
    → get_cached_api_key_identity later h s ≡ none
    → expired later expires_at ≡ false
    → find owner_id (s.users tenant_id) ≡ some owner
    → (resolve_api_key_identity later h
        (create_key now k h tenant_id owner_id name scopes expires_at s).1).0
      ≡ found (record {
        user_id = owner_id;
        tenant_id = tenant_id;
        roles = owner.roles;
        api_key_id = k;
        rate_limit_per_min = none;
      })
unfolding identity_of
resolve_api_key_identity-create_key now later k h tenant_id owner_id name scopes expires_at owner s
      good fresh valid owned =
    ap (λ s'. (resolve_api_key_identity later h s').0)
      (create_key_good now k h tenant_id owner_id name scopes expires_at s good)
    ∙ resolve_inserted later k
        (record {
          tenant_id = tenant_id;
          name = name;
          key_hash = h;
          scopes = or_read scopes;
          owner_id = owner_id;
          rate_limit_override = none;
          last_used_at = none;
          expires_at = expires_at;
          revoked_at = none;
          created_at = now;
        })
        owner s fresh refl valid owned
