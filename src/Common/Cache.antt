-- ===== src/Common/Cache.antt =====
-- backend/app/core/cache.py: a Valkey keyspace whose entries may have an expiry.
-- Each family of keys (one prefix) is a keyspace of its own, indexed by what follows the prefix.
use Prim.Native.Nat.{ℕ, ◌+◌, ◌<◌}
use mathlib.Core.Path.{◌≡◌, refl}
use mathlib.Core.Logic.{inl, inr}
use mathlib.Core.Option.{Option, none, some}
use native.Mathlib.Omega.{arith}
use open_civic.Common.Tests.{ltb, ◌==◌, if◌then◌else◌, Bool-cases}

pub record Entry (V : Type 0) : Type 0 where
  pub value : V
  pub deadline : Option ℕ

abbrev pub Cache : Type 0 → Type 0
Cache V = ℕ → Option (Entry V)

-- `if ttl_seconds:` is false at 0 too: then the value is set with no expiry.
unfoldable pub expiry : ℕ → Option ℕ → Option ℕ
expiry now none = none
expiry now (some ttl) = if ttl == 0 then none else some (now + ttl)

module _ {V : Type 0} where
  abbrev pub empty : Cache V
  empty k = none

  -- An entry is visible until its deadline.
  abbrev visible : ℕ → Entry V → Option V
  visible now e = elim e.deadline [
    | none ↦ some e.value
    | some d ↦ if ltb now d then some e.value else none
  ]

  -- `cache_get`
  unfoldable pub cache_get : ℕ → ℕ → Cache V → Option V
  cache_get now k c = elim (c k) [ none ↦ none | some e ↦ visible now e ]

  -- `cache_set`
  unfoldable pub cache_set : ℕ → ℕ → V → Option ℕ → Cache V → Cache V
  unfolding expiry
  cache_set now k v ttl c =
      λ j. if j == k then some (record { value = v; deadline = expiry now ttl }) else c j

  -- `cache_delete`
  unfoldable pub cache_delete : ℕ → Cache V → Cache V
  cache_delete k c = λ j. if j == k then none else c j

  visible_after_set :
      (now : ℕ) (v : V) (ttl : Option ℕ)
      → visible now (record { value = v; deadline = expiry now ttl }) ≡ some v
  unfolding expiry
  visible_after_set now v none = refl
  visible_after_set now v (some ttl) = ground arith

  visible_later :
      (now later ttl : ℕ) (v : V)
      → 0 < ttl
      → visible later (record { value = v; deadline = expiry now (some ttl) })
        ≡ (if ltb later (now + ttl) then some v else none)
  unfolding expiry
  visible_later now later ttl v pos = ground arith

  -- A value that was just set is read back, and no other key changes.
  pub cache_get-cache_set :
      (now k j : ℕ) (v : V) (ttl : Option ℕ) (c : Cache V)
      → cache_get now j (cache_set now k v ttl c) ≡ (if j == k then some v else cache_get now j c)
  unfolding cache_get cache_set
  cache_get-cache_set now k j v ttl c = elim (Bool-cases (j == k)) [
    | inl same ↦ rw (same, cache_get, cache_set) (visible_after_set now v ttl)
    | inr other ↦ rw (other, cache_get, cache_set)
  ]

  -- Read later: the value is there until its time to live is over.
  pub cache_get-cache_set_later :
      (now later k j ttl : ℕ) (v : V) (c : Cache V)
      → 0 < ttl
      → cache_get later j (cache_set now k v (some ttl) c)
        ≡ (if j == k then (if ltb later (now + ttl) then some v else none) else cache_get later j c)
  unfolding cache_get cache_set
  cache_get-cache_set_later now later k j ttl v c pos = elim (Bool-cases (j == k)) [
    | inl same ↦ rw (same, cache_get, cache_set) (visible_later now later ttl v pos)
    | inr other ↦ rw (other, cache_get, cache_set)
  ]

  pub cache_get-cache_delete :
      (now k j : ℕ) (c : Cache V)
      → cache_get now j (cache_delete k c) ≡ (if j == k then none else cache_get now j c)
  unfolding cache_get cache_delete
  cache_get-cache_delete now k j c = elim (Bool-cases (j == k)) [
    | inl same ↦ rw (same, cache_get, cache_delete)
    | inr other ↦ rw (other, cache_get, cache_delete)
  ]
