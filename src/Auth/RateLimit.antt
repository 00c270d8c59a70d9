-- ===== src/Auth/RateLimit.antt =====
-- backend/app/services/auth/edge_rate_limit.py. Counters are kept for each bucket; SHA-256 is a
-- parameter. The store may be unreachable: then `none` stands for it.
pub mod Window
use open_civic.Common.{
  ℕ, suc, ◌+◌, ◌-◌, ◌*◌, ◌/◌, ◌≡◌, refl, String, Bool, true, false, ◌&&◌, Option, none, some, ltb,
  leb, ◌==◌, if◌then◌else◌, arith,
}
use open_civic.Common.Cache.{Cache, Entry, cache_get, cache_set}

-- `RateLimitDecision`
pub record Decision : Type 0 where
  pub allowed : Bool
  pub limit : ℕ
  pub remaining : ℕ
  pub reset_epoch : ℕ

-- `_current_window`: the minute, and the second at which it ends.
unfoldable pub current_window : ℕ → ℕ × ℕ
current_window now = let window = now / 60 in (window, (window + 1) * 60)

abbrev positive : Option ℕ → Option ℕ
positive none = none
positive (some n) = if ltb 0 n then some n else none

-- `resolve_limit_per_minute`, with the platform's default.
unfoldable pub resolve_limit_per_minute : ℕ → Option ℕ → Option ℕ → ℕ
resolve_limit_per_minute default override tenant_limit = elim (positive override) [
  | some n ↦ n
  | none ↦ elim (positive tenant_limit) [ some n ↦ n | none ↦ default ]
]

-- The bucket names, by their prefix; the window is the last part of each.
pub data Bucket : Type 0 where
  apikey : ℕ → ℕ → Bucket
  tenant_user : ℕ → ℕ → ℕ → Bucket
  tenant : ℕ → ℕ → Bucket
  ip : ℕ → ℕ → Bucket

unfoldable pub same_bucket : Bucket → Bucket → Bool
same_bucket (apikey k w) (apikey k' w') = k == k' && w == w'
same_bucket (tenant_user t u w) (tenant_user t' u' w') = t == t' && u == u' && w == w'
same_bucket (tenant t w) (tenant t' w') = t == t' && w == w'
same_bucket (ip d w) (ip d' w') = d == d' && w == w'
same_bucket _ _ = false

-- Who the request is from, as the gateway knows it.
pub record Client : Type 0 where
  pub tenant_id : Option ℕ
  pub user_id : Option ℕ
  pub api_key_id : Option ℕ
  pub fingerprint : Option String

abbrev or_anonymous : Option String → String
or_anonymous none = "anonymous"
or_anonymous (some String.[]) = "anonymous"
or_anonymous (some s) = s

-- The bucket of a client in a window.
unfoldable pub bucket_in : (String → ℕ) → Client → ℕ → Bucket
bucket_in digest c window = elim c.api_key_id [
  | some k ↦ apikey k window
  | none ↦ elim c.tenant_id [
    | some t ↦ elim c.user_id [ some u ↦ tenant_user t u window | none ↦ tenant t window ]
    | none ↦ ip (digest (or_anonymous c.fingerprint)) window
  ]
]

-- `build_rate_limit_bucket`
unfoldable pub build_rate_limit_bucket : (String → ℕ) → ℕ → Client → Bucket
unfolding current_window
build_rate_limit_bucket digest now c = bucket_in digest c (current_window now).0

pub record Store : Type 0 where
  pub counters : Bucket → Option (Entry ℕ)
  pub tenant_limits : Cache ℕ  -- tenant:ratelimit:{tenant_id}

abbrev tenant_limit_ttl : ℕ
tenant_limit_ttl = 3600

-- `get_tenant_rate_limit`; nothing is known while the store is unreachable.
unfoldable pub get_tenant_rate_limit : ℕ → ℕ → Option Store → Option ℕ
get_tenant_rate_limit now t none = none
get_tenant_rate_limit now t (some s) = cache_get now t s.tenant_limits

-- `cache_tenant_rate_limit`
unfoldable pub cache_tenant_rate_limit : ℕ → ℕ → ℕ → Option Store → Option Store
cache_tenant_rate_limit now t limit none = none
cache_tenant_rate_limit now t limit (some s) =
    some
      (record s { tenant_limits = cache_set now t limit (some tenant_limit_ttl) s.tenant_limits })

-- The count of a bucket; an entry past its deadline is gone.
unfoldable pub count_of : ℕ → Option (Entry ℕ) → ℕ
count_of now none = 0
count_of now (some e) = elim e.deadline [
  | none ↦ e.value
  | some d ↦ if ltb now d then e.value else 0
]

deadline_of : Option (Entry ℕ) → Option ℕ
deadline_of none = none
deadline_of (some e) = e.deadline

-- `incr`, and `expire` after the first count: 70 seconds.
unfoldable pub count_up : ℕ → Option (Entry ℕ) → Entry ℕ
unfolding count_of deadline_of
count_up now e =
    let n = suc (count_of now e) in
    record { value = n; deadline = if n == 1 then some (now + 70) else deadline_of e }

module _ (digest : String → ℕ) (default : ℕ) where
  unfoldable pub limit_for : ℕ → Client → Option ℕ → Option Store → ℕ
  unfolding resolve_limit_per_minute
  limit_for now c override s =
      resolve_limit_per_minute default override
        (elim c.tenant_id [ none ↦ none | some t ↦ get_tenant_rate_limit now t s ])

  -- `consume_rate_limit`. An unreachable store lets everything pass.
  unfoldable pub consume_rate_limit : ℕ → Client → Option ℕ → Option Store → Decision × Option Store
  unfolding current_window
  consume_rate_limit now c override none =
      let limit = limit_for now c override none in
      (
        record {
          allowed = true;
          limit = limit;
          remaining = limit;
          reset_epoch = (current_window now).1;
        },
        none,
      )
  consume_rate_limit now c override (some s) =
      let limit = limit_for now c override (some s) in
      let bucket = build_rate_limit_bucket digest now c in
      let e = count_up now (s.counters bucket) in
      let allowed = leb e.value limit in
      (
        record {
          allowed = allowed;
          limit = limit;
          remaining = if allowed then limit - e.value else 0;
          reset_epoch = (current_window now).1;
        },
        some (record s { counters = λ b. if same_bucket b bucket then some e else s.counters b }),
      )
