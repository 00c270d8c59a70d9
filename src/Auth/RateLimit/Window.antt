-- ===== src/Auth/RateLimit/Window.antt =====
-- How many requests of one client pass in one window.
use open_civic.Common.{
  ℕ, ◌+◌, ◌*◌, ◌<◌, ◌≡◌, String, true, Option, none, some, List, [], ◌∷◌, if◌then◌else◌, arith,
}
use open_civic.Common.Cache.{Entry}
use open_civic.Auth.RateLimit.{
  Bucket, apikey, tenant_user, tenant, ip, same_bucket, Client, Store, consume_rate_limit,
}

pub same_bucket_refl : (b : Bucket) → same_bucket b b ≡ true
unfolding same_bucket
same_bucket_refl (apikey k w) = ground arith
same_bucket_refl (tenant_user t u w) = ground arith
same_bucket_refl (tenant t w) = ground arith
same_bucket_refl (ip d w) = ground arith

-- A counter of the window `w`: what is there was begun in it, and outlives it.
abbrev Counts : ℕ → ℕ → Option (Entry ℕ) → Type 0
Counts w n none = n ≡ 0
Counts w n (some e) = (e.value ≡ n) × (0 < n) × (d : ℕ) × (e.deadline ≡ some d) × (w * 60 + 60 < d)

module _ (digest : String → ℕ) (default limit : ℕ) (c : Client) (override : Option ℕ) where
  -- The requests that pass, of those at the given times.
  pub admitted : List ℕ → Option Store → ℕ
  admitted [] s = 0
  admitted (t ∷ ts) s =
      let (d, s') = consume_rate_limit digest default t c override s in
      (if d.allowed then 1 else 0) + admitted ts s'
