-- ===== src/Auth/Refresh/Revocation.antt =====
-- What a revocation reaches, and what it misses.
use open_civic.Common.{ℕ, ◌≡◌, none}
use open_civic.Common.Cache.{cache_get}
use open_civic.Auth.Refresh.{Keys}

abbrev IsGone : ℕ → ℕ → Keys → Type 0
IsGone now f s = cache_get now f s.families ≡ none
