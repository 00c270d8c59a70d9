-- ===== src/Auth/Tests.antt =====
-- Runs of the authentication services on small stores.
mod Edge
mod Suspend
mod Signed
use open_civic.Common.{
  ◌+◌, ◌<◌, ◌≤◌, ◌≡◌, ◌⊎◌, refl, ap, String, Bool, true, Option, none, some, List, [], ◌∷◌, arith,
  min, length, ◌/◌, ◌*◌, if◌then◌else◌, ◌&&◌,
}
use open_civic.Common.Cache.{Cache, cache_get, cache_set, empty}
use open_civic.Common.Table.{Table, find, insert}
use open_civic.Session.{User, active}
use open_civic.Auth.Refresh.{
  RefreshSession, Keys, loaded, refused, invalid_refresh, create_session, load_session, rotate,
}
use open_civic.Auth.Refresh.Rotation.{load_session-create_session, rotate_lem, load_session_unique}
use open_civic.Auth.RateLimit
use open_civic.Auth.RateLimit.{Client, build_rate_limit_bucket}

abbrev nobody_yet : Keys
nobody_yet = record { sessions = empty; families = empty; users = empty }

abbrev steward : RefreshSession
steward = record { user_id = 5; tenant_id = 3; roles = "data_steward" ∷ []; family_id = 9 }

logged_in : Keys
logged_in = create_session 100 0 1 steward nobody_yet

rotated : Keys
unfolding logged_in
rotated = (rotate 100 60 1 2 logged_in).1

rotate_lem_example :
    (load_session 60 1 logged_in ≡ loaded steward)
    × (load_session 120 2 rotated ≡ loaded steward)
    × (load_session 120 1 rotated ≡ refused invalid_refresh)
unfolding rotated logged_in create_session load_session cache_get rotate cache_set
rotate_lem_example =
    rotate_lem 100 60 120 1 2 logged_in rotated steward (omega arith) (omega arith) (omega arith)
      refl

-- Another user's session, after the first is logged out.
abbrev developer : RefreshSession
developer = record { user_id = 6; tenant_id = 3; roles = []; family_id = 4 }

two_users : Keys
unfolding logged_in
two_users = create_session 100 0 8 developer logged_in

abbrev caller : Client
caller = record { tenant_id = none; user_id = none; api_key_id = some 7; fingerprint = none }

abbrev no_counts : RateLimit.Store
no_counts = record { counters = λ b. none; tenant_limits = empty }
