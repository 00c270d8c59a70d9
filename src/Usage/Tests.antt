-- ===== src/Usage/Tests.antt =====
-- Three events of one dataset, rolled up at 7300 seconds, and a tenant of the tier `professional`.
use open_civic.Common.{
  ℕ, ◌+◌, ◌≡◌, refl, none, some, List, [], ◌∷◌, any, ltb, if◌then◌else◌, length, arith,
}
use open_civic.Common.Cache.{empty}
use open_civic.Auth.RateLimit.{Store, resolve_limit_per_minute, get_tenant_rate_limit}
use open_civic.Usage.Rollup.{
  UsageEvent, Bucket, same_bucket, bucket_of, counts_in, rollup_hourly, find_rollup,
}
use open_civic.Usage.Rollup.Complete.{rollup_hourly_complete}
use open_civic.Usage.Limits.{
  Plan, resolve_rate_limit_for_tier, lookup_plan_limit, hydrate_tenant_rate_limit,
}
use open_civic.Usage.Limits.Hydrated.{hydrate_tenant_rate_limit_lem}

abbrev view_at : ℕ → UsageEvent
view_at t = record {
  dataset_id = some 4;
  event_type = "view";
  actor_id = none;
  api_key_id = none;
  format = none;
  bytes = some 10;
  response_ms = none;
  created_at = t;
}

abbrev events : List UsageEvent
events = view_at 100 ∷ view_at 3700 ∷ view_at 3900 ∷ []

abbrev second_hour : Bucket
second_hour = record { dataset_id = some 4; event_type = "view"; hour = 1 }

-- An hour whose first event lies before the window: a count that was right is overwritten.
cut_count :
    find_rollup second_hour
      (rollup_hourly 7400 1 events
        ((second_hour, record { event_count = 2; bytes_total = 20 }) ∷ [])).1
    ≡ some (record { event_count = 1; bytes_total = 10 })
unfolding find_rollup rollup_hourly
cut_count = refl

-- Where no dataset is named, each roll-up inserts the row again.
abbrev nowhere : UsageEvent
nowhere = record (view_at 3700) { dataset_id = none }

twice :
    length (rollup_hourly 7300 2 (nowhere ∷ []) (rollup_hourly 7300 2 (nowhere ∷ []) []).1).1 ≡ 2
unfolding rollup_hourly
twice = refl

rollup_hourly_complete_example : find_rollup second_hour (rollup_hourly 7300 2 events []).1 ≡ (
    if any (λ e. same_bucket second_hour (bucket_of e)) events
    then some (counts_in events second_hour)
    else find_rollup second_hour [])
rollup_hourly_complete_example =
    rollup_hourly_complete second_hour 4 7300 2 events [] refl (omega arith)

abbrev plans : List Plan
plans = record { name = "Professional"; api_rate_limit_per_min = some 3000 } ∷ []

abbrev store : Store
store = record { counters = λ b. none; tenant_limits = empty }

hydrate_tenant_rate_limit_lem_example :
    resolve_limit_per_minute 600 none (
      get_tenant_rate_limit 4000 1
        (hydrate_tenant_rate_limit 100 600 plans 1 "professional" (some store)).1)
    ≡ (if ltb 4000 (100 + 3600)
        then resolve_rate_limit_for_tier 600 "professional" (lookup_plan_limit plans "professional")
        else 600)
hydrate_tenant_rate_limit_lem_example =
    hydrate_tenant_rate_limit_lem 100 4000 600 1 plans "professional" store (omega arith)
