-- ===== src/Usage/Rollup.antt =====
-- The usage events of a tenant, their totals, and `rollup_hourly`.
pub mod Upserts
pub mod Complete
use text.Mathlib.Text.{◌==◌ as str_eq}
use open_civic.Common.{
  ℕ, zero, suc, ◌+◌, ◌-◌, ◌*◌, ◌/◌, String, Bool, true, false, not, ◌&&◌, Option, none, some, List,
  [], ◌∷◌, ◌++◌, map, length, filter, any, leb, ◌==◌, if◌then◌else◌, holds, get_or,
}
use open_civic.Common.Order.{count}
use open_civic.Common.Table.{Table, find}
use open_civic.Catalog.{Dataset}

-- `UsageEvent`
pub record UsageEvent : Type 0 where
  pub dataset_id : Option ℕ
  pub event_type : String
  pub actor_id : Option ℕ
  pub api_key_id : Option ℕ
  pub format : Option String
  pub bytes : Option ℕ
  pub response_ms : Option ℕ
  pub created_at : ℕ

-- `record`
unfoldable pub record_event : UsageEvent → List UsageEvent → List UsageEvent
record_event e events = events ++ e ∷ []

-- `count_by_type`
unfoldable pub count_by_type : ℕ → String → List UsageEvent → ℕ
unfolding count
count_by_type dataset_id event_type events =
    count (λ e. holds e.dataset_id dataset_id && str_eq e.event_type event_type) events

pub record Totals : Type 0 where
  pub views : ℕ
  pub downloads : ℕ
  pub api_calls : ℕ
  pub ai_queries : ℕ

totals_where : (UsageEvent → Bool) → List UsageEvent → Totals
unfolding count
totals_where p events = record {
  views = count (λ e. p e && str_eq e.event_type "view") events;
  downloads = count (λ e. p e && str_eq e.event_type "download") events;
  api_calls = count (λ e. p e && str_eq e.event_type "api_call") events;
  ai_queries = count (λ e. p e && str_eq e.event_type "ai_query") events;
}

-- The join with the datasets of the publisher.
unfoldable pub is_of_publisher : ℕ → Table Dataset → UsageEvent → Bool
unfolding find
is_of_publisher publisher_id datasets e = elim e.dataset_id [
  | none ↦ false
  | some k ↦ elim (find k datasets) [ none ↦ false | some d ↦ d.publisher_id == publisher_id ]
]

unfoldable pub publisher_totals : ℕ → Table Dataset → List UsageEvent → Totals
unfolding is_of_publisher totals_where
publisher_totals publisher_id datasets events =
    totals_where (is_of_publisher publisher_id datasets) events

unfoldable pub tenant_totals : List UsageEvent → Totals
unfolding totals_where
tenant_totals events = totals_where (λ e. true) events

-- The columns of `uq_usage_hourly_bucket`; the hour is counted from the epoch.
pub record Bucket : Type 0 where
  pub dataset_id : Option ℕ
  pub event_type : String
  pub hour : ℕ

pub record Counts : Type 0 where
  pub event_count : ℕ
  pub bytes_total : ℕ

-- `UsageHourlyRollup`
abbrev pub Rollups : Type 0
Rollups = List (Bucket × Counts)

unfoldable pub same_id : Option ℕ → Option ℕ → Bool
same_id none none = true
same_id none (some k) = false
same_id (some j) none = false
same_id (some j) (some k) = j == k

-- Equality as `GROUP BY` has it, where NULL equals NULL.
unfoldable pub same_bucket : Bucket → Bucket → Bool
unfolding same_id
same_bucket a b =
    same_id a.dataset_id b.dataset_id && str_eq a.event_type b.event_type && a.hour == b.hour

unfoldable pub bucket_of : UsageEvent → Bucket
bucket_of e = record {
  dataset_id = e.dataset_id;
  event_type = e.event_type;
  hour = e.created_at / 3600;
}

-- The groups of the query, each once.
unfoldable pub groups : List UsageEvent → List Bucket
unfolding same_bucket bucket_of
groups [] = []
groups (e ∷ es) =
    let rest = groups es in
    if any (λ b. same_bucket b (bucket_of e)) rest then rest else bucket_of e ∷ rest

unfoldable pub bytes_in : Bucket → List UsageEvent → ℕ
unfolding same_bucket bucket_of
bytes_in b [] = 0
bytes_in b (e ∷ es) = (if same_bucket (bucket_of e) b then get_or e.bytes 0 else 0) + bytes_in b es

-- `count(*)` and `coalesce(sum(bytes), 0)` of one group.
unfoldable pub counts_in : List UsageEvent → Bucket → Counts
unfolding same_bucket bucket_of count bytes_in
counts_in es b = record {
  event_count = count (λ e. same_bucket (bucket_of e) b) es;
  bytes_total = bytes_in b es;
}

-- The first row that the unique constraint finds. A NULL dataset is never found.
unfoldable pub conflicts : Bucket → Bucket → Bool
unfolding same_bucket
conflicts a b = elim a.dataset_id [ none ↦ false | some k ↦ same_bucket a b ]

-- `INSERT … ON CONFLICT DO UPDATE`
unfoldable pub upsert : Bucket → Counts → Rollups → Rollups
unfolding conflicts
upsert b c [] = (b, c) ∷ []
upsert b c ((a, old) ∷ t) =
    let rest = upsert b c t in if conflicts b a then (a, c) ∷ t else (a, old) ∷ rest

unfoldable pub upsert_all : (Bucket → Counts) → List Bucket → Rollups → Rollups
unfolding upsert
upsert_all f [] t = t
upsert_all f (b ∷ bs) t = upsert_all f bs (upsert b (f b) t)

-- `WHERE created_at >= cutoff`
unfoldable pub recent : ℕ → ℕ → List UsageEvent → List UsageEvent
recent now lookback_hours events =
    filter (λ e. leb (now - lookback_hours * 3600) e.created_at) events

-- `rollup_hourly`: how many rows were written, and the table.
unfoldable pub rollup_hourly : ℕ → ℕ → List UsageEvent → Rollups → ℕ × Rollups
unfolding recent groups counts_in upsert_all
rollup_hourly now lookback_hours events t =
    let es = recent now lookback_hours events in
    let rows = groups es in (length rows, upsert_all (counts_in es) rows t)

unfoldable pub find_rollup : Bucket → Rollups → Option Counts
unfolding same_bucket
find_rollup b [] = none
find_rollup b ((a, c) ∷ t) = if same_bucket b a then some c else find_rollup b t
