-- ===== src/Workers/Tenants.antt =====
-- `iter_active_tenant_ids` and `run_for_all_tenants`, and the tasks that run a pass over the tenants.
-- Every tenant has a database of its own.
pub mod Order
pub mod Sla
use text.Mathlib.Text.{◌==◌ as str_eq}
use open_civic.Common.{
  ℕ, ◌+◌, String, Bool, true, false, not, ◌&&◌, Option, none, some, List, [], ◌∷◌, map, length,
  is_some, ◌==◌, if◌then◌else◌,
}
use open_civic.Common.Table.{Table, select}
use open_civic.Catalog.{Dataset}
use open_civic.Catalog.Repository.{refresh_staleness_states, decay_stale_quality_scores}
use open_civic.Session.{Db, Action, Error, returned, raised, in_session}
use open_civic.Governance.Queue.{flag_sla_breaches}

-- `Tenant` of backend/app/db/models/platform.py
pub record Tenant : Type 0 where
  pub slug : String
  pub display_name : String
  pub tier : String
  pub schema_name : Option String
  pub status : String
  pub deleted_at : Option ℕ

unfoldable pub is_active : Tenant → Bool
is_active t = str_eq t.status "active" && not (is_some t.deleted_at)

unfoldable pub iter_active_tenant_ids : Table Tenant → List ℕ
unfolding is_active select
iter_active_tenant_ids t = map (λ row. row.0) (select (λ k r. is_active r) t)

abbrev pub Databases : Type 0
Databases = ℕ → Db

abbrev pub set_db : ℕ → Db → Databases → Databases
set_db k db dbs = λ j. if j == k then db else dbs j

-- The results by tenant, or the exception that ended the pass and the tenant whose it was.
pub data Pass (A : Type 0) : Type 0 where
  finished : List (ℕ × A) → Pass A
  stopped : ℕ → Error → Pass A

unfoldable pub add_result : {A : Type 0} → ℕ → A → Pass A × Databases → Pass A × Databases
add_result k a (finished results, dbs) = (finished ((k, a) ∷ results), dbs)
add_result k a (stopped j e, dbs) = (stopped j e, dbs)

unfoldable pub run_for_all_tenants :
    {A : Type 0} → (ℕ → Action A) → List ℕ → Databases → Pass A × Databases
unfolding in_session add_result
run_for_all_tenants handler [] dbs = (finished [], dbs)
run_for_all_tenants handler (k ∷ ks) dbs = elim (in_session (handler k) (dbs k)) [
  | raised e db ↦ (stopped k e, set_db k db dbs)
  | returned a db ↦ add_result k a (run_for_all_tenants handler ks (set_db k db dbs))
]

-- The task `check_workflow_sla_breaches`.
unfoldable pub check_workflow_sla_breaches : ℕ → List ℕ → Databases → Pass (List ℕ) × Databases
unfolding flag_sla_breaches run_for_all_tenants
check_workflow_sla_breaches now = run_for_all_tenants (λ k. flag_sla_breaches now)

abbrev rows_pass : (Table Dataset → ℕ × Table Dataset) → Action ℕ
rows_pass f db =
    let (updated, rows) = f db.datasets in returned updated (record db { datasets = rows })

-- The task `check_all_datasets`.
unfoldable pub check_all_datasets : ℕ → List ℕ → Databases → Pass ℕ × Databases
unfolding refresh_staleness_states run_for_all_tenants
check_all_datasets now = run_for_all_tenants (λ k. rows_pass (refresh_staleness_states now))

-- The task `decay_quality_scores`.
unfoldable pub decay_quality_scores : List ℕ → Databases → Pass ℕ × Databases
unfolding decay_stale_quality_scores run_for_all_tenants
decay_quality_scores = run_for_all_tenants (λ k. rows_pass decay_stale_quality_scores)
