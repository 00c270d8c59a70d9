-- ===== src/Connectors/Sync.antt =====
-- `ConnectorSyncService.run` of backend/app/services/connectors/connector_sync_service.py, and the
-- task `sync_connector` of backend/app/workers/tasks/tasks.py, which runs it in a session. The driver
-- of a connector and the CSV text of a frame are arguments.
pub mod Effects
use open_civic.Common.{
  ℕ, String, Bool, true, false, Option, none, some, List, [], ◌∷◌, ◌++◌, length, if◌then◌else◌,
}
use open_civic.Common.Table.{Table, update}
use open_civic.Catalog.{Dataset, raw_path, pending_refresh}
use open_civic.Catalog.Repository
use open_civic.Lineage.Graph.{Keys, record_connector_sync}
use open_civic.Ingest.Upload.{Bytes}
use open_civic.Ingest.Drift.{SchemaDriftResult, detect_schema_drift}
use open_civic.Ingest.Errors.{Result, ok, failed, IngestError, dataset_not_found, schema_drift}
use open_civic.Ingest.Inference.{InferredSchema, Cell, infer_tabular_schema}
use open_civic.Ingest.Versions.{DatasetVersion, get_latest}
use open_civic.Ingest.Pipeline.{World, Library, Request, Report, put_object, run}
use open_civic.Connectors.{Connector, get_by_id, mark_sync_success, mark_sync_failure}

abbrev pub Row : Type 0
Row = List (String × Cell)

-- A driver with its configuration: `test_connection`, and the rows of each batch of `pull`, or none
-- where it raises.
pub record Plugin : Type 0 where
  pub test_connection : Bool × String
  pub pull : Option ℕ → Option (List (List Row))

pub record Drivers : Type 0 where
  pub get_connector : Connector → Option Plugin  -- none where the type or the configuration is bad
  pub to_csv : List Row → Bytes
  pub library : Library

pub record SyncWorld : Type 0 where
  pub connectors : Table Connector
  pub world : World

-- The clock and the new keys of one sync.
pub record Call : Type 0 where
  pub connector_id : ℕ
  pub now : ℕ
  pub threshold : ℕ
  pub raw_key : String
  pub new_version : ℕ
  pub ingest_keys : Keys
  pub sync_keys : Keys

pub data SyncError : Type 0 where
  connector_not_found bad_connector pull_failed : SyncError
  ingest_failed : IngestError → SyncError

pub data SyncReport : Type 0 where
  connection_error : String → SyncReport
  no_dataset_linked : SyncReport
  pulled : ℕ → SyncReport

pub data SyncResult : Type 0 where
  done : SyncReport → SyncResult
  raised : SyncError → SyncResult

abbrev pub Outcome : Type 0
Outcome = SyncResult × SyncWorld

-- `rows.extend(batch.rows)` for each batch.
unfoldable pub all_rows : List (List Row) → List Row
all_rows [] = []
all_rows (b ∷ bs) = b ++ all_rows bs

unfoldable pub request_of : Call → ℕ → Option ℕ → Request
request_of call dataset_id created_by = record {
  dataset_id = dataset_id;
  storage_key = call.raw_key;
  filename = "connector-pull.csv";
  publisher_id = created_by;
  now = call.now;
  new_version = call.new_version;
  new_keys = call.ingest_keys;
}

unfoldable pub succeed : Call → SyncReport → SyncWorld → Outcome
unfolding mark_sync_success
succeed call report s = (
  done report,
  record s { connectors = mark_sync_success call.now call.connector_id s.connectors },
)

-- What follows a run of the ingest.
unfoldable pub after_ingest : Call → Connector → ℕ → ℕ → SyncWorld → Result Report × World → Outcome
unfolding succeed record_connector_sync
after_ingest call c dataset_id rows s (failed e, w) =
    (raised (ingest_failed e), record s { world = w })
after_ingest call c dataset_id rows s (ok report, w) = succeed call (pulled rows) (record s {
  world = record w {
    tables = record w.tables {
      lineage =
          record_connector_sync call.sync_keys call.connector_id c.name dataset_id w.tables.lineage;
    };
  };
})

unfoldable pub store_and_ingest : Drivers → Call → Connector → ℕ → List Row → SyncWorld → Outcome
unfolding run put_object after_ingest request_of
store_and_ingest lib call c dataset_id rows s = after_ingest call c dataset_id (length rows) s (
    run lib.library (request_of call dataset_id c.created_by)
      (put_object (raw_path call.raw_key) (lib.to_csv rows) s.world))

unfoldable pub mark_stale : ℕ → SyncWorld → SyncWorld
unfolding update
mark_stale dataset_id s = record s {
  world = record s.world {
    tables = record s.world.tables {
      datasets =
          update dataset_id (λ d. record d { staleness_state = pending_refresh })
            s.world.tables.datasets;
    };
  };
}

-- The columns are compared before anything is stored.
unfoldable pub checked_ingest :
    Drivers → Call → Connector → ℕ → List Row → InferredSchema → SyncWorld → Outcome
unfolding get_latest detect_schema_drift mark_stale store_and_ingest
checked_ingest lib call c dataset_id rows inferred s =
    elim (get_latest dataset_id s.world.tables.versions) [
      | none ↦ store_and_ingest lib call c dataset_id rows s
      | some latest ↦
          let drift = detect_schema_drift (some latest.schema_snapshot) inferred.schema_snapshot in
          if drift.has_drift
          then (raised (ingest_failed (schema_drift drift)), mark_stale dataset_id s)
          else store_and_ingest lib call c dataset_id rows s
    ]

unfoldable pub ingest_rows : Drivers → Call → Connector → ℕ → List Row → SyncWorld → Outcome
unfolding succeed infer_tabular_schema checked_ingest
ingest_rows lib call c dataset_id [] s = succeed call (pulled 0) s
ingest_rows lib call c dataset_id (r ∷ rs) s =
    elim (infer_tabular_schema lib.library.readers (lib.to_csv (r ∷ rs)) "connector-pull.csv") [
      | failed e ↦ (raised (ingest_failed e), s)
      | ok inferred ↦ checked_ingest lib call c dataset_id (r ∷ rs) inferred s
    ]

unfoldable pub pull_and_ingest : Drivers → Call → Connector → Plugin → ℕ → SyncWorld → Outcome
unfolding Repository.get_by_id all_rows ingest_rows
pull_and_ingest lib call c plugin dataset_id s =
    elim (Repository.get_by_id dataset_id s.world.tables.datasets) [
      | none ↦ (raised (ingest_failed dataset_not_found), s)
      | some d ↦ elim (plugin.pull c.last_sync_at) [
        | none ↦ (raised pull_failed, s)
        | some batches ↦ ingest_rows lib call c dataset_id (all_rows batches) s
      ]
    ]

unfoldable pub count_failure : Call → String → SyncWorld → Outcome
unfolding mark_sync_failure
count_failure call message s =
    elim (mark_sync_failure call.threshold call.connector_id s.connectors) [
      | none ↦ (raised connector_not_found, s)
      | some connectors ↦ (done (connection_error message), record s { connectors = connectors })
    ]

unfoldable pub use_plugin : Drivers → Call → Connector → Plugin → SyncWorld → Outcome
unfolding count_failure succeed pull_and_ingest
use_plugin lib call c plugin s =
    if plugin.test_connection.0
    then (elim c.dataset_id [
      | none ↦ succeed call no_dataset_linked s
      | some dataset_id ↦ pull_and_ingest lib call c plugin dataset_id s
    ])
    else count_failure call plugin.test_connection.1 s

unfoldable pub sync_run : Drivers → Call → SyncWorld → Outcome
unfolding get_by_id use_plugin
sync_run lib call s = elim (get_by_id call.connector_id s.connectors) [
  | none ↦ (raised connector_not_found, s)
  | some c ↦ elim (lib.get_connector c) [
    | none ↦ (raised bad_connector, s)
    | some plugin ↦ use_plugin lib call c plugin s
  ]
]

-- The session of the task. The ingest commits in a session of its own, and nothing raises after it,
-- so where the task raises every row is as it was.
unfoldable pub settle_sync : SyncWorld → Outcome → Outcome
settle_sync s (done report, after) = (done report, after)
settle_sync s (raised e, after) =
    (raised e, record s { world = record after.world { tables = s.world.tables } })

unfoldable pub sync_connector : Drivers → Call → SyncWorld → Outcome
unfolding sync_run settle_sync
sync_connector lib call s = settle_sync s (sync_run lib call s)
