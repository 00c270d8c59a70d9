-- ===== src/Ingest/Pipeline.antt =====
-- `IngestService.run` of backend/app/services/ingest/ingest_service.py and
-- `parquet_storage_key`. Storage is a map of its objects; it takes no part in the transaction.
pub mod Outcome
pub mod History
pub mod Rejection
pub mod Log
use text.Mathlib.Text.{◌==◌ as str_eq}
use open_civic.Common.{
  ℕ, String, Bool, true, false, Option, none, some, List, [], ◌∷◌, ◌++◌, length, ◌==◌, ◌&&◌,
  if◌then◌else◌,
}
use open_civic.Common.Table.{Table, update}
use open_civic.Catalog.{Dataset, StorageKey, raw_path, parquet_path, pending_refresh}
use open_civic.Catalog.Repository.{get_by_id, apply_ingest_result}
use open_civic.Session.{
  Event, EventType, dataset_ingested, schema_drift_detected, Actor, Payload, ingested, drifted,
}
use open_civic.Lineage.Graph.{Lineage, Keys, record_upload_ingest}
use open_civic.Ingest.Upload.{Bytes}
use open_civic.Ingest.Drift.{SchemaDriftResult, detect_schema_drift}
use open_civic.Ingest.Errors.{
  Result, ok, failed, ◌>>=◌, ◌>>◌, from_option, storage_error, dataset_not_found, schema_drift,
}
use open_civic.Ingest.Scanner.{Scanner, scan_bytes}
use open_civic.Ingest.Inference.{Readers, Frame, InferredSchema, infer_tabular_schema}
use open_civic.Ingest.Versions.{DatasetVersion, get_latest, next_version_number, create}

-- The rows that a tenant's session reads and writes here.
pub record Tables : Type 0 where
  pub datasets : Table Dataset
  pub versions : Table DatasetVersion
  pub events : List Event  -- the newest last
  pub lineage : Lineage

pub record World : Type 0 where
  pub tables : Tables
  pub objects : StorageKey → Option Bytes

-- What the pipeline calls, as it answers during one run.
pub record Library : Type 0 where
  pub scanner : Scanner
  pub readers : Readers
  pub to_parquet : Frame → Bytes  -- `dataframe_to_parquet_bytes`

pub record Request : Type 0 where
  pub dataset_id : ℕ
  pub storage_key : String
  pub filename : String
  pub publisher_id : Option ℕ
  pub now : ℕ
  pub new_version : ℕ
  pub new_keys : Keys

pub record Report : Type 0 where
  pub dataset_id : ℕ
  pub version_number : ℕ
  pub row_count : ℕ

-- `"user" if publisher_id else "system"`
unfoldable pub actor_of : Option ℕ → Actor
actor_of none = Actor.system
actor_of (some k) = Actor.user

unfoldable pub event_of : Request → EventType → Payload → Event
unfolding actor_of
event_of req event_type payload = record {
  event_type = event_type;
  aggregate_id = req.dataset_id;
  aggregate_type = "dataset";
  actor_id = req.publisher_id;
  actor_type = actor_of req.publisher_id;
  payload = payload;
}

-- The writes before `SchemaDriftDetected` is raised.
unfoldable pub mark_drift : Request → SchemaDriftResult → Tables → Tables
unfolding event_of update
mark_drift req drift t = record t {
  datasets = update req.dataset_id (λ d. record d { staleness_state = pending_refresh }) t.datasets;
  events =
      t.events
      ++ event_of req schema_drift_detected
          (drifted drift.added_columns drift.removed_columns drift.type_changes)
        ∷ [];
}

unfoldable pub version_of : Request → InferredSchema → ℕ → DatasetVersion
version_of req inferred version_number = record {
  dataset_id = req.dataset_id;
  version_number = version_number;
  schema_snapshot = inferred.schema_snapshot;
  row_count = some inferred.row_count;
  storage_path = some (parquet_path req.dataset_id version_number);
  raw_file_path = some (raw_path req.storage_key);
  published_by = req.publisher_id;
  change_summary = some "Initial upload ingest";
}

-- The writes of a run that goes through.
unfoldable pub record_tables : Request → InferredSchema → ℕ → ℕ → Tables → Tables
unfolding version_of event_of create update apply_ingest_result record_upload_ingest
record_tables req inferred file_size_bytes version_number t = record {
  versions = create req.new_version (version_of req inferred version_number) t.versions;
  datasets =
      update req.dataset_id
        (apply_ingest_result req.now inferred.schema_snapshot inferred.row_count file_size_bytes)
        t.datasets;
  events =
      t.events
      ++ event_of req dataset_ingested (
          ingested version_number inferred.row_count (raw_path req.storage_key)
            (parquet_path req.dataset_id version_number))
        ∷ [];
  lineage =
      record_upload_ingest req.new_keys req.dataset_id req.filename version_number req.storage_key
        t.lineage;
}

-- Keys of uploads start with `raw/`, so they differ from those of the snapshots.
unfoldable pub same_object : StorageKey → StorageKey → Bool
same_object (raw_path s) (raw_path t) = str_eq s t
same_object (parquet_path d n) (parquet_path e m) = d == e && n == m
same_object _ _ = false

unfoldable pub put_object : StorageKey → Bytes → World → World
unfolding same_object
put_object key content w = record w {
  objects = λ k. if same_object k key then some content else w.objects k;
}

unfoldable pub record_version :
    Library → Request → InferredSchema → Bytes → World → Result Report × World
unfolding record_tables put_object next_version_number
record_version lib req inferred raw_bytes w =
    let version_number = next_version_number req.dataset_id w.tables.versions in
    let stored =
      put_object (parquet_path req.dataset_id version_number) (lib.to_parquet inferred.dataframe)
        w in
    (
      ok (record {
        dataset_id = req.dataset_id;
        version_number = version_number;
        row_count = inferred.row_count;
      }),
      record stored {
        tables = record_tables req inferred (length raw_bytes) version_number stored.tables;
      },
    )

-- What follows the comparison with the latest version.
unfoldable pub after_check :
    Library → Request → InferredSchema → Bytes → SchemaDriftResult → World → Result Report × World
unfolding mark_drift record_version
after_check lib req inferred raw_bytes drift w =
    if drift.has_drift
    then (failed (schema_drift drift), record w { tables = mark_drift req drift w.tables })
    else record_version lib req inferred raw_bytes w

-- The part of `run` inside the session.
unfoldable pub ingest_body :
    Library → Request → InferredSchema → Bytes → World → Result Report × World
unfolding get_by_id get_latest detect_schema_drift after_check record_version
ingest_body lib req inferred raw_bytes w = elim (get_by_id req.dataset_id w.tables.datasets) [
  | none ↦ (failed dataset_not_found, w)
  | some dataset ↦ elim (get_latest req.dataset_id w.tables.versions) [
    | none ↦ record_version lib req inferred raw_bytes w
    | some latest ↦
        after_check lib req inferred raw_bytes
          (detect_schema_drift (some latest.schema_snapshot) inferred.schema_snapshot) w
  ]
]

-- The end of the session: the tables are as before where the block raised.
unfoldable pub settle : {A : Type 0} → World → Result A × World → Result A × World
settle w (ok a, after) = (ok a, after)
settle w (failed e, after) = (failed e, record after { tables = w.tables })

unfoldable pub tenant_write_session :
    {A : Type 0} → (World → Result A × World) → World → Result A × World
unfolding settle
tenant_write_session m w = settle w (m w)

-- What the run knows before it opens the session: the bytes and the schema.
unfoldable pub prepare : Library → Request → World → Result (Bytes × InferredSchema)
unfolding scan_bytes infer_tabular_schema
prepare lib req w =
    from_option storage_error (w.objects (raw_path req.storage_key)) >>= λ raw_bytes.
    scan_bytes lib.scanner raw_bytes
    >> (infer_tabular_schema lib.readers raw_bytes req.filename >>= λ inferred.
        ok (raw_bytes, inferred))

unfoldable pub run : Library → Request → World → Result Report × World
unfolding prepare tenant_write_session ingest_body
run lib req w = elim (prepare lib req w) [
  | failed e ↦ (failed e, w)
  | ok (raw_bytes, inferred) ↦ tenant_write_session (ingest_body lib req inferred raw_bytes) w
]
