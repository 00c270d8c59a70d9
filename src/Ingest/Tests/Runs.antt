-- ===== src/Ingest/Tests/Runs.antt =====
-- Three files for one dataset: one column, the same column again, and a second column.
use open_civic.Common.{◌≡◌, ◌↔◌, refl, true, false, some, List, [], ◌∷◌, length}
use open_civic.Common.Table.{find}
use open_civic.Catalog.{Column, Dataset, raw_path, parquet_path}
use open_civic.Catalog.Repository.{apply_ingest_result}
use open_civic.Ingest.Upload.{Bytes}
use open_civic.Ingest.Drift.{detect_schema_drift, column_map, lookup}
use open_civic.Ingest.Drift.Agreement.{Agree, detect_schema_drift-Agree}
use open_civic.Ingest.Errors.{ok, storage_error}
use open_civic.Ingest.Inference.{InferredSchema}
use open_civic.Ingest.Versions.{DatasetVersion, get_latest, next_version_number}
use open_civic.Ingest.Pipeline.{prepare, run, version_of}
use open_civic.Ingest.Pipeline.Outcome.{run_failed, run_returned}
use open_civic.Ingest.Pipeline.History.{no_versions, ingest, IsSteady, Ingests-IsSteady}
use open_civic.Ingest.Pipeline.Log.{Evolves, log_of, run-Evolves}
use open_civic.Ingest.Samples.{
  weather, narrow, wide, library, first_file, second_file, absent_file, empty_world, one_version,
  first_report,
}

abbrev narrow_schema : InferredSchema
narrow_schema = record {
  schema_snapshot =
      record { name = some "place"; type_name = some "string"; nullable = false } ∷ [];
  row_count = 12;
  dataframe = narrow;
}

abbrev wide_schema : InferredSchema
wide_schema = record {
  schema_snapshot =
      record { name = some "place"; type_name = some "string"; nullable = false }
      ∷ record { name = some "height"; type_name = some "integer"; nullable = true }
      ∷ [];
  row_count = 15;
  dataframe = wide;
}

first_runs : (run library first_file empty_world).0 ≡ ok first_report
unfolding run find
first_runs = refl

first_prepared : prepare library first_file empty_world ≡ ok (1 ∷ [], narrow_schema)
unfolding prepare
first_prepared = refl

second_prepared : prepare library second_file one_version ≡ ok (1 ∷ 2 ∷ [], wide_schema)
unfolding prepare run find
second_prepared = refl

abbrev version_one : DatasetVersion
version_one = record {
  dataset_id = 4;
  version_number = 1;
  schema_snapshot = narrow_schema.schema_snapshot;
  row_count = some 12;
  storage_path = some (parquet_path 4 1);
  raw_file_path = some (raw_path "raw/1");
  published_by = some 7;
  change_summary = some "Initial upload ingest";
}

latest_one : get_latest 4 one_version.tables.versions ≡ some version_one
unfolding run get_latest find
latest_one = refl

run_failed_example : (run library absent_file one_version).1 ≡ one_version
unfolding run find
run_failed_example = run_failed library absent_file one_version storage_error refl

run_returned_example :
    (inferred : InferredSchema) × (raw_bytes : Bytes) × (d : Dataset) × (prepare library first_file
        empty_world
      ≡ ok (raw_bytes, inferred))
    × (1 ≡ next_version_number 4 [])
    × (get_latest 4 one_version.tables.versions ≡ some (version_of first_file inferred 1))
    × (one_version.objects (parquet_path 4 1) ≡ some (library.to_parquet inferred.dataframe))
    × (find 4 empty_world.tables.datasets ≡ some d)
    × (find 4 one_version.tables.datasets
        ≡ some (
            apply_ingest_result 100 inferred.schema_snapshot inferred.row_count
              (length raw_bytes)
              d))
run_returned_example = run_returned library first_file empty_world first_report first_runs

Ingests-IsSteady_example : IsSteady (run library second_file one_version).1.tables.versions
Ingests-IsSteady_example =
    Ingests-IsSteady (run library second_file one_version).1
      (ingest library second_file (ingest library first_file (no_versions refl)))

abbrev dataset_one : Dataset
dataset_one = apply_ingest_result 100 narrow_schema.schema_snapshot 12 1 weather

abbrev narrow_columns : List Column
narrow_columns = narrow_schema.schema_snapshot

abbrev wide_columns : List Column
wide_columns = wide_schema.schema_snapshot

columns_differ : ¬ Agree (column_map (some narrow_columns)) (column_map (some wide_columns))
unfolding column_map lookup
columns_differ same = cc (same "height")

detect_schema_drift-Agree_example :
    ((detect_schema_drift (some narrow_columns) wide_columns).has_drift ≡ false)
    ↔ Agree (column_map (some narrow_columns)) (column_map (some wide_columns))
detect_schema_drift-Agree_example = detect_schema_drift-Agree narrow_columns wide_columns

run-Evolves_example :
    Evolves 4
      (log_of 4 one_version.tables.versions)
      (run library second_file one_version).0
      (log_of 4 (run library second_file one_version).1.tables.versions)
run-Evolves_example = run-Evolves library second_file one_version 4
