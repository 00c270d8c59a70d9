-- ===== src/Ingest/Pipeline/Rejection.antt =====
-- A file whose columns are not those of the latest version.
use open_civic.Common.{◌≡◌, ap, true, some, Bool-cases, inl, inr, if◌then◌else◌}
use open_civic.Catalog.{Dataset}
use open_civic.Catalog.Repository.{get_by_id}
use open_civic.Ingest.Upload.{Bytes}
use open_civic.Ingest.Drift.{SchemaDriftResult, detect_schema_drift, column_map}
use open_civic.Ingest.Drift.Agreement.{Agree, detect_schema_drift-Agree}
use open_civic.Ingest.Errors.{ok, failed, schema_drift}
use open_civic.Ingest.Inference.{InferredSchema}
use open_civic.Ingest.Versions.{DatasetVersion, get_latest}
use open_civic.Ingest.Pipeline.{
  World, Library, Request, record_version, mark_drift, ingest_body, after_check, settle,
  tenant_write_session, prepare, run,
}

settled_drift :
    (lib : Library) (req : Request) (inferred : InferredSchema) (raw_bytes : Bytes)
    (drift : SchemaDriftResult) (w : World)
    → drift.has_drift ≡ true
    → settle w (after_check lib req inferred raw_bytes drift w) ≡ (failed (schema_drift drift), w)
unfolding settle after_check
settled_drift lib req inferred raw_bytes drift w drifts =
    ap
      (λ b. settle w (
        if b
        then (failed (schema_drift drift), record w { tables = mark_drift req drift w.tables })
        else record_version lib req inferred raw_bytes w))
      drifts

-- Where a file that passed the scan and could be read has other columns than the latest version of
-- the dataset, the ingest raises the drift, and neither the mark on the dataset nor the event that
-- it wrote is left.
pub run_drifted :
    (lib : Library) (req : Request) (w : World) (raw_bytes : Bytes) (inferred : InferredSchema)
    (d : Dataset) (v : DatasetVersion)
    → prepare lib req w ≡ ok (raw_bytes, inferred)
    → get_by_id req.dataset_id w.tables.datasets ≡ some d
    → get_latest req.dataset_id w.tables.versions ≡ some v
    → ¬ Agree (column_map (some v.schema_snapshot)) (column_map (some inferred.schema_snapshot))
    → run lib req w ≡ (
      failed (schema_drift (detect_schema_drift (some v.schema_snapshot) inferred.schema_snapshot)),
      w,
    )
unfolding run tenant_write_session ingest_body
run_drifted lib req w raw_bytes inferred d v prepared there latest differ =
    elim (Bool-cases
      (detect_schema_drift (some v.schema_snapshot) inferred.schema_snapshot).has_drift) [
        | inr same ↦
            absurd (
              differ
                ((detect_schema_drift-Agree v.schema_snapshot inferred.schema_snapshot).0 same))
        | inl drifts ↦
            rw (prepared, run, there, latest, ingest_body)
              (settled_drift lib req inferred raw_bytes
                (detect_schema_drift (some v.schema_snapshot) inferred.schema_snapshot) w drifts)
      ]
