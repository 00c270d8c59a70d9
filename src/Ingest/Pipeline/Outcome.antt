-- ===== src/Ingest/Pipeline/Outcome.antt =====
-- What one run leaves behind, on success and on failure.
use open_civic.Common.{
  ℕ, ◌≡◌, refl, sym, ◌∙◌, ap, Bool, true, false, none, some, ==_refl, length, if◌then◌else◌,
  Option-cases, inl, inr, subst, ◌⊎◌,
}
use open_civic.Common.Table.{find, find-update_self}
use open_civic.Catalog.{Dataset, parquet_path}
use open_civic.Catalog.Repository.{get_by_id, apply_ingest_result}
use open_civic.Ingest.Upload.{Bytes}
use open_civic.Ingest.Drift.{SchemaDriftResult, detect_schema_drift, column_map}
use open_civic.Ingest.Drift.Agreement.{Agree, detect_schema_drift-Agree}
use open_civic.Ingest.Errors.{Result, ok, failed, IngestError, schema_drift, dataset_not_found}
use open_civic.Ingest.Inference.{InferredSchema}
use open_civic.Ingest.Versions.{DatasetVersion, get_latest, next_version_number}
use open_civic.Ingest.Versions.Numbering.{get_latest-create}
use open_civic.Ingest.Pipeline.{
  Tables, World, Library, Request, Report, version_of, record_tables, record_version, put_object,
  same_object, ingest_body, after_check, mark_drift, settle, tenant_write_session, prepare, run,
}

-- How the part inside the session can end: nothing is stored where it raises, and where it returns
-- the dataset is there, and its columns are those of its latest version, where it has one.
data Ending (lib : Library) (req : Request) (inferred : InferredSchema) (raw_bytes : Bytes)
    (w : World) : Result Report × World → Type 0 where
  raises :
      (e : IngestError) (t : Tables)
      → Ending lib req inferred raw_bytes w (failed e, record w { tables = t })
  records :
      (d : Dataset)
      → get_by_id req.dataset_id w.tables.datasets ≡ some d
      → (get_latest req.dataset_id w.tables.versions ≡ none)
        ⊎ ((v : DatasetVersion) × (get_latest req.dataset_id w.tables.versions ≡ some v)
            × Agree
                (column_map (some v.schema_snapshot))
                (column_map (some inferred.schema_snapshot)))
      → Ending lib req inferred raw_bytes w (record_version lib req inferred raw_bytes w)

Ending-if :
    (lib : Library) (req : Request) (inferred : InferredSchema) (raw_bytes : Bytes) (w : World)
    (b : Bool) {x y : Result Report × World}
    → Ending lib req inferred raw_bytes w x
    → (b ≡ false → Ending lib req inferred raw_bytes w y)
    → Ending lib req inferred raw_bytes w (if b then x else y)
Ending-if lib req inferred raw_bytes w true x y = x
Ending-if lib req inferred raw_bytes w false x y = y refl

after_check-Ending :
    (lib : Library) (req : Request) (inferred : InferredSchema) (raw_bytes : Bytes) (w : World)
    (drift : SchemaDriftResult)
    → (drift.has_drift ≡ false
        → Ending lib req inferred raw_bytes w (record_version lib req inferred raw_bytes w))
    → Ending lib req inferred raw_bytes w (after_check lib req inferred raw_bytes drift w)
unfolding after_check
after_check-Ending lib req inferred raw_bytes w drift step =
    Ending-if lib req inferred raw_bytes w drift.has_drift
      (raises (schema_drift drift) (mark_drift req drift w.tables)) step

ingest_body-Ending :
    (lib : Library) (req : Request) (inferred : InferredSchema) (raw_bytes : Bytes) (w : World)
    → Ending lib req inferred raw_bytes w (ingest_body lib req inferred raw_bytes w)
unfolding ingest_body
ingest_body-Ending lib req inferred raw_bytes w =
    elim (Option-cases (get_by_id req.dataset_id w.tables.datasets)) [
      | inl missing ↦ rw (missing, ingest_body) (raises dataset_not_found w.tables)
      | inr (d, there) ↦ elim (Option-cases (get_latest req.dataset_id w.tables.versions)) [
        | inl first ↦ rw (there, first, ingest_body) (records d there (inl first))
        | inr (v, before) ↦
            rw (there, before, ingest_body)
              (after_check-Ending lib req inferred raw_bytes w
                (detect_schema_drift (some v.schema_snapshot) inferred.schema_snapshot)
                (λ same. records d there (
                  inr (
                    v,
                    before,
                    (detect_schema_drift-Agree v.schema_snapshot inferred.schema_snapshot).0 same,
                  ))))
      ]
    ]

settled_failed :
    (lib : Library) (req : Request) (inferred : InferredSchema) (raw_bytes : Bytes) (w : World)
    (e : IngestError) {end : Result Report × World}
    → Ending lib req inferred raw_bytes w end
    → (settle w end).0 ≡ failed e
    → (settle w end).1 ≡ w
unfolding settle record_version
settled_failed lib req inferred raw_bytes w e (raises e' t) h = refl
settled_failed lib req inferred raw_bytes w e (records d there before) h = cc h

pub Result-cases :
    {A : Type 0} (r : Result A) → ((a : A) × (r ≡ ok a)) ⊎ ((e : IngestError) × (r ≡ failed e))
Result-cases (ok a) = inl (a, refl)
Result-cases (failed e) = inr (e, refl)

-- An ingest that raises leaves every row and every stored object as it was.
pub run_failed :
    (lib : Library) (req : Request) (w : World) (e : IngestError)
    → (run lib req w).0 ≡ failed e
    → (run lib req w).1 ≡ w
unfolding run tenant_write_session
run_failed lib req w e h = elim (Result-cases (prepare lib req w)) [
  | inr (e', early) ↦ rw (early, run) refl
  | inl ((raw_bytes, inferred), prepared) ↦
      rw (prepared, run)
        (settled_failed lib req inferred raw_bytes w e
          (ingest_body-Ending lib req inferred raw_bytes w) (rw (prepared, run) at h))
]

-- What a run that returns has done.
pub record Recorded (lib : Library) (req : Request) (w : World) (end : Result Report × World)
    : Type 0 where
  pub raw_bytes : Bytes
  pub inferred : InferredSchema
  pub dataset : Dataset
  pub prepared : prepare lib req w ≡ ok (raw_bytes, inferred)
  pub there : get_by_id req.dataset_id w.tables.datasets ≡ some dataset
  pub same_columns :
      (get_latest req.dataset_id w.tables.versions ≡ none)
      ⊎ ((v : DatasetVersion) × (get_latest req.dataset_id w.tables.versions ≡ some v)
          × Agree
              (column_map (some v.schema_snapshot))
              (column_map (some inferred.schema_snapshot)))
  pub ends : end ≡ record_version lib req inferred raw_bytes w

settled_ok :
    (lib : Library) (req : Request) (inferred : InferredSchema) (raw_bytes : Bytes) (w : World)
    (report : Report) {end : Result Report × World}
    → prepare lib req w ≡ ok (raw_bytes, inferred)
    → Ending lib req inferred raw_bytes w end
    → (settle w end).0 ≡ ok report
    → Recorded lib req w (settle w end)
unfolding settle record_version
settled_ok lib req inferred raw_bytes w report p (raises e' t) h = cc h
settled_ok lib req inferred raw_bytes w report p (records d there before) h = record {
  raw_bytes = raw_bytes;
  inferred = inferred;
  dataset = d;
  prepared = p;
  there = there;
  same_columns = before;
  ends = refl;
}

pub run_ok :
    (lib : Library) (req : Request) (w : World) (report : Report)
    → (run lib req w).0 ≡ ok report
    → Recorded lib req w (run lib req w)
unfolding run tenant_write_session
run_ok lib req w report h = elim (Result-cases (prepare lib req w)) [
  | inr (e', early) ↦ cc (rw (early, run) at h)
  | inl ((raw_bytes, inferred), prepared) ↦
      subst (Recorded lib req w) (sym (rw (prepared, run) refl)) (
        settled_ok lib req inferred raw_bytes w report prepared
          (ingest_body-Ending lib req inferred raw_bytes w) (rw (prepared, run) at h))
]

number_of : Result Report → ℕ
number_of (ok report) = report.version_number
number_of (failed e) = 0

module _ (lib : Library) (req : Request) (inferred : InferredSchema) (raw_bytes : Bytes)
    (w : World) where
  abbrev number : ℕ
  number = next_version_number req.dataset_id w.tables.versions

  abbrev recorded : Result Report × World
  recorded = record_version lib req inferred raw_bytes w

  version_recorded :
      get_latest req.dataset_id recorded.1.tables.versions ≡ some (version_of req inferred number)
  unfolding record_version record_tables version_of put_object
  version_recorded =
      get_latest-create req.new_version (version_of req inferred number) w.tables.versions refl

  object_recorded :
      recorded.1.objects (parquet_path req.dataset_id number)
      ≡ some (lib.to_parquet inferred.dataframe)
  unfolding record_version put_object same_object
  object_recorded = rw (==_refl req.dataset_id, ==_refl number) refl

  dataset_recorded :
      (d : Dataset)
      → find req.dataset_id w.tables.datasets ≡ some d
      → find req.dataset_id recorded.1.tables.datasets
        ≡ some (
            apply_ingest_result req.now inferred.schema_snapshot inferred.row_count
              (length raw_bytes)
              d)
  unfolding record_version record_tables put_object
  dataset_recorded d there =
      find-update_self req.dataset_id
        (apply_ingest_result req.now inferred.schema_snapshot inferred.row_count (length raw_bytes))
        w.tables.datasets there

  number_recorded : number_of recorded.0 ≡ number
  unfolding number_of record_version
  number_recorded = refl

-- An ingest that returns reports the next number, and afterwards the latest version of the dataset
-- is the one of this file under that number, the snapshot lies under the key of that number, and
-- the row of the dataset has the schema, the counts and the new score.
pub run_returned :
    (lib : Library) (req : Request) (w : World) (report : Report)
    → (run lib req w).0 ≡ ok report
    → (inferred : InferredSchema) × (raw_bytes : Bytes) × (d : Dataset) × (prepare lib req w
        ≡ ok (raw_bytes, inferred))
      × (report.version_number ≡ next_version_number req.dataset_id w.tables.versions)
      × (get_latest req.dataset_id (run lib req w).1.tables.versions
          ≡ some (version_of req inferred report.version_number))
      × ((run lib req w).1.objects (parquet_path req.dataset_id report.version_number)
          ≡ some (lib.to_parquet inferred.dataframe))
      × (find req.dataset_id w.tables.datasets ≡ some d)
      × (find req.dataset_id (run lib req w).1.tables.datasets
          ≡ some (
              apply_ingest_result req.now inferred.schema_snapshot inferred.row_count
                (length raw_bytes)
                d))
unfolding find get_by_id number_of
run_returned lib req w report h =
    let done = run_ok lib req w report h in
    let n = next_version_number req.dataset_id w.tables.versions in
    let same_number : report.version_number ≡ n =
      ap number_of (sym h ∙ ap (λ end. end.0) done.ends)
      ∙ number_recorded lib req done.inferred done.raw_bytes w in
    (
      done.inferred,
      done.raw_bytes,
      done.dataset,
      done.prepared,
      same_number,
      rw (done.ends, same_number) (version_recorded lib req done.inferred done.raw_bytes w),
      rw (done.ends, same_number) (object_recorded lib req done.inferred done.raw_bytes w),
      done.there,
      rw (done.ends)
          (dataset_recorded lib req done.inferred done.raw_bytes w done.dataset done.there),
    )
