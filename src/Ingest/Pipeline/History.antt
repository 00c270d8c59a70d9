-- ===== src/Ingest/Pipeline/History.antt =====
-- The versions that any sequence of ingests leaves: numbered upwards, and all with the same columns.
use mathlib.Core.Option.{some-injective}
use open_civic.Common.{
  ℕ, ◌≡◌, refl, sym, ◌∙◌, ap, false, none, some, List, [], ◌∷◌, ◌==◌, ==_iff, Bool-cases, All-mono,
  inl, inr, subst, ◌⊎◌, String,
}
use mathlib.Core.Bool.{false≢true}
use open_civic.Common.Table.{Table, Rows}
use open_civic.Ingest.Upload.{Bytes}
use open_civic.Ingest.Drift.{column_map}
use open_civic.Ingest.Drift.Agreement.{Agree}
use open_civic.Ingest.Inference.{InferredSchema}
use open_civic.Ingest.Versions.{DatasetVersion, get_latest, next_version_number, create}
use open_civic.Ingest.Versions.Numbering.{
  IsNumbered, IsNumbered-create, get_latest-create, get_latest-create_other, get_latest-eq-none,
}
use open_civic.Ingest.Pipeline.{
  World, Library, Request, version_of, record_tables, record_version, put_object, run,
}
use open_civic.Ingest.Pipeline.Outcome.{run_ok, run_failed, Result-cases}

-- What the runs of a tenant lead to, other writes in between leaving the versions as they are.
pub data Ingests : World → Type 0 where
  no_versions : {w : World} → w.tables.versions ≡ [] → Ingests w
  ingest : {w : World} (lib : Library) (req : Request) → Ingests w → Ingests (run lib req w).1
  elsewhere :
      {w after : World} → after.tables.versions ≡ w.tables.versions → Ingests w → Ingests after

abbrev pub columns_of : DatasetVersion → List (String × String)
columns_of v = column_map (some v.schema_snapshot)

-- The versions of each dataset have the columns of its latest.
unfoldable pub SameColumns : Table DatasetVersion → Type 0
SameColumns t =
    (dataset_id : ℕ) (w : DatasetVersion)
    → get_latest dataset_id t ≡ some w
    → Rows (λ j v. v.dataset_id ≡ dataset_id → Agree (columns_of v) (columns_of w)) t

-- A new version whose columns agree with the latest.
abbrev Continues : DatasetVersion → Table DatasetVersion → Type 0
Continues v t =
    (get_latest v.dataset_id t ≡ none)
    ⊎ ((w : DatasetVersion) × (get_latest v.dataset_id t ≡ some w)
        × Agree (columns_of w) (columns_of v))

older-Agree :
    (v : DatasetVersion) (t : Table DatasetVersion)
    → Continues v t
    → SameColumns t
    → Rows (λ j u. u.dataset_id ≡ v.dataset_id → Agree (columns_of u) (columns_of v)) t
unfolding SameColumns
older-Agree v t (inl first) same =
    All-mono (λ x. (x.1.dataset_id == v.dataset_id) ≡ false)
      (λ x. x.1.dataset_id ≡ v.dataset_id → Agree (columns_of x.1) (columns_of v)) t
      (λ x other e. absurd (false≢true (sym other ∙ (==_iff x.1.dataset_id v.dataset_id).1 e)))
      (get_latest-eq-none v.dataset_id t first)
older-Agree v t (inr (w, before, agree)) same =
    All-mono (λ x. x.1.dataset_id ≡ v.dataset_id → Agree (columns_of x.1) (columns_of w))
      (λ x. x.1.dataset_id ≡ v.dataset_id → Agree (columns_of x.1) (columns_of v)) t
      (λ x old e n. old e n ∙ agree n) (same v.dataset_id w before)

SameColumns-create :
    (new : ℕ) (v : DatasetVersion) (t : Table DatasetVersion)
    → v.version_number ≡ next_version_number v.dataset_id t
    → Continues v t
    → SameColumns t
    → SameColumns (create new v t)
unfolding SameColumns create
SameColumns-create new v t number continues same dataset_id w latest =
    elim (Bool-cases (v.dataset_id == dataset_id)) [
      | inl own ↦
          let e = (==_iff v.dataset_id dataset_id).0 own in
          let is_v : v ≡ w = some-injective v w (
            sym (get_latest-create new v t number)
            ∙ subst (λ k. get_latest k (create new v t) ≡ some w) (sym e) latest) in
          subst
            (λ u.
              Rows (λ j x. x.dataset_id ≡ dataset_id → Agree (columns_of x) (columns_of u))
                ((new, v) ∷ t))
            is_v
            (
              λ h n. refl,
              subst (λ k. Rows (λ j x. x.dataset_id ≡ k → Agree (columns_of x) (columns_of v)) t) e
                  (older-Agree v t continues same),
            )
      | inr other ↦ (
        λ h. absurd (false≢true (sym other ∙ (==_iff v.dataset_id dataset_id).1 h)),
        same dataset_id w (sym (get_latest-create_other new v t dataset_id other) ∙ latest),
      )
    ]

abbrev pub IsSteady : Table DatasetVersion → Type 0
IsSteady t = IsNumbered t × SameColumns t

recorded_versions :
    (lib : Library) (req : Request) (inferred : InferredSchema) (raw_bytes : Bytes) (w : World)
    → (record_version lib req inferred raw_bytes w).1.tables.versions
      ≡ create req.new_version
          (version_of req inferred (next_version_number req.dataset_id w.tables.versions))
          w.tables.versions
unfolding record_version record_tables put_object
recorded_versions lib req inferred raw_bytes w = refl

IsSteady-run :
    (lib : Library) (req : Request) (w : World)
    → IsSteady w.tables.versions
    → IsSteady (run lib req w).1.tables.versions
unfolding version_of
IsSteady-run lib req w steady = elim (Result-cases (run lib req w).0) [
  | inr (e, fails) ↦
      subst (λ after. IsSteady after.tables.versions) (sym (run_failed lib req w e fails)) steady
  | inl (report, returns) ↦
      let done = run_ok lib req w report returns in
      let number = next_version_number req.dataset_id w.tables.versions in
      let v = version_of req done.inferred number in
      subst IsSteady
        (sym (
          ap (λ end. end.1.tables.versions) done.ends
          ∙ recorded_versions lib req done.inferred done.raw_bytes w))
        (
          IsNumbered-create req.new_version v w.tables.versions refl steady.0,
          SameColumns-create req.new_version v w.tables.versions refl done.same_columns steady.1,
        )
]

-- After any sequence of ingests, from no versions on and with other writes that leave the versions
-- alone in between, every version of a dataset has a higher number than those before it, and all
-- versions of a dataset have the columns of its latest, with the same types.
pub Ingests-IsSteady : (w : World) → Ingests w → IsSteady w.tables.versions
unfolding IsNumbered SameColumns get_latest
Ingests-IsSteady w (no_versions e) = subst IsSteady (sym e) (tt, λ dataset_id v latest. tt)
Ingests-IsSteady w (ingest {w = before} lib req h) =
    IsSteady-run lib req before (Ingests-IsSteady before h)
Ingests-IsSteady w (elsewhere {w = before} e h) = subst IsSteady (sym e) (Ingests-IsSteady before h)
