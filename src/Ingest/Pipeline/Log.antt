-- ===== src/Ingest/Pipeline/Log.antt =====
-- The versions of a dataset as an append-only log of which only the end is known, and the ingest as
-- a step of it.
use mathlib.Core.Bool.{false≢true}
use open_civic.Common.{
  ℕ, suc, ◌≡◌, ◌≢◌, refl, sym, ap, ◌∙◌, subst, false, Option, none, some, ◌==◌, ==_iff, ==_refl,
  lt→ltb, Bool-cases, Option-cases, ◌⊎◌, inl, inr, arith,
}
use open_civic.Common.Table.{Table}
use open_civic.Ingest.Drift.Agreement.{Agree}
use open_civic.Ingest.Errors.{Result, ok, failed, IngestError}
use open_civic.Ingest.Versions.{
  DatasetVersion, get_latest, max_version, next_version_number, create,
}
use open_civic.Ingest.Versions.Numbering.{get_latest-create, get_latest-create_other}
use open_civic.Ingest.Pipeline.{
  World, Library, Request, Report, version_of, record_version, record_tables, put_object, run,
}
use open_civic.Ingest.Pipeline.Outcome.{run_ok, run_failed, Result-cases}
use open_civic.Ingest.Pipeline.History.{columns_of}

-- The next number and the last entry of the log.
pub record Log : Type 0 where
  pub next_number : ℕ
  pub last : Option DatasetVersion

-- The log that the table of versions stands for.
abbrev pub log_of : ℕ → Table DatasetVersion → Log
log_of dataset_id t = record {
  next_number = next_version_number dataset_id t;
  last = get_latest dataset_id t;
}

-- An entry may follow the last where it has the same columns; the first may have any.
abbrev pub Follows : DatasetVersion → Option DatasetVersion → Type 0
Follows v none = Unit
Follows v (some w) = Agree (columns_of w) (columns_of v)

-- A step of the log of a dataset, by the result: a failure and a version of another dataset leave
-- it, and a report of this dataset appends an entry under the number that it names.
pub data Evolves (dataset_id : ℕ) (l : Log) : Result Report → Log → Type 0 where
  refuses : (e : IngestError) → Evolves dataset_id l (failed e) l
  passes_by :
      (report : Report) → report.dataset_id ≢ dataset_id → Evolves dataset_id l (ok report) l
  appends :
      (report : Report) (v : DatasetVersion)
      → report.dataset_id ≡ dataset_id
      → v.dataset_id ≡ dataset_id
      → report.version_number ≡ l.next_number
      → v.version_number ≡ l.next_number
      → Follows v l.last
      → Evolves dataset_id l (ok report) (record { next_number = suc l.next_number; last = some v })

max-create :
    (new : ℕ) (v : DatasetVersion) (t : Table DatasetVersion)
    → v.version_number ≡ next_version_number v.dataset_id t
    → next_version_number v.dataset_id (create new v t) ≡ suc (next_version_number v.dataset_id t)
unfolding next_version_number max_version create
max-create new v t h = elim (Option-cases (max_version v.dataset_id t)) [
  | inl first ↦
      let one : v.version_number ≡ 1 = h ∙ rw (first, next_version_number) refl in
      rw (==_refl v.dataset_id, first, next_version_number) (ap suc one)
  | inr (n, before) ↦
      let above : v.version_number ≡ suc n = h ∙ rw (before, next_version_number) refl in
      rw
        (
          ==_refl v.dataset_id,
          before,
          lt→ltb n v.version_number (omega (arith, above)),
          next_version_number,
        )
        (ap suc above)
]

next-create_other :
    (new : ℕ) (v : DatasetVersion) (t : Table DatasetVersion) (dataset_id : ℕ)
    → (v.dataset_id == dataset_id) ≡ false
    → next_version_number dataset_id (create new v t) ≡ next_version_number dataset_id t
unfolding next_version_number max_version create
next-create_other new v t dataset_id other = rw (other, next_version_number) refl

log_eq :
    (n m : ℕ) (v w : Option DatasetVersion)
    → n ≡ m
    → v ≡ w
    → ◌≡◌ {A = Log} (record { next_number = n; last = v }) (record { next_number = m; last = w })
log_eq n m v w p q = λ i. record { next_number = p i; last = q i }

Follows-last :
    (v : DatasetVersion) (last : Option DatasetVersion)
    → (last ≡ none) ⊎ ((w : DatasetVersion) × (last ≡ some w) × Agree (columns_of w) (columns_of v))
    → Follows v last
Follows-last v last (inl first) = subst (Follows v) (sym first) tt
Follows-last v last (inr (w, before, agree)) = subst (Follows v) (sym before) agree

-- One new version is one step of every log.
create-Evolves :
    (new : ℕ) (v : DatasetVersion) (t : Table DatasetVersion) (report : Report) (dataset_id : ℕ)
    → report.dataset_id ≡ v.dataset_id
    → report.version_number ≡ v.version_number
    → v.version_number ≡ next_version_number v.dataset_id t
    → Follows v (get_latest v.dataset_id t)
    → Evolves dataset_id (log_of dataset_id t) (ok report) (log_of dataset_id (create new v t))
create-Evolves new v t report dataset_id same_id same_number number follows =
    elim (Bool-cases (v.dataset_id == dataset_id)) [
      | inr other ↦
          subst (Evolves dataset_id (log_of dataset_id t) (ok report))
            (sym (
              log_eq _ _ _ _ (next-create_other new v t dataset_id other)
                (get_latest-create_other new v t dataset_id other)))
            (passes_by report
              (λ e. false≢true (sym other ∙ (==_iff v.dataset_id dataset_id).1 (sym same_id ∙ e))))
      | inl own ↦
          subst (λ k. Evolves k (log_of k t) (ok report) (log_of k (create new v t)))
            ((==_iff v.dataset_id dataset_id).0 own)
            (subst (Evolves v.dataset_id (log_of v.dataset_id t) (ok report))
              (sym (log_eq _ _ _ _ (max-create new v t number) (get_latest-create new v t number)))
              (appends report v same_id refl (same_number ∙ number) number follows))
    ]

-- An ingest is a step of the append-only log that the versions of a dataset stand for: one that
-- raises and one of another dataset leave the log, and one that reports a version of the dataset
-- appends one entry, under the next number, which the report names, and with the columns of the
-- entry before it, where there is one.
pub run-Evolves :
    (lib : Library) (req : Request) (w : World) (dataset_id : ℕ)
    → Evolves dataset_id
        (log_of dataset_id w.tables.versions)
        (run lib req w).0
        (log_of dataset_id (run lib req w).1.tables.versions)
unfolding version_of record_version record_tables put_object
run-Evolves lib req w dataset_id =
    let before = log_of dataset_id w.tables.versions in
    elim (Result-cases (run lib req w).0) [
      | inr (e, fails) ↦
          subst
            (λ r. Evolves dataset_id before r (log_of dataset_id (run lib req w).1.tables.versions))
            (sym fails)
            (subst
              (λ after.
                Evolves dataset_id before (failed e) (log_of dataset_id after.tables.versions))
              (sym (run_failed lib req w e fails)) (refuses e))
      | inl (report, returns) ↦
          let done = run_ok lib req w report returns in
          let number = next_version_number req.dataset_id w.tables.versions in
          subst (λ end. Evolves dataset_id before end.0 (log_of dataset_id end.1.tables.versions))
            (sym done.ends)
            (create-Evolves req.new_version (version_of req done.inferred number) w.tables.versions
              (record {
                dataset_id = req.dataset_id;
                version_number = number;
                row_count = done.inferred.row_count;
              })
              dataset_id refl refl refl
              (Follows-last (version_of req done.inferred number)
                (get_latest req.dataset_id w.tables.versions) done.same_columns))
    ]
