-- ===== src/Connectors/Sync/Effects.antt =====
-- What a sync does to the connectors and to the versions, whichever way it ends.
use open_civic.Common.{
  ℕ, ◌<◌, ◌≡◌, refl, String, Bool, true, false, some, List, [], ◌∷◌, inl, inr, if◌then◌else◌,
  Option-cases,
}
use open_civic.Common.Table.{Table, Found}
use open_civic.Catalog.{raw_path}
use open_civic.Catalog.Repository
use open_civic.Ingest.Drift.{detect_schema_drift}
use open_civic.Ingest.Errors.{Result, ok, failed}
use open_civic.Ingest.Inference.{InferredSchema, infer_tabular_schema}
use open_civic.Ingest.Versions.{get_latest}
use open_civic.Ingest.Pipeline.{World, Report, put_object, run}
use open_civic.Ingest.Pipeline.Outcome.{Result-cases}
use open_civic.Ingest.Pipeline.History.{Ingests, ingest, elsewhere}
use open_civic.Connectors.{Connector, get_by_id, mark_sync_failure}
use open_civic.Connectors.Breaker.{
  IsConsistent, Writes, start, after, success_write, failure_write, Writes-Consistent,
}
use open_civic.Connectors.Sync.{
  Plugin, Drivers, SyncWorld, Call, SyncError, SyncReport, connection_error, no_dataset_linked,
  pulled, done, raised, ingest_failed, Outcome, Row, all_rows, request_of, succeed, after_ingest,
  store_and_ingest, mark_stale, checked_ingest, ingest_rows, pull_and_ingest, count_failure,
  use_plugin, sync_run, settle_sync, sync_connector,
}

-- The three ways in which a sync can end.
data Ended (call : Call) (s : SyncWorld) : Outcome → Type 0 where
  raises :
      (e : SyncError) (s' : SyncWorld) → s'.connectors ≡ s.connectors → Ended call s (raised e, s')
  refused :
      (message : String) (connectors : Table Connector)
      → mark_sync_failure call.threshold call.connector_id s.connectors ≡ some connectors
      → Ended call s (done (connection_error message), record s { connectors = connectors })
  succeeds :
      (report : SyncReport) (w : World)
      → (Ingests s.world → Ingests w)
      → Ended call s (succeed call report (record s { world = w }))

module _ (lib : Drivers) (call : Call) (s : SyncWorld) where
  Ended-if :
      (b : Bool) {x y : Outcome}
      → Ended call s x
      → Ended call s y
      → Ended call s (if b then x else y)
  Ended-if true x y = x
  Ended-if false x y = y

  Ended-after_ingest :
      (c : Connector) (dataset_id rows : ℕ) (r : Result Report × World)
      → (Ingests s.world → Ingests r.1)
      → Ended call s (after_ingest call c dataset_id rows s r)
  unfolding after_ingest
  Ended-after_ingest c dataset_id rows (failed e, w) step =
      raises (ingest_failed e) (record s { world = w }) refl
  Ended-after_ingest c dataset_id rows (ok report, w) step =
      succeeds (pulled rows) _ (λ h. elsewhere {w = w} refl (step h))

  Ended-store :
      (c : Connector) (dataset_id : ℕ) (rows : List Row)
      → Ended call s (store_and_ingest lib call c dataset_id rows s)
  unfolding store_and_ingest put_object
  Ended-store c dataset_id rows =
      let stored = put_object (raw_path call.raw_key) (lib.to_csv rows) s.world in
      Ended-after_ingest c dataset_id _
        (run lib.library (request_of call dataset_id c.created_by) stored)
        (λ h.
          ingest lib.library (request_of call dataset_id c.created_by)
            (elsewhere {w = s.world} {after = stored} refl h))

  Ended-checked :
      (c : Connector) (dataset_id : ℕ) (rows : List Row) (inferred : InferredSchema)
      → Ended call s (checked_ingest lib call c dataset_id rows inferred s)
  unfolding checked_ingest mark_stale
  Ended-checked c dataset_id rows inferred =
      elim (Option-cases (get_latest dataset_id s.world.tables.versions)) [
        | inl first ↦ rw (first, checked_ingest) (Ended-store c dataset_id rows)
        | inr (v, before) ↦
            rw (before, checked_ingest)
              (Ended-if
                (detect_schema_drift (some v.schema_snapshot) inferred.schema_snapshot).has_drift
                (raises _ (mark_stale dataset_id s) refl) (Ended-store c dataset_id rows))
      ]

  Ended-ingest_rows :
      (c : Connector) (dataset_id : ℕ) (rows : List Row)
      → Ended call s (ingest_rows lib call c dataset_id rows s)
  unfolding ingest_rows
  Ended-ingest_rows c dataset_id [] = succeeds (pulled 0) s.world (λ h. h)
  Ended-ingest_rows c dataset_id (r ∷ rs) =
      elim (Result-cases
        (infer_tabular_schema lib.library.readers (lib.to_csv (r ∷ rs)) "connector-pull.csv")) [
          | inl (inferred, readable) ↦
              rw (readable, ingest_rows) (Ended-checked c dataset_id (r ∷ rs) inferred)
          | inr (e, unreadable) ↦ rw (unreadable, ingest_rows) (raises (ingest_failed e) s refl)
        ]

  Ended-pull :
      (c : Connector) (plugin : Plugin) (dataset_id : ℕ)
      → Ended call s (pull_and_ingest lib call c plugin dataset_id s)
  unfolding pull_and_ingest
  Ended-pull c plugin dataset_id =
      elim (Option-cases (Repository.get_by_id dataset_id s.world.tables.datasets)) [
        | inl missing ↦ rw (missing, pull_and_ingest) (raises _ s refl)
        | inr (d, there) ↦ elim (Option-cases (plugin.pull c.last_sync_at)) [
          | inl broken ↦ rw (there, broken, pull_and_ingest) (raises _ s refl)
          | inr (batches, got) ↦
              rw (there, got, pull_and_ingest) (Ended-ingest_rows c dataset_id (all_rows batches))
        ]
      ]

  Ended-count : (message : String) → Ended call s (count_failure call message s)
  unfolding count_failure
  Ended-count message =
      elim (Option-cases (mark_sync_failure call.threshold call.connector_id s.connectors)) [
        | inl missing ↦ rw (missing, count_failure) (raises _ s refl)
        | inr (connectors, written) ↦
            rw (written, count_failure) (refused message connectors written)
      ]

  Ended-use : (c : Connector) (plugin : Plugin) → Ended call s (use_plugin lib call c plugin s)
  unfolding use_plugin
  Ended-use c plugin =
      Ended-if plugin.test_connection.0
        (elim (Option-cases c.dataset_id) [
          | inl unlinked ↦ rw unlinked (succeeds no_dataset_linked s.world (λ h. h))
          | inr (dataset_id, linked) ↦ rw linked (Ended-pull c plugin dataset_id)
        ])
        (Ended-count plugin.test_connection.1)

  Ended-sync : Ended call s (sync_run lib call s)
  unfolding sync_run
  Ended-sync = elim (Option-cases (get_by_id call.connector_id s.connectors)) [
    | inl missing ↦ rw (missing, sync_run) (raises _ s refl)
    | inr (c, there) ↦ elim (Option-cases (lib.get_connector c)) [
      | inl bad ↦ rw (there, bad, sync_run) (raises _ s refl)
      | inr (plugin, opened) ↦ rw (there, opened, sync_run) (Ended-use c plugin)
    ]
  ]

settled_sound :
    (call : Call) (s : SyncWorld) {end : Outcome}
    → Ended call s end
    → Writes call.threshold s.connectors (settle_sync s end).1.connectors
      × (Ingests s.world → Ingests (settle_sync s end).1.world)
unfolding settle_sync succeed
settled_sound call s (raises e s' same) = (start, λ h. elsewhere {w = s.world} refl h)
settled_sound call s (refused message connectors written) =
    (after start (failure_write s.connectors connectors call.connector_id written), λ h. h)
settled_sound call s (succeeds report w step) =
    (after start (success_write s.connectors call.now call.connector_id), step)

-- A sync, whichever way it ends and with a positive threshold, keeps the circuits of the
-- connectors open exactly where the failures have reached the threshold, and leads from versions
-- that ingests have left to versions that ingests have left.
pub sync_connector_sound :
    (lib : Drivers) (call : Call) (s : SyncWorld)
    → 0 < call.threshold
    → Found (IsConsistent call.threshold) s.connectors
    → Ingests s.world
    → Found (IsConsistent call.threshold) (sync_connector lib call s).1.connectors
      × Ingests (sync_connector lib call s).1.world
unfolding sync_connector
sync_connector_sound lib call s positive consistent history =
    let (writes, step) = settled_sound call s (Ended-sync lib call s) in
    (Writes-Consistent call.threshold positive writes consistent, step history)
