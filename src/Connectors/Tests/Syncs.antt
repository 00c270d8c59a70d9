-- ===== src/Connectors/Tests/Syncs.antt =====
-- A sync of one connector: once its driver answers with two rows, and once its pull raises.
use open_civic.Common.{◌≡◌, refl, true, Option, none, some, List, [], ◌∷◌, length, arith}
use open_civic.Common.Table.{Found, find, Found-insert}
use open_civic.Ingest.Pipeline.History.{Ingests, no_versions}
use open_civic.Ingest.Samples.{library, empty_world}
use open_civic.Connectors.{Connector, active, closed, is_open}
use open_civic.Connectors.Breaker.{IsConsistent}
use open_civic.Connectors.Sync.{Row, Drivers, SyncWorld, Call, done, pulled, sync_connector}
use open_civic.Connectors.Sync.Effects.{sync_connector_sound}

abbrev station : Connector
station = record {
  name = "station";
  type_name = "rest_api";
  config = [];
  status = active;
  last_sync_at = none;
  next_sync_at = some 90;
  sync_frequency = none;
  circuit_state = closed;
  failure_count = 2;
  created_by = some 7;
  dataset_id = some 4;
  created_at = 20;
}

abbrev row : Row
row = ("place", some "Bonn") ∷ []

abbrev answers : Option (List (List Row)) → Drivers
answers batches = record {
  get_connector = λ c. some (record { test_connection = (true, "ok"); pull = λ since. batches });
  to_csv = λ rows. length rows ∷ [];
  library = library;
}

abbrev before : SyncWorld
before = record { connectors = (1, station) ∷ []; world = empty_world }

abbrev call : Call
call = record {
  connector_id = 1;
  now = 100;
  threshold = 5;
  raw_key = "raw/9.csv";
  new_version = 60;
  ingest_keys = record {
    first_node = 1;
    second_node = 2;
    third_node = 3;
    first_edge = 10;
    second_edge = 11;
  };
  sync_keys = record {
    first_node = 4;
    second_node = 5;
    third_node = 6;
    first_edge = 12;
    second_edge = 13;
  };
}

abbrev two_batches : Option (List (List Row))
two_batches = some ((row ∷ []) ∷ (row ∷ []) ∷ [])

two_rows : (sync_connector (answers two_batches) call before).0 ≡ done (pulled 2)
unfolding sync_connector find
two_rows = refl

no_connectors : Found (IsConsistent 5) []
unfolding find
no_connectors k c e = cc

consistent : Found (IsConsistent 5) before.connectors
unfolding is_open
consistent = Found-insert (IsConsistent 5) 1 station [] no_connectors refl

sync_connector_sound_example :
    Found (IsConsistent 5) (sync_connector (answers two_batches) call before).1.connectors
    × Ingests (sync_connector (answers two_batches) call before).1.world
sync_connector_sound_example =
    sync_connector_sound (answers two_batches) call before (omega arith) consistent
      (no_versions refl)
