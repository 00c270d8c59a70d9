-- ===== src/Ingest/Samples.antt =====
-- Files, tables and readers that the tests of the ingest share.
use text.Mathlib.Text.{◌==◌ as str_eq}
use open_civic.Common.{if◌then◌else◌, true, false, Option, none, some, [], ◌∷◌}
use open_civic.Catalog.{
  Dataset, StorageKey, raw_path, parquet_path, published, standard, fresh, daily,
}
use open_civic.Lineage.Graph.{Keys}
use open_civic.Ingest.Upload.{Bytes}
use open_civic.Ingest.Inference.{Frame, FrameColumn}
use open_civic.Ingest.Pipeline.{World, Library, Request, Report, run}

abbrev pub weather : Dataset
weather = record {
  title = "Weather";
  description = none;
  status = published;
  access_level = "public";
  licence_id = some 3;
  publisher_id = 7;
  quality_score = some 8000;
  staleness_state = fresh;
  update_frequency = some daily;
  last_refreshed_at = some 90;
  embargo_until = none;
  metadata = [];
  row_count = none;
  file_size_bytes = none;
  schema_snapshot = none;
  tags = [];
  workflow_variant = standard;
  created_at = 10;
  published_at = some 20;
}

abbrev pub place : FrameColumn
place = record { name = "place"; dtype = "object"; has_missing = false }

abbrev pub height : FrameColumn
height = record { name = "height"; dtype = "int64"; has_missing = true }

abbrev pub narrow : Frame
narrow = record { columns = place ∷ []; rows = 12 }

abbrev pub wide : Frame
wide = record { columns = place ∷ height ∷ []; rows = 15 }

abbrev pub csv_frame : Bytes → Option Frame
csv_frame [] = none
csv_frame (b ∷ []) = some narrow
csv_frame (b ∷ c ∷ bs) = some wide

abbrev pub library : Library
library = record {
  scanner = record { clamav_enabled = true; reply = λ sent. some "stream: OK" };
  readers = record {
    detect = λ b. none;
    read_csv = λ encoding sep b. csv_frame b;
    read_json = λ encoding lines b. none;
    read_parquet = λ b. none;
    read_excel = λ engine b. none;
    extract_tables = λ b. none;
    data_frame = λ rows. narrow;
  };
  to_parquet = λ f. f.rows ∷ [];
}

abbrev pub keys : Keys
keys = record { first_node = 1; second_node = 2; third_node = 3; first_edge = 10; second_edge = 11 }

abbrev pub first_file : Request
first_file = record {
  dataset_id = 4;
  storage_key = "raw/1";
  filename = "A.CSV";
  publisher_id = some 7;
  now = 100;
  new_version = 60;
  new_keys = keys;
}

abbrev pub second_file : Request
second_file = record first_file { storage_key = "raw/2"; new_version = 61 }

abbrev pub absent_file : Request
absent_file = record first_file { storage_key = "raw/3" }

abbrev pub stored : StorageKey → Option Bytes
stored (raw_path s) =
    if str_eq s "raw/1" then some (1 ∷ []) else if str_eq s "raw/2" then some (1 ∷ 2 ∷ []) else none
stored (parquet_path d n) = none

abbrev pub empty_world : World
empty_world = record {
  tables = record {
    datasets = (4, weather) ∷ [];
    versions = [];
    events = [];
    lineage = record { nodes = []; edges = [] };
  };
  objects = stored;
}

abbrev pub one_version : World
one_version = (run library first_file empty_world).1

abbrev pub first_report : Report
first_report = record { dataset_id = 4; version_number = 1; row_count = 12 }
