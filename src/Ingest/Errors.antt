-- ===== src/Ingest/Errors.antt =====
-- The errors of backend/app/core/errors.py that the ingest pipeline raises, and its results.
use open_civic.Common.{Option, none, some}
use open_civic.Ingest.Drift.{SchemaDriftResult}

pub data IngestError : Type 0 where
  storage_error virus_scanner_unavailable virus_scan_failed : IngestError
  invalid_file_format schema_inference_error dataset_not_found : IngestError
  schema_drift : SchemaDriftResult → IngestError

pub data Result (A : Type 0) : Type 0 where
  ok : A → Result A
  failed : IngestError → Result A

infixl 5 ◌>>=◌ ◌>>◌
abbrev pub ◌>>=◌ : {A B : Type 0} → Result A → (A → Result B) → Result B
r >>= f = elim r [ ok a ↦ f a | failed e ↦ failed e ]

abbrev pub ◌>>◌ : {A B : Type 0} → Result A → Result B → Result B
r >> s = r >>= λ _. s

abbrev pub from_option : {A : Type 0} → IngestError → Option A → Result A
from_option e none = failed e
from_option e (some a) = ok a
