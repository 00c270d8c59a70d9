-- ===== src/Workers/Uploads.antt =====
-- The task `process_upload`: an ingest under an idempotency key. The hash that makes the key is not
-- modelled, keys are numbers.
pub mod Once
use open_civic.Common.{ℕ, String, Bool, true, false, Option, none, some, if◌then◌else◌}
use open_civic.Common.Text.{is_empty}
use open_civic.Common.Cache.{Cache, cache_get, cache_set}
use open_civic.Ingest.Errors.{Result, ok, failed, IngestError}
use open_civic.Ingest.Pipeline.{World, Library, Request, Report, run}

pub record Worker : Type 0 where
  pub processed : Cache String  -- idempotency:{hash}
  pub world : World

pub data TaskResult : Type 0 where
  success : Report → TaskResult
  already_processed : TaskResult
  raised : IngestError → TaskResult

abbrev pub idempotency_ttl_seconds : ℕ
idempotency_ttl_seconds = 86400

-- `cached = await cache_get(idem_key)`, as a truth value.
unfoldable pub was_processed : ℕ → ℕ → Cache String → Bool
unfolding cache_get is_empty
was_processed now idem_key c = elim (cache_get now idem_key c) [
  | none ↦ false
  | some text ↦ if is_empty text then false else true
]

unfoldable pub remember : ℕ → ℕ → Cache String → Result Report × World → TaskResult × Worker
unfolding cache_set
remember now idem_key c (ok report, w) = (
  success report,
  record { processed = cache_set now idem_key "done" (some idempotency_ttl_seconds) c; world = w },
)
remember now idem_key c (failed e, w) = (raised e, record { processed = c; world = w })

unfoldable pub process_upload : ℕ → ℕ → Library → Request → Worker → TaskResult × Worker
unfolding was_processed remember run
process_upload now idem_key lib req s =
    if was_processed now idem_key s.processed
    then (already_processed, s)
    else remember now idem_key s.processed (run lib req s.world)
