-- ===== src/Ingest/Scanner.antt =====
-- backend/app/services/ingest/virus_scanner.py. The daemon is an argument: what it answers to the
-- frames of one stream, or none where the connection fails.
pub mod Frames
use open_civic.Common.{
  ℕ, zero, suc, String, Bool, true, false, not, ◌&&◌, Option, none, some, List, [], ◌∷◌, take, drop,
  length, if◌then◌else◌,
}
use open_civic.Common.Text.{is_empty, strip, mentions, lower_mentions}
use open_civic.Ingest.Upload.{Bytes}
use open_civic.Ingest.Errors.{Result, ok, failed, virus_scanner_unavailable, virus_scan_failed}

pub record Scanner : Type 0 where
  pub clamav_enabled : Bool
  pub reply : List Bytes → Option String

abbrev pub chunk_size : ℕ
chunk_size = 2048

-- The loop of `scan_bytes`: `data[offset : offset + chunk_size]` while bytes are left.
unfoldable pub frames_from : ℕ → Bytes → List Bytes
frames_from fuel [] = []
frames_from zero (b ∷ bs) = []
frames_from (suc fuel) (b ∷ bs) =
    take chunk_size (b ∷ bs) ∷ frames_from fuel (drop chunk_size (b ∷ bs))

-- Each frame takes a byte or more.
unfoldable pub frames : Bytes → List Bytes
unfolding frames_from
frames content = frames_from (length content) content

unfoldable pub judge : String → Result (Unit {0})
unfolding is_empty mentions lower_mentions
judge response =
    if is_empty response
    then failed virus_scan_failed
    else if mentions response "FOUND"
    then failed virus_scan_failed
    else if not (mentions response "OK") && not (lower_mentions response "ok")
    then failed virus_scan_failed
    else ok tt

unfoldable pub scan_bytes : Scanner → Bytes → Result (Unit {0})
unfolding frames judge strip
scan_bytes s content =
    if s.clamav_enabled
    then (elim (s.reply (frames content)) [
      | none ↦ failed virus_scanner_unavailable
      | some response ↦ judge (strip response)
    ])
    else ok tt
