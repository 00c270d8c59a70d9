-- ===== src/Ingest/Tests.antt =====
-- A file of three bytes, and one of two chunks of which the last is sent alone.
mod Runs
use open_civic.Common.{ℕ, ◌+◌, ◌≤◌, ◌<◌, ◌≡◌, refl, none, some, [], ◌∷◌, length, arith}
use open_civic.Common.Cache.{empty, cache_get, cache_set}
use open_civic.Ingest.Upload.{
  Bytes, UploadSession, part, raw, Store, ok, failed, no_such_object, chunks_of, create_session,
  load_session, store_chunk, complete_session, collect_parts, put, set_session, same_key,
}
use open_civic.Ingest.Upload.Roundtrip.{joined, send_chunks, complete_session-send_chunks}
use open_civic.Ingest.Upload.Gaps.{complete_session_returned, complete_session-store_chunk_last}

abbrev nothing_stored : Store
nothing_stored = record { sessions = empty; objects = λ k. none }

abbrev file : ℕ → Bytes
file i = 1 ∷ 2 ∷ 3 ∷ []

abbrev clock : ℕ → ℕ
clock i = 100 + i

complete_session-send_chunks_example :
    (u : UploadSession) × (s0 s1 s2 : Store) × (create_session 50 90 1 2 3 "a.csv" "csv" 3
        nothing_stored
      ≡ ok (u, s0))
    × (send_chunks file clock 1 (chunks_of 3) s0 ≡ ok s1)
    × (complete_session (clock (chunks_of 3)) 1 7 s1 ≡ ok ((raw 2 7 "csv", "a.csv"), s2))
    × (s2.objects (raw 2 7 "csv") ≡ some (joined file (chunks_of 3) 0))
unfolding joined chunks_of
complete_session-send_chunks_example =
    complete_session-send_chunks file 50 90 1 2 3 7 3 "a.csv" "csv" clock nothing_stored
      (omega arith) (omega arith) refl (omega arith) (λ i. omega arith)

abbrev half : UploadSession
half = record {
  dataset_id = 2;
  filename = "a.csv";
  extension = "csv";
  total_size = 5242881;
  total_chunks = 2;
  received_chunks = 0;
  publisher_id = 3;
}

abbrev opened : Store
opened = set_session 90 1 half nothing_stored

complete_session-store_chunk_last_example :
    (s' : Store) × (store_chunk 95 1 1 (7 ∷ []) opened
      ≡ ok (record half { received_chunks = 2 }, s'))
    × (complete_session 99 1 8 s' ≡ failed no_such_object)
unfolding load_session cache_get cache_set set_session
complete_session-store_chunk_last_example =
    complete_session-store_chunk_last 95 99 1 8 1 (7 ∷ []) half opened refl refl refl (omega arith)
      refl (omega arith)

-- A session whose only chunk is there.
abbrev whole : UploadSession
whole = record half { total_size = 3; total_chunks = 1; received_chunks = 1 }

abbrev filled : Store
filled = put (part 2 1 0) (1 ∷ 2 ∷ 3 ∷ []) (set_session 90 1 whole nothing_stored)

abbrev merged : Store
merged = put (raw 2 8 "csv") (1 ∷ 2 ∷ 3 ∷ []) filled

complete_session_returned_example :
    (u : UploadSession) × (b : Bytes) × (load_session 99 1 filled ≡ ok u)
    × (u.total_chunks ≤ u.received_chunks)
    × ((j : ℕ)
        → j < u.total_chunks
        → (c : Bytes) × (filled.objects (part u.dataset_id 1 j) ≡ some c))
    × (length b ≡ u.total_size)
    × (merged.objects (raw 2 8 "csv") ≡ some b)
unfolding load_session cache_get cache_set set_session put complete_session collect_parts same_key
complete_session_returned_example =
    complete_session_returned 99 1 8 filled merged (raw 2 8 "csv", "a.csv") refl
