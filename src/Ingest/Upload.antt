-- ===== src/Ingest/Upload.antt =====
-- `ChunkedUploadService` of backend/app/services/ingest/chunked_upload_service.py, in the keyspace of
-- one tenant. The storage client is a map of its objects whose `get` raises on a missing key; new
-- identifiers are arguments. Sizes and indices are natural numbers.
pub mod Roundtrip
pub mod Gaps
use open_civic.Common.{
  ℕ, zero, suc, ◌+◌, ◌-◌, ◌/◌, ◌≡◌, String, Bool, true, false, not, ◌&&◌, Option, none, some, List,
  [], ◌∷◌, ◌++◌, ltb, leb, ◌==◌, if◌then◌else◌, length,
}
use open_civic.Common.Cache.{Cache, cache_get, cache_set}

abbrev pub Bytes : Type 0
Bytes = List ℕ

pub record UploadSession : Type 0 where
  pub dataset_id : ℕ
  pub filename : String
  pub extension : String
  pub total_size : ℕ
  pub total_chunks : ℕ
  pub received_chunks : ℕ
  pub publisher_id : ℕ

-- The keys of `_chunk_key` and `raw_storage_key`.
pub data ObjectKey : Type 0 where
  part : ℕ → ℕ → ℕ → ObjectKey  -- dataset, session, index
  raw : ℕ → ℕ → String → ObjectKey  -- dataset, upload, extension

-- The extension is last in a name: two names of one upload are told apart by the rest.
unfoldable pub same_key : ObjectKey → ObjectKey → Bool
same_key (part d s i) (part d' s' i') = d == d' && s == s' && i == i'
same_key (raw d u x) (raw d' u' x') = d == d' && u == u'
same_key _ _ = false

pub record Store : Type 0 where
  pub sessions : Cache UploadSession  -- upload_session:{tenant}:{session_id}
  pub objects : ObjectKey → Option Bytes

pub data UploadError : Type 0 where
  empty_file file_too_large session_not_found invalid_chunk_index : UploadError
  missing_chunks size_mismatch no_such_object : UploadError

pub data Result (A : Type 0) : Type 0 where
  ok : A → Result A
  failed : UploadError → Result A

infixl 5 ◌>>=◌
abbrev pub ◌>>=◌ : {A B : Type 0} → Result A → (A → Result B) → Result B
r >>= f = elim r [ ok a ↦ f a | failed e ↦ failed e ]

abbrev pub chunk_size_bytes : ℕ
chunk_size_bytes = 5242880

abbrev pub session_ttl_seconds : ℕ
session_ttl_seconds = 3600

unfoldable pub put : ObjectKey → Bytes → Store → Store
put k b s = record s { objects = λ j. if same_key j k then some b else s.objects j }

unfoldable pub set_session : ℕ → ℕ → UploadSession → Store → Store
set_session now id u s = record s {
  sessions = cache_set now id u (some session_ttl_seconds) s.sessions;
}

unfoldable pub chunks_of : ℕ → ℕ
chunks_of total_size = (total_size + chunk_size_bytes - 1) / chunk_size_bytes

-- `create_session`, with `UPLOAD_MAX_BYTES` and the new identifier.
unfoldable pub create_session :
    ℕ → ℕ → ℕ → ℕ → ℕ → String → String → ℕ → Store → Result (UploadSession × Store)
unfolding chunks_of set_session
create_session max_bytes now id dataset_id publisher_id filename extension total_size s =
    if total_size == 0
    then failed empty_file
    else if ltb max_bytes total_size
    then failed file_too_large
    else (let u : UploadSession = record {
      dataset_id = dataset_id;
      filename = filename;
      extension = extension;
      total_size = total_size;
      total_chunks = chunks_of total_size;
      received_chunks = 0;
      publisher_id = publisher_id;
    } in
        ok (u, set_session now id u s))

-- `_load_session`
unfoldable pub load_session : ℕ → ℕ → Store → Result UploadSession
load_session now id s = elim (cache_get now id s.sessions) [
  | none ↦ failed session_not_found
  | some u ↦ ok u
]

unfoldable pub count_received : ℕ → UploadSession → UploadSession
count_received index u =
    if leb u.received_chunks index then record u { received_chunks = suc index } else u

-- `store_chunk`
unfoldable pub store_chunk : ℕ → ℕ → ℕ → Bytes → Store → Result (UploadSession × Store)
unfolding set_session
store_chunk now id index content s = load_session now id s >>= λ u.
    if leb u.total_chunks index
    then failed invalid_chunk_index
    else ok (
      count_received index u,
      set_session now id (count_received index u) (put (part u.dataset_id id index) content s),
    )

-- The parts from an index on, joined; `get` raises on a part that is not there.
unfoldable pub collect_parts : (ℕ → Option Bytes) → ℕ → ℕ → Result Bytes
collect_parts get zero index = ok []
collect_parts get (suc n) index = elim (get index) [
  | none ↦ failed no_such_object
  | some b ↦ collect_parts get n (suc index) >>= λ rest. ok (b ++ rest)
]

-- `complete_session`: the key of the merged object, and the file's name.
unfoldable pub complete_session : ℕ → ℕ → ℕ → Store → Result ((ObjectKey × String) × Store)
complete_session now id upload_id s = load_session now id s >>= λ u.
    if ltb u.received_chunks u.total_chunks
    then failed missing_chunks
    else (collect_parts (λ i. s.objects (part u.dataset_id id i)) u.total_chunks 0 >>= λ merged.
        if not (length merged == u.total_size)
        then failed size_mismatch
        else (let key = raw u.dataset_id upload_id u.extension in
            ok ((key, u.filename), put key merged s)))
