-- ===== src/Ingest/Upload/Roundtrip.antt =====
-- A file that is sent chunk by chunk comes out whole.
use open_civic.Common.{
  ℕ, zero, suc, ◌+◌, ◌≤◌, ◌<◌, ◌≡◌, refl, ap, sym, String, true, false, inl, inr, Option, some, [],
  ◌++◌, leb, ◌==◌, ==_refl, ==_iff, Bool-cases, lt→ltb, le→ltb, length, arith,
}
use open_civic.Common.Cache.{cache_get-cache_set_later}
use open_civic.Ingest.Upload.{
  Bytes, UploadSession, part, raw, same_key, Store, Result, ok, ◌>>=◌, put, chunks_of,
  create_session, load_session, count_received, store_chunk, collect_parts, complete_session,
  set_session,
}

pub le→leb_true : (a b : ℕ) → a ≤ b → leb a b ≡ true
le→leb_true a b h = ground arith

positive : (a : ℕ) → 0 < a → (a == 0) ≡ false
positive a h = ground arith

pub lt→leb : (a b : ℕ) → a < b → leb b a ≡ false
lt→leb a b h = ground arith

-- A session that was written is read back for an hour.
pub load_session-set_session :
    (id now later : ℕ) (v : UploadSession) (s : Store)
    → later < now + 3600
    → load_session later id (set_session now id v s) ≡ ok v
unfolding load_session set_session
load_session-set_session id now later v s soon = rw (
  cache_get-cache_set_later now later id id 3600 v s.sessions (omega arith),
  ==_refl id,
  lt→ltb later (now + 3600) soon,
  load_session,
  set_session,
)

module _ (contents : ℕ → Bytes) where
  -- The file whose chunks from an index on are the given ones.
  unfoldable pub joined : ℕ → ℕ → Bytes
  joined zero i = []
  joined (suc n) i = contents i ++ joined n (suc i)

  -- The client's calls: the chunks in order, each at its time.
  unfoldable pub send_chunks : (ℕ → ℕ) → ℕ → ℕ → Store → Result Store
  send_chunks clock id zero s = ok s
  send_chunks clock id (suc k) s =
      send_chunks clock id k s >>= λ s'. store_chunk (clock k) id k (contents k) s' >>= λ r. ok r.1

  collect_parts-eq-joined :
      (get : ℕ → Option Bytes) (n i : ℕ)
      → ((j : ℕ) → j < i + n → get j ≡ some (contents j))
      → collect_parts get n i ≡ ok (joined n i)
  unfolding collect_parts joined
  collect_parts-eq-joined get zero i h = refl
  collect_parts-eq-joined get (suc n) i h =
      let rest = collect_parts-eq-joined get n (suc i) (λ j lt. h j (omega arith)) in
      rw (h i (omega arith), rest, collect_parts)

  module _ (id : ℕ) (u : UploadSession) where
    -- After `k` chunks: the session can be read, and the chunks are there.
    abbrev Sent : ℕ → ℕ → Store → Type 0
    Sent now k s =
        (load_session now id s ≡ ok (record u { received_chunks = k }))
        × ((j : ℕ) → j < k → s.objects (part u.dataset_id id j) ≡ some (contents j))

    counted :
        (k : ℕ)
        → count_received k (record u { received_chunks = k }) ≡ record u { received_chunks = suc k }
    unfolding count_received
    counted k = rw (le→leb_true k k (omega arith)) refl

    objects-put :
        (k j : ℕ) (s : Store)
        → ((i : ℕ) → i < k → s.objects (part u.dataset_id id i) ≡ some (contents i))
        → j < suc k
        → (put (part u.dataset_id id k) (contents k) s).objects (part u.dataset_id id j)
          ≡ some (contents j)
    unfolding put same_key
    objects-put k j s h lt = elim (Bool-cases (j == k)) [
      | inl same ↦
          rw (same, ==_refl u.dataset_id, ==_refl id)
            (ap (λ i. some (contents i)) (sym ((==_iff j k).0 same)))
      | inr other ↦ rw (other, ==_refl u.dataset_id, ==_refl id) (h j (ground arith))
    ]

    store_chunk-Sent :
        (now later k : ℕ) (s : Store)
        → k < u.total_chunks
        → later < now + 3600
        → Sent now k s
        → (s' : Store) × (v : UploadSession) × (store_chunk now id k (contents k) s ≡ ok (v, s'))
          × Sent later (suc k) s'
    unfolding store_chunk set_session
    store_chunk-Sent now later k s in_range soon h =
        let key = part u.dataset_id id k in
        let u' : UploadSession = record u { received_chunks = suc k } in
        (
          set_session now id u' (put key (contents k) s),
          u',
          rw (h.0, counted k, lt→leb k u.total_chunks in_range, store_chunk),
          (
            load_session-set_session id now later u' (put key (contents k) s) soon,
            λ j lt. objects-put k j s h.1 lt,
          ),
        )

    send_chunks-Sent :
        (clock : ℕ → ℕ) (n : ℕ) (s : Store)
        → ((i : ℕ) → clock (suc i) < clock i + 3600)
        → n ≤ u.total_chunks
        → Sent (clock 0) 0 s
        → (s' : Store) × (send_chunks clock id n s ≡ ok s') × Sent (clock n) n s'
    unfolding send_chunks
    send_chunks-Sent clock zero s soon le h = (s, refl, h)
    send_chunks-Sent clock (suc k) s soon le h =
        let (s', e, h') = send_chunks-Sent clock k s soon (omega arith) h in
        let (s2, v, e2, h2) =
          store_chunk-Sent (clock k) (clock (suc k)) k s' (omega arith) (soon k) h' in
        (s2, rw (e, e2) refl, h2)

    complete_session-Sent :
        (now upload_id : ℕ) (s : Store)
        → length (joined u.total_chunks 0) ≡ u.total_size
        → Sent now u.total_chunks s
        → complete_session now id upload_id s
          ≡ ok (
            (raw u.dataset_id upload_id u.extension, u.filename),
            put (raw u.dataset_id upload_id u.extension) (joined u.total_chunks 0) s,
          )
    unfolding complete_session
    complete_session-Sent now upload_id s size h =
        let parts =
          collect_parts-eq-joined (λ i. s.objects (part u.dataset_id id i)) u.total_chunks 0
            (λ j lt. h.1 j (omega arith)) in
        rw (
          h.0,
          le→ltb u.total_chunks u.total_chunks (omega arith),
          parts,
          size,
          ==_refl u.total_size,
          complete_session,
        )

  -- A file whose chunks are sent in order, each call less than an hour after the last, is put
  -- together as it was, under the key that completing the session returns with its name.
  pub complete_session-send_chunks :
      (max_bytes now id dataset_id publisher_id upload_id total_size : ℕ)
      (filename extension : String) (clock : ℕ → ℕ) (s : Store)
      → 0 < total_size
      → total_size ≤ max_bytes
      → length (joined (chunks_of total_size) 0) ≡ total_size
      → clock 0 < now + 3600
      → ((i : ℕ) → clock (suc i) < clock i + 3600)
      → (u : UploadSession) × (s0 : Store) × (s1 : Store) × (s2 : Store) × (create_session max_bytes
            now id dataset_id publisher_id filename extension total_size s
          ≡ ok (u, s0))
        × (send_chunks clock id (chunks_of total_size) s0 ≡ ok s1)
        × (complete_session (clock (chunks_of total_size)) id upload_id s1
            ≡ ok ((raw dataset_id upload_id extension, filename), s2))
        × (s2.objects (raw dataset_id upload_id extension) ≡ some (joined (chunks_of total_size) 0))
  unfolding create_session put same_key set_session
  complete_session-send_chunks max_bytes now id dataset_id publisher_id upload_id total_size
        filename extension clock s pos small size start soon =
      let u : UploadSession = record {
        dataset_id = dataset_id;
        filename = filename;
        extension = extension;
        total_size = total_size;
        total_chunks = chunks_of total_size;
        received_chunks = 0;
        publisher_id = publisher_id;
      } in
      let s0 = set_session now id u s in
      let read = load_session-set_session id now (clock 0) u s start in
      let (s1, sent, h) =
        send_chunks-Sent id u clock (chunks_of total_size) s0 soon (omega arith)
          (read, λ j lt. absurd (omega arith)) in
      (
        u,
        s0,
        s1,
        put (raw dataset_id upload_id extension) (joined (chunks_of total_size) 0) s1,
        rw (positive total_size pos, le→ltb max_bytes total_size small, create_session),
        sent,
        complete_session-Sent id u (clock (chunks_of total_size)) upload_id s1 size h,
        rw (==_refl dataset_id, ==_refl upload_id, put, same_key),
      )
