-- ===== src/Ingest/Upload/Gaps.antt =====
-- What a completed upload had, and what the count of chunks does not show.
use open_civic.Common.{
  ℕ, zero, suc, ◌+◌, ◌≤◌, ◌<◌, ◌≡◌, ◌⊎◌, refl, ap, sym, subst, ◌∙◌, String, inl, inr, Option, none,
  some, ltb, ◌==◌, ==_refl, ==_iff, le→ltb, ne→==, Bool-cases, Option-cases, length, arith,
}
use open_civic.Ingest.Upload.Roundtrip.{load_session-set_session, lt→leb, le→leb_true}
use open_civic.Ingest.Upload.{
  Bytes, UploadSession, ObjectKey, part, raw, same_key, Store, Result, ok, failed, UploadError,
  no_such_object, put, load_session, count_received, store_chunk, collect_parts, complete_session,
  set_session,
}

Result-cases :
    {A : Type 0} (r : Result A) → ((a : A) × (r ≡ ok a)) ⊎ ((e : UploadError) × (r ≡ failed e))
Result-cases (ok a) = inl (a, refl)
Result-cases (failed e) = inr (e, refl)

ok≢failed : {A : Type 0} {a : A} {e : UploadError} → ¬ (ok a ≡ failed e)
ok≢failed {a = a} h = cc

-- Where collecting the parts returns, every part is there.
collect_parts-present :
    (get : ℕ → Option Bytes) (n i j : ℕ) (b : Bytes)
    → collect_parts get n i ≡ ok b
    → i ≤ j
    → j < i + n
    → (c : Bytes) × (get j ≡ some c)
unfolding collect_parts
collect_parts-present get zero i j b e le lt = absurd (omega arith)
collect_parts-present get (suc n) i j b e le lt = elim (Option-cases (get i)) [
  | inl missing ↦ absurd (ok≢failed (sym (rw (missing, collect_parts) at e)))
  | inr (c, there) ↦ elim (Bool-cases (i == j)) [
    | inl same ↦ (c, subst (λ k. get k ≡ some c) ((==_iff i j).0 same) there)
    | inr other ↦ elim (Result-cases (collect_parts get n (suc i))) [
      | inl (rest, e') ↦ collect_parts-present get n (suc i) j rest e' (ground arith) (omega arith)
      | inr (x, e') ↦ absurd (ok≢failed (sym (rw (there, e', collect_parts) at e)))
    ]
  ]
]

-- A missing part ends the collection.
collect_parts-missing :
    (get : ℕ → Option Bytes) (n : ℕ)
    → 0 < n
    → get 0 ≡ none
    → collect_parts get n 0 ≡ failed no_such_object
unfolding collect_parts
collect_parts-missing get zero pos e = absurd (omega arith)
collect_parts-missing get (suc n) pos e = rw (e, collect_parts)

look : Result ((ObjectKey × String) × Store) → Option Bytes
look (ok ((k, f), s)) = s.objects k
look (failed e) = none

stored :
    (upload_id d : ℕ) (x f : String) (b : Bytes) (s s' : Store) (r : ObjectKey × String)
    → ◌≡◌ {A = Result ((ObjectKey × String) × Store)}
        (ok ((raw d upload_id x, f), put (raw d upload_id x) b s))
        (ok (r, s'))
    → s'.objects r.0 ≡ some b
unfolding look put same_key
stored upload_id d x f b s s' r e = sym (ap look e) ∙ rw (==_refl d, ==_refl upload_id) refl

-- A completion that returns had every part of the session, and the object that it stores has the
-- declared size.
pub complete_session_returned :
    (now id upload_id : ℕ) (s s' : Store) (r : ObjectKey × String)
    → complete_session now id upload_id s ≡ ok (r, s')
    → (u : UploadSession) × (merged : Bytes) × (load_session now id s ≡ ok u)
      × (u.total_chunks ≤ u.received_chunks)
      × ((j : ℕ) → j < u.total_chunks → (b : Bytes) × (s.objects (part u.dataset_id id j) ≡ some b))
      × (length merged ≡ u.total_size)
      × (s'.objects r.0 ≡ some merged)
unfolding complete_session put
complete_session_returned now id upload_id s s' r e = elim (Result-cases (load_session now id s)) [
  | inr (x, e1) ↦ absurd (ok≢failed (sym (rw (e1, complete_session) at e)))
  | inl (u, e1) ↦ elim (Bool-cases (ltb u.received_chunks u.total_chunks)) [
    | inl few ↦ absurd (ok≢failed (sym (rw (e1, few, complete_session) at e)))
    | inr enough ↦
        elim (Result-cases
          (collect_parts (λ i. s.objects (part u.dataset_id id i)) u.total_chunks 0)) [
            | inr (x, e2) ↦ absurd (ok≢failed (sym (rw (e1, enough, e2, complete_session) at e)))
            | inl (merged, e2) ↦ elim (Bool-cases (length merged == u.total_size)) [
              | inr other ↦
                  absurd (ok≢failed (sym (rw (e1, enough, e2, other, complete_session) at e)))
              | inl same ↦ (
                u,
                merged,
                e1,
                ground arith,
                λ j lt.
                    collect_parts-present (λ i. s.objects (part u.dataset_id id i)) u.total_chunks 0
                      j merged e2 (omega arith) (omega arith),
                (==_iff (length merged) u.total_size).0 same,
                stored upload_id u.dataset_id u.extension u.filename merged s s' r
                    (rw (e1, enough, e2, same, complete_session) at e),
              )
            ]
          ]
  ]
]

count_first :
    (last : ℕ) (u : UploadSession)
    → u.received_chunks ≡ 0
    → count_received last u ≡ record u { received_chunks = suc last }
unfolding count_received
count_first last u e = rw (le→leb_true u.received_chunks last (omega arith), count_received)

objects-put_first :
    (d id last : ℕ) (content : Bytes) (s : Store)
    → 0 < last
    → s.objects (part d id 0) ≡ none
    → (put (part d id last) content s).objects (part d id 0) ≡ none
unfolding put same_key
objects-put_first d id last content s some_more missing =
    rw (==_refl d, ==_refl id, ne→== 0 last (omega arith)) missing

-- Where nothing was received and the first part is missing, the last of several chunks alone makes
-- the session count as received, and completing it fails on the storage client.
pub complete_session-store_chunk_last :
    (now later id upload_id last : ℕ) (content : Bytes) (u : UploadSession) (s : Store)
    → load_session now id s ≡ ok u
    → u.received_chunks ≡ 0
    → u.total_chunks ≡ suc last
    → 0 < last
    → s.objects (part u.dataset_id id 0) ≡ none
    → later < now + 3600
    → (s' : Store) × (store_chunk now id last content s
        ≡ ok (record u { received_chunks = suc last }, s'))
      × (complete_session later id upload_id s' ≡ failed no_such_object)
unfolding store_chunk complete_session set_session
complete_session-store_chunk_last now later id upload_id last content u s e none_yet total some_more
      missing soon =
    let u' : UploadSession = record u { received_chunks = suc last } in
    let s1 = put (part u.dataset_id id last) content s in
    let counted : count_received last u ≡ u' = count_first last u none_yet in
    let read = load_session-set_session id now later u' s1 soon in
    let gap = objects-put_first u.dataset_id id last content s some_more missing in
    (
      set_session now id u' s1,
      rw (e, counted, lt→leb last u.total_chunks (omega arith), store_chunk),
      rw (
        read,
        le→ltb (suc last) u.total_chunks (omega arith),
        collect_parts-missing (λ i. (set_session now id u' s1).objects (part u.dataset_id id i))
            u.total_chunks (omega arith) gap,
        complete_session,
      ),
    )
