-- ===== src/Workers/Uploads/Once.antt =====
-- A file is ingested once for each key and day, and a failure does not count.
use open_civic.Common.{
  ℕ, ◌+◌, ◌<◌, ◌≡◌, refl, sym, ap, ◌∙◌, String, true, false, inl, inr, ==_refl, lt→ltb, Bool-cases,
  arith, subst,
}
use open_civic.Common.Text.{is_empty}
use open_civic.Common.Cache.{Cache, cache_get-cache_set_later}
use open_civic.Ingest.Errors.{Result, ok, failed, IngestError}
use open_civic.Ingest.Pipeline.{World, Library, Request, Report, run}
use open_civic.Ingest.Pipeline.Outcome.{run_failed}
use open_civic.Workers.Uploads.{
  Worker, success, already_processed, raised, idempotency_ttl_seconds, was_processed, remember,
  process_upload,
}

remembered :
    (now later idem_key : ℕ) (c : Cache String) (report : Report) (r : Result Report × World)
    → (remember now idem_key c r).0 ≡ success report
    → later < now + idempotency_ttl_seconds
    → was_processed later idem_key (remember now idem_key c r).1.processed ≡ true
unfolding remember was_processed is_empty
remembered now later idem_key c report (failed e, w) h soon = cc h
remembered now later idem_key c report (ok report', w) h soon =
    rw
      (
        cache_get-cache_set_later now later idem_key idem_key idempotency_ttl_seconds "done" c
            (omega arith),
        ==_refl idem_key,
        lt→ltb later (now + idempotency_ttl_seconds) soon,
        was_processed,
      )
      refl

skipped :
    (now idem_key : ℕ) (lib : Library) (req : Request) (s : Worker)
    → was_processed now idem_key s.processed ≡ true
    → process_upload now idem_key lib req s ≡ (already_processed, s)
unfolding process_upload
skipped now idem_key lib req s h = rw (h, process_upload) refl

processed_now :
    (now idem_key : ℕ) (lib : Library) (req : Request) (s : Worker)
    → was_processed now idem_key s.processed ≡ false
    → process_upload now idem_key lib req s
      ≡ remember now idem_key s.processed (run lib req s.world)
unfolding process_upload
processed_now now idem_key lib req s h = rw (h, process_upload) refl

remember_raised :
    (now idem_key : ℕ) (c : Cache String) (e : IngestError) (r : Result Report × World)
    → (remember now idem_key c r).0 ≡ raised e
    → ((e' : IngestError) × (r.0 ≡ failed e'))
      × ((remember now idem_key c r).1 ≡ record { processed = c; world = r.1 })
unfolding remember
remember_raised now idem_key c e (ok report, w) h = cc h
remember_raised now idem_key c e (failed e', w) h = ((e', refl), refl)

-- After an upload task went through, any task under the same idempotency key within a day reports
-- that it was processed and changes nothing.
pub process_upload-again :
    (now later idem_key : ℕ) (lib lib' : Library) (req req' : Request) (s : Worker)
    (report : Report)
    → (process_upload now idem_key lib req s).0 ≡ success report
    → later < now + idempotency_ttl_seconds
    → process_upload later idem_key lib' req' (process_upload now idem_key lib req s).1
      ≡ (already_processed, (process_upload now idem_key lib req s).1)
process_upload-again now later idem_key lib lib' req req' s report h soon =
    elim (Bool-cases (was_processed now idem_key s.processed)) [
      | inl before ↦ cc (sym h ∙ ap (λ p. p.0) (skipped now idem_key lib req s before))
      | inr new ↦
          let opened = processed_now now idem_key lib req s new in
          let kept = remember now idem_key s.processed (run lib req s.world) in
          subst (λ p. process_upload later idem_key lib' req' p.1 ≡ (already_processed, p.1))
            (sym opened)
            (skipped later idem_key lib' req' kept.1 (
              remembered now later idem_key s.processed report (run lib req s.world)
                (sym (ap (λ p. p.0) opened) ∙ h) soon))
    ]

pub process_upload_raised :
    (now idem_key : ℕ) (lib : Library) (req : Request) (s : Worker) (e : IngestError)
    → (process_upload now idem_key lib req s).0 ≡ raised e
    → (process_upload now idem_key lib req s).1 ≡ s
process_upload_raised now idem_key lib req s e h =
    elim (Bool-cases (was_processed now idem_key s.processed)) [
      | inl before ↦ cc (sym h ∙ ap (λ p. p.0) (skipped now idem_key lib req s before))
      | inr new ↦
          let opened = processed_now now idem_key lib req s new in
          let ((e', fails), as_before) =
            remember_raised now idem_key s.processed e (run lib req s.world)
              (sym (ap (λ p. p.0) opened) ∙ h) in
          ap (λ p. p.1) opened
          ∙ as_before
          ∙ ap (λ w. record s { world = w }) (run_failed lib req s.world e' fails)
    ]
