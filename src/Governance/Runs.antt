-- ===== src/Governance/Runs.antt =====
-- Every sequence of the workflow's calls, in any order and with any outcome: the calls of
-- backend/app/services/governance/workflow_service.py as steps of a relation on the database.
use open_civic.Common.{ℕ, String, ◌≡◌, refl, sym, subst, arith}
use open_civic.Common.Table.{Found}
use open_civic.Session.{Db, final}
use open_civic.Governance.Service.{submit, review, approve, archive, ReviewAction}
use open_civic.Governance.Service.Separation.{
  IsSeparated, AllSeparated, submit-AllSeparated, review-AllSeparated, approve-AllSeparated,
}
use open_civic.Governance.Embargo.{DateTime, Crypto, schedule_embargo, check_embargo_releases}
use open_civic.Governance.Queue.{flag_sla_breaches}
use open_civic.Governance.Queue.Keeps.{flag_sla_breaches-AllSeparated}

module _ (c : Crypto) where
  -- One call, returned or raised.
  pub data Call : Db → Db → Type 0 where
    submit_call :
        (db : Db) (hours now now' new k maker : ℕ) (notes : String)
        → Call db (final (submit hours now now' new k maker notes db))
    review_call :
        (db : Db) (now id checker : ℕ) (action : ReviewAction) (notes : String)
        → Call db (final (review now id checker action notes db))
    approve_call :
        (db : Db) (now id approver : ℕ) (notes : String)
        → Call db (final (approve now id approver notes db))
    archive_call : (db : Db) (k actor : ℕ) → Call db (final (archive k actor db))
    schedule_call :
        (db : Db) (now k : ℕ) (t : DateTime) (actor : ℕ)
        → Call db (final (schedule_embargo c now k t actor db))
    release_call : (db : Db) (now : ℕ) → Call db (final (check_embargo_releases c now db))
    flag_call : (db : Db) (now : ℕ) → Call db (final (flag_sla_breaches now db))

  pub data Reach (db : Db) : Db → Type 0 where
    here : Reach db db
    next : {db' db'' : Db} → Reach db db' → Call db' db'' → Reach db db''

  archive-submissions :
      (k actor : ℕ) (db : Db) → (final (archive k actor db)).submissions ≡ db.submissions
  unfolding archive
  archive-submissions k actor db = ground arith

  schedule_embargo-submissions :
      (now k : ℕ) (t : DateTime) (actor : ℕ) (db : Db)
      → (final (schedule_embargo c now k t actor db)).submissions ≡ db.submissions
  unfolding schedule_embargo
  schedule_embargo-submissions now k t actor db = ground arith

  check_embargo_releases-submissions :
      (now : ℕ) (db : Db) → (final (check_embargo_releases c now db)).submissions ≡ db.submissions
  unfolding check_embargo_releases
  check_embargo_releases-submissions now db = refl

  Call-AllSeparated : {db db' : Db} → Call db db' → AllSeparated db → AllSeparated db'
  Call-AllSeparated (submit_call db hours now now' new k maker notes) h =
      submit-AllSeparated hours now now' new k maker notes db h
  Call-AllSeparated (review_call db now id checker action notes) h =
      review-AllSeparated now id checker action notes db h
  Call-AllSeparated (approve_call db now id approver notes) h =
      approve-AllSeparated now id approver notes db h
  Call-AllSeparated (archive_call db k actor) h =
      subst (Found IsSeparated) (sym (archive-submissions k actor db)) h
  Call-AllSeparated (schedule_call db now k t actor) h =
      subst (Found IsSeparated) (sym (schedule_embargo-submissions now k t actor db)) h
  Call-AllSeparated (release_call db now) h =
      subst (Found IsSeparated) (sym (check_embargo_releases-submissions now db)) h
  Call-AllSeparated (flag_call db now) h = flag_sla_breaches-AllSeparated now db h

  -- In every database that any sequence of workflow calls, returned or raised, leads to, no
  -- submission has equal maker and checker, maker and approver or checker and approver, and an
  -- approver stands only on a published submission.
  pub Reach-AllSeparated : {db db' : Db} → AllSeparated db → Reach db db' → AllSeparated db'
  Reach-AllSeparated h here = h
  Reach-AllSeparated h (next r s) = Call-AllSeparated s (Reach-AllSeparated h r)
