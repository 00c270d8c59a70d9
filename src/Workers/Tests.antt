-- ===== src/Workers/Tests.antt =====
-- A pass over three tenants, and one upload that comes twice.
use open_civic.Common.{
  ℕ, ◌≡◌, refl, false, none, some, [], ◌∷◌, ◌==◌, if◌then◌else◌, contains, arith,
}
use open_civic.Common.Cache.{empty}
use open_civic.Common.Order.{order_by}
use open_civic.Common.Table.{find}
use open_civic.Session.{Db, Submission, in_session, returned, raised, dataset_not_found}
use open_civic.Catalog.{pending_review}
use open_civic.Governance.Queue.{flag_sla_breaches}
use open_civic.Ingest.Samples.{library, empty_world, first_file, second_file, first_report}
use open_civic.Workers.Uploads.{Worker, success, already_processed, process_upload}
use open_civic.Workers.Uploads.Once.{process_upload-again}
use open_civic.Workers.Tenants.{Databases, stopped, set_db, check_workflow_sla_breaches}
use open_civic.Workers.Tenants.Order.{none_left, next, run_for_all_tenants_stops}

abbrev quiet : Db
quiet = record {
  datasets = [];
  submissions = [];
  webhooks = [];
  users = [];
  events = [];
  tasks = [];
}

abbrev orphan : Submission
orphan = record {
  dataset_id = 9;
  maker_id = 7;
  checker_id = none;
  approver_id = none;
  status = pending_review;
  maker_notes = none;
  checker_notes = none;
  approver_notes = none;
  submitted_at = 10;
  review_due_at = some 20;
  reviewed_at = none;
  approved_at = none;
  sla_breached = false;
}

-- The second tenant has a submission whose dataset is missing.
abbrev three : Databases
three = λ k. if k == 2 then record quiet { submissions = (50, orphan) ∷ [] } else quiet

handler_stops : in_session (flag_sla_breaches 100) (three 2) ≡ raised dataset_not_found (three 2)
unfolding in_session flag_sla_breaches order_by find
handler_stops = refl

handler_returns : in_session (flag_sla_breaches 100) (three 1) ≡ returned [] quiet
unfolding in_session flag_sla_breaches order_by find
handler_returns = refl

run_for_all_tenants_stops_example :
    ((check_workflow_sla_breaches 100 (1 ∷ 2 ∷ 3 ∷ []) three).0 ≡ stopped 2 dataset_not_found)
    × ((j : ℕ)
        → contains (1 ∷ []) j ≡ false
        → (j == 2) ≡ false
        → (check_workflow_sla_breaches 100 (1 ∷ 2 ∷ 3 ∷ []) three).1 j ≡ three j)
unfolding check_workflow_sla_breaches
run_for_all_tenants_stops_example =
    run_for_all_tenants_stops (λ k. flag_sla_breaches 100) (1 ∷ []) (3 ∷ []) 2 dataset_not_found
      (three 2) three (set_db 1 quiet three) (next handler_returns none_left) handler_stops

abbrev idle : Worker
idle = record { processed = empty; world = empty_world }

first_succeeds : (process_upload 100 5 library first_file idle).0 ≡ success first_report
unfolding process_upload find
first_succeeds = refl

process_upload-again_example :
    process_upload 200 5 library second_file (process_upload 100 5 library first_file idle).1
    ≡ (already_processed, (process_upload 100 5 library first_file idle).1)
process_upload-again_example =
    process_upload-again 100 200 5 library library first_file second_file idle first_report
      first_succeeds (omega arith)
