-- ===== src/Governance/Tests.antt =====
-- Runs of the workflow on a small database, and the theorems at concrete data.
use open_civic.Common.{
  ℕ, ◌+◌, ◌*◌, ◌≤◌, ◌<◌, ◌≡◌, ◌≢◌, ◌⊎◌, refl, false, Option, none, some, [], ◌∷◌, arith,
}
use open_civic.Common.Table.{find, select, update}
use open_civic.Common.Order.{order_by}
use open_civic.Catalog
use open_civic.Catalog.{
  Dataset, Blob, Status, draft, pending_review, pending_approval, published, scheduled, archived,
  standard, high_sensitivity, fresh, Column,
}
use open_civic.Catalog.Quality.{compute_quality_score, compute_quality_score_bounds}
use open_civic.Session.{Db, Submission, returned, final}
use open_civic.Governance.Transitions.{◌⟶◌}
use open_civic.Governance.Service.{submit, review, approve, emit_event, approve_it, approved}
use open_civic.Governance.Service.Laws.{submit_returned, review_returned, approve_returned}
use open_civic.Governance.Service.Gates.{approve_unreviewed}
use open_civic.Governance.Service.Separation.{AllSeparated}
use open_civic.Governance.Embargo.{
  DateTime, Offset, ahead, behind, instant, Crypto, IsLawful, schedule_embargo,
  check_embargo_releases,
}
use open_civic.Governance.Embargo.Release.{check_embargo_releases-schedule_embargo}
use open_civic.Governance.Queue.{list_overdue_pending}
use open_civic.Governance.Queue.Sla.{ids}
use open_civic.Governance.Runs.{here, next, submit_call, review_call, Reach-AllSeparated}

-- A sensitive dataset of publisher 7, ingested and not yet submitted.
abbrev river : Dataset
river = record {
  title = "River levels";
  description = none;
  status = draft;
  access_level = "public";
  licence_id = some 3;
  publisher_id = 7;
  quality_score = none;
  staleness_state = fresh;
  update_frequency = none;
  last_refreshed_at = some 90;
  embargo_until = none;
  metadata = ("publisher", Catalog.Json.words "Agency") ∷ [];
  row_count = some 120;
  file_size_bytes = some 4096;
  schema_snapshot = some [];
  tags = [];
  workflow_variant = high_sensitivity;
  created_at = 10;
  published_at = none;
}

abbrev start : Db
start = record {
  datasets = (1, river) ∷ (2, record river { workflow_variant = standard }) ∷ [];
  submissions = [];
  webhooks = [];
  users = [];
  events = [];
  tasks = [];
}

-- Both datasets submitted, as submissions 50 and 51.
queued : Db
unfolding submit emit_event update find
queued = final (submit 48 1000 1001 51 2 7 "" (final (submit 48 1000 1001 50 1 7 "" start)))

abbrev first_row : Submission
first_row = record {
  dataset_id = 1;
  maker_id = 7;
  checker_id = none;
  approver_id = none;
  status = pending_review;
  maker_notes = none;
  checker_notes = none;
  approver_notes = none;
  submitted_at = 1001;
  review_due_at = some 173800;
  reviewed_at = none;
  approved_at = none;
  sla_breached = false;
}

abbrev waiting : Dataset
waiting = record river { status = pending_review }

first_found : find 50 queued.submissions ≡ some first_row
unfolding queued
first_found = refl

start-AllSeparated : AllSeparated start
unfolding find
start-AllSeparated k r e = cc

submit_returned_example :
    (d : Dataset) × (find 1 start.datasets ≡ some d)
    × (d.publisher_id ≡ 7)
    × (d.row_count ≢ none)
    × (d.status ⟶ pending_review)
    × (find 1 (final (submit 48 1000 1001 50 1 7 "" start)).datasets
        ≡ some (record d { status = pending_review }))
    × ((s : Submission) × (find 50 (final (submit 48 1000 1001 50 1 7 "" start)).submissions
          ≡ some s)
        × (s.maker_id ≡ 7)
        × (s.dataset_id ≡ 1)
        × (s.status ≡ pending_review)
        × (s.review_due_at ≡ some (1000 + 48 * 3600)))
unfolding queued
submit_returned_example =
    submit_returned 48 1000 1001 50 1 7 "" start (final (submit 48 1000 1001 50 1 7 "" start)) refl

-- The standard dataset of submission 51 is published by its steward.
review_returned_example :
    let db' = final (review 2000 51 8 approve_it "" queued) in
    (s s' : Submission) × (d d' : Dataset) × (find 51 queued.submissions ≡ some s)
    × (find 51 db'.submissions ≡ some s')
    × (find s.dataset_id queued.datasets ≡ some d)
    × (find s.dataset_id db'.datasets ≡ some d')
    × (s.maker_id ≢ 8)
    × (s.status ⟶ s'.status)
    × (s'.checker_id ≡ some 8)
    × (d'.status ≡ s'.status)
    × (s'.status ≡ published → d'.published_at ≡ some 2000)
    × (s'.status ≡ published → d'.quality_score ≡ some (compute_quality_score d))
unfolding queued review
review_returned_example =
    review_returned 2000 51 8 approve_it "" queued (final (review 2000 51 8 approve_it "" queued))
      refl

approve_returned_example :
    let db' = final (approve 2000 50 9 "" queued) in
    (s s' : Submission) × (d d' : Dataset) × (find 50 queued.submissions ≡ some s)
    × (find 50 db'.submissions ≡ some s')
    × (find s.dataset_id queued.datasets ≡ some d)
    × (find s.dataset_id db'.datasets ≡ some d')
    × (s.maker_id ≢ 9)
    × (s.checker_id ≢ some 9)
    × (s.status ⟶ published)
    × (s' ≡ approved 2000 9 "" s)
    × (d'.status ≡ published)
    × (d'.published_at ≡ some 2000)
    × (d'.quality_score ≡ some (compute_quality_score d))
unfolding queued approve
approve_returned_example =
    approve_returned 2000 50 9 "" queued (final (approve 2000 50 9 "" queued)) refl

approve_unreviewed_example :
    (db' : Db) × (s' : Submission) × (d' : Dataset) × (approve 2000 50 9 "" queued
      ≡ returned 50 db')
    × (find 50 db'.submissions ≡ some s')
    × (find 1 db'.datasets ≡ some d')
    × (s'.status ≡ published)
    × (s'.checker_id ≡ none)
    × (d'.status ≡ published)
unfolding queued
approve_unreviewed_example =
    approve_unreviewed 2000 50 9 "" queued first_row waiting first_found refl refl refl
      (omega arith)

-- An encryption that writes the offset and the reading; the length tells the sign.
decode : Blob → Option DateTime
decode (x ∷ o ∷ w ∷ []) = some (record { wall = w; offset = ahead o })
decode (x ∷ o ∷ w ∷ y ∷ []) = some (record { wall = w; offset = behind o })
decode _ = none

encode : ℕ → Offset → Blob
encode w (ahead o) = 1 ∷ o ∷ w ∷ []
encode w (behind o) = 1 ∷ o ∷ w ∷ 0 ∷ []

abbrev plain : Crypto
plain = record { encrypt = λ t. encode t.wall t.offset; decrypt = decode }

decode-encode : (w : ℕ) (z : Offset) → decode (encode w z) ≡ some (record { wall = w; offset = z })
unfolding decode encode
decode-encode w (ahead o) = refl
decode-encode w (behind o) = refl

encode_nonempty : (w : ℕ) (z : Offset) → (x : ℕ) × (xs : Blob) × (encode w z ≡ x ∷ xs)
unfolding encode
encode_nonempty w (ahead o) = (_, _, refl)
encode_nonempty w (behind o) = (_, _, refl)

plain-IsLawful : IsLawful plain
plain-IsLawful = record {
  decrypt-encrypt = λ t. decode-encode t.wall t.offset;
  encrypt_nonempty = λ t. encode_nonempty t.wall t.offset;
}

-- 10:00 in a zone five hours behind UTC, as seconds of a day.
abbrev embargo : DateTime
embargo = record { wall = 36000; offset = behind 18000 }

embargoed : Db
unfolding queued schedule_embargo encode
embargoed = final (schedule_embargo plain 20000 1 embargo 8 queued)

-- At 10:00 UTC the dataset is published, five hours before the instant that was asked for.
check_embargo_releases-schedule_embargo_example :
    (20000 < instant embargo)
    × ((waiting.status ≡ pending_review) ⊎ (waiting.status ≡ pending_approval))
    × (d' : Dataset) × (find 1 (final (check_embargo_releases plain 36000 embargoed)).datasets
        ≡ some d')
    × (36000 ≤ 36000 → d'.status ≡ published)
    × (36000 < 36000 → d'.status ≡ scheduled)
unfolding embargoed check_embargo_releases
check_embargo_releases-schedule_embargo_example =
    check_embargo_releases-schedule_embargo plain plain-IsLawful 20000 36000 1 8 embargo queued
      embargoed (final (check_embargo_releases plain 36000 embargoed)) refl refl refl

flagged_both : ids (list_overdue_pending 200000 queued) ≡ 51 ∷ 50 ∷ []
unfolding queued list_overdue_pending select order_by
flagged_both = refl

Reach-AllSeparated_example : AllSeparated (final (review 2000 51 8 approve_it "" queued))
unfolding queued
Reach-AllSeparated_example = Reach-AllSeparated plain start-AllSeparated (
    next
      (next (next here (submit_call start 48 1000 1001 50 1 7 ""))
        (submit_call _ 48 1000 1001 51 2 7 ""))
      (review_call queued 2000 51 8 approve_it ""))

compute_quality_score_bounds_example :
    (500 ≤ compute_quality_score river) × (compute_quality_score river ≤ 10000)
compute_quality_score_bounds_example = compute_quality_score_bounds river
