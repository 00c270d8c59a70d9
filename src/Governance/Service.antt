-- ===== src/Governance/Service.antt =====
-- `WorkflowService` of backend/app/services/governance/workflow_service.py: `_emit_event`,
-- `submit`, `review`, `approve` and `archive`. The clock's readings and the new primary key are
-- arguments.
pub mod Laws
pub mod Separation
pub mod Gates
use mathlib.Core.Logic.{ite}
use mathlib.Core.List.{foldl}
use open_civic.Common.{
  ℕ, ◌+◌, ◌*◌, String, Bool, true, false, not, ◌&&◌, ◌||◌, Option, none, some, List, [], ◌∷◌, ◌++◌,
  ltb, ◌==◌, if◌then◌else◌, holds, is_some,
}
use open_civic.Common.Table.{update, insert, select, find, Table}
use open_civic.Catalog.{
  Dataset, Status, Variant, standard, high_sensitivity, pending_review, changes_requested,
  pending_approval, published, rejected, archived,
}
use open_civic.Catalog.Quality.{compute_quality_score}
use open_civic.Session
use open_civic.Session.{
  EventType, EventType-discrete, dataset_submitted, dataset_published, dataset_pending_approval,
  dataset_rejected, dataset_changes_requested, dataset_archived, Payload, user, Submission, Db,
  Action, ◌>>=◌, ◌>>◌, pure, raise, guard, modify, get_dataset, get_submission, validation_error,
  data_not_available, self_approval_not_allowed, invalid_workflow_transition, index_dataset_search,
}
use open_civic.Session.Events.{publish, enqueue_matching_webhooks}
use open_civic.Governance.Transitions.{assert_transition}

-- `notes or None`
abbrev pub or_none : String → Option String
or_none String.[] = none
or_none s = some s

-- `_emit_event`
unfoldable pub emit_event : EventType → ℕ → ℕ → Payload → Db → Db
unfolding publish enqueue_matching_webhooks EventType-discrete
emit_event t k actor p db =
    let db' = enqueue_matching_webhooks t k p (
      publish
        (record {
          event_type = t;
          aggregate_id = k;
          aggregate_type = "dataset";
          actor_id = some actor;
          actor_type = user;
          payload = p;
        })
        db) in
    ite (EventType-discrete t dataset_published)
      (record db' { tasks = db'.tasks ++ (index_dataset_search k ∷ []) }) db'

abbrev pub set_dataset : ℕ → (Dataset → Dataset) → Db → Db
set_dataset k f db = record db { datasets = update k f db.datasets }

abbrev pub set_submission : ℕ → (Submission → Submission) → Db → Db
set_submission k f db = record db { submissions = update k f db.submissions }

-- The row that `submit` adds.
abbrev pub new_submission : ℕ → ℕ → ℕ → ℕ → ℕ → String → Submission
new_submission sla_hours now now' dataset_id maker_id notes = record {
  dataset_id = dataset_id;
  maker_id = maker_id;
  checker_id = none;
  approver_id = none;
  status = pending_review;
  maker_notes = or_none notes;
  checker_notes = none;
  approver_notes = none;
  submitted_at = now';
  review_due_at = some (now + sla_hours * 3600);
  reviewed_at = none;
  approved_at = none;
  sla_breached = false;
}

-- `submit`. The submission of the new key is returned.
unfoldable pub submit : ℕ → ℕ → ℕ → ℕ → ℕ → ℕ → String → Action ℕ
unfolding assert_transition
submit sla_hours now now' new_id dataset_id maker_id notes = do
  dataset ← get_dataset dataset_id
  guard (dataset.publisher_id == maker_id) validation_error
  guard (is_some dataset.row_count) data_not_available
  assert_transition dataset.status pending_review
  modify (λ db. record db {
    submissions =
        insert new_id (new_submission sla_hours now now' dataset_id maker_id notes) db.submissions;
  })
  modify (set_dataset dataset_id (λ d. record d { status = pending_review }))
  modify (emit_event dataset_submitted dataset_id maker_id (Payload.notes notes))
  pure new_id

pub data ReviewAction : Type 0 where
  approve_it reject_it request_changes : ReviewAction
  unknown : String → ReviewAction

-- `action_map`
action_map : ReviewAction → Option Status
action_map approve_it = some published
action_map reject_it = some rejected
action_map request_changes = some changes_requested
action_map (unknown a) = none

-- The new status: an approval of a sensitive dataset goes to the second gate.
review_target : ReviewAction → Variant → Status → Status
review_target approve_it high_sensitivity s = pending_approval
review_target _ _ s = s

abbrev is_published : Status → Bool
is_published published = true
is_published _ = false

-- `{"approve": publish_event, …}[action]`
review_event : ReviewAction → Status → EventType
review_event approve_it s = if is_published s then dataset_published else dataset_pending_approval
review_event reject_it s = dataset_rejected
review_event request_changes s = dataset_changes_requested
review_event (unknown a) s = dataset_pending_approval

overdue : Option ℕ → ℕ → Bool
overdue none now = false
overdue (some due) now = ltb due now

reviewed : ℕ → ℕ → Status → String → Submission → Submission
unfolding overdue
reviewed now checker_id new_status notes s = record s {
  checker_id = some checker_id;
  status = new_status;
  checker_notes = or_none notes;
  reviewed_at = some now;
  sla_breached = overdue s.review_due_at now || s.sla_breached;
  approved_at = if is_published new_status then some now else s.approved_at;
}

-- The values that a review writes to the dataset's row.
review_values : ℕ → Status → Dataset → Dataset
review_values now new_status d =
    if is_published new_status
    then record d {
      status = new_status;
      published_at = some now;
      quality_score = some (compute_quality_score d);
    }
    else record d { status = new_status }

-- The rest of `review` once the action is known to map to `mapped`.
review_as : ReviewAction → Status → ℕ → ℕ → ℕ → String → Submission → Action ℕ
unfolding assert_transition review_target review_event reviewed review_values emit_event
review_as action mapped now submission_id checker_id notes submission = do
  dataset ← get_dataset submission.dataset_id
  let new_status = review_target action dataset.workflow_variant mapped
  assert_transition submission.status new_status
  modify (set_submission submission_id (reviewed now checker_id new_status notes))
  modify (set_dataset submission.dataset_id (review_values now new_status))
  modify (
      emit_event (review_event action new_status) submission.dataset_id checker_id
        (Payload.review_notes notes submission_id))
  pure submission_id

-- `review`
unfoldable pub review : ℕ → ℕ → ℕ → ReviewAction → String → Action ℕ
unfolding review_as action_map
review now submission_id checker_id action notes = do
  submission ← get_submission submission_id
  guard (not (submission.maker_id == checker_id)) self_approval_not_allowed
  mapped ← Session.required (action_map action) invalid_workflow_transition
  review_as action mapped now submission_id checker_id notes submission

unfoldable pub approved : ℕ → ℕ → String → Submission → Submission
approved now approver_id notes s = record s {
  approver_id = some approver_id;
  status = published;
  approver_notes = or_none notes;
  approved_at = some now;
}

-- `approve`
unfoldable pub approve : ℕ → ℕ → ℕ → String → Action ℕ
unfolding assert_transition approved emit_event
approve now submission_id approver_id notes = do
  submission ← get_submission submission_id
  guard (not (submission.maker_id == approver_id || holds submission.checker_id approver_id))
      self_approval_not_allowed
  assert_transition submission.status published
  modify (set_submission submission_id (approved now approver_id notes))
  modify (
      set_dataset submission.dataset_id
        (λ d. record d { status = published; published_at = some now }))
  dataset ← get_dataset submission.dataset_id
  modify (
      set_dataset submission.dataset_id
        (λ d. record d { quality_score = some (compute_quality_score dataset) }))
  modify (emit_event dataset_published submission.dataset_id approver_id Payload.empty)
  pure submission_id

-- `archive`
unfoldable pub archive : ℕ → ℕ → Action ℕ
unfolding assert_transition emit_event
archive dataset_id actor_id = do
  dataset ← get_dataset dataset_id
  assert_transition dataset.status archived
  modify (set_dataset dataset_id (λ d. record d { status = archived }))
  modify (emit_event dataset_archived dataset_id actor_id Payload.empty)
  pure dataset_id
