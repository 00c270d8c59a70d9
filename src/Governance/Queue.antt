-- ===== src/Governance/Queue.antt =====
-- backend/app/repositories/workflow_repository.py: the queues, the overdue list and the summary;
-- and `flag_sla_breaches` of backend/app/services/governance/workflow_service.py.
pub mod Sla
pub mod Keeps
use mathlib.Core.Logic.{ite}
use text.Mathlib.Text.{◌==◌ as str_eq}
use open_civic.Common.{
  ℕ, ◌-◌, ◌*◌, ◌+◌, String, Bool, true, false, not, ◌&&◌, ◌||◌, Option, none, some, List, [], ◌∷◌,
  ◌++◌, ltb, leb, ◌==◌, if◌then◌else◌, length, any,
}
use open_civic.Common.Table.{Table, select, find, update}
use open_civic.Common.Order.{order_by}
use open_civic.Catalog.{
  Status, Status-discrete, pending_review, changes_requested, pending_approval, published, Dataset,
}
use open_civic.Session
use open_civic.Session.{
  Submission, Db, Action, ◌>>=◌, ◌>>◌, pure, modify, get_dataset, Task, push_notification,
  send_email, workflow_sla_breached, Payload, User,
}
use open_civic.Governance.Service.{emit_event, set_submission}

-- `status == s`
unfoldable pub has_status : Status → Submission → Bool
unfolding Status-discrete
has_status s r = ite (Status-discrete r.status s) true false

abbrev pub earlier : ℕ × Submission → ℕ × Submission → Bool
earlier (i, r) (j, s) = leb r.submitted_at s.submitted_at

-- `get_by_id`, which raises on a missing row.
unfoldable pub get_by_id : ℕ → Action Submission
get_by_id k = Session.get_submission k

unfoldable pub list_pending_review : Db → Table Submission
unfolding has_status
list_pending_review db =
    order_by earlier (select (λ k r. has_status pending_review r) db.submissions)

unfoldable pub list_pending_approval : Db → Table Submission
unfolding has_status
list_pending_approval db =
    order_by earlier (select (λ k r. has_status pending_approval r) db.submissions)

unfoldable pub is_open : Submission → Bool
unfolding has_status
is_open r =
    has_status pending_review r || has_status changes_requested r || has_status pending_approval r

first : Table Submission → Option (ℕ × Submission)
first [] = none
first (x ∷ xs) = some x

-- The newest open submission of a dataset.
unfoldable pub get_active_for_dataset : ℕ → Db → Option (ℕ × Submission)
unfolding is_open first
get_active_for_dataset dataset_id db = first (
    order_by (λ x y. earlier y x)
      (select (λ k r. r.dataset_id == dataset_id && is_open r) db.submissions))

past : ℕ → Option ℕ → Bool
past now none = false
past now (some due) = ltb due now

due_at : ℕ × Submission → ℕ
due_at (k, r) = elim r.review_due_at [ none ↦ 0 | some due ↦ due ]

unfoldable pub is_overdue : ℕ → Submission → Bool
unfolding past has_status
is_overdue now r =
    (has_status pending_review r || has_status pending_approval r)
    && not r.sla_breached
    && past now r.review_due_at

unfoldable pub list_overdue_pending : ℕ → Db → Table Submission
unfolding is_overdue due_at
list_overdue_pending now db =
    order_by (λ x y. leb (due_at x) (due_at y)) (select (λ k r. is_overdue now r) db.submissions)

pub record Summary : Type 0 where
  pub pending_review : ℕ
  pub pending_approval : ℕ
  pub changes_requested : ℕ
  pub sla_breached : ℕ
  pub published_last_30_days : ℕ
  pub report_days : ℕ

recent : ℕ → Dataset → Bool
unfolding Status-discrete
recent since d =
    ite (Status-discrete d.status published) true false
    && elim d.published_at [ none ↦ false | some t ↦ leb since t ]

-- `governance_summary`
unfoldable pub governance_summary : ℕ → ℕ → Db → Summary
unfolding has_status recent
governance_summary now days db =
    let count_status = λ (s : Status). length (select (λ k r. has_status s r) db.submissions) in
    record {
      pending_review = count_status Status.pending_review;
      pending_approval = count_status Status.pending_approval;
      changes_requested = count_status Status.changes_requested;
      sla_breached = length (select (λ k r. r.sla_breached) db.submissions);
      published_last_30_days = length (select (λ k d. recent (now - days * 86400) d) db.datasets);
      report_days = days;
    }

-- `User.roles.contains(["data_steward"])`
is_steward : List String → Bool
is_steward roles = any (λ role. str_eq role "data_steward") roles

-- The notices to one steward.
notices : ℕ → ℕ → String → Table User → List Task
notices id dataset_id title [] = []
notices id dataset_id title ((steward, u) ∷ us) =
    push_notification steward title workflow_sla_breached
    ∷ send_email u.email "OpenCivic: review SLA breached" id steward
    ∷ notices id dataset_id title us

-- The body of the loop of `flag_sla_breaches`.
flag : ℕ × Submission → Action (Unit {0})
unfolding notices emit_event is_steward
flag (id, r) = do
  modify (set_submission id (λ s. record s { sla_breached = true }))
  modify (emit_event workflow_sla_breached r.dataset_id r.maker_id (Payload.sla id r.review_due_at))
  dataset ← get_dataset r.dataset_id
  modify (λ db. record db {
    tasks =
        db.tasks
        ++ notices id r.dataset_id dataset.title (select (λ k u. is_steward u.roles) db.users);
  })

flag_all : Table Submission → Action (List ℕ)
flag_all [] = pure []
flag_all ((id, r) ∷ rs) = do flag (id, r); flagged ← flag_all rs; pure (id ∷ flagged)

-- `flag_sla_breaches`
unfoldable pub flag_sla_breaches : ℕ → Action (List ℕ)
unfolding flag flag_all list_overdue_pending
flag_sla_breaches now db = flag_all (list_overdue_pending now db) db
