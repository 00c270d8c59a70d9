-- ===== src/Session/Model.antt =====
-- The rows of backend/app/db/models/tenant.py that one tenant's session sees (row-level security
-- hides the others), the queues that a service writes to, and the steps of a service: they return
-- or raise, and what was written before a raise stays written until the session rolls back.
use open_civic.Common.{ℕ, String, Bool, true, false, Option, none, some, List}
use open_civic.Common.Table.{Table, find}
use open_civic.Catalog.{Dataset, Status, Blob, StorageKey}

pub data EventType : Type 0 where
  dataset_submitted dataset_published dataset_pending_approval dataset_rejected : EventType
  dataset_changes_requested dataset_archived dataset_scheduled dataset_ingested : EventType
  workflow_sla_breached schema_drift_detected user_provisioned user_suspended : EventType

unfoldable pub EventType-discrete : Discrete EventType
EventType-discrete = hlevel

-- The payload documents that the services build.
pub data Payload : Type 0 where
  empty : Payload
  notes : String → Payload
  review_notes : String → ℕ → Payload
  sla : ℕ → Option ℕ → Payload
  provisioned : String → Option String → Payload
  suspended : String → String → ℕ → ℕ → ℕ → Payload
  drifted : List String → List String → List (String × String × String) → Payload
  ingested : ℕ → ℕ → StorageKey → StorageKey → Payload

pub data Actor : Type 0 where
  user system : Actor

pub record Event : Type 0 where
  pub event_type : EventType
  pub aggregate_id : ℕ
  pub aggregate_type : String
  pub actor_id : Option ℕ
  pub actor_type : Actor
  pub payload : Payload

-- `WorkflowSubmission`
pub record Submission : Type 0 where
  pub dataset_id : ℕ
  pub maker_id : ℕ
  pub checker_id : Option ℕ
  pub approver_id : Option ℕ
  pub status : Status
  pub maker_notes : Option String
  pub checker_notes : Option String
  pub approver_notes : Option String
  pub submitted_at : ℕ
  pub review_due_at : Option ℕ
  pub reviewed_at : Option ℕ
  pub approved_at : Option ℕ
  pub sla_breached : Bool

pub data Activity : Type 0 where
  active inactive : Activity

pub record Webhook : Type 0 where
  pub url : String
  pub secret : Blob
  pub events : List EventType
  pub dataset_id : Option ℕ
  pub status : Activity
  pub last_delivery_at : Option ℕ
  pub failure_count : ℕ
  pub created_by : ℕ

pub data UserStatus : Type 0 where
  active suspended : UserStatus

pub record User : Type 0 where
  pub email : String
  pub name : String
  pub roles : List String
  pub status : UserStatus
  pub mfa_enabled : Bool
  pub scim_external_id : Option String
  pub created_at : ℕ
  pub deleted_at : Option ℕ

-- What is handed to Celery and to the notification lists, in order.
pub data Task : Type 0 where
  deliver_webhook : ℕ → EventType → Payload → ℕ → Task
  index_dataset_search : ℕ → Task
  send_email : String → String → ℕ → ℕ → Task
  push_notification : ℕ → String → EventType → Task

pub record Db : Type 0 where
  pub datasets : Table Dataset
  pub submissions : Table Submission
  pub webhooks : Table Webhook
  pub users : Table User
  pub events : List Event  -- the newest last
  pub tasks : List Task

-- The error classes of backend/app/core/errors.py that the services raise.
pub data Error : Type 0 where
  dataset_not_found submission_not_found validation_error data_not_available : Error
  self_approval_not_allowed invalid_workflow_transition user_not_found user_conflict : Error

pub data Step (A : Type 0) : Type 0 where
  returned : A → Db → Step A
  raised : Error → Db → Step A

abbrev pub Action : Type 0 → Type 0
Action A = Db → Step A

infixl 5 ◌>>=◌ ◌>>◌
abbrev pub ◌>>=◌ : {A B : Type 0} → Action A → (A → Action B) → Action B
◌>>=◌ m f db = elim (m db) [ returned a db' ↦ f a db' | raised e db' ↦ raised e db' ]

abbrev pub ◌>>◌ : {A B : Type 0} → Action A → Action B → Action B
m >> k = m >>= λ _. k

abbrev pub pure : {A : Type 0} → A → Action A
pure a db = returned a db

abbrev pub raise : {A : Type 0} → Error → Action A
raise e db = raised e db

abbrev pub guard : Bool → Error → Action (Unit {0})
guard true e = pure tt
guard false e = raise e

abbrev pub modify : (Db → Db) → Action (Unit {0})
modify f db = returned tt (f db)

abbrev pub required : {A : Type 0} → Option A → Error → Action A
required none e = raise e
required (some a) e = pure a

abbrev pub final : {A : Type 0} → Step A → Db
final (returned a db) = db
final (raised e db) = db

-- `get_write_session`: the session commits at the end and rolls back on an exception. What was
-- handed to the queues is not part of the transaction.
unfoldable pub in_session : {A : Type 0} → Action A → Action A
in_session m db = elim (m db) [
  | returned a db' ↦ returned a db'
  | raised e db' ↦ raised e (record db { tasks = db'.tasks })
]

-- The row of a dataset, or `DatasetNotFound`.
abbrev pub get_dataset : ℕ → Action Dataset
get_dataset k db = required (find k db.datasets) dataset_not_found db

abbrev pub get_submission : ℕ → Action Submission
get_submission k db = required (find k db.submissions) submission_not_found db
