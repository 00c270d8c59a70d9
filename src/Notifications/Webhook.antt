-- ===== src/Notifications/Webhook.antt =====
-- `deliver_webhook_by_id` of backend/app/services/notifications/webhook_service.py, and
-- backend/app/repositories/webhook_repository.py but its list. The encrypted secret of a new webhook
-- is an argument, and so is what the HTTP client answers.
pub mod Counters
use mathlib.Core.Logic.{ite}
use open_civic.Common.{
  ℕ, suc, ◌+◌, ◌≡◌, String, Bool, true, false, not, ◌&&◌, Option, none, some, List, [], ◌∷◌, leb,
  ◌==◌, if◌then◌else◌, all,
}
use open_civic.Common.Table.{Table, find, insert, update, delete}
use open_civic.Catalog.{Blob}
use open_civic.Session
use open_civic.Session.{
  Webhook, Activity, active, inactive, EventType, dataset_published, dataset_rejected,
  dataset_submitted, dataset_archived, dataset_scheduled,
}

-- What the POST comes to: a response, or an `httpx.HTTPError`.
pub data Reply : Type 0 where
  replied : ℕ → String → Reply  -- status code, and the start of the body
  broken : String → Reply

pub data Delivery : Type 0 where
  not_found not_active : Delivery
  http_error : ℕ → String → Delivery
  error : String → Delivery
  ok : ℕ → Delivery

unfoldable pub is_active : Webhook → Bool
is_active w = elim w.status [ active ↦ true | inactive ↦ false ]

one_failure : Webhook → Webhook
one_failure w = record w { failure_count = suc w.failure_count }

delivered : ℕ → Webhook → Webhook
delivered now w = record w { last_delivery_at = some now; failure_count = 0 }

-- What follows the POST.
unfoldable pub record_reply : ℕ → ℕ → Reply → Table Webhook → Delivery × Table Webhook
unfolding one_failure delivered
record_reply now k (broken e) t = (error e, update k one_failure t)
record_reply now k (replied status body) t =
    if leb 400 status
    then (http_error status body, update k one_failure t)
    else (ok status, update k (delivered now) t)

-- `deliver_webhook_by_id`, with the answer of the subscriber.
unfoldable pub deliver_webhook_by_id : ℕ → ℕ → Reply → Table Webhook → Delivery × Table Webhook
deliver_webhook_by_id now k reply t = elim (find k t) [
  | none ↦ (not_found, t)
  | some w ↦ if is_active w then record_reply now k reply t else (not_active, t)
]

-- `get_for_owner`: nothing where the source raises.
unfoldable pub get_for_owner : ℕ → ℕ → Table Webhook → Option Webhook
get_for_owner k owner_id t = elim (find k t) [
  | none ↦ none
  | some w ↦ if w.created_by == owner_id then some w else none
]

allowed_event : EventType → Bool
allowed_event dataset_published = true
allowed_event dataset_rejected = true
allowed_event dataset_submitted = true
allowed_event dataset_archived = true
allowed_event dataset_scheduled = true
allowed_event _ = false

-- `create`: nothing where an event is not allowed.
unfoldable pub create :
    ℕ → ℕ → String → Blob → List EventType → Option ℕ → Table Webhook → Option (Table Webhook)
unfolding allowed_event
create key owner_id url secret events dataset_id t =
    if not (all allowed_event events)
    then none
    else some (
        insert key
          (record {
            url = url;
            secret = secret;
            events = events;
            dataset_id = dataset_id;
            status = active;
            last_delivery_at = none;
            failure_count = 0;
            created_by = owner_id;
          })
          t)

-- `delete`
unfoldable pub remove : ℕ → ℕ → Table Webhook → Option (Table Webhook)
unfolding get_for_owner
remove k owner_id t = elim (get_for_owner k owner_id t) [ none ↦ none | some w ↦ some (delete k t) ]
