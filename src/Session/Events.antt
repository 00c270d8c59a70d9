-- ===== src/Session/Events.antt =====
-- backend/app/services/events/event_publisher.py, and `enqueue_matching_webhooks` of
-- backend/app/services/notifications/webhook_service.py.
use mathlib.Core.Logic.{ite}
use open_civic.Common.{ℕ, Bool, true, false, ◌&&◌, Option, none, some, List, [], ◌∷◌, ◌++◌, ◌==◌}
use open_civic.Common.Table.{Table, select}
use open_civic.Session.Model.{
  EventType, EventType-discrete, Payload, Event, Webhook, Activity, Task, deliver_webhook, Db,
}

-- `EventPublisher.publish`: the row is appended.
unfoldable pub publish : Event → Db → Db
publish e db = record db { events = db.events ++ (e ∷ []) }

-- `event_type in item.events`
subscribed : EventType → List EventType → Bool
subscribed t [] = false
subscribed t (s ∷ ss) = ite (EventType-discrete t s) true (subscribed t ss)

is_active : Activity → Bool
is_active Activity.active = true
is_active Activity.inactive = false

-- `or_(dataset_id IS NULL, dataset_id = k)`
concerns : ℕ → Option ℕ → Bool
concerns k none = true
concerns k (some j) = j == k

unfoldable pub matches : EventType → ℕ → ℕ → Webhook → Bool
unfolding subscribed is_active concerns
matches t k id w = is_active w.status && concerns k w.dataset_id && subscribed t w.events

deliveries : EventType → ℕ → Payload → Table Webhook → List Task
deliveries t k p [] = []
deliveries t k p ((id, w) ∷ ws) = deliver_webhook id t p k ∷ deliveries t k p ws

-- One task for each active webhook that listens to the event and to the dataset.
unfoldable pub enqueue_matching_webhooks : EventType → ℕ → Payload → Db → Db
unfolding matches deliveries select
enqueue_matching_webhooks t k p db = record db {
  tasks = db.tasks ++ deliveries t k p (select (matches t k) db.webhooks);
}
