-- ===== src/Notifications/Tests.antt =====
-- An inbox of two notifications, and a webhook.
use open_civic.Common.Table.{find}
use open_civic.Session.{Webhook, active}
use open_civic.Notifications.Webhook.{replied, broken, is_active}
use open_civic.Notifications.Webhook.Counters.{deliver_all, deliver_all_lem, fails}
use open_civic.Common.{[], some, ◌≡◌, refl, false, none, ◌∷◌}
use open_civic.Common.Cache.{empty}
use open_civic.Notifications.InApp.{Notification, Inbox, push}

abbrev first : Notification
first = record {
  id = 1;
  title = "Submitted";
  body = "River levels";
  event_type = "dataset.submitted";
  link = none;
  is_read = false;
  created_at = 10;
}

abbrev second : Notification
second = record first { id = 2; title = "Published" }

inbox : Inbox
inbox = push 20 5 second (push 10 5 first empty)

abbrev subscriber : Webhook
subscriber = record {
  url = "https://a";
  secret = [];
  events = [];
  dataset_id = none;
  status = active;
  last_delivery_at = none;
  failure_count = 4;
  created_by = 7;
}

deliver_all_lem_example :
    (v : Webhook) × (find 1 (
        deliver_all 1
          ((10, broken "refused") ∷ (20, replied 200 "") ∷ (30, replied 500 "") ∷ [])
          ((1, subscriber) ∷ []))
      ≡ some v)
    × (v.failure_count ≡ 1)
    × (v.last_delivery_at ≡ some 20)
unfolding find is_active fails
deliver_all_lem_example =
    deliver_all_lem 1 20 ((10, broken "refused") ∷ []) ((30, replied 500 "") ∷ []) (replied 200 "")
      ((1, subscriber) ∷ []) subscriber refl refl refl (refl, tt)
