-- ===== src/Notifications/InApp.antt =====
-- `InAppNotificationService` of backend/app/services/notifications/in_app_service.py, in the keyspace
-- of one tenant: a Valkey list for each user, with its expiry.
pub mod Reading
use open_civic.Common.{
  ℕ, suc, ◌+◌, ◌-◌, ◌≡◌, String, Bool, true, false, not, ◌&&◌, Option, none, some, List, [], ◌∷◌,
  ◌++◌, ◌==◌, if◌then◌else◌, take, map, get_or, ltb,
}
use open_civic.Common.Cache.{Cache, cache_get, cache_set}

pub record Notification : Type 0 where
  pub id : ℕ
  pub title : String
  pub body : String
  pub event_type : String
  pub link : Option String
  pub is_read : Bool
  pub created_at : ℕ

-- A stored text: the JSON of a notification, or a text that cannot be decoded.
pub data Raw : Type 0 where
  item : Notification → Raw
  broken : String → Raw

abbrev pub Inbox : Type 0
Inbox = Cache (List Raw)  -- notify:{tenant}:{user}

abbrev pub max_notifications : ℕ
max_notifications = 100

abbrev pub ttl_seconds : ℕ
ttl_seconds = 7776000

-- The list of a user, empty where the key is not there.
unfoldable pub all_items : ℕ → ℕ → Inbox → List Raw
all_items now user_id s = get_or (cache_get now user_id s) []

-- `push`: `lpush`, `ltrim` and `expire`.
unfoldable pub push : ℕ → ℕ → Notification → Inbox → Inbox
unfolding all_items
push now user_id n s =
    cache_set now user_id (take max_notifications (item n ∷ all_items now user_id s))
      (some ttl_seconds) s

unfoldable pub decode : List Raw → List Notification
decode [] = []
decode (item n ∷ rs) = n ∷ decode rs
decode (broken s ∷ rs) = decode rs

-- `list_for_user`; `lrange` includes its last index.
unfoldable pub list_for_user : ℕ → ℕ → ℕ → Inbox → List Notification
unfolding decode all_items
list_for_user now user_id limit s = decode (take (suc (limit - 1)) (all_items now user_id s))

unfoldable pub count_unread : List Notification → ℕ
count_unread [] = 0
count_unread (n ∷ ns) = (if n.is_read then 0 else 1) + count_unread ns

-- `unread_count`
unfoldable pub unread_count : ℕ → ℕ → Inbox → ℕ
unfolding count_unread
unread_count now user_id s = count_unread (list_for_user now user_id max_notifications s)

-- The two loops: what is stored again, by the test of the notifications to mark.
unfoldable pub mark : (Notification → Bool) → List Raw → List Raw
mark p [] = []
mark p (broken s ∷ rs) = broken s ∷ mark p rs
mark p (item n ∷ rs) = item (if p n then record n { is_read = true } else n) ∷ mark p rs

unfoldable pub count_marked : (Notification → Bool) → List Raw → ℕ
count_marked p [] = 0
count_marked p (broken s ∷ rs) = count_marked p rs
count_marked p (item n ∷ rs) = (if p n then 1 else 0) + count_marked p rs

unfoldable pub reversed : List Raw → List Raw
reversed [] = []
reversed (r ∷ rs) = reversed rs ++ (r ∷ [])

-- `delete`, `rpush(*reversed(updated))` and `expire`, where something was marked.
unfoldable pub mark_where : ℕ → ℕ → (Notification → Bool) → Inbox → ℕ × Inbox
unfolding mark count_marked reversed all_items
mark_where now user_id p s =
    let raw_items = take max_notifications (all_items now user_id s) in
    let count = count_marked p raw_items in
    (
      count,
      if ltb 0 count
          then cache_set now user_id (reversed (mark p raw_items)) (some ttl_seconds) s
          else s,
    )

-- `mark_read`
unfoldable pub mark_read : ℕ → ℕ → ℕ → Inbox → Bool × Inbox
mark_read now user_id id s =
    let (count, s') = mark_where now user_id (λ n. n.id == id && not n.is_read) s in
    (ltb 0 count, s')

-- `mark_all_read`
unfoldable pub mark_all_read : ℕ → ℕ → Inbox → ℕ × Inbox
mark_all_read now user_id s = mark_where now user_id (λ n. not n.is_read) s
