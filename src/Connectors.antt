-- ===== src/Connectors.antt =====
-- Connectors: backend/app/repositories/connector_repository.py with its circuit breaker, and
-- backend/app/services/connectors/connector_sync_history.py. The clock, new keys, the encrypted
-- configuration and the database's order of names are arguments.
pub mod Breaker
pub mod Sync
mod Tests
use open_civic.Common.{
  ℕ, suc, ◌+◌, ◌-◌, ◌≡◌, String, Bool, true, false, not, ◌&&◌, ◌||◌, Option, none, some, List, [],
  ◌∷◌, ◌++◌, ltb, leb, ◌==◌, if◌then◌else◌, take, holds, get_or,
}
use open_civic.Common.Table.{Table, find, insert, update, select}
use open_civic.Common.Order.{order_by}
use open_civic.Catalog.{Blob}

pub data ConnectorStatus : Type 0 where
  active paused error : ConnectorStatus

pub data Circuit : Type 0 where
  closed opened : Circuit

-- `Connector`
pub record Connector : Type 0 where
  pub name : String
  pub type_name : String
  pub config : Blob
  pub status : ConnectorStatus
  pub last_sync_at : Option ℕ
  pub next_sync_at : Option ℕ
  pub sync_frequency : Option String
  pub circuit_state : Circuit
  pub failure_count : ℕ
  pub created_by : Option ℕ
  pub dataset_id : Option ℕ
  pub created_at : ℕ

unfoldable pub is_active : Connector → Bool
is_active c = elim c.status [ active ↦ true | paused ↦ false | error ↦ false ]

unfoldable pub is_open : Connector → Bool
is_open c = elim c.circuit_state [ opened ↦ true | closed ↦ false ]

-- `get_by_id`: nothing where the source raises `ConnectorNotFound`.
unfoldable pub get_by_id : ℕ → Table Connector → Option Connector
get_by_id k t = find k t

first : Table Connector → Option (ℕ × Connector)
first [] = none
first (x ∷ xs) = some x

-- `get_by_dataset_id`
unfoldable pub get_by_dataset_id : ℕ → Table Connector → Option (ℕ × Connector)
unfolding first
get_by_dataset_id dataset_id t = first (select (λ k c. holds c.dataset_id dataset_id) t)

-- `list_all`
unfoldable pub list_all : (String → String → Bool) → Table Connector → Table Connector
list_all name_le t = order_by (λ (i, x) (j, y). name_le x.name y.name) t

-- `create`: due at once.
unfoldable pub create :
    ℕ
    → ℕ
    → String
    → String
    → Blob
    → ℕ
    → Option ℕ
    → Option String
    → Table Connector
    → Table Connector
create now key name type_name config created_by dataset_id sync_frequency t =
    insert key
      (record {
        name = name;
        type_name = type_name;
        config = config;
        status = active;
        last_sync_at = none;
        next_sync_at = some now;
        sync_frequency = sync_frequency;
        circuit_state = closed;
        failure_count = 0;
        created_by = some created_by;
        dataset_id = dataset_id;
        created_at = now;
      })
      t

-- `next_sync_at IS NOT NULL AND next_sync_at <= now`
unfoldable pub is_due : ℕ → Connector → Bool
is_due now c = elim c.next_sync_at [ none ↦ false | some t ↦ leb t now ]

unfoldable pub runs_next : ℕ → Connector → Bool
runs_next now c = is_active c && not (is_open c) && is_due now c

abbrev pub due_before : ℕ × Connector → ℕ × Connector → Bool
due_before (i, x) (j, y) = leb (get_or x.next_sync_at 0) (get_or y.next_sync_at 0)

-- `get_due_syncs`
unfoldable pub get_due_syncs : ℕ → ℕ → Table Connector → Table Connector
get_due_syncs now limit t = take limit (order_by due_before (select (λ k c. runs_next now c) t))

-- `get_open_circuits`
unfoldable pub get_open_circuits : Table Connector → Table Connector
get_open_circuits t = select (λ k c. is_open c) t

unfoldable pub succeeded : ℕ → Connector → Connector
succeeded now c = record c {
  last_sync_at = some now;
  next_sync_at = some (now + 86400);
  failure_count = 0;
  circuit_state = closed;
}

-- `mark_sync_success`: due again after 24 hours.
unfoldable pub mark_sync_success : ℕ → ℕ → Table Connector → Table Connector
mark_sync_success now k t = update k (succeeded now) t

unfoldable pub counted_failure : ℕ → ℕ → Circuit → Connector → Connector
counted_failure threshold failures circuit c = record c {
  failure_count = failures;
  circuit_state = if leb threshold failures then opened else circuit;
}

-- `mark_sync_failure`, which raises where there is no such connector.
unfoldable pub mark_sync_failure : ℕ → ℕ → Table Connector → Option (Table Connector)
unfolding get_by_id
mark_sync_failure threshold k t = elim (get_by_id k t) [
  | none ↦ none
  | some c ↦ some (update k (counted_failure threshold (suc c.failure_count) c.circuit_state) t)
]

-- `close_circuit`
unfoldable pub close_circuit : ℕ → Table Connector → Table Connector
close_circuit k t = update k (λ c. record c { circuit_state = closed; failure_count = 0 }) t

pub data EntryStatus : Type 0 where
  failed success scheduled : EntryStatus

pub data EntrySource : Type 0 where
  last_sync next_sync failure_stub : EntrySource

pub record HistoryEntry : Type 0 where
  pub occurred_at : ℕ
  pub status : EntryStatus
  pub failure_count : ℕ
  pub circuit_state : Circuit
  pub source : EntrySource

has_error : Connector → Bool
has_error c = elim c.status [ error ↦ true | active ↦ false | paused ↦ false ]

entry_of : Connector → ℕ → EntryStatus → EntrySource → HistoryEntry
entry_of c at status source = record {
  occurred_at = at;
  status = status;
  failure_count = c.failure_count;
  circuit_state = c.circuit_state;
  source = source;
}

abbrev pub latest_first : HistoryEntry → HistoryEntry → Bool
latest_first x y = leb y.occurred_at x.occurred_at

-- `build_connector_sync_history`
unfoldable pub build_connector_sync_history : ℕ → ℕ → Connector → List HistoryEntry
unfolding has_error entry_of
build_connector_sync_history now limit c =
    let last : List HistoryEntry = elim c.last_sync_at [
      | none ↦ []
      | some t ↦ entry_of c t (if has_error c then failed else success) last_sync ∷ []
    ] in
    let next : List HistoryEntry = elim c.next_sync_at [
      | none ↦ []
      | some t ↦ if ltb now t then entry_of c t scheduled next_sync ∷ [] else []
    ] in
    let stub : List HistoryEntry =
      if ltb 0 c.failure_count && has_error c
      then entry_of c (get_or c.last_sync_at now - 3600) failed failure_stub ∷ []
      else [] in
    take limit (order_by latest_first (last ++ next ++ stub))
