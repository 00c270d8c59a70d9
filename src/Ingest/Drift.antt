-- ===== src/Ingest/Drift.antt =====
-- backend/app/services/ingest/schema_drift_service.py. A snapshot is the list of its columns; an
-- absent snapshot is the only one that counts as false.
pub mod Agreement
use Prim.Native.String.{String}
use text.Mathlib.Text.{◌==◌ as str_eq}
use open_civic.Common.{
  Bool, true, false, not, ◌&&◌, ◌||◌, Option, none, some, List, [], ◌∷◌, map, filter, get_or,
  is_some, if◌then◌else◌,
}
use open_civic.Common.Text.{is_empty, text_leb}
use open_civic.Common.Order.{order_by}
use open_civic.Catalog.{Column}

pub record SchemaDriftResult : Type 0 where
  pub has_drift : Bool
  pub added_columns : List String
  pub removed_columns : List String
  pub type_changes : List (String × String × String)

-- A dictionary in the order of its insertions.
abbrev pub Dict : Type 0
Dict = List (String × String)

unfoldable pub lookup : String → Dict → Option String
lookup k [] = none
lookup k ((j, v) ∷ d) = if str_eq j k then some v else lookup k d

-- `d[k] = v`
unfoldable pub set_entry : String → String → Dict → Dict
set_entry k v [] = (k, v) ∷ []
set_entry k v ((j, w) ∷ d) =
    let rest = set_entry k v d in if str_eq j k then (j, v) ∷ d else (j, w) ∷ rest

unfoldable pub add_columns : List Column → Dict → Dict
unfolding set_entry is_empty
add_columns [] d = d
add_columns (c ∷ cs) d = elim c.name [
  | none ↦ add_columns cs d
  | some n ↦ add_columns cs (if is_empty n then d else set_entry n (get_or c.type_name "string") d)
]

-- `_column_map`
unfoldable pub column_map : Option (List Column) → Dict
unfolding add_columns
column_map none = []
column_map (some columns) = add_columns columns []

unfoldable pub names : Dict → List String
names d = map (λ entry. entry.0) d

-- `set(a) - set(b)`, for the names of two maps.
unfoldable pub names_minus : Dict → Dict → List String
unfolding names lookup
names_minus a b = filter (λ n. not (is_some (lookup n b))) (names a)

unfoldable pub changed : Dict → Dict → String → Bool
unfolding lookup
changed a b n = elim (lookup n a) [
  | none ↦ false
  | some old ↦ elim (lookup n b) [ none ↦ false | some new ↦ not (str_eq old new) ]
]

unfoldable pub changed_names : Dict → Dict → List String
unfolding names changed
changed_names a b = filter (changed a b) (names a)

-- Both maps have the name, so neither default is used.
unfoldable pub change_of : Dict → Dict → String → String × String × String
unfolding lookup
change_of a b n = (n, get_or (lookup n a) "", get_or (lookup n b) "")

unfoldable pub is_nil {ℓ} : {A : Type ℓ} → List A → Bool
is_nil [] = true
is_nil (x ∷ xs) = false

unfoldable pub drift_between : Dict → Dict → SchemaDriftResult
unfolding names_minus changed_names change_of text_leb order_by is_nil
drift_between prev_map next_map =
    let added = order_by text_leb (names_minus next_map prev_map) in
    let removed = order_by text_leb (names_minus prev_map next_map) in
    let type_changes =
      map (change_of prev_map next_map) (order_by text_leb (changed_names prev_map next_map)) in
    record {
      has_drift = not (is_nil added && is_nil removed && is_nil type_changes);
      added_columns = added;
      removed_columns = removed;
      type_changes = type_changes;
    }

unfoldable pub detect_schema_drift : Option (List Column) → List Column → SchemaDriftResult
unfolding drift_between column_map
detect_schema_drift none incoming = record {
  has_drift = false;
  added_columns = [];
  removed_columns = [];
  type_changes = [];
}
detect_schema_drift (some previous) incoming =
    drift_between (column_map (some previous)) (column_map (some incoming))
