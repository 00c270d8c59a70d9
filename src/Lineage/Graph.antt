-- ===== src/Lineage/Graph.antt =====
-- LineageRepository and LineageService. Rows stand in the order they were inserted, which is the
-- order in which the queries without ORDER BY are taken to return them. The new keys are arguments.
pub mod Sets
pub mod Walk
pub mod Reach
pub mod Ingests
pub mod Hidden
use open_civic.Common.{
  ℕ, zero, suc, ◌+◌, ◌*◌, String, Bool, true, false, not, ◌||◌, Option, none, some, List, [], ◌∷◌,
  ◌++◌, ◌==◌, holds, contains, filter, length, if◌then◌else◌,
}
use open_civic.Common.Table.{Table, find, select}

pub data NodeType : Type 0 where
  source dataset version connector : NodeType

-- The metadata documents that the service writes.
pub data Metadata : Type 0 where
  upload : String → Metadata
  of_dataset : ℕ → Metadata
  of_version : ℕ → ℕ → Metadata
  of_connector : ℕ → Metadata
  nothing : Metadata

pub data Label : Type 0 where
  text : String → Label
  uuid : ℕ → Label
  version_label : ℕ → Label

pub record Node : Type 0 where
  pub kind : NodeType
  pub label : Label
  pub metadata : Metadata

pub data Relationship : Type 0 where
  derived_from published_as refreshed_from : Relationship

pub record Edge : Type 0 where
  pub from_node_id : ℕ
  pub to_node_id : ℕ
  pub relationship : Relationship

pub record Lineage : Type 0 where
  pub nodes : Table Node
  pub edges : Table Edge

-- `upsert_node`: the identifier of the node returned, and the tables after it.
unfoldable pub upsert_node : Option ℕ → ℕ → NodeType → Label → Metadata → Lineage → ℕ × Lineage
upsert_node none new kind label metadata s = (
  new,
  record s {
    nodes = s.nodes ++ (new, record { kind = kind; label = label; metadata = metadata }) ∷ [];
  },
)
upsert_node (some node_id) new kind label metadata s = elim (find node_id s.nodes) [
  | some existing ↦ (node_id, s)
  | none ↦ (
    node_id,
    record s {
      nodes = s.nodes ++ (node_id, record { kind = kind; label = label; metadata = metadata }) ∷ [];
    },
  )
]

unfoldable pub add_edge : ℕ → ℕ → ℕ → Relationship → Lineage → Lineage
add_edge new from_node_id to_node_id relationship s = record s {
  edges =
      s.edges
      ++ (
        new,
        record {
          from_node_id = from_node_id;
          to_node_id = to_node_id;
          relationship = relationship;
        },
      )
        ∷ [];
}

-- `str(node.metadata_.get("dataset_id")) == str(dataset_id)`
unfoldable pub names_dataset : Metadata → ℕ → Bool
names_dataset (of_dataset k) dataset_id = k == dataset_id
names_dataset (of_version k n) dataset_id = k == dataset_id
names_dataset (upload key) dataset_id = false
names_dataset (of_connector k) dataset_id = false
names_dataset nothing dataset_id = false

unfoldable pub is_dataset_node : ℕ → Node → Bool
unfolding names_dataset
is_dataset_node dataset_id n = elim n.kind [
  | dataset ↦ names_dataset n.metadata dataset_id
  | source ↦ false
  | version ↦ false
  | connector ↦ false
]

-- The first row of type `dataset` whose metadata names the dataset.
unfoldable pub dataset_node : ℕ → Table Node → Option ℕ
unfolding is_dataset_node
dataset_node dataset_id [] = none
dataset_node dataset_id ((k, n) ∷ t) =
    if is_dataset_node dataset_id n then some k else dataset_node dataset_id t

-- `SELECT … WHERE from_node_id IN frontier OR to_node_id IN frontier`
unfoldable pub batch : List ℕ → Table Edge → Table Edge
unfolding select
batch frontier es =
    select (λ k e. contains frontier e.from_node_id || contains frontier e.to_node_id) es

-- `ids.add(k)`, `ids.update(ks)`
unfoldable pub add : ℕ → List ℕ → List ℕ
add k ids = if contains ids k then ids else k ∷ ids

unfoldable pub update_ids : List ℕ → List ℕ → List ℕ
unfolding add
update_ids [] ids = ids
update_ids (k ∷ ks) ids = add k (update_ids ks ids)

-- `for edge in batch: new_ids.add(from); new_ids.add(to)`
unfoldable pub ends_of : Table Edge → List ℕ
unfolding add
ends_of [] = []
ends_of ((k, e) ∷ t) = add e.to_node_id (add e.from_node_id (ends_of t))

unfoldable pub fresh_ids : List ℕ → List ℕ → List ℕ
fresh_ids new_ids node_ids = filter (λ k. not (contains node_ids k)) new_ids

-- The loop, with the identifiers seen, the frontier and the edges so far. None: out of fuel.
unfoldable pub walk : ℕ → Table Edge → List ℕ → List ℕ → Table Edge → Option (List ℕ × Table Edge)
unfolding batch ends_of fresh_ids update_ids
walk fuel es node_ids [] found = some (node_ids, found)
walk zero es node_ids (f ∷ fs) found = none
walk (suc fuel) es node_ids (f ∷ fs) found =
    let rows = batch (f ∷ fs) es in
    let new_ids = ends_of rows in
    walk fuel es (update_ids new_ids node_ids) (fresh_ids new_ids node_ids) (found ++ rows)

-- One round for the start, and at most one for each end of an edge.
unfoldable pub enough : Table Edge → ℕ
enough es = suc (2 * length es)

unfoldable pub get_graph_for_dataset : ℕ → Lineage → Option (Table Node × Table Edge)
unfolding walk dataset_node enough select
get_graph_for_dataset dataset_id s = elim (dataset_node dataset_id s.nodes) [
  | none ↦ some ([], [])
  | some d ↦ elim (walk (enough s.edges) s.edges (d ∷ []) (d ∷ []) []) [
    | none ↦ none
    | some (node_ids, edges) ↦ some (select (λ k n. contains node_ids k) s.nodes, edges)
  ]
]

-- The new keys of the rows that one call inserts.
pub record Keys : Type 0 where
  pub first_node : ℕ
  pub second_node : ℕ
  pub third_node : ℕ
  pub first_edge : ℕ
  pub second_edge : ℕ

unfoldable pub record_upload_ingest : Keys → ℕ → String → ℕ → String → Lineage → Lineage
unfolding upsert_node add_edge
record_upload_ingest new dataset_id filename version_number storage_key s =
    let one = upsert_node none new.first_node source (text filename) (upload storage_key) s in
    let two =
      upsert_node none new.second_node dataset (uuid dataset_id) (of_dataset dataset_id) one.1 in
    let three =
      upsert_node none new.third_node version (version_label version_number)
        (of_version dataset_id version_number) two.1 in
    let four = add_edge new.first_edge one.0 two.0 derived_from three.1 in
    add_edge new.second_edge two.0 three.0 published_as four

unfoldable pub record_connector_sync : Keys → ℕ → String → ℕ → Lineage → Lineage
unfolding upsert_node add_edge
record_connector_sync new connector_id connector_name dataset_id s =
    let one =
      upsert_node none new.first_node connector (text connector_name) (of_connector connector_id)
        s in
    let two =
      upsert_node none new.second_node dataset (uuid dataset_id) (of_dataset dataset_id) one.1 in
    add_edge new.first_edge one.0 two.0 refreshed_from two.1
