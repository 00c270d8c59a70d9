-- ===== src/Lineage/Graph/Ingests.antt =====
-- What an ingest writes to the lineage tables, and what the graph of its dataset shows of it.
use mathlib.Core.List.{Memᴰ}
use mathlib.Core.List.Memᴰ
use open_civic.Common.{
  ℕ, ◌≡◌, refl, sym, ◌∙◌, none, some, String, [], ◌∷◌, ◌++◌, ==_refl, arith, subst,
}
use open_civic.Common.Table.{Table}
use open_civic.Lineage.Graph.{
  Node, Edge, Lineage, Keys, names_dataset, is_dataset_node, dataset_node, get_graph_for_dataset,
  upsert_node, add_edge, record_upload_ingest, source, dataset, version, upload, of_dataset,
  of_version, text, uuid, version_label, derived_from, published_as,
}
use open_civic.Lineage.Graph.Reach.{start, along, against, get_graph_for_dataset-exact}

-- The rows that `record_upload_ingest` inserts.
abbrev pub source_row : Keys → String → String → ℕ × Node
source_row new filename storage_key =
    (new.first_node, record { kind = source; label = text filename; metadata = upload storage_key })

abbrev pub dataset_row : Keys → ℕ → ℕ × Node
dataset_row new dataset_id = (
  new.second_node,
  record { kind = dataset; label = uuid dataset_id; metadata = of_dataset dataset_id },
)

abbrev pub version_row : Keys → ℕ → ℕ → ℕ × Node
version_row new dataset_id version_number = (
  new.third_node,
  record {
    kind = version;
    label = version_label version_number;
    metadata = of_version dataset_id version_number;
  },
)

abbrev pub source_edge : Keys → ℕ × Edge
source_edge new = (
  new.first_edge,
  record {
    from_node_id = new.first_node;
    to_node_id = new.second_node;
    relationship = derived_from;
  },
)

abbrev pub version_edge : Keys → ℕ × Edge
version_edge new = (
  new.second_edge,
  record {
    from_node_id = new.second_node;
    to_node_id = new.third_node;
    relationship = published_as;
  },
)

pub dataset_node-append :
    (dataset_id : ℕ) (t u : Table Node) {d : ℕ}
    → dataset_node dataset_id t ≡ some d
    → dataset_node dataset_id (t ++ u) ≡ some d
unfolding dataset_node
dataset_node-append dataset_id [] u e = cc e
dataset_node-append dataset_id ((k, n) ∷ t) u {d} e =
    ground (arith, dataset_node-append dataset_id t u {d = d})

dataset_node-append_none :
    (dataset_id : ℕ) (t u : Table Node)
    → dataset_node dataset_id t ≡ none
    → dataset_node dataset_id (t ++ u) ≡ dataset_node dataset_id u
unfolding dataset_node
dataset_node-append_none dataset_id [] u e = refl
dataset_node-append_none dataset_id ((k, n) ∷ t) u e =
    ground (arith, dataset_node-append_none dataset_id t u)

-- The tables after an ingest.
pub ingest_nodes :
    (new : Keys) (dataset_id : ℕ) (filename : String) (version_number : ℕ) (storage_key : String)
    (s : Lineage)
    → (record_upload_ingest new dataset_id filename version_number storage_key s).nodes
      ≡ ((s.nodes ++ source_row new filename storage_key ∷ []) ++ dataset_row new dataset_id ∷ [])
        ++ version_row new dataset_id version_number ∷ []
unfolding record_upload_ingest upsert_node add_edge
ingest_nodes new dataset_id filename version_number storage_key s = refl

pub ingest_edges :
    (new : Keys) (dataset_id : ℕ) (filename : String) (version_number : ℕ) (storage_key : String)
    (s : Lineage)
    → (record_upload_ingest new dataset_id filename version_number storage_key s).edges
      ≡ (s.edges ++ source_edge new ∷ []) ++ version_edge new ∷ []
unfolding record_upload_ingest upsert_node add_edge
ingest_edges new dataset_id filename version_number storage_key s = refl

module _ (new : Keys) (dataset_id : ℕ) (filename : String) (version_number : ℕ)
    (storage_key : String) (s : Lineage) where
  abbrev after : Lineage
  after = record_upload_ingest new dataset_id filename version_number storage_key s

  in_nodes :
      (x : ℕ × Node)
      → Memᴰ x (
          ((s.nodes ++ source_row new filename storage_key ∷ []) ++ dataset_row new dataset_id ∷ [])
          ++ version_row new dataset_id version_number ∷ [])
      → Memᴰ x after.nodes
  in_nodes x m =
      subst (Memᴰ x) (sym (ingest_nodes new dataset_id filename version_number storage_key s)) m

  in_edges :
      (x : ℕ × Edge)
      → Memᴰ x ((s.edges ++ source_edge new ∷ []) ++ version_edge new ∷ [])
      → Memᴰ x after.edges
  in_edges x m =
      subst (Memᴰ x) (sym (ingest_edges new dataset_id filename version_number storage_key s)) m

  source_edge-in : Memᴰ (source_edge new) after.edges
  source_edge-in =
      in_edges (source_edge new)
        (Memᴰ.append_left (version_edge new ∷ []) (Memᴰ.append_right s.edges (Memᴰ.head refl)))

  version_edge-in : Memᴰ (version_edge new) after.edges
  version_edge-in =
      in_edges (version_edge new)
        (Memᴰ.append_right (s.edges ++ source_edge new ∷ []) (Memᴰ.head refl))

  first_dataset_node :
      dataset_node dataset_id s.nodes ≡ none
      → dataset_node dataset_id after.nodes ≡ some new.second_node
  unfolding dataset_node is_dataset_node names_dataset
  first_dataset_node e =
      let old = s.nodes ++ source_row new filename storage_key ∷ [] in
      let no_source : dataset_node dataset_id old ≡ none =
        dataset_node-append_none dataset_id s.nodes (source_row new filename storage_key ∷ []) e in
      let here : dataset_node dataset_id (dataset_row new dataset_id ∷ []) ≡ some new.second_node =
        rw (==_refl dataset_id) refl in
      subst (λ t. dataset_node dataset_id t ≡ some new.second_node)
        (sym (ingest_nodes new dataset_id filename version_number storage_key s))
        (dataset_node-append dataset_id (old ++ dataset_row new dataset_id ∷ [])
          (version_row new dataset_id version_number ∷ [])
          (dataset_node-append_none dataset_id old (dataset_row new dataset_id ∷ []) no_source
            ∙ here))

  -- After the first ingest of a dataset that had no node, its graph has the nodes of the file, of
  -- the dataset and of the version, and the two edges between them.
  pub record_upload_ingest-shown :
      dataset_node dataset_id s.nodes ≡ none
      → (nodes : Table Node) × (edges : Table Edge) × (get_graph_for_dataset dataset_id after
          ≡ some (nodes, edges))
        × Memᴰ (source_row new filename storage_key) nodes
        × Memᴰ (dataset_row new dataset_id) nodes
        × Memᴰ (version_row new dataset_id version_number) nodes
        × Memᴰ (source_edge new) edges
        × Memᴰ (version_edge new) edges
  record_upload_ingest-shown e =
      let (nodes, edges, returns, node_rows, edge_rows) =
        get_graph_for_dataset-exact dataset_id new.second_node after (first_dataset_node e) in
      let source_joined = against {x = source_edge new} source_edge-in start in
      let last = version_row new dataset_id version_number ∷ [] in
      let middle = dataset_row new dataset_id ∷ [] in
      let old = s.nodes ++ source_row new filename storage_key ∷ [] in
      (
        nodes,
        edges,
        returns,
        (node_rows (source_row new filename storage_key)).1 (
          in_nodes (source_row new filename storage_key) (
              Memᴰ.append_left last
                (Memᴰ.append_left middle (Memᴰ.append_right s.nodes (Memᴰ.head refl)))),
          source_joined,
        ),
        (node_rows (dataset_row new dataset_id)).1 (
          in_nodes (dataset_row new dataset_id)
              (Memᴰ.append_left last (Memᴰ.append_right old (Memᴰ.head refl))),
          start,
        ),
        (node_rows (version_row new dataset_id version_number)).1 (
          in_nodes (version_row new dataset_id version_number)
              (Memᴰ.append_right (old ++ middle) (Memᴰ.head refl)),
          along {x = version_edge new} version_edge-in start,
        ),
        (edge_rows (source_edge new)).1 (source_edge-in, source_joined),
        (edge_rows (version_edge new)).1 (version_edge-in, start),
      )
