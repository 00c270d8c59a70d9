-- ===== src/Lineage/Tests.antt =====
-- The lineage graph on concrete rows.
use mathlib.Core.List.{Memᴰ}
use open_civic.Common.{ℕ, ◌≡◌, ◌↔◌, refl, none, some, List, [], ◌∷◌, ◌++◌, inr, arith}
use open_civic.Common.Table.{Table}
use open_civic.Lineage.Graph.{
  Node, Edge, Lineage, Keys, get_graph_for_dataset, record_upload_ingest, walk, dataset_node,
}
use open_civic.Lineage.Graph.Walk.{walk_returns, unseen}
use open_civic.Lineage.Graph.Reach.{Joined, get_graph_for_dataset-exact}
use open_civic.Lineage.Graph.Ingests.{source_edge, version_edge}

abbrev no_rows : Lineage
no_rows = record { nodes = []; edges = [] }

abbrev first_keys : Keys
first_keys = record {
  first_node = 1;
  second_node = 2;
  third_node = 3;
  first_edge = 10;
  second_edge = 11;
}

abbrev second_keys : Keys
second_keys = record {
  first_node = 4;
  second_node = 5;
  third_node = 6;
  first_edge = 12;
  second_edge = 13;
}

abbrev one_ingest : Lineage
one_ingest = record_upload_ingest first_keys 7 "a.csv" 1 "raw/a" no_rows

abbrev chain : Table Edge
chain = source_edge first_keys ∷ version_edge first_keys ∷ []

-- Each of the two edges of the chain is returned twice: once for each round that meets an end of it.
chain_twice : walk 5 chain (2 ∷ []) (2 ∷ []) [] ≡ some (1 ∷ 3 ∷ 2 ∷ [], chain ++ chain)
unfolding walk
chain_twice = refl

walk_returns_example : (r : List ℕ × Table Edge) × (walk 5 chain (2 ∷ []) (2 ∷ []) [] ≡ some r)
unfolding unseen
walk_returns_example = walk_returns 5 chain (2 ∷ []) (2 ∷ []) [] (inr (omega arith))

found_first : dataset_node 7 one_ingest.nodes ≡ some 2
unfolding dataset_node record_upload_ingest
found_first = refl

get_graph_for_dataset-exact_example :
    (nodes : Table Node) × (edges : Table Edge) × (get_graph_for_dataset 7 one_ingest
      ≡ some (nodes, edges))
    × ((x : ℕ × Node) → Memᴰ x nodes ↔ (Memᴰ x one_ingest.nodes × Joined one_ingest.edges 2 x.0))
    × ((x : ℕ × Edge)
        → Memᴰ x edges ↔ (Memᴰ x one_ingest.edges × Joined one_ingest.edges 2 x.1.from_node_id))
get_graph_for_dataset-exact_example = get_graph_for_dataset-exact 7 2 one_ingest found_first

no_node : dataset_node 7 no_rows.nodes ≡ none
unfolding dataset_node
no_node = refl

abbrev two_ingests : Lineage
two_ingests = record_upload_ingest second_keys 7 "b.csv" 2 "raw/b" one_ingest
