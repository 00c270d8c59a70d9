-- ===== src/Lineage/Graph/Hidden.antt =====
-- What the graph of a dataset shows of an ingest that is not its first.
use mathlib.Core.List.{Memᴰ}
use mathlib.Core.List.Memᴰ
use open_civic.Common.{ℕ, ◌≡◌, ◌≢◌, false, String, contains}
use open_civic.Common.Table.{Table}
use open_civic.Lineage.Graph.{Lineage, Keys, ends_of, record_upload_ingest}

module _ (new : Keys) (dataset_id : ℕ) (filename : String) (version_number : ℕ)
    (storage_key : String) (s : Lineage) where
  abbrev after : Lineage
  after = record_upload_ingest new dataset_id filename version_number storage_key s

  -- Keys that no row of edges refers to, and that are not the dataset's node.
  pub record IsFresh (d : ℕ) : Type 0 where
    pub first_ne : new.first_node ≢ d
    pub second_ne : new.second_node ≢ d
    pub third_ne : new.third_node ≢ d
    pub first_unused : contains (ends_of s.edges) new.first_node ≡ false
    pub second_unused : contains (ends_of s.edges) new.second_node ≡ false
    pub third_unused : contains (ends_of s.edges) new.third_node ≡ false
