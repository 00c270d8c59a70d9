-- ===== src/Catalog/Tests.antt =====
-- Passes and pages over two datasets.
use Prim.Native.String.{compare as compare_text}
use open_civic.Common.{none, some, [], ◌∷◌}
use open_civic.Common.Table.{Table}
use open_civic.Catalog.Model.{Dataset, published, standard, fresh, daily}
use open_civic.Catalog.Repository.{Query}

abbrev weather : Dataset
weather = record {
  title = "Weather";
  description = none;
  status = published;
  access_level = "public";
  licence_id = some 3;
  publisher_id = 7;
  quality_score = some 8000;
  staleness_state = fresh;
  update_frequency = some daily;
  last_refreshed_at = some 90;
  embargo_until = none;
  metadata = [];
  row_count = some 120;
  file_size_bytes = some 4096;
  schema_snapshot = some [];
  tags = "water" ∷ [];
  workflow_variant = standard;
  created_at = 10;
  published_at = some 20;
}

abbrev soil : Dataset
soil = record weather { title = "Soil"; created_at = 11 }

abbrev catalogue : Table Dataset
catalogue = (1, weather) ∷ (2, soil) ∷ []

abbrev second_page : Query
second_page = record {
  page_size = 1;
  cursor = some 1;
  status = none;
  tag = none;
  sort = some "created_at";
  publisher_id = none;
}
