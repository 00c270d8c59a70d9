-- ===== src/Ingest/Versions.antt =====
-- backend/app/repositories/dataset_version_repository.py. New rows come first in the table.
pub mod Numbering
use open_civic.Common.{
  ℕ, zero, suc, ◌+◌, String, Bool, true, false, Option, none, some, List, [], ◌∷◌, ◌==◌, ltb,
  if◌then◌else◌,
}
use open_civic.Common.Table.{Table, insert}
use open_civic.Catalog.{Column, StorageKey}

-- `DatasetVersion`
pub record DatasetVersion : Type 0 where
  pub dataset_id : ℕ
  pub version_number : ℕ
  pub schema_snapshot : List Column
  pub row_count : Option ℕ
  pub storage_path : Option StorageKey
  pub raw_file_path : Option StorageKey
  pub published_by : Option ℕ
  pub change_summary : Option String

-- `ORDER BY version_number DESC LIMIT 1`: the later of two rows.
later : DatasetVersion → Option DatasetVersion → DatasetVersion
later v none = v
later v (some w) = if ltb v.version_number w.version_number then w else v

unfoldable pub get_latest : ℕ → Table DatasetVersion → Option DatasetVersion
unfolding later
get_latest dataset_id [] = none
get_latest dataset_id ((k, v) ∷ t) =
    let rest = get_latest dataset_id t in
    if v.dataset_id == dataset_id then some (later v rest) else rest

-- `SELECT max(version_number)`
unfoldable pub max_version : ℕ → Table DatasetVersion → Option ℕ
max_version dataset_id [] = none
max_version dataset_id ((k, v) ∷ t) =
    let rest = max_version dataset_id t in
    if v.dataset_id == dataset_id
    then (elim rest [
      | none ↦ some v.version_number
      | some n ↦ some (if ltb n v.version_number then v.version_number else n)
    ])
    else rest

-- `int(current_max or 0) + 1`
unfoldable pub next_version_number : ℕ → Table DatasetVersion → ℕ
unfolding max_version
next_version_number dataset_id t = elim (max_version dataset_id t) [ none ↦ 1 | some n ↦ suc n ]

unfoldable pub create : ℕ → DatasetVersion → Table DatasetVersion → Table DatasetVersion
create new v t = insert new v t
