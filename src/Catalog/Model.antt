-- ===== src/Catalog/Model.antt =====
-- The `Dataset` row (backend/app/db/models/tenant.py). Identifiers are numbers, instants are
-- seconds; a column with a closed vocabulary is a data type. `other` is any other text.
use mathlib.Core.Logic.{ite}
use open_civic.Common.{ℕ, String, Bool, true, false, Option, List}

pub data Status : Type 0 where
  draft pending_review changes_requested pending_approval scheduled published : Status
  rejected archived : Status

unfoldable pub Status-discrete : Discrete Status
Status-discrete = hlevel

pub data Variant : Type 0 where
  standard high_sensitivity : Variant

pub data Staleness : Type 0 where
  fresh possibly_outdated stale pending_refresh : Staleness

unfoldable pub Staleness-discrete : Discrete Staleness
Staleness-discrete = hlevel

pub data Frequency : Type 0 where
  daily weekly monthly on_demand : Frequency

-- A JSON value of the metadata document, as far as its truth value goes.
pub data Json : Type 0 where
  null : Json
  flag : Bool → Json
  number : ℕ → Json
  words : String → Json
  items : List String → Json

pub record Column : Type 0 where
  pub name : Option String
  pub type_name : Option String
  pub nullable : Bool

-- Where an object lies: the key of an upload, or `parquet_storage_key` of a dataset and a version.
pub data StorageKey : Type 0 where
  raw_path : String → StorageKey
  parquet_path : ℕ → ℕ → StorageKey

-- Bytes of a `LargeBinary` column.
abbrev pub Blob : Type 0
Blob = List ℕ

pub record Dataset : Type 0 where
  pub title : String
  pub description : Option String
  pub status : Status
  pub access_level : String
  pub licence_id : Option ℕ
  pub publisher_id : ℕ
  pub quality_score : Option ℕ  -- hundredths of a point
  pub staleness_state : Staleness
  pub update_frequency : Option Frequency
  pub last_refreshed_at : Option ℕ
  pub embargo_until : Option Blob
  pub metadata : List (String × Json)
  pub row_count : Option ℕ
  pub file_size_bytes : Option ℕ
  pub schema_snapshot : Option (List Column)
  pub tags : List String
  pub workflow_variant : Variant
  pub created_at : ℕ
  pub published_at : Option ℕ

unfoldable pub same_status : Status → Status → Bool
unfolding Status-discrete
same_status s t = ite (Status-discrete s t) true false

unfoldable pub same_state : Staleness → Staleness → Bool
unfolding Staleness-discrete
same_state s t = ite (Staleness-discrete s t) true false

unfoldable pub is_published : Dataset → Bool
unfolding same_status
is_published d = same_status d.status published
