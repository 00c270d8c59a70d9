-- ===== src/Ingest/Inference.antt =====
-- backend/app/services/ingest/schema_inference.py. The readers of pandas, pdfplumber and chardet are
-- arguments: none where they raise. The columns of a frame have text names, so the case of a
-- MultiIndex does not arise.
use text.Mathlib.Text.{◌==◌ as str_eq, starts_with}
use open_civic.Common.{
  ℕ, suc, String, Bool, true, false, Option, none, some, List, [], ◌∷◌, map, if◌then◌else◌,
}
use open_civic.Common.Text.{is_empty, lower_ends_with}
use open_civic.Catalog.{Column}
use open_civic.Ingest.Upload.{Bytes}
use open_civic.Ingest.Errors.{
  Result, ok, failed, ◌>>=◌, from_option, invalid_file_format, schema_inference_error,
}

-- One column of a DataFrame: `str(column)`, `str(dtype)`, and whether a cell is missing.
pub record FrameColumn : Type 0 where
  pub name : String
  pub dtype : String
  pub has_missing : Bool

pub record Frame : Type 0 where
  pub columns : List FrameColumn
  pub rows : ℕ

pub data Header : Type 0 where
  cell : String → Header
  numbered : ℕ → Header  -- f"column_{index}"

abbrev pub Cell : Type 0
Cell = Option String

pub data Engine : Type 0 where
  openpyxl xlrd : Engine

pub record Readers : Type 0 where
  pub detect : Bytes → Option String
  pub read_csv : String → ℕ → Bytes → Option Frame  -- the encoding and the separator
  pub read_json : String → Bool → Bytes → Option Frame
  pub read_parquet : Bytes → Option Frame
  pub read_excel : Engine → Bytes → Option Frame
  pub extract_tables : Bytes → Option (List (List (List (List Cell))))  -- the tables of each page
  pub data_frame : List (List (Header × Cell)) → Frame

pub record InferredSchema : Type 0 where
  pub schema_snapshot : List Column
  pub row_count : ℕ
  pub dataframe : Frame

unfoldable pub map_pandas_dtype : String → String
map_pandas_dtype dtype =
    if starts_with dtype "int"
    then "integer"
    else if starts_with dtype "float"
    then "number"
    else if str_eq dtype "bool"
    then "boolean"
    else if starts_with dtype "datetime"
    then "datetime"
    else "string"

unfoldable pub column_of : FrameColumn → Column
unfolding map_pandas_dtype
column_of c = record {
  name = some c.name;
  type_name = some (map_pandas_dtype c.dtype);
  nullable = c.has_missing;
}

unfoldable pub dataframe_to_inferred : Frame → Result InferredSchema
unfolding column_of
dataframe_to_inferred frame = elim frame.columns [
  | [] ↦ failed schema_inference_error
  | c ∷ cs ↦ ok (record {
    schema_snapshot = map column_of frame.columns;
    row_count = frame.rows;
    dataframe = frame;
  })
]

-- `str(cell or f"column_{index}")`
header_of : ℕ → Cell → Header
unfolding is_empty
header_of index none = numbered index
header_of index (some text) = if is_empty text then numbered index else cell text

headers_from : ℕ → List Cell → List Header
unfolding header_of
headers_from index [] = []
headers_from index (c ∷ cs) = header_of index c ∷ headers_from (suc index) cs

-- One cell for each header, and none where the row is too short.
row_of : List Header → List Cell → List (Header × Cell)
row_of [] cells = []
row_of (h ∷ hs) [] = (h, none) ∷ row_of hs []
row_of (h ∷ hs) (c ∷ cs) = (h, c) ∷ row_of hs cs

unfoldable pub rows_of : List Header → List (List Cell) → List (List (Header × Cell))
unfolding row_of
rows_of hs [] = []
rows_of hs ([] ∷ rows) = rows_of hs rows
rows_of hs ((c ∷ cs) ∷ rows) = row_of hs (c ∷ cs) ∷ rows_of hs rows

-- The first table of the first page that has one.
first_table : List (List (List (List Cell))) → Option (List (List Cell))
first_table [] = none
first_table ([] ∷ pages) = first_table pages
first_table ((t ∷ ts) ∷ pages) = some t

unfoldable pub infer_table : Readers → Option (List (List Cell)) → Result InferredSchema
unfolding headers_from rows_of dataframe_to_inferred
infer_table lib none = failed schema_inference_error
infer_table lib (some []) = failed schema_inference_error
infer_table lib (some (head ∷ [])) = failed schema_inference_error
infer_table lib (some (head ∷ r ∷ rs)) = elim (rows_of (headers_from 0 head) (r ∷ rs)) [
  | [] ↦ failed schema_inference_error
  | row ∷ rows ↦ dataframe_to_inferred (lib.data_frame (row ∷ rows))
]

unfoldable pub infer_pdf_schema : Readers → Bytes → Result InferredSchema
unfolding first_table infer_table
infer_pdf_schema lib content =
    from_option schema_inference_error (lib.extract_tables content) >>= λ pages.
    infer_table lib (first_table pages)

unfoldable pub infer_parsed : Option Frame → Result InferredSchema
unfolding dataframe_to_inferred
infer_parsed frame = from_option schema_inference_error frame >>= dataframe_to_inferred

-- `detected.get("encoding") or "utf-8"`
unfoldable pub encoding_of : Readers → Bytes → String
unfolding is_empty
encoding_of lib content = elim (lib.detect content) [
  | none ↦ "utf-8"
  | some name ↦ if is_empty name then "utf-8" else name
]

unfoldable pub infer_tabular_schema : Readers → Bytes → String → Result InferredSchema
unfolding lower_ends_with infer_parsed infer_pdf_schema encoding_of
infer_tabular_schema lib [] filename = failed invalid_file_format
infer_tabular_schema lib (b ∷ bs) filename =
    let content : Bytes = b ∷ bs in
    if lower_ends_with filename ".parquet"
    then infer_parsed (lib.read_parquet content)
    else if lower_ends_with filename ".pdf"
    then infer_pdf_schema lib content
    else if lower_ends_with filename ".xlsx"
    then infer_parsed (lib.read_excel openpyxl content)
    else if lower_ends_with filename ".xls"
    then infer_parsed (lib.read_excel xlrd content)
    else if lower_ends_with filename ".json"
    then infer_parsed (lib.read_json (encoding_of lib content) false content)
    else if lower_ends_with filename ".jsonl"
    then infer_parsed (lib.read_json (encoding_of lib content) true content)
    else if lower_ends_with filename ".tsv"
    then infer_parsed (lib.read_csv (encoding_of lib content) 9 content)
    else if lower_ends_with filename ".csv"
    then infer_parsed (lib.read_csv (encoding_of lib content) 44 content)
    else failed invalid_file_format
