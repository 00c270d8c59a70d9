-- ===== src/Catalog/Repository.antt =====
-- `DatasetRepository` of backend/app/repositories/dataset_repository.py: the queries, the pages and
-- the facets. Cursors are identifiers that were parsed; the database's order of titles is an
-- argument. Scores are in hundredths of a point.
mod Sort
mod Nightly
pub mod Passes
pub mod Pages
unfoldable pub use Sort.*
unfoldable pub use Nightly.*
use Prim.Native.Nat.{Ordering, compare}
use Prim.Native.Char.{code}
use Prim.Native.String.{◌∷◌ as ◌:>◌, compare as compare_text}
use text.Mathlib.Text.{◌==◌ as str_eq}
use open_civic.Common.{
  ℕ, suc, ◌+◌, ◌-◌, ◌*◌, ◌≡◌, String, Bool, true, false, not, ◌&&◌, ◌||◌, Option, none, some, List,
  [], ◌∷◌, ltb, leb, ◌==◌, if◌then◌else◌, take, length, any, get_or, or_else, holds,
}
use open_civic.Common.Text.{is_empty, lstrip}
use open_civic.Common.Table.{Table, find, update, select}
use open_civic.Common.Order.{order_by}
use open_civic.Catalog.Model
use open_civic.Catalog.Model.{
  Dataset, Status, same_status, same_state, is_published, Staleness, fresh, possibly_outdated,
  stale, Frequency, daily, weekly, monthly, on_demand, Column, Json,
}
use open_civic.Catalog.Quality.{compute_quality_score}

-- `get_by_id`: nothing where the source raises `DatasetNotFound`; so in the next.
unfoldable pub get_by_id : ℕ → Table Dataset → Option Dataset
get_by_id k t = find k t

-- `get_for_publisher`
unfoldable pub get_for_publisher : ℕ → ℕ → Table Dataset → Option Dataset
get_for_publisher k publisher_id t = elim (find k t) [
  | none ↦ none
  | some d ↦ if d.publisher_id == publisher_id then some d else none
]

-- `apply_ingest_result`
unfoldable pub apply_ingest_result : ℕ → List Column → ℕ → ℕ → Dataset → Dataset
unfolding compute_quality_score
apply_ingest_result now schema_snapshot row_count file_size_bytes d =
    let d' = record d {
      schema_snapshot = some schema_snapshot;
      row_count = some row_count;
      file_size_bytes = some file_size_bytes;
      last_refreshed_at = some now;
    } in
    record d' { quality_score = some (compute_quality_score d') }

-- `DatasetUpdate`
pub record DatasetUpdate : Type 0 where
  pub title : Option String
  pub description : Option String
  pub access_level : Option String
  pub licence_id : Option ℕ
  pub tags : Option (List String)
  pub metadata : Option (List (String × Json))

-- `update_metadata`: what is given replaces what was there.
unfoldable pub update_metadata : DatasetUpdate → Dataset → Dataset
update_metadata u d = record d {
  title = get_or u.title d.title;
  description = or_else u.description d.description;
  access_level = get_or u.access_level d.access_level;
  licence_id = or_else u.licence_id d.licence_id;
  tags = get_or u.tags d.tags;
  metadata = get_or u.metadata d.metadata;
}

-- `counts[tag] = counts.get(tag, 0) + 1`
count_tag : String → List (String × ℕ) → List (String × ℕ)
count_tag tag [] = (tag, 1) ∷ []
count_tag tag ((t, n) ∷ cs) = if str_eq t tag then (t, suc n) ∷ cs else (t, n) ∷ count_tag tag cs

count_tags : List String → List (String × ℕ) → List (String × ℕ)
unfolding count_tag
count_tags [] cs = cs
count_tags (tag ∷ tags) cs = count_tags tags (count_tag tag cs)

count_all : Table Dataset → List (String × ℕ) → List (String × ℕ)
unfolding count_tags
count_all [] cs = cs
count_all ((k, d) ∷ t) cs = count_all t (count_tags d.tags cs)

-- `published_tag_facets`: by count, the largest first, then by tag.
unfoldable pub published_tag_facets : ℕ → Table Dataset → List (String × ℕ)
unfolding count_all lex not_after
published_tag_facets limit t = take limit (
    order_by (λ (a, n) (b, m). not_after (lex (compare m n) (compare_text a b)))
      (count_all (select (λ k d. is_published d) t) []))

pub record Query : Type 0 where
  pub page_size : ℕ
  pub cursor : Option ℕ
  pub status : Option Status
  pub tag : Option String
  pub sort : Option String
  pub publisher_id : Option ℕ

pub record Page : Type 0 where
  pub items : Table Dataset
  pub has_more : Bool
  pub next_cursor : Option ℕ
  pub total_count : ℕ

unfoldable pub matches : Query → Dataset → Bool
unfolding same_status
matches q d =
    (elim q.status [ none ↦ true | some s ↦ same_status d.status s ])
    && (elim q.tag [ none ↦ true | some tag ↦ any (λ t. str_eq t tag) d.tags ])
    && (elim q.publisher_id [ none ↦ true | some p ↦ d.publisher_id == p ])

-- `sort.lstrip("-") if sort else "published_at"`
primary_sort : Option String → String
primary_sort none = "published_at"
primary_sort (some s) = if is_empty s then "published_at" else lstrip (λ c. code c == 45) s

-- The rows that the cursor's row leaves.
unfoldable pub after_anchor : Option String → ℕ × Dataset → ℕ → Dataset → Bool
unfolding primary_sort
after_anchor sort (a, anchor) k d =
    let earlier : ℕ → ℕ → Bool = λ t u. ltb t u || (t == u && ltb k a) in
    if str_eq (primary_sort sort) "published_at"
    then earlier (get_or d.published_at d.created_at) (get_or anchor.published_at anchor.created_at)
    else if str_eq (primary_sort sort) "created_at"
    then earlier d.created_at anchor.created_at
    else ltb k a

unfoldable pub rows_after : Query → Table Dataset → Table Dataset → Table Dataset
rows_after q t rows = elim q.cursor [
  | none ↦ rows
  | some k ↦ elim (find k t) [
    | none ↦ rows
    | some anchor ↦ select (after_anchor q.sort (k, anchor)) rows
  ]
]

last_id : Table Dataset → Option ℕ
last_id [] = none
last_id ((k, d) ∷ t) = or_else (last_id t) (some k)

-- `list_datasets`
unfoldable pub list_datasets : (String → String → Ordering) → Query → Table Dataset → Page
unfolding last_id not_after
list_datasets title_order q t =
    let matching = select (λ k d. matches q d) t in
    let rows = take (suc q.page_size) (
      order_by (λ x y. not_after (resolve_sort title_order q.sort x y))
        (rows_after q t matching)) in
    let has_more = ltb q.page_size (length rows) in
    record {
      items = take q.page_size rows;
      has_more = has_more;
      next_cursor = if has_more then last_id (take q.page_size rows) else none;
      total_count = length matching;
    }
