-- ===== src/Catalog/Repository/Pages.antt =====
-- What a page of the catalogue holds.
use Prim.Native.Nat.{Ordering}
use open_civic.Common.{ℕ, ◌≤◌, ◌≡◌, refl, String, Option, length, length-take-le}
use open_civic.Common.Table.{Table}
use open_civic.Catalog.Model.{Dataset}
use open_civic.Catalog.Repository.{Query, matches, list_datasets}

-- A page is no longer than asked for, and its total counts the same rows whatever the cursor.
pub list_datasets_lem :
    (title_order : String → String → Ordering) (q : Query) (cursor : Option ℕ) (t : Table Dataset)
    → (length (list_datasets title_order q t).items ≤ q.page_size)
      × ((list_datasets title_order (record q { cursor = cursor }) t).total_count
          ≡ (list_datasets title_order q t).total_count)
unfolding list_datasets matches
list_datasets_lem title_order q cursor t = (length-take-le q.page_size _, refl)
