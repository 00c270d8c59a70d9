-- ===== src/Feedback.antt =====
-- Feedback on published datasets: backend/app/repositories/feedback_repository.py and the endpoints
-- of backend/app/api/v1/endpoints/feedback.py, whose body backend/app/schemas/feedback.py checks.
pub mod Ratings
mod Tests
use text.Mathlib.Text.{◌==◌ as str_eq}
use open_civic.Common.{
  ℕ, ◌+◌, String, Bool, true, false, not, ◌&&◌, ◌||◌, Option, none, some, List, [], ◌∷◌, ◌==◌,
  if◌then◌else◌, any, is_some, leb, length,
}
use open_civic.Common.Table.{Table, find, insert, select, update}
use open_civic.Common.Order.{order_by}
use open_civic.Common.Text.{codes}
use open_civic.Catalog.{Dataset, is_published}
use open_civic.Catalog.Repository.{get_by_id}

pub data Handling : Type 0 where
  open_item acknowledged : Handling

pub record Feedback : Type 0 where
  pub tenant_id : ℕ
  pub dataset_id : ℕ
  pub author_id : Option ℕ
  pub feedback_type : String
  pub rating : Option ℕ
  pub content : Option String
  pub status : Handling
  pub resolved_by : Option ℕ
  pub created_at : ℕ

pub data FeedbackError : Type 0 where
  unprocessable dataset_not_found permission_denied : FeedbackError
  invalid_type rating_required unpublished feedback_not_found : FeedbackError

pub data Answer (A : Type 0) : Type 0 where
  answered : A → Answer A
  refused : FeedbackError → Answer A

-- `ALLOWED_TYPES`
unfoldable pub allowed_type : String → Bool
allowed_type t =
    str_eq t "rating"
    || str_eq t "issue_report"
    || str_eq t "correction_request"
    || str_eq t "comment"

-- `feedback_type == "rating" and rating is None`
unfoldable pub lacks_rating : String → Option ℕ → Bool
lacks_rating t rating = str_eq t "rating" && not (is_some rating)

-- `create`: the key of the new row with the table after.
unfoldable pub create :
    (now new tenant_id dataset_id : ℕ) (feedback_type : String) (author_id rating : Option ℕ)
    (content : Option String)
    → Table Dataset
    → Table Feedback
    → Answer (ℕ × Table Feedback)
create now new tenant_id dataset_id feedback_type author_id rating content ds t =
    let row : Feedback = record {
      tenant_id = tenant_id;
      dataset_id = dataset_id;
      author_id = author_id;
      feedback_type = feedback_type;
      rating = rating;
      content = content;
      status = open_item;
      resolved_by = none;
      created_at = now;
    } in
    if not (allowed_type feedback_type)
    then refused invalid_type
    else if lacks_rating feedback_type rating
    then refused rating_required
    else elim (find dataset_id ds) [
      | none ↦ refused unpublished
      | some d ↦ if is_published d then answered (new, insert new row t) else refused unpublished
    ]

unfoldable pub of_dataset : ℕ → ℕ → Feedback → Bool
of_dataset dataset_id k r = r.dataset_id == dataset_id

-- `list_for_dataset`: the newest first.
unfoldable pub list_for_dataset : ℕ → Table Feedback → Table Feedback
list_for_dataset dataset_id t =
    order_by (λ (i, x) (j, y). leb y.created_at x.created_at) (select (of_dataset dataset_id) t)

-- The ratings that are not null.
unfoldable pub ratings : Table Feedback → List ℕ
ratings [] = []
ratings ((k, r) ∷ t) = elim r.rating [ none ↦ ratings t | some n ↦ n ∷ ratings t ]

unfoldable pub sum : List ℕ → ℕ
sum [] = 0
sum (x ∷ xs) = x + sum xs

-- `avg`, as a sum over a number: null where no row counts.
unfoldable pub avg : List ℕ → Option (ℕ × ℕ)
unfolding sum
avg [] = none
avg (x ∷ xs) = some (sum (x ∷ xs), length (x ∷ xs))

-- `summary_for_dataset`
unfoldable pub summary_for_dataset : ℕ → Table Feedback → ℕ × Option (ℕ × ℕ)
summary_for_dataset dataset_id t =
    let rows = select (of_dataset dataset_id) t in (length rows, avg (ratings rows))

-- `FeedbackCreateRequest`
unfoldable pub rating_in_range : Option ℕ → Bool
rating_in_range none = true
rating_in_range (some n) = leb 1 n && leb n 5

unfoldable pub content_fits : Option String → Bool
content_fits none = true
content_fits (some s) = leb (length (codes s)) 5000

-- `submit_feedback`; `author_id` is nothing for an anonymous request.
unfoldable pub submit_feedback :
    (now new tenant_id dataset_id : ℕ) (feedback_type : String) (author_id rating : Option ℕ)
    (content : Option String)
    → Table Dataset
    → Table Feedback
    → Answer (ℕ × Table Feedback)
submit_feedback now new tenant_id dataset_id feedback_type author_id rating content ds t =
    if allowed_type feedback_type && rating_in_range rating && content_fits content
    then elim (get_by_id dataset_id ds) [
      | none ↦ refused dataset_not_found
      | some d ↦ create now new tenant_id dataset_id feedback_type author_id rating content ds t
    ]
    else refused unprocessable

-- `list_feedback`
unfoldable pub list_feedback :
    (user_id : ℕ) (roles : List String) (dataset_id : ℕ)
    → Table Dataset
    → Table Feedback
    → Answer (Table Feedback × ℕ)
list_feedback user_id roles dataset_id ds t = elim (get_by_id dataset_id ds) [
  | none ↦ refused dataset_not_found
  | some d ↦
      let items = list_for_dataset dataset_id t in
      if not (d.publisher_id == user_id)
        && not (any (str_eq "data_steward") roles)
        && not (any (str_eq "org_admin") roles)
      then refused permission_denied
      else answered (items, length items)
]

-- `resolve_feedback`
unfoldable pub resolve_feedback :
    (feedback_id user_id : ℕ) → Table Feedback → Answer (Table Feedback)
resolve_feedback feedback_id user_id t = elim (find feedback_id t) [
  | none ↦ refused feedback_not_found
  | some r ↦
      answered
        (update feedback_id (λ r. record r { status = acknowledged; resolved_by = some user_id }) t)
]
