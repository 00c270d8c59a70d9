-- ===== src/Feedback/Ratings.antt =====
-- What the ratings of a dataset can be, and their average.
use open_civic.Common.{
  ℕ, ◌*◌, ◌≤◌, ◌<◌, ◌≡◌, inl, inr, sym, subst, String, true, false, Option, none, some, List, [],
  ◌∷◌, ◌==◌, if◌then◌else◌, length, All, arith, Bool-cases, Option-cases,
}
use open_civic.Common.Table.{Table, Rows, find, select, update, Rows-update, Rows-of_select}
use open_civic.Catalog.{Dataset, is_published}
use open_civic.Catalog.Repository.{get_by_id}
use open_civic.Feedback.{
  Feedback, answered, open_item, acknowledged, allowed_type, lacks_rating, create, of_dataset,
  ratings, sum, avg, summary_for_dataset, rating_in_range, submit_feedback, resolve_feedback,
}

-- A row as the endpoints write it.
pub IsFeedback : Feedback → Type 0
IsFeedback r =
    (allowed_type r.feedback_type ≡ true)
    × (lacks_rating r.feedback_type r.rating ≡ false)
    × (rating_in_range r.rating ≡ true)

-- The rows after any sequence of accepted requests, whatever datasets were there at each.
pub data Reach : Table Feedback → Type 0 where
  none_yet : Reach []
  submitted :
      (now new tenant_id dataset_id : ℕ) (feedback_type : String) (author_id rating : Option ℕ)
      (content : Option String) (ds : Table Dataset) (t t' : Table Feedback)
      → Reach t
      → submit_feedback now new tenant_id dataset_id feedback_type author_id rating content ds t
        ≡ answered (new, t')
      → Reach t'
  resolved :
      (feedback_id user_id : ℕ) (t t' : Table Feedback)
      → Reach t
      → resolve_feedback feedback_id user_id t ≡ answered t'
      → Reach t'

abbrev AllFeedback : Table Feedback → Type 0
AllFeedback t = Rows (λ k r. IsFeedback r) t

abbrev row_of :
    (now tenant_id dataset_id : ℕ) (feedback_type : String) (author_id rating : Option ℕ)
    (content : Option String)
    → Feedback
row_of now tenant_id dataset_id feedback_type author_id rating content = record {
  tenant_id = tenant_id;
  dataset_id = dataset_id;
  author_id = author_id;
  feedback_type = feedback_type;
  rating = rating;
  content = content;
  status = open_item;
  resolved_by = none;
  created_at = now;
}

-- A request that is accepted adds one row, on a published dataset.
pub submit_feedback_inv :
    (now new tenant_id dataset_id : ℕ) (feedback_type : String) (author_id rating : Option ℕ)
    (content : Option String) (ds : Table Dataset) (t t' : Table Feedback)
    → submit_feedback now new tenant_id dataset_id feedback_type author_id rating content ds t
      ≡ answered (new, t')
    → (t' ≡ (new, row_of now tenant_id dataset_id feedback_type author_id rating content) ∷ t)
      × IsFeedback (row_of now tenant_id dataset_id feedback_type author_id rating content)
      × ((d : Dataset) × (find dataset_id ds ≡ some d) × (is_published d ≡ true))
unfolding submit_feedback create IsFeedback get_by_id
submit_feedback_inv now new tenant_id dataset_id feedback_type author_id rating content ds t t' e =
    ground arith

submit_feedback-AllFeedback :
    (now new tenant_id dataset_id : ℕ) (feedback_type : String) (author_id rating : Option ℕ)
    (content : Option String) (ds : Table Dataset) (t t' : Table Feedback)
    → submit_feedback now new tenant_id dataset_id feedback_type author_id rating content ds t
      ≡ answered (new, t')
    → AllFeedback t
    → AllFeedback t'
submit_feedback-AllFeedback now new tn id ty au ra co ds t t' e all =
    let (same, ok, there) = submit_feedback_inv now new tn id ty au ra co ds t t' e in
    subst AllFeedback (sym same) (ok, all)

resolve_feedback_inv :
    (feedback_id user_id : ℕ) (t t' : Table Feedback)
    → resolve_feedback feedback_id user_id t ≡ answered t'
    → t'
      ≡ update feedback_id (λ r. record r { status = acknowledged; resolved_by = some user_id }) t
unfolding resolve_feedback
resolve_feedback_inv feedback_id user_id t t' e = ground arith

update_row :
    (feedback_id user_id j : ℕ) (r : Feedback)
    → IsFeedback r
    → IsFeedback (
        if j == feedback_id
        then record r { status = acknowledged; resolved_by = some user_id }
        else r)
unfolding IsFeedback
update_row feedback_id user_id j r h = elim (Bool-cases (j == feedback_id)) [
  | inl same ↦ rw same h
  | inr other ↦ rw other h
]

resolve_feedback-AllFeedback :
    (feedback_id user_id : ℕ) (t t' : Table Feedback)
    → resolve_feedback feedback_id user_id t ≡ answered t'
    → AllFeedback t
    → AllFeedback t'
resolve_feedback-AllFeedback feedback_id user_id t t' e all =
    subst AllFeedback (sym (resolve_feedback_inv feedback_id user_id t t' e)) (
      Rows-update (λ k r. IsFeedback r) (λ k r. IsFeedback r) feedback_id
        (λ r. record r { status = acknowledged; resolved_by = some user_id }) t
        (λ j r h. update_row feedback_id user_id j r h) all)

pub Reach-AllFeedback : {t : Table Feedback} → Reach t → AllFeedback t
Reach-AllFeedback none_yet = tt
Reach-AllFeedback (submitted now new tn ds_id ty au ra co ds t t' r e) =
    submit_feedback-AllFeedback now new tn ds_id ty au ra co ds t t' e (Reach-AllFeedback r)
Reach-AllFeedback (resolved id u t t' r e) =
    resolve_feedback-AllFeedback id u t t' e (Reach-AllFeedback r)

-- A list of numbers from 1 to 5.
Stars : List ℕ → Type 0
Stars ns = All (λ n. (1 ≤ n) × (n ≤ 5)) ns

ratings-Stars : (t : Table Feedback) → AllFeedback t → Stars (ratings t)
unfolding ratings rating_in_range IsFeedback Stars
ratings-Stars [] h = tt
ratings-Stars ((k, r) ∷ t) h = elim (Option-cases r.rating) [
  | inl gone ↦ rw gone (ratings-Stars t h.1)
  | inr (n, given) ↦ rw given ((ground arith, ground arith), ratings-Stars t h.1)
]

length-ratings-le : (t : Table Feedback) → length (ratings t) ≤ length t
unfolding ratings
length-ratings-le [] = omega arith
length-ratings-le ((k, r) ∷ t) = ground (arith, length-ratings-le t)

sum-between : (ns : List ℕ) → Stars ns → (length ns ≤ sum ns) × (sum ns ≤ 5 * length ns)
unfolding sum Stars
sum-between [] h = (omega arith, omega arith)
sum-between (n ∷ ns) h = let (low, high) = sum-between ns h.1 in (omega arith, omega arith)

avg-some : (ns : List ℕ) (s n : ℕ) → avg ns ≡ some (s, n) → (s ≡ sum ns) × (n ≡ length ns) × (0 < n)
unfolding avg
avg-some [] s n e = cc
avg-some (x ∷ xs) s n e = ground arith

-- After any sequence of accepted submissions and resolutions, where the summary of a dataset has
-- an average, it is of at least one rating and of no more than there are rows for the dataset, and
-- lies from 1 to 5.
pub Reach-summary_for_dataset :
    (t : Table Feedback) (dataset_id s n : ℕ)
    → Reach t
    → (summary_for_dataset dataset_id t).1 ≡ some (s, n)
    → (0 < n) × (n ≤ (summary_for_dataset dataset_id t).0) × (n ≤ s) × (s ≤ 5 * n)
unfolding summary_for_dataset
Reach-summary_for_dataset t dataset_id s n reached e =
    let rows = select (of_dataset dataset_id) t in
    let all : AllFeedback rows =
      Rows-of_select (λ k r. IsFeedback r) (of_dataset dataset_id) t (Reach-AllFeedback reached) in
    let (total, number, some_row) = avg-some (ratings rows) s n e in
    let (low, high) = sum-between (ratings rows) (ratings-Stars rows all) in
    let fewer = length-ratings-le rows in (omega arith, omega arith, omega arith, omega arith)
