-- ===== src/Feedback/Tests.antt =====
-- Feedback on one published dataset.
use open_civic.Common.{ℕ, ◌*◌, ◌≤◌, ◌<◌, ◌≡◌, refl, none, some, [], ◌∷◌}
use open_civic.Common.Table.{Table, find, select, update}
use open_civic.Common.Order.{order_by}
use open_civic.Common.Text.{codes}
use open_civic.Catalog.Repository.{get_by_id}
use open_civic.Catalog.{Dataset, draft, published, is_published, same_status, Status-discrete}
use open_civic.Ingest.Samples.{weather}
use open_civic.Feedback.{
  Feedback, answered, refused, unprocessable, unpublished, permission_denied, dataset_not_found,
  open_item, acknowledged, submit_feedback, resolve_feedback, list_feedback, summary_for_dataset,
  rating_required, create, allowed_type, lacks_rating, rating_in_range, content_fits, avg,
  of_dataset, ratings, list_for_dataset,
}
use open_civic.Feedback.Ratings.{none_yet, submitted, resolved, Reach-summary_for_dataset}

abbrev datasets : Table Dataset
datasets =
    (1, record weather { status = published; publisher_id = 5 })
    ∷ (2, record weather { status = draft })
    ∷ []

abbrev rated : ℕ → Feedback
rated n = record {
  tenant_id = 3;
  dataset_id = 1;
  author_id = none;
  feedback_type = "rating";
  rating = some n;
  content = none;
  status = open_item;
  resolved_by = none;
  created_at = 100;
}

first :
    submit_feedback 100 7 3 1 "rating" none (some 4) none datasets []
    ≡ answered (7, (7, rated 4) ∷ [])
unfolding submit_feedback create allowed_type lacks_rating rating_in_range content_fits codes find
    get_by_id is_published same_status Status-discrete
first = refl

second :
    submit_feedback 100 8 3 1 "rating" none (some 1) none datasets ((7, rated 4) ∷ [])
    ≡ answered (8, (8, rated 1) ∷ (7, rated 4) ∷ [])
unfolding submit_feedback create allowed_type lacks_rating rating_in_range content_fits codes find
    get_by_id is_published same_status Status-discrete
second = refl

out_of_range :
    submit_feedback 100 8 3 1 "rating" none (some 6) none datasets [] ≡ refused unprocessable
unfolding submit_feedback create allowed_type lacks_rating rating_in_range content_fits codes find
    get_by_id is_published same_status Status-discrete
out_of_range = refl

without_rating :
    submit_feedback 100 8 3 1 "rating" none none none datasets [] ≡ refused rating_required
unfolding submit_feedback create allowed_type lacks_rating rating_in_range content_fits codes find
    get_by_id is_published same_status Status-discrete
without_rating = refl

on_draft :
    submit_feedback 100 8 3 2 "comment" none none (some "?") datasets [] ≡ refused unpublished
unfolding submit_feedback create allowed_type lacks_rating rating_in_range content_fits codes find
    get_by_id is_published same_status Status-discrete
on_draft = refl

on_nothing :
    submit_feedback 100 8 3 4 "comment" none none (some "?") datasets [] ≡ refused dataset_not_found
unfolding submit_feedback create allowed_type lacks_rating rating_in_range content_fits codes find
    get_by_id is_published same_status Status-discrete
on_nothing = refl

average : summary_for_dataset 1 ((8, rated 1) ∷ (7, rated 4) ∷ []) ≡ (2, some (5, 2))
unfolding summary_for_dataset select avg of_dataset ratings
average = refl

other_publisher : list_feedback 6 ("publisher" ∷ []) 1 datasets [] ≡ refused permission_denied
unfolding list_feedback list_for_dataset order_by select of_dataset find get_by_id
other_publisher = refl

own_feedback : list_feedback 5 [] 1 datasets ((7, rated 4) ∷ []) ≡ answered ((7, rated 4) ∷ [], 1)
unfolding list_feedback list_for_dataset order_by select of_dataset find get_by_id
own_feedback = refl

handled :
    resolve_feedback 7 9 ((8, rated 1) ∷ (7, rated 4) ∷ [])
    ≡ answered
        ((8, rated 1) ∷ (7, record (rated 4) { status = acknowledged; resolved_by = some 9 }) ∷ [])
unfolding resolve_feedback find update
handled = refl

Reach-summary_for_dataset_example : (0 < 2) × (2 ≤ 2) × (2 ≤ 5) × (5 ≤ 5 * 2)
unfolding summary_for_dataset select avg of_dataset ratings
Reach-summary_for_dataset_example =
    Reach-summary_for_dataset _ 1 5 2
      (resolved 7 9 _ _
        (submitted 100 8 3 1 "rating" none (some 1) none datasets _ _
          (submitted 100 7 3 1 "rating" none (some 4) none datasets _ _ none_yet first) second)
        handled)
      refl
