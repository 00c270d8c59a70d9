-- ===== src/Catalog/Quality.antt =====
-- backend/app/services/analytics/quality_scoring_service.py. The source adds floats and rounds the
-- score to two decimals; every exact score is a multiple of half a point, so the model computes
-- in hundredths of a point, without rounding.
use text.Mathlib.Text.{◌==◌ as str_eq}
use open_civic.Common.{
  ℕ, ◌+◌, ◌*◌, ◌≤◌, ◌≡◌, refl, String, Bool, true, false, Option, none, some, List, [], ◌∷◌, arith,
  ltb, if◌then◌else◌,
}
use open_civic.Catalog.Model.{Status, Json, null, flag, number, words, items, Column, Dataset}

-- Python's truth value of a JSON value.
truthy : Json → Bool
truthy null = false
truthy (flag b) = b
truthy (number n) = ltb 0 n
truthy (words String.[]) = false
truthy (words _) = true
truthy (items []) = false
truthy (items _) = true

-- `metadata.get(key)`, as a truth value.
filled : List (String × Json) → String → Bool
unfolding truthy
filled [] key = false
filled ((k, v) ∷ m) key = if str_eq k key then truthy v else filled m key

-- `sum(1 for key in keys if metadata.get(key))`
count_filled : List (String × Json) → List String → ℕ
unfolding filled
count_filled m [] = 0
count_filled m (key ∷ keys) = (if filled m key then 1 else 0) + count_filled m keys

abbrev required : List String
required = "publisher" ∷ "theme" ∷ "language" ∷ []

abbrev optional : List String
optional = "contact_point" ∷ "issued" ∷ "modified" ∷ "spatial" ∷ []

-- The share of the whole score, 40 points: 10 for each required field, 2.5 for each optional one.
unfoldable pub metadata_completeness : Dataset → ℕ
unfolding count_filled
metadata_completeness d =
    count_filled d.metadata required * 1000 + count_filled d.metadata optional * 250

-- 25 points.
unfoldable pub freshness_score : Dataset → ℕ
freshness_score d = elim d.last_refreshed_at [
  | some t ↦ 2500
  | none ↦ elim d.row_count [ some n ↦ if ltb 0 n then 1500 else 500 | none ↦ 500 ]
]

schema_score_of : Option (List Column) → ℕ
schema_score_of none = 0
schema_score_of (some []) = 0
schema_score_of (some (c ∷ [])) = 1400
schema_score_of (some (c ∷ d ∷ cs)) = 2000

-- 20 points.
unfoldable pub schema_score : Dataset → ℕ
unfolding schema_score_of
schema_score d = schema_score_of d.schema_snapshot

-- 15 points.
unfoldable pub licence_score : Dataset → ℕ
licence_score d = elim d.licence_id [ some l ↦ 1500 | none ↦ 0 ]

unfoldable pub compute_quality_score : Dataset → ℕ
unfolding metadata_completeness freshness_score schema_score licence_score
compute_quality_score d =
    metadata_completeness d + freshness_score d + schema_score d + licence_score d

count_filled-le_three :
    (m : List (String × Json)) (a b c : String) → count_filled m (a ∷ b ∷ c ∷ []) ≤ 3
unfolding count_filled
count_filled-le_three m a b c = ground arith

count_filled-le_four :
    (m : List (String × Json)) (a b c d : String) → count_filled m (a ∷ b ∷ c ∷ d ∷ []) ≤ 4
unfolding count_filled
count_filled-le_four m a b c d = ground arith

freshness_bounds : (d : Dataset) → (500 ≤ freshness_score d) × (freshness_score d ≤ 2500)
unfolding freshness_score
freshness_bounds d = ground arith

schema_score_of-le : (s : Option (List Column)) → schema_score_of s ≤ 2000
unfolding schema_score_of
schema_score_of-le none = omega arith
schema_score_of-le (some []) = omega arith
schema_score_of-le (some (c ∷ [])) = omega arith
schema_score_of-le (some (c ∷ d ∷ cs)) = omega arith

licence_score-le : (d : Dataset) → licence_score d ≤ 1500
unfolding licence_score
licence_score-le d = ground arith

-- The quality score of every dataset lies between 5 and 100 points.
pub compute_quality_score_bounds :
    (d : Dataset) → (500 ≤ compute_quality_score d) × (compute_quality_score d ≤ 10000)
unfolding compute_quality_score
compute_quality_score_bounds d = omega (
  arith,
  count_filled-le_three d.metadata "publisher" "theme" "language",
  count_filled-le_four d.metadata "contact_point" "issued" "modified" "spatial",
  freshness_bounds d,
  schema_score_of-le d.schema_snapshot,
  licence_score-le d,
)

-- The score does not read the review state.
pub compute_quality_score-free :
    (d : Dataset) (s : Status) (t : Option ℕ)
    → compute_quality_score (record d { status = s; published_at = t }) ≡ compute_quality_score d
unfolding compute_quality_score
compute_quality_score-free d s t = refl
