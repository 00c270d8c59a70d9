-- ===== src/Ingest/Versions/Numbering.antt =====
-- The versions of a dataset are numbered upwards, so the latest is the last that was created.
use mathlib.Core.Option.{some-injective}
use open_civic.Common.{
  ℕ, ◌≤◌, ◌<◌, ◌≡◌, refl, sym, ◌∙◌, true, false, none, some, [], ◌∷◌, ◌==◌, ==_iff, ==_refl, ltb,
  Bool-cases, Option-cases, All-mono, arith, inl, inr, subst, le→ltb,
}
use open_civic.Common.Table.{Table, Rows}
use open_civic.Ingest.Versions.{
  DatasetVersion, get_latest, later, max_version, next_version_number, create,
}

-- Every version of a dataset has a higher number than those that were created before it.
unfoldable pub IsNumbered : Table DatasetVersion → Type 0
IsNumbered [] = Unit
IsNumbered ((k, v) ∷ t) =
    Rows (λ j w. w.dataset_id ≡ v.dataset_id → w.version_number < v.version_number) t × IsNumbered t

next_mono :
    (dataset_id k : ℕ) (v : DatasetVersion) (t : Table DatasetVersion)
    → next_version_number dataset_id t ≤ next_version_number dataset_id ((k, v) ∷ t)
unfolding next_version_number max_version
next_mono dataset_id k v t = elim (Bool-cases (v.dataset_id == dataset_id)) [
  | inr other ↦ rw (other, next_version_number) (omega arith)
  | inl same ↦ elim (Option-cases (max_version dataset_id t)) [
    | inl first ↦ rw (same, first, next_version_number) (omega arith)
    | inr (n, some_before) ↦ rw (same, some_before, next_version_number) (ground arith)
  ]
]

next_own :
    (dataset_id k : ℕ) (v : DatasetVersion) (t : Table DatasetVersion)
    → v.dataset_id ≡ dataset_id
    → v.version_number < next_version_number dataset_id ((k, v) ∷ t)
unfolding next_version_number max_version
next_own dataset_id k v t h =
    let same : (v.dataset_id == dataset_id) ≡ true = (==_iff v.dataset_id dataset_id).1 h in
    elim (Option-cases (max_version dataset_id t)) [
      | inl first ↦ rw (same, first, next_version_number) (omega arith)
      | inr (n, some_before) ↦ rw (same, some_before, next_version_number) (ground arith)
    ]

-- The next number is above every number of the dataset.
pub next-gt :
    (dataset_id : ℕ) (t : Table DatasetVersion)
    → Rows
        (λ j w. w.dataset_id ≡ dataset_id → w.version_number < next_version_number dataset_id t)
        t
next-gt dataset_id [] = tt
next-gt dataset_id ((k, v) ∷ t) = (
  next_own dataset_id k v t,
  All-mono
      (λ x. x.1.dataset_id ≡ dataset_id → x.1.version_number < next_version_number dataset_id t)
      (λ x.
        x.1.dataset_id ≡ dataset_id
        → x.1.version_number < next_version_number dataset_id ((k, v) ∷ t))
      t (λ x below same. omega (arith, below same, next_mono dataset_id k v t))
      (next-gt dataset_id t),
)

-- A new version that takes the next number keeps the numbering.
pub IsNumbered-create :
    (new : ℕ) (v : DatasetVersion) (t : Table DatasetVersion)
    → v.version_number ≡ next_version_number v.dataset_id t
    → IsNumbered t
    → IsNumbered (create new v t)
unfolding create IsNumbered
IsNumbered-create new v t h numbered = (
  subst (λ n. Rows (λ j w. w.dataset_id ≡ v.dataset_id → w.version_number < n) t) (sym h)
      (next-gt v.dataset_id t),
  numbered,
)

-- The latest is a row of the dataset whose number no other exceeds.
pub get_latest-eq-none :
    (dataset_id : ℕ) (t : Table DatasetVersion)
    → get_latest dataset_id t ≡ none
    → Rows (λ j w. (w.dataset_id == dataset_id) ≡ false) t
unfolding get_latest
get_latest-eq-none dataset_id [] e = tt
get_latest-eq-none dataset_id ((k, v) ∷ t) e = elim (Bool-cases (v.dataset_id == dataset_id)) [
  | inl same ↦ cc (rw same at e)
  | inr other ↦ (other, get_latest-eq-none dataset_id t (rw other at e))
]

latest_in :
    (P : DatasetVersion → Type 0) (dataset_id : ℕ) (t : Table DatasetVersion) (w : DatasetVersion)
    → Rows (λ j u. u.dataset_id ≡ dataset_id → P u) t
    → get_latest dataset_id t ≡ some w
    → P w
unfolding get_latest later
latest_in P dataset_id [] w h e = cc e
latest_in P dataset_id ((k, v) ∷ t) w h e = elim (Bool-cases (v.dataset_id == dataset_id)) [
  | inr other ↦ latest_in P dataset_id t w h.1 (rw other at e)
  | inl same ↦ elim (Option-cases (get_latest dataset_id t)) [
    | inl first ↦
        subst P (some-injective v w (rw (same, first) at e))
          (h.0 ((==_iff v.dataset_id dataset_id).0 same))
    | inr (u, before) ↦ elim (Bool-cases (ltb v.version_number u.version_number)) [
      | inl above ↦ latest_in P dataset_id t w h.1 (before ∙ rw (same, before, above) at e)
      | inr not_above ↦
          subst P (some-injective v w (rw (same, before, not_above) at e))
            (h.0 ((==_iff v.dataset_id dataset_id).0 same))
    ]
  ]
]

-- A version above all of its dataset is the latest.
pub get_latest-create :
    (new : ℕ) (v : DatasetVersion) (t : Table DatasetVersion)
    → v.version_number ≡ next_version_number v.dataset_id t
    → get_latest v.dataset_id (create new v t) ≡ some v
unfolding get_latest create later
get_latest-create new v t h = elim (Option-cases (get_latest v.dataset_id t)) [
  | inl first ↦ rw (==_refl v.dataset_id, first) refl
  | inr (w, before) ↦
      let below : w.version_number < v.version_number =
        subst (λ n. w.version_number < n) (sym h)
          (latest_in (λ u. u.version_number < next_version_number v.dataset_id t) v.dataset_id t w
            (next-gt v.dataset_id t) before) in
      rw
        (
          ==_refl v.dataset_id,
          before,
          le→ltb v.version_number w.version_number (omega (arith, below)),
        )
        refl
]

-- The versions of another dataset do not matter.
pub get_latest-create_other :
    (new : ℕ) (v : DatasetVersion) (t : Table DatasetVersion) (dataset_id : ℕ)
    → (v.dataset_id == dataset_id) ≡ false
    → get_latest dataset_id (create new v t) ≡ get_latest dataset_id t
unfolding get_latest create
get_latest-create_other new v t dataset_id other = rw other refl
