-- ===== src/Ingest/Drift/Agreement.antt =====
-- Drift is told exactly where the two column maps differ.
use Prim.Native.String.{String}
use text.Mathlib.Text.{◌==◌ as str_eq}
use text.Mathlib.TextEquality.{eq_iff}
use text.Mathlib.TextPositions.{eq_refl}
use open_civic.Common.{
  Bool, true, false, not, ◌&&◌, some, List, [], ◌∷◌, map, filter, All, All-mono, is_some,
  if◌then◌else◌, ◌≡◌, refl, sym, ◌∙◌, ap, subst, ◌↔◌, inl, inr, Bool-cases, List-cases,
  Option-cases, arith,
}
use open_civic.Common.Text.{text_leb}
use open_civic.Common.Order.{order_by, order_by-eq-nil}
use open_civic.Catalog.{Column}
use open_civic.Ingest.Drift.{
  Dict, lookup, column_map, names, names_minus, changed, changed_names, change_of, is_nil,
  drift_between, detect_schema_drift,
}

filter-nil {ℓ} :
    {A : Type ℓ} (p : A → Bool) (xs : List A) → filter p xs ≡ [] → All (λ x. p x ≡ false) xs
filter-nil p [] e = tt
filter-nil p (x ∷ xs) e = elim (Bool-cases (p x)) [
  | inl passes ↦ cc (rw passes at e)
  | inr fails ↦ (fails, filter-nil p xs (rw fails at e))
]

filter-of_none {ℓ} :
    {A : Type ℓ} (p : A → Bool) (xs : List A) → All (λ x. p x ≡ false) xs → filter p xs ≡ []
filter-of_none p [] h = refl
filter-of_none p (x ∷ xs) h = rw (h.0) (filter-of_none p xs h.1)

-- What every name of a map has, a name that is found has.
lookup-All {κ} :
    (P : String → Type κ) (d : Dict) (n v : String) → All P (names d) → lookup n d ≡ some v → P n
unfolding names lookup
lookup-All P [] n v h e = cc e
lookup-All P ((j, w) ∷ d) n v h e = elim (Bool-cases (str_eq j n)) [
  | inl same ↦ subst P ((eq_iff j n).0 same) h.0
  | inr other ↦ lookup-All P d n v h.1 (rw other at e)
]

-- Every name of a map is found.
names_found : (d : Dict) → All (λ n. is_some (lookup n d) ≡ true) (names d)
unfolding names lookup
names_found [] = tt
names_found ((j, w) ∷ d) = (
  rw (eq_refl j) refl,
  All-mono (λ n. is_some (lookup n d) ≡ true)
      (λ n. is_some (if str_eq j n then some w else lookup n d) ≡ true) (names d)
      (λ n h. ground (arith, h)) (names_found d),
)

-- The two maps send every name to the same type.
abbrev pub Agree : Dict → Dict → Type 0
Agree a b = (n : String) → lookup n a ≡ lookup n b

names_minus_nil : (a b : Dict) → Agree a b → names_minus a b ≡ []
unfolding names_minus
names_minus_nil a b h =
    filter-of_none (λ n. not (is_some (lookup n b))) (names a)
      (All-mono (λ n. is_some (lookup n a) ≡ true) (λ n. not (is_some (lookup n b)) ≡ false)
        (names a) (λ n found. rw (h n) at (ap not found)) (names_found a))

changed-some :
    (a b : Dict) (n v w : String)
    → lookup n a ≡ some v
    → lookup n b ≡ some w
    → changed a b n ≡ not (str_eq v w)
unfolding changed
changed-some a b n v w there also = rw (there, also, changed) refl

not_changed : (a b : Dict) (n : String) → lookup n a ≡ lookup n b → changed a b n ≡ false
unfolding changed
not_changed a b n e = elim (Option-cases (lookup n b)) [
  | inl missing ↦ rw (e, missing, changed) refl
  | inr (v, found) ↦ changed-some a b n v v (e ∙ found) found ∙ ap not (eq_refl v)
]

changed_names_nil : (a b : Dict) → Agree a b → changed_names a b ≡ []
unfolding changed_names
changed_names_nil a b h = filter-of_none (changed a b) (names a) (
    All-mono (λ n. is_some (lookup n a) ≡ true) (λ n. changed a b n ≡ false) (names a)
      (λ n found. not_changed a b n (h n)) (names_found a))

of_not : (b : Bool) → not b ≡ false → b ≡ true
of_not true h = refl
of_not false h = cc h

-- No name is missing and no type has changed.
Agree-of_nil :
    (a b : Dict) → names_minus a b ≡ [] → names_minus b a ≡ [] → changed_names a b ≡ [] → Agree a b
unfolding names_minus changed_names
Agree-of_nil a b no_removed no_added no_changed n =
    let removed = filter-nil (λ m. not (is_some (lookup m b))) (names a) no_removed in
    let added = filter-nil (λ m. not (is_some (lookup m a))) (names b) no_added in
    let kept = filter-nil (changed a b) (names a) no_changed in
    elim (Option-cases (lookup n a)) [
      | inl missing ↦ elim (Option-cases (lookup n b)) [
        | inl also ↦ missing ∙ sym also
        | inr (w, there) ↦
            cc (
              rw missing at
                (lookup-All (λ m. not (is_some (lookup m a)) ≡ false) b n w added there))
      ]
      | inr (v, there) ↦ elim (Option-cases (lookup n b)) [
        | inl gone ↦
            cc (
              rw gone at (lookup-All (λ m. not (is_some (lookup m b)) ≡ false) a n v removed there))
        | inr (w, also) ↦
            let same = lookup-All (λ m. changed a b m ≡ false) a n v kept there in
            let equal = of_not (str_eq v w) (sym (changed-some a b n v w there also) ∙ same) in
            there ∙ ap some ((eq_iff v w).0 equal) ∙ sym also
      ]
    ]

nil-of_sorted : (xs : List String) → is_nil (order_by text_leb xs) ≡ true → xs ≡ []
unfolding is_nil
nil-of_sorted xs h = elim (List-cases (order_by text_leb xs)) [
  | inl empty ↦ order_by-eq-nil text_leb xs empty
  | inr (y, ys, more) ↦ cc (rw more at h)
]

is_nil-map {ℓ κ} :
    {A : Type ℓ} {B : Type κ} (f : A → B) (xs : List A) → is_nil (map f xs) ≡ is_nil xs
unfolding is_nil
is_nil-map f [] = refl
is_nil-map f (x ∷ xs) = refl

three_true : (a b c : Bool) → not (a && b && c) ≡ false → (a ≡ true) × (b ≡ true) × (c ≡ true)
three_true a b c h = ground (arith, h)

drift_between-Agree : (a b : Dict) → ((drift_between a b).has_drift ≡ false) ↔ Agree a b
unfolding drift_between
drift_between-Agree a b = (
  λ h.
      let (no_added, no_removed, no_changes) =
        three_true (is_nil (order_by text_leb (names_minus b a)))
          (is_nil (order_by text_leb (names_minus a b)))
          (is_nil (map (change_of a b) (order_by text_leb (changed_names a b)))) h in
      Agree-of_nil a b (nil-of_sorted (names_minus a b) no_removed)
        (nil-of_sorted (names_minus b a) no_added)
        (nil-of_sorted (changed_names a b)
          (sym (is_nil-map (change_of a b) (order_by text_leb (changed_names a b))) ∙ no_changes)),
  λ h.
      rw (names_minus_nil a b h, names_minus_nil b a (λ n. sym (h n)), changed_names_nil a b h)
        refl,
)

-- Two snapshots that are both there are told to have no drift exactly when their column maps give
-- every name the same type or both none.
pub detect_schema_drift-Agree :
    (previous incoming : List Column)
    → ((detect_schema_drift (some previous) incoming).has_drift ≡ false)
      ↔ Agree (column_map (some previous)) (column_map (some incoming))
unfolding detect_schema_drift
detect_schema_drift-Agree previous incoming =
    drift_between-Agree (column_map (some previous)) (column_map (some incoming))
