-- ===== src/Common/Table.antt =====
-- A database table: rows by primary key, with the queries and updates that the repositories make.
use Prim.Native.Nat.{ℕ}
use mathlib.Core.Path.{◌≡◌, refl, sym, subst, ◌∙◌}
use mathlib.Core.Logic.{◌≢◌, inl, inr}
use mathlib.Core.Bool.{Bool, true, false, false≢true}
use mathlib.Core.Option
use mathlib.Core.Option.{Option, none, some, some-injective}
use mathlib.Core.List.{List, [], ◌∷◌}
use native.Mathlib.Omega.{arith}
use open_civic.Common.Tests.{◌==◌, ==_iff, if◌then◌else◌, Bool-cases, Option-cases}
use open_civic.Common.Lists.{length, All}

abbrev pub Table {ℓ} : Type ℓ → Type ℓ
Table R = List (ℕ × R)

module _ {ℓ} {R : Type ℓ} where
  -- `SELECT … WHERE id = k`
  unfoldable pub find : ℕ → Table R → Option R
  find k [] = none
  find k ((j, r) ∷ t) = if k == j then some r else find k t

  -- `INSERT`, the new row first.
  abbrev pub insert : ℕ → R → Table R → Table R
  insert k r t = (k, r) ∷ t

  -- `UPDATE … SET f WHERE p`
  unfoldable pub update_where : (ℕ → R → Bool) → (R → R) → Table R → Table R
  update_where p f [] = []
  update_where p f ((j, r) ∷ t) = (j, if p j r then f r else r) ∷ update_where p f t

  -- `UPDATE … SET f WHERE id = k`
  unfoldable pub update : ℕ → (R → R) → Table R → Table R
  unfolding update_where
  update k f t = update_where (λ j r. j == k) f t

  -- `SELECT … WHERE p`
  unfoldable pub select : (ℕ → R → Bool) → Table R → Table R
  select p [] = []
  select p ((j, r) ∷ t) = let rest = select p t in if p j r then (j, r) ∷ rest else rest

  -- `DELETE … WHERE id = k`
  unfoldable pub delete : ℕ → Table R → Table R
  delete k [] = []
  delete k ((j, r) ∷ t) = let rest = delete k t in if j == k then rest else (j, r) ∷ rest

  -- Every row.
  abbrev pub Rows {κ} : (ℕ → R → Type κ) → Table R → Type κ
  Rows P t = All (λ x. P x.0 x.1) t

  pub find-insert :
      (k j : ℕ) (r : R) (t : Table R)
      → find j (insert k r t) ≡ (if j == k then some r else find j t)
  unfolding find
  find-insert k j r t = refl

  pub find-update_where :
      (p : ℕ → R → Bool) (f : R → R) (j : ℕ) (t : Table R)
      → find j (update_where p f t) ≡ Option.map (λ r. if p j r then f r else r) (find j t)
  unfolding find update_where
  find-update_where p f j [] = refl
  find-update_where p f j ((i, r) ∷ t) = ground (arith, find-update_where p f j t)

  pub find-update :
      (k : ℕ) (f : R → R) (j : ℕ) (t : Table R)
      → find j (update k f t) ≡ (if j == k then Option.map f (find j t) else find j t)
  unfolding find update
  find-update k f j [] = ground arith
  find-update k f j ((i, r) ∷ t) = ground (arith, find-update k f j t)

  pub find-update_self :
      (k : ℕ) (f : R → R) (t : Table R) {r : R}
      → find k t ≡ some r
      → find k (update k f t) ≡ some (f r)
  unfolding find update
  find-update_self k f [] e = cc
  find-update_self k f ((i, r) ∷ t) {r = r'} e = ground (arith, find-update_self k f t {r = r'})

  pub find-update_missing :
      (k : ℕ) (f : R → R) (t : Table R) → find k t ≡ none → find k (update k f t) ≡ none
  unfolding find update
  find-update_missing k f [] e = refl
  find-update_missing k f ((i, r) ∷ t) e = ground (arith, find-update_missing k f t)

  pub find-update_ne :
      (k j : ℕ) (f : R → R) (t : Table R) → j ≢ k → find j (update k f t) ≡ find j t
  unfolding find update
  find-update_ne k j f [] h = refl
  find-update_ne k j f ((i, r) ∷ t) h = ground (arith, find-update_ne k j f t h)

  pub find-insert_self : (k : ℕ) (r : R) (t : Table R) → find k (insert k r t) ≡ some r
  unfolding find
  find-insert_self k r t = ground arith

  pub find-delete :
      (k j : ℕ) (t : Table R) → find j (delete k t) ≡ (if j == k then none else find j t)
  unfolding find delete
  find-delete k j [] = ground arith
  find-delete k j ((i, r) ∷ t) = ground (arith, find-delete k j t)

  pub Rows-find {κ} :
      (P : ℕ → R → Type κ) (k : ℕ) (r : R) (t : Table R) → Rows P t → find k t ≡ some r → P k r
  unfolding find
  Rows-find P k r [] h e = cc
  Rows-find P k r ((j, r') ∷ t) h e = elim (Bool-cases (k == j)) [
    | inl same ↦
        subst (λ i. P i r) (sym ((==_iff k j).0 same))
          (subst (P j) (some-injective r' r (rw same at e)) h.0)
    | inr other ↦ Rows-find P k r t h.1 (rw other at e)
  ]

  pub Rows-update_where {κ} :
      (P : ℕ → R → Type κ) (p : ℕ → R → Bool) (f : R → R) (t : Table R)
      → ((j : ℕ) (r : R) → p j r ≡ true → P j r → P j (f r))
      → Rows P t
      → Rows P (update_where p f t)
  unfolding update_where
  Rows-update_where P p f [] step h = tt
  Rows-update_where P p f ((j, r) ∷ t) step h = (
    (elim (p j r) as (λ b. (b ≡ true → P j (f r)) → P j (if b then f r else r)) [
      | true ↦ λ k. k refl
      | false ↦ λ k. h.0
    ])
        (λ e. step j r e h.0),
    Rows-update_where P p f t step h.1,
  )

  pub Rows-update {κ μ} :
      (P : ℕ → R → Type κ) (Q : ℕ → R → Type μ) (k : ℕ) (f : R → R) (t : Table R)
      → ((j : ℕ) (r : R) → P j r → Q j (if j == k then f r else r))
      → Rows P t
      → Rows Q (update k f t)
  unfolding update
  Rows-update P Q k f [] step h = tt
  Rows-update P Q k f ((j, r) ∷ t) step h = (step j r h.0, Rows-update P Q k f t step h.1)

  -- Where no row passes the test, the query is empty.
  pub select-eq-nil :
      (p : ℕ → R → Bool) (t : Table R) → Rows (λ j r. p j r ≡ false) t → select p t ≡ []
  unfolding select
  select-eq-nil p [] h = refl
  select-eq-nil p ((j, r) ∷ t) h = rw (h.0, select) (select-eq-nil p t h.1)

  pub Rows-of_select {κ} :
      (P : ℕ → R → Type κ) (p : ℕ → R → Bool) (t : Table R) → Rows P t → Rows P (select p t)
  unfolding select
  Rows-of_select P p [] h = tt
  Rows-of_select P p ((j, r) ∷ t) h =
      let rest = Rows-of_select P p t h.1 in
      elim (p j r) as (λ b. Rows P (if b then (j, r) ∷ select p t else select p t)) [
        | true ↦ (h.0, rest)
        | false ↦ rest
      ]

  pub Rows-select {κ} :
      (P : ℕ → R → Type κ) (p : ℕ → R → Bool) (t : Table R)
      → ((j : ℕ) (r : R) → p j r ≡ true → P j r)
      → Rows P (select p t)
  unfolding select
  Rows-select P p [] h = tt
  Rows-select P p ((j, r) ∷ t) h =
      let rest = Rows-select P p t h in
      (elim (p j r)
          as (λ b. (b ≡ true → P j r) → Rows P (if b then (j, r) ∷ select p t else select p t)) [
            | true ↦ λ k. (k refl, rest)
            | false ↦ λ k. rest
          ])
        (h j r)

  pub length-update_where :
      (p : ℕ → R → Bool) (f : R → R) (t : Table R) → length (update_where p f t) ≡ length t
  unfolding update_where
  length-update_where p f [] = refl
  length-update_where p f ((j, r) ∷ t) = omega (arith, length-update_where p f t)

  -- Every row that a query by key can find.
  abbrev pub Found {κ} : (R → Type κ) → Table R → Type (ℓ ⊔ κ)
  Found P t = (k : ℕ) (r : R) → find k t ≡ some r → P r

  pub Found-insert {κ} :
      (P : R → Type κ) (k : ℕ) (r : R) (t : Table R) → Found P t → P r → Found P (insert k r t)
  unfolding find
  Found-insert P k r t h p j s e = elim (Bool-cases (j == k)) [
    | inl same ↦ subst P (some-injective r s (rw same at e)) p
    | inr other ↦ h j s (rw other at e)
  ]

  pub Found-update {κ} :
      (P : R → Type κ) (k : ℕ) (f : R → R) (t : Table R)
      → Found P t
      → ((r : R) → find k t ≡ some r → P r → P (f r))
      → Found P (update k f t)
  Found-update P k f t h step j s e = elim (Bool-cases (j == k)) [
    | inr other ↦
        h j s
          (sym (find-update_ne k j f t (λ same. false≢true (sym other ∙ (==_iff j k).1 same))) ∙ e)
    | inl same ↦
        let e' = subst (λ i. find i (update k f t) ≡ some s) ((==_iff j k).0 same) e in
        elim (Option-cases (find k t)) [
          | inl missing ↦ absurd (grind (arith, find-update_missing, e'))
          | inr (r, there) ↦
              subst P (some-injective (f r) s (sym (find-update_self k f t there) ∙ e'))
                (step r there (h k r there))
        ]
  ]
