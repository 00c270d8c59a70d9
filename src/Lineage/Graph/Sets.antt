-- ===== src/Lineage/Graph/Sets.antt =====
-- The sets of identifiers of the walk: what is in them after each step of it.
use mathlib.Core.Path.{ap, subst}
use mathlib.Core.List.{Memᴰ}
use mathlib.Core.List.Memᴰ
use open_civic.Common.{
  ℕ, ◌≡◌, refl, ◌∙◌, ◌⊎◌, inl, inr, Bool, true, not, ◌&&◌, ◌||◌, List, [], ◌∷◌, ◌==◌, ==_iff,
  ==_refl, contains, filter, Bool-cases, arith,
}
use open_civic.Common.Table.{Table, select}
use open_civic.Lineage.Graph.{Edge, add, update_ids, ends_of, fresh_ids}

-- A row of a query is a row of the table that passes the test, and back.
pub mem_of_select {ℓ} :
    {R : Type ℓ} (p : ℕ → R → Bool) (x : ℕ × R) (t : Table R)
    → Memᴰ x (select p t)
    → Memᴰ x t × (p x.0 x.1 ≡ true)
unfolding select
mem_of_select p x [] m = absurd (Memᴰ.not-nil m)
mem_of_select p x ((j, r) ∷ t) m = elim (Bool-cases (p j r)) [
  | inr fails ↦
      let (there, passes) = mem_of_select p x t (rw fails at m) in (Memᴰ.tail there, passes)
  | inl holds ↦ elim (Memᴰ.cases_cons (rw holds at m)) [
    | inl same ↦ (Memᴰ.head same, rw same holds)
    | inr rest ↦ let (there, passes) = mem_of_select p x t rest in (Memᴰ.tail there, passes)
  ]
]

pub mem-select {ℓ} :
    {R : Type ℓ} (p : ℕ → R → Bool) (x : ℕ × R) (t : Table R)
    → Memᴰ x t
    → p x.0 x.1 ≡ true
    → Memᴰ x (select p t)
unfolding select
mem-select p x [] m h = absurd (Memᴰ.not-nil m)
mem-select p x ((j, r) ∷ t) (Memᴰ.head same) h =
    rw (subst (λ y. p y.0 y.1 ≡ true) same h) (Memᴰ.head same)
mem-select p x ((j, r) ∷ t) (Memᴰ.tail m) h = elim (Bool-cases (p j r)) [
  | inl holds ↦ rw holds (Memᴰ.tail (mem-select p x t m h))
  | inr fails ↦ rw fails (mem-select p x t m h)
]

test_eq : (p : ℕ → Bool) (j k : ℕ) → (j == k) ≡ true → p j ≡ p k
test_eq p j k same = ap p ((==_iff j k).0 same)

pub contains-add : (k j : ℕ) (ids : List ℕ) → contains (add k ids) j ≡ (j == k || contains ids j)
unfolding add
contains-add k j ids = elim (Bool-cases (contains ids k)) [
  | inl there ↦ ground (arith, test_eq (contains ids) j k, there)
  | inr new ↦ rw new refl
]

pub contains-update_ids :
    (ks ids : List ℕ) (j : ℕ) → contains (update_ids ks ids) j ≡ (contains ks j || contains ids j)
unfolding update_ids
contains-update_ids [] ids j = refl
contains-update_ids (k ∷ ks) ids j =
    grind (arith, contains-add k j (update_ids ks ids), contains-update_ids ks ids j)

pub contains-filter :
    (p : ℕ → Bool) (ids : List ℕ) (j : ℕ) → contains (filter p ids) j ≡ (contains ids j && p j)
contains-filter p [] j = refl
contains-filter p (k ∷ ks) j = grind (arith, contains-filter p ks j, test_eq p j k)

pub contains-fresh_ids :
    (new_ids ids : List ℕ) (j : ℕ)
    → contains (fresh_ids new_ids ids) j ≡ (contains new_ids j && not (contains ids j))
unfolding fresh_ids
contains-fresh_ids new_ids ids j = contains-filter (λ k. not (contains ids k)) new_ids j

-- The ends of a list of edges, one edge at a time.
ends_of_cons :
    (k : ℕ) (e : Edge) (t : Table Edge) (v : ℕ)
    → contains (ends_of ((k, e) ∷ t)) v
      ≡ (v == e.to_node_id || (v == e.from_node_id || contains (ends_of t) v))
unfolding ends_of
ends_of_cons k e t v =
    contains-add e.to_node_id v (add e.from_node_id (ends_of t))
    ∙ ap (λ b. v == e.to_node_id || b) (contains-add e.from_node_id v (ends_of t))

pub contains-ends_of :
    (x : ℕ × Edge) (t : Table Edge)
    → Memᴰ x t
    → (contains (ends_of t) x.1.from_node_id ≡ true) × (contains (ends_of t) x.1.to_node_id ≡ true)
contains-ends_of x [] m = absurd (Memᴰ.not-nil m)
contains-ends_of x ((k, e) ∷ t) (Memᴰ.head same) = rw same (
  grind (arith, ends_of_cons k e t e.from_node_id, ==_refl e.from_node_id),
  grind (arith, ends_of_cons k e t e.to_node_id, ==_refl e.to_node_id),
)
contains-ends_of x ((k, e) ∷ t) (Memᴰ.tail m) =
    let (from, to) = contains-ends_of x t m in
    (
      grind (arith, ends_of_cons k e t x.1.from_node_id, from),
      grind (arith, ends_of_cons k e t x.1.to_node_id, to),
    )

pub end_of_row :
    (v : ℕ) (t : Table Edge)
    → contains (ends_of t) v ≡ true
    → (x : ℕ × Edge) × Memᴰ x t × ((v ≡ x.1.from_node_id) ⊎ (v ≡ x.1.to_node_id))
unfolding ends_of
end_of_row v [] h = cc h
end_of_row v ((k, e) ∷ t) h = elim (Bool-cases (v == e.to_node_id)) [
  | inl to ↦ ((k, e), Memᴰ.head refl, inr ((==_iff v e.to_node_id).0 to))
  | inr not_to ↦ elim (Bool-cases (v == e.from_node_id)) [
    | inl from ↦ ((k, e), Memᴰ.head refl, inl ((==_iff v e.from_node_id).0 from))
    | inr not_from ↦
        let (x, m, at) =
          end_of_row v t (grind (arith, ends_of_cons k e t v, h, not_to, not_from)) in
        (x, Memᴰ.tail m, at)
  ]
]
