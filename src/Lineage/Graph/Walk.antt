-- ===== src/Lineage/Graph/Walk.antt =====
-- The walk of the lineage graph ends: each round that leaves a frontier has met a new identifier.
use Prim.Native.Nat.{◌<◌, ◌≤◌}
use mathlib.Core.List.{Memᴰ}
use mathlib.Core.List.Memᴰ
use open_civic.Common.{
  ℕ, zero, suc, ◌+◌, ◌*◌, ◌≡◌, refl, sym, ◌∙◌, ◌⊎◌, inl, inr, true, false, not, ◌&&◌, ◌||◌, some,
  List, [], ◌∷◌, ◌++◌, ==_refl, contains, length, if◌then◌else◌, List-cases, arith, subst,
}
use open_civic.Common.Table.{Table}
use open_civic.Lineage.Graph.{Edge, batch, update_ids, ends_of, fresh_ids, walk, enough}
use open_civic.Lineage.Graph.Sets.{
  mem_of_select, contains-update_ids, contains-fresh_ids, end_of_row,
}

abbrev missing : List ℕ → ℕ → ℕ
missing ids k = if contains ids k then 0 else 1

-- How many ends of edges are not among the identifiers.
unfoldable pub unseen : Table Edge → List ℕ → ℕ
unseen [] ids = 0
unseen ((k, e) ∷ t) ids = missing ids e.from_node_id + (missing ids e.to_node_id + unseen t ids)

pub unseen-le : (es : Table Edge) (ids : List ℕ) → unseen es ids ≤ 2 * length es
unfolding unseen
unseen-le [] ids = omega arith
unseen-le ((k, e) ∷ t) ids = ground (arith, unseen-le t ids)

-- Every identifier of the first list is in the second.
abbrev Within : List ℕ → List ℕ → Type 0
Within ids more = (k : ℕ) → contains ids k ≡ true → contains more k ≡ true

missing-le : (ids more : List ℕ) (k : ℕ) → Within ids more → missing more k ≤ missing ids k
missing-le ids more k grows = ground (arith, grows k)

unseen_mono :
    (es : Table Edge) (ids more : List ℕ) → Within ids more → unseen es more ≤ unseen es ids
unfolding unseen
unseen_mono [] ids more grows = omega arith
unseen_mono ((k, e) ∷ t) ids more grows = omega (
  arith,
  missing-le ids more e.from_node_id grows,
  missing-le ids more e.to_node_id grows,
  unseen_mono t ids more grows,
)

missing-lt :
    (ids more : List ℕ) (v k : ℕ)
    → v ≡ k
    → contains ids v ≡ false
    → contains more v ≡ true
    → missing more k < missing ids k
missing-lt ids more v k same new met =
    subst (λ j. missing more j < missing ids j) same (ground (arith, new, met))

-- One end more is seen.
unseen_drop :
    (es : Table Edge) (ids more : List ℕ) (x : ℕ × Edge) (v : ℕ)
    → Within ids more
    → Memᴰ x es
    → (v ≡ x.1.from_node_id) ⊎ (v ≡ x.1.to_node_id)
    → contains ids v ≡ false
    → contains more v ≡ true
    → unseen es more < unseen es ids
unfolding unseen
unseen_drop [] ids more x v grows m at new met = absurd (Memᴰ.not-nil m)
unseen_drop ((k, e) ∷ t) ids more x v grows (Memᴰ.tail m) at new met = omega (
  arith,
  missing-le ids more e.from_node_id grows,
  missing-le ids more e.to_node_id grows,
  unseen_drop t ids more x v grows m at new met,
)
unseen_drop ((k, e) ∷ t) ids more x v grows (Memᴰ.head same) at new met =
    let rest = unseen_mono t ids more grows in
    let from = missing-le ids more e.from_node_id grows in
    let to = missing-le ids more e.to_node_id grows in
    let at_row = subst (λ y. (v ≡ y.1.from_node_id) ⊎ (v ≡ y.1.to_node_id)) same at in
    elim at_row [
      | inl it ↦ omega (arith, rest, to, missing-lt ids more v e.from_node_id it new met)
      | inr it ↦ omega (arith, rest, from, missing-lt ids more v e.to_node_id it new met)
    ]

-- A round that leaves a frontier lowers the measure.
unseen_round :
    (es : Table Edge) (frontier ids : List ℕ) (f : ℕ) (fs : List ℕ)
    → fresh_ids (ends_of (batch frontier es)) ids ≡ f ∷ fs
    → unseen es (update_ids (ends_of (batch frontier es)) ids) < unseen es ids
unfolding batch
unseen_round es frontier ids f fs e =
    let new_ids = ends_of (batch frontier es) in
    let is_fresh : (contains new_ids f && not (contains ids f)) ≡ true =
      sym (contains-fresh_ids new_ids ids f) ∙ rw e (grind (arith, ==_refl f)) in
    let is_new : contains new_ids f ≡ true = grind (arith, is_fresh) in
    let (x, m, at) = end_of_row f (batch frontier es) is_new in
    unseen_drop es ids (update_ids new_ids ids) x f
      (λ k there. grind (arith, contains-update_ids new_ids ids k, there))
      ((mem_of_select (λ k e. contains frontier e.from_node_id || contains frontier e.to_node_id) x
        es m).0)
      at (grind (arith, is_fresh)) (grind (arith, contains-update_ids new_ids ids f, is_new))

-- The loop that collects the graph ends, from every frontier, within one round more than there are
-- ends of edges that it has not seen.
pub walk_returns :
    (fuel : ℕ) (es : Table Edge) (ids frontier : List ℕ) (found : Table Edge)
    → (frontier ≡ []) ⊎ (unseen es ids < fuel)
    → (r : List ℕ × Table Edge) × (walk fuel es ids frontier found ≡ some r)
unfolding walk
walk_returns fuel es ids [] found h = ((ids, found), refl)
walk_returns zero es ids (f ∷ fs) found h = absurd (ground arith)
walk_returns (suc fuel) es ids (f ∷ fs) found h =
    let rows = batch (f ∷ fs) es in
    let new_ids = ends_of rows in
    walk_returns fuel es (update_ids new_ids ids) (fresh_ids new_ids ids) (found ++ rows)
      (elim (List-cases (fresh_ids new_ids ids)) [
        | inl none_new ↦ inl none_new
        | inr (g, gs, some_new) ↦
            inr (ground (arith, unseen_round es (f ∷ fs) ids g gs some_new, h))
      ])

-- The fuel that the query starts with is enough.
pub walk-enough :
    (es : Table Edge) (ids frontier : List ℕ)
    → (r : List ℕ × Table Edge) × (walk (enough es) es ids frontier [] ≡ some r)
unfolding enough
walk-enough es ids frontier =
    walk_returns (enough es) es ids frontier [] (inr (omega (arith, unseen-le es ids)))
