-- ===== src/Lineage/Graph/Reach.antt =====
-- The lineage graph of a dataset is the component of its node.
use mathlib.Core.Option.{some-injective}
use mathlib.Core.List.{Memᴰ}
use mathlib.Core.List.Memᴰ
use open_civic.Common.{
  ℕ, zero, suc, ◌≡◌, refl, sym, ◌↔◌, inl, inr, Bool, true, false, ◌||◌, some, List, [], ◌∷◌, ◌++◌,
  ==_iff, ==_refl, contains, Bool-cases, arith, subst,
}
use open_civic.Common.Table.{Table, select}
use open_civic.Lineage.Graph.{
  Node, Edge, Lineage, batch, update_ids, ends_of, fresh_ids, walk, enough, dataset_node,
  get_graph_for_dataset,
}
use open_civic.Lineage.Graph.Sets.{
  mem_of_select, mem-select, contains-update_ids, contains-fresh_ids, contains-ends_of, end_of_row,
}
use open_civic.Lineage.Graph.Walk.{walk-enough}

-- The identifiers that edges, taken in either direction, join to `d`.
pub data Joined (es : Table Edge) (d : ℕ) : ℕ → Type 0 where
  start : Joined es d d
  along : {x : ℕ × Edge} → Memᴰ x es → Joined es d x.1.from_node_id → Joined es d x.1.to_node_id
  against : {x : ℕ × Edge} → Memᴰ x es → Joined es d x.1.to_node_id → Joined es d x.1.from_node_id

abbrev touches : List ℕ → ℕ × Edge → Bool
touches ids x = contains ids x.1.from_node_id || contains ids x.1.to_node_id

module _ (es : Table Edge) (d : ℕ) where
  record Inv (ids frontier : List ℕ) (found : Table Edge) : Type 0 where
    started : contains ids d ≡ true
    sound : (v : ℕ) → contains ids v ≡ true → Joined es d v
    waiting : (v : ℕ) → contains frontier v ≡ true → contains ids v ≡ true
    found_sound : (x : ℕ × Edge) → Memᴰ x found → Memᴰ x es × Joined es d x.1.from_node_id
    full :
        (x : ℕ × Edge)
        → Memᴰ x es
        → touches ids x ≡ true
        → touches frontier x ≡ false
        → Memᴰ x found
          × (contains ids x.1.from_node_id ≡ true)
          × (contains ids x.1.to_node_id ≡ true)

  Inv-start : Inv (d ∷ []) (d ∷ []) []
  Inv-start = record {
    started = grind (arith, ==_refl d);
    sound = λ v h. subst (Joined es d) (sym ((==_iff v d).0 (grind (arith, h)))) start;
    waiting = λ v h. h;
    found_sound = λ x m. absurd (Memᴰ.not-nil m);
    full = λ x m h k. cc (h, k);
  }

  -- A row that touches the frontier has both ends joined.
  joined_row :
      (ids frontier : List ℕ) (found : Table Edge) (x : ℕ × Edge)
      → Inv ids frontier found
      → Memᴰ x (batch frontier es)
      → Memᴰ x es × Joined es d x.1.from_node_id × Joined es d x.1.to_node_id
  unfolding batch
  joined_row ids frontier found x inv m =
      let (there, touch) = mem_of_select (λ k e. touches frontier (k, e)) x es m in
      elim (Bool-cases (contains frontier x.1.from_node_id)) [
        | inl from ↦
            let j = inv.sound x.1.from_node_id (inv.waiting x.1.from_node_id from) in
            (there, j, along there j)
        | inr not_from ↦
            let j =
              inv.sound x.1.to_node_id
                (inv.waiting x.1.to_node_id (grind (arith, touch, not_from))) in
            (there, against there j, j)
      ]

  joined_new :
      (ids frontier : List ℕ) (found : Table Edge) (v : ℕ)
      → Inv ids frontier found
      → contains (ends_of (batch frontier es)) v ≡ true
      → Joined es d v
  joined_new ids frontier found v inv h =
      let (x, m, at) = end_of_row v (batch frontier es) h in
      let (there, from, to) = joined_row ids frontier found x inv m in
      elim at [
        | inl it ↦ subst (Joined es d) (sym it) from
        | inr it ↦ subst (Joined es d) (sym it) to
      ]

  sound_round :
      (ids frontier : List ℕ) (found : Table Edge) (v : ℕ)
      → Inv ids frontier found
      → contains (update_ids (ends_of (batch frontier es)) ids) v ≡ true
      → Joined es d v
  sound_round ids frontier found v inv h = elim (Bool-cases (contains ids v)) [
    | inl old ↦ inv.sound v old
    | inr new ↦
        joined_new ids frontier found v inv
          (grind (arith, contains-update_ids (ends_of (batch frontier es)) ids v, h, new))
  ]

  -- An identifier that a round leaves out of the frontier was known before it.
  known_before :
      (new_ids ids : List ℕ) (v : ℕ)
      → contains (update_ids new_ids ids) v ≡ true
      → contains (fresh_ids new_ids ids) v ≡ false
      → contains ids v ≡ true
  known_before new_ids ids v h k =
      grind (arith, contains-update_ids new_ids ids v, contains-fresh_ids new_ids ids v, h, k)

  touched_before :
      (new_ids ids : List ℕ) (x : ℕ × Edge)
      → touches (update_ids new_ids ids) x ≡ true
      → touches (fresh_ids new_ids ids) x ≡ false
      → touches ids x ≡ true
  touched_before new_ids ids x h k = grind (
    arith,
    known_before new_ids ids x.1.from_node_id,
    known_before new_ids ids x.1.to_node_id,
    h,
    k,
  )

  full_round :
      (ids frontier : List ℕ) (found : Table Edge) (x : ℕ × Edge)
      → Inv ids frontier found
      → Memᴰ x es
      → touches (update_ids (ends_of (batch frontier es)) ids) x ≡ true
      → touches (fresh_ids (ends_of (batch frontier es)) ids) x ≡ false
      → Memᴰ x (found ++ batch frontier es)
        × (contains (update_ids (ends_of (batch frontier es)) ids) x.1.from_node_id ≡ true)
        × (contains (update_ids (ends_of (batch frontier es)) ids) x.1.to_node_id ≡ true)
  unfolding batch
  full_round ids frontier found x inv m h k =
      let new_ids = ends_of (batch frontier es) in
      let from_grows = contains-update_ids new_ids ids x.1.from_node_id in
      let to_grows = contains-update_ids new_ids ids x.1.to_node_id in
      elim (Bool-cases (touches frontier x)) [
        | inl now ↦
            let row = mem-select (λ k e. touches frontier (k, e)) x es m now in
            let (from, to) = contains-ends_of x (batch frontier es) row in
            (
              Memᴰ.append_right found row,
              grind (arith, from_grows, from),
              grind (arith, to_grows, to),
            )
        | inr before ↦
            let (old, from, to) = inv.full x m (touched_before new_ids ids x h k) before in
            (
              Memᴰ.append_left (batch frontier es) old,
              grind (arith, from_grows, from),
              grind (arith, to_grows, to),
            )
      ]

  Inv-round :
      (ids frontier : List ℕ) (found : Table Edge)
      → Inv ids frontier found
      → Inv
          (update_ids (ends_of (batch frontier es)) ids)
          (fresh_ids (ends_of (batch frontier es)) ids)
          (found ++ batch frontier es)
  Inv-round ids frontier found inv = record {
    started = grind (arith, contains-update_ids new_ids ids d, inv.started);
    sound = λ v h. sound_round ids frontier found v inv h;
    waiting = λ v h.
        grind (arith, contains-update_ids new_ids ids v, contains-fresh_ids new_ids ids v, h);
    found_sound = λ x m. elim (Memᴰ.append_cases found m) [
      | inl old ↦ inv.found_sound x old
      | inr row ↦ let (there, from, to) = joined_row ids frontier found x inv row in (there, from)
    ];
    full = λ x m h k. full_round ids frontier found x inv m h k;
  }
    where
      new_ids : List ℕ
      new_ids = ends_of (batch frontier es)

  -- What the loop returns satisfies the invariant with an empty frontier.
  walk-Inv :
      (fuel : ℕ) (ids frontier : List ℕ) (found : Table Edge) (r : List ℕ × Table Edge)
      → Inv ids frontier found
      → walk fuel es ids frontier found ≡ some r
      → Inv r.0 [] r.1
  unfolding walk
  walk-Inv fuel ids [] found r inv e =
      let same = some-injective (ids, found) r e in subst (λ q. Inv q.0 [] q.1) same inv
  walk-Inv zero ids (f ∷ fs) found r inv e = cc e
  walk-Inv (suc fuel) ids (f ∷ fs) found r inv e =
      walk-Inv fuel (update_ids (ends_of (batch (f ∷ fs) es)) ids)
        (fresh_ids (ends_of (batch (f ∷ fs) es)) ids) (found ++ batch (f ∷ fs) es) r
        (Inv-round ids (f ∷ fs) found inv) e

  complete :
      (ids : List ℕ) (found : Table Edge) (v : ℕ)
      → Inv ids [] found
      → Joined es d v
      → contains ids v ≡ true
  complete ids found v inv start = inv.started
  complete ids found v inv (along {x} m j) =
      let known = complete ids found x.1.from_node_id inv j in
      let (row, from, to) = inv.full x m (grind (arith, known)) refl in to
  complete ids found v inv (against {x} m j) =
      let known = complete ids found x.1.to_node_id inv j in
      let (row, from, to) = inv.full x m (grind (arith, known)) refl in from

-- The rows of nodes and of edges that the walk from `d` stands for.
pub walk_exact :
    (es : Table Edge) (d : ℕ)
    → (ids : List ℕ) × (found : Table Edge) × (walk (enough es) es (d ∷ []) (d ∷ []) []
        ≡ some (ids, found))
      × ((v : ℕ) → (contains ids v ≡ true) ↔ Joined es d v)
      × ((x : ℕ × Edge) → Memᴰ x found ↔ (Memᴰ x es × Joined es d x.1.from_node_id))
walk_exact es d =
    let (r, e) = walk-enough es (d ∷ []) (d ∷ []) in
    let inv = walk-Inv es d (enough es) (d ∷ []) (d ∷ []) [] r (Inv-start es d) e in
    (
      r.0,
      r.1,
      e,
      λ v. (inv.sound v, complete es d r.0 r.1 v inv),
      λ x. (
        inv.found_sound x,
        λ h.
            let known = complete es d r.0 r.1 x.1.from_node_id inv h.1 in
            (inv.full x h.0 (grind (arith, known)) refl).0,
      ),
    )

-- Where a dataset has a node, the query for its graph returns exactly the rows of nodes that
-- edges, taken in either direction, join to that node, and exactly the rows of edges that start at
-- such a node.
pub get_graph_for_dataset-exact :
    (dataset_id d : ℕ) (s : Lineage)
    → dataset_node dataset_id s.nodes ≡ some d
    → (nodes : Table Node) × (edges : Table Edge) × (get_graph_for_dataset dataset_id s
        ≡ some (nodes, edges))
      × ((x : ℕ × Node) → Memᴰ x nodes ↔ (Memᴰ x s.nodes × Joined s.edges d x.0))
      × ((x : ℕ × Edge) → Memᴰ x edges ↔ (Memᴰ x s.edges × Joined s.edges d x.1.from_node_id))
unfolding get_graph_for_dataset
get_graph_for_dataset-exact dataset_id d s e =
    let (ids, found, returns, joined, rows) = walk_exact s.edges d in
    let p = λ (k : ℕ) (n : Node). contains ids k in
    (
      select p s.nodes,
      found,
      rw (e, returns, get_graph_for_dataset) refl,
      λ x. (
        λ m. let (there, h) = mem_of_select p x s.nodes m in (there, (joined x.0).0 h),
        λ h. mem-select p x s.nodes h.0 ((joined x.0).1 h.1),
      ),
      rows,
    )
