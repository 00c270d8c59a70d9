-- ===== src/Governance/Queue/Sla.antt =====
-- The queues hold exactly the rows of their status, in order; after the overdue submissions have
-- been flagged none is left to flag.
use open_civic.Common.{
  ℕ, ◌<◌, ◌≡◌, ◌≢◌, refl, ap, ◌∙◌, Bool, true, false, ◌&&◌, none, List, [], ◌∷◌, arith, leb, ◌==◌,
  if◌then◌else◌, contains, map, All-mono, Option-cases, inl, inr,
}
use open_civic.Common.Table.{
  Table, Rows, Rows-update, Rows-of_select, find, select, select-eq-nil, update,
}
use open_civic.Common.Order.{
  order_by, IsSorted, order_by-IsSorted, count, count-order_by, All-order_by,
}
use open_civic.Catalog.{pending_review}
use open_civic.Session.{Submission, Db, returned, final}
use open_civic.Governance.Queue.{
  earlier, has_status, list_pending_review, is_overdue, due_at, list_overdue_pending, flag,
  flag_all, flag_sla_breaches,
}

count-select :
    {R : Type 0} (q : ℕ × R → Bool) (p : ℕ → R → Bool) (t : Table R)
    → count q (select p t) ≡ count (λ x. p x.0 x.1 && q x) t
unfolding count select
count-select q p [] = refl
count-select q p ((j, r) ∷ t) = ground (arith, count-select q p t)

-- The review queue is in order of submission and holds each pending row as often as the table.
pub list_pending_review_lem :
    (db : Db)
    → IsSorted earlier (list_pending_review db)
      × ((q : ℕ × Submission → Bool)
          → count q (list_pending_review db)
            ≡ count (λ x. has_status pending_review x.1 && q x) db.submissions)
unfolding list_pending_review
list_pending_review_lem db = (
  order_by-IsSorted earlier (λ x y e. ground arith) (λ x y z e f. ground arith) _,
  λ q. count-order_by earlier q _ ∙ count-select q _ db.submissions,
)

-- `sla_breached = true` for each of the rows.
mark : List ℕ → Table Submission → Table Submission
mark [] t = t
mark (k ∷ ks) t = mark ks (update k (λ s. record s { sla_breached = true }) t)

abbrev pub ids : Table Submission → List ℕ
ids rs = map (λ x. x.0) rs

flag_lem :
    (k : ℕ) (r : Submission) (db : Db)
    → find r.dataset_id db.datasets ≢ none
    → (db' : Db) × (flag (k, r) db ≡ returned tt db')
      × (db'.datasets ≡ db.datasets)
      × (db'.submissions ≡ update k (λ s. record s { sla_breached = true }) db.submissions)
unfolding flag
flag_lem k r db there = elim (Option-cases (find r.dataset_id db.datasets)) [
  | inl missing ↦ absurd (there missing)
  | inr (d, found) ↦ (final (flag (k, r) db), ground arith, ground arith, ground arith)
]

-- With every dataset present the loop ends without an exception, and marks its rows.
flag_all_lem :
    (rs : Table Submission) (db : Db)
    → Rows (λ k r. find r.dataset_id db.datasets ≢ none) rs
    → (db' : Db) × (flag_all rs db ≡ returned (ids rs) db')
      × (db'.submissions ≡ mark (ids rs) db.submissions)
unfolding flag_all mark
flag_all_lem [] db h = (db, refl, refl)
flag_all_lem ((k, r) ∷ rs) db h =
    let (db1, e, same, marked) = flag_lem k r db h.0 in
    let (db2, e', marked') = flag_all_lem rs db1 (rw same h.1) in
    (db2, ground (arith, e, e'), marked' ∙ ap (mark (ids rs)) marked)

-- An overdue row is one of the listed keys.
abbrev Listed : ℕ → List ℕ → ℕ → Submission → Type 0
Listed now ks j r = is_overdue now r ≡ true → contains ks j ≡ true

not_listed : (b : Bool) → (b ≡ true → false ≡ true) → b ≡ false
not_listed b h = ground arith

mark_one :
    (now k j : ℕ) (ks : List ℕ) (r : Submission)
    → Listed now (k ∷ ks) j r
    → Listed now ks j (if j == k then record r { sla_breached = true } else r)
unfolding is_overdue
mark_one now k j ks r h = ground arith

mark-Listed :
    (now : ℕ) (ks : List ℕ) (t : Table Submission)
    → Rows (Listed now ks) t
    → Rows (Listed now []) (mark ks t)
unfolding mark
mark-Listed now [] t h = h
mark-Listed now (k ∷ ks) t h =
    mark-Listed now ks _
      (Rows-update (Listed now (k ∷ ks)) (Listed now ks) k _ t (λ j r. mark_one now k j ks r) h)

contains-ids :
    (j : ℕ) (rs : Table Submission) → 0 < count (λ x. j == x.0) rs → contains (ids rs) j ≡ true
unfolding count
contains-ids j [] h = absurd (omega arith)
contains-ids j ((k, r) ∷ rs) h = ground (arith, contains-ids j rs)

select_more :
    (now k j : ℕ) (r : Submission) (t : Table Submission)
    → 0 < count (λ x. k == x.0) (select (λ i s. is_overdue now s) t)
    → 0 < count (λ x. k == x.0) (select (λ i s. is_overdue now s) ((j, r) ∷ t))
unfolding count select
select_more now k j r t h = ground arith

-- Each row of a table is counted in it.
select-Listed :
    (now : ℕ) (t : Table Submission)
    → Rows
        (λ j r.
          is_overdue now r ≡ true → 0 < count (λ x. j == x.0) (select (λ k s. is_overdue now s) t))
        t
unfolding count select
select-Listed now [] = tt
select-Listed now ((j, r) ∷ t) = (
  λ e. rw (e, select, count) (ground arith),
  All-mono _ _ t (λ x h e. select_more now x.0 j r t (h e)) (select-Listed now t),
)

list_overdue_pending-Listed :
    (now : ℕ) (db : Db) → Rows (Listed now (ids (list_overdue_pending now db))) db.submissions
unfolding list_overdue_pending
list_overdue_pending-Listed now db =
    All-mono _ _ db.submissions
      (λ x h e. contains-ids x.0 (list_overdue_pending now db) (rw count-order_by (h e)))
      (select-Listed now db.submissions)

none_overdue :
    (now : ℕ) (t : Table Submission)
    → Rows (Listed now []) t
    → order_by (λ x y. leb (due_at x) (due_at y)) (select (λ k r. is_overdue now r) t) ≡ []
unfolding order_by
none_overdue now t h = rw (
    select-eq-nil (λ k r. is_overdue now r) t
      (All-mono _ _ t (λ x p. not_listed (is_overdue now x.1) p) h))

-- Where the dataset of every submission is there, flagging ends without an exception, reports the
-- overdue submissions, and leaves none overdue.
pub flag_sla_breaches_lem :
    (now : ℕ) (db : Db)
    → Rows (λ k r. find r.dataset_id db.datasets ≢ none) db.submissions
    → (db' : Db) × (flag_sla_breaches now db ≡ returned (ids (list_overdue_pending now db)) db')
      × (list_overdue_pending now db' ≡ [])
unfolding flag_sla_breaches
flag_sla_breaches_lem now db h =
    let rs = list_overdue_pending now db in
    let (db', e, marked) =
      flag_all_lem rs db
        (All-order_by _ _ _ (Rows-of_select _ (λ k r. is_overdue now r) db.submissions h)) in
    let none_left = mark-Listed now (ids rs) db.submissions (list_overdue_pending-Listed now db) in
    (db', e, rw (marked, list_overdue_pending) (none_overdue now _ none_left))
