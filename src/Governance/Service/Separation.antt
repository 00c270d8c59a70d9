-- ===== src/Governance/Service/Separation.antt =====
-- The check constraints of the table `workflow_submissions`
-- (backend/app/db/migrations/versions/008_workflow_submissions.py) hold of every row that the
-- workflow writes, so the database refuses none of its updates.
use mathlib.Core.Option.{some-injective}
use open_civic.Common.{
  ℕ, String, some, ◌≡◌, ◌≢◌, refl, inl, inr, arith, ◌==◌, Bool-cases, Option-cases, ◌⊎◌, ◌||◌,
  holds, subst, sym, ◌∙◌,
}
use open_civic.Common.Table.{Table, find, insert, update, Found, Found-insert, Found-update}
use open_civic.Catalog.{Dataset, Status, Variant, high_sensitivity, published, archived}
use open_civic.Session.{Db, Submission, final}
use open_civic.Governance.Service.{
  submit, review, approve, ReviewAction, approve_it, new_submission, approved, reviewed, action_map,
  review_target,
}
use open_civic.Governance.Transitions.{◌⟶◌, retire, may_transition, may_transition-⟶}
use open_civic.Governance.Service.Laws.{emit_event-submissions}

-- `checker_id != maker_id`, `approver_id != maker_id`, `approver_id != checker_id`, each where
-- the columns are set; an approver stands only on a published submission.
pub record IsSeparated (s : Submission) : Type 0 where
  pub checker_not_maker : s.checker_id ≢ some s.maker_id
  pub approver_not_maker : s.approver_id ≢ some s.maker_id
  pub approver_not_checker : (a : ℕ) → s.approver_id ≡ some a → s.checker_id ≢ some a
  pub approved_is_published : (a : ℕ) → s.approver_id ≡ some a → s.status ≡ published

-- Of every row that a query can find.
abbrev pub AllSeparated : Db → Type 0
AllSeparated db = Found IsSeparated db.submissions

-- A step leaves the table as it was, adds a new submission, or changes the one row.
submit-submissions :
    (hours now now' new k maker : ℕ) (notes : String) (db : Db)
    → let t = (final (submit hours now now' new k maker notes db)).submissions in
      (t ≡ db.submissions)
      ⊎ (t ≡ insert new (new_submission hours now now' k maker notes) db.submissions)
unfolding submit
submit-submissions hours now now' new k maker notes db = grind (arith, emit_event-submissions)

review_target-ne-archived :
    (action : ReviewAction) (v : Variant) (mapped : Status)
    → action_map action ≡ some mapped
    → review_target action v mapped ≢ archived
unfolding action_map review_target
review_target-ne-archived approve_it high_sensitivity mapped e = ground arith
review_target-ne-archived _ _ mapped e = ground arith

-- Only an archived row follows a published one.
after_published : (u : Status) → published ⟶ u → u ≡ archived
after_published u retire = refl

abbrev Reviewed : ℕ → ℕ → ℕ → String → Db → Table Submission → Type 0
Reviewed now id checker notes db t =
    (t ≡ db.submissions)
    ⊎ ((s : Submission) × (u : Status) × (find id db.submissions ≡ some s)
        × (s.maker_id ≢ checker)
        × (s.status ⟶ u)
        × (u ≢ archived)
        × (t ≡ update id (reviewed now checker u notes) db.submissions))

review_as-submissions :
    (now id checker : ℕ) (action : ReviewAction) (notes : String) (db : Db)
    → (s : Submission) (d : Dataset) (mapped : Status) → find id db.submissions ≡ some s
    → find s.dataset_id db.datasets ≡ some d
    → action_map action ≡ some mapped
    → Reviewed now id checker notes db (final (review now id checker action notes db)).submissions
unfolding review
review_as-submissions now id checker action notes db s d mapped found there known =
    let u = review_target action d.workflow_variant mapped in
    elim (Bool-cases (s.maker_id == checker)) [
      | inl self ↦ inl (ground arith)
      | inr other ↦ elim (Bool-cases (may_transition s.status u)) [
        | inr refused ↦ inl (ground arith)
        | inl edge ↦ inr (
          s,
          u,
          found,
          ground arith,
          may_transition-⟶ s.status u edge,
          review_target-ne-archived action d.workflow_variant mapped known,
          grind (arith, emit_event-submissions),
        )
      ]
    ]

review-submissions :
    (now id checker : ℕ) (action : ReviewAction) (notes : String) (db : Db)
    → Reviewed now id checker notes db (final (review now id checker action notes db)).submissions
unfolding review
review-submissions now id checker action notes db = elim (Option-cases (find id db.submissions)) [
  | inl missing ↦ inl (ground arith)
  | inr (s, found) ↦ elim (Option-cases (find s.dataset_id db.datasets)) [
    | inl missing ↦ inl (ground arith)
    | inr (d, there) ↦ elim (Option-cases (action_map action)) [
      | inl unknown ↦ inl (ground arith)
      | inr (mapped, known) ↦
          review_as-submissions now id checker action notes db s d mapped found there known
    ]
  ]
]

approve-submissions :
    (now id approver : ℕ) (notes : String) (db : Db)
    → let t = (final (approve now id approver notes db)).submissions in
      (t ≡ db.submissions)
      ⊎ ((s : Submission) × (find id db.submissions ≡ some s)
          × (s.maker_id ≢ approver)
          × (s.checker_id ≢ some approver)
          × (t ≡ update id (approved now approver notes) db.submissions))
unfolding approve
approve-submissions now id approver notes db = elim (Option-cases (find id db.submissions)) [
  | inl missing ↦ inl (ground arith)
  | inr (s, found) ↦ elim (Bool-cases (s.maker_id == approver || holds s.checker_id approver)) [
    | inl involved ↦ inl (ground arith)
    | inr apart ↦ elim (Bool-cases (may_transition s.status published)) [
      | inr refused ↦ inl (ground arith)
      | inl edge ↦ inr (s, found, ground arith, ground arith, grind (arith, emit_event-submissions))
    ]
  ]
]

reviewed-IsSeparated :
    (now checker : ℕ) (u : Status) (notes : String) (s : Submission)
    → IsSeparated s
    → s.maker_id ≢ checker
    → s.status ⟶ u
    → u ≢ archived
    → IsSeparated (reviewed now checker u notes s)
unfolding reviewed
reviewed-IsSeparated now checker u notes s p other edge open_still =
    let unsigned = λ (a : ℕ) (e : s.approver_id ≡ some a).
      open_still (after_published u (subst (λ x. x ⟶ u) (p.approved_is_published a e) edge)) in
    record {
      checker_not_maker = ground arith;
      approver_not_maker = p.approver_not_maker;
      approver_not_checker = λ a e. absurd (unsigned a e);
      approved_is_published = λ a e. absurd (unsigned a e);
    }

approved-IsSeparated :
    (now approver : ℕ) (notes : String) (s : Submission)
    → IsSeparated s
    → s.maker_id ≢ approver
    → s.checker_id ≢ some approver
    → IsSeparated (approved now approver notes s)
unfolding approved
approved-IsSeparated now approver notes s p m c = record {
  checker_not_maker = p.checker_not_maker;
  approver_not_maker = ground arith;
  approver_not_checker = λ a e. ground arith;
  approved_is_published = λ a e. refl;
}

-- No step of the workflow, successful or refused, breaks a constraint.
pub submit-AllSeparated :
    (hours now now' new k maker : ℕ) (notes : String) (db : Db)
    → AllSeparated db
    → AllSeparated (final (submit hours now now' new k maker notes db))
submit-AllSeparated hours now now' new k maker notes db h =
    elim (submit-submissions hours now now' new k maker notes db) [
      | inl e ↦ subst (Found IsSeparated) (sym e) h
      | inr e ↦
          subst (Found IsSeparated) (sym e)
            (Found-insert IsSeparated new _ db.submissions h (grind arith))
    ]

pub review-AllSeparated :
    (now id checker : ℕ) (action : ReviewAction) (notes : String) (db : Db)
    → AllSeparated db
    → AllSeparated (final (review now id checker action notes db))
review-AllSeparated now id checker action notes db h =
    elim (review-submissions now id checker action notes db) [
      | inl e ↦ subst (Found IsSeparated) (sym e) h
      | inr (s, u, found, other, edge, open_still, e) ↦ subst (Found IsSeparated) (sym e) (
          Found-update IsSeparated id _ db.submissions h (λ r there p.
            subst (λ x. IsSeparated (reviewed now checker u notes x))
              (some-injective s r (sym found ∙ there))
              (reviewed-IsSeparated now checker u notes s (h id s found) other edge open_still)))
    ]

pub approve-AllSeparated :
    (now id approver : ℕ) (notes : String) (db : Db)
    → AllSeparated db
    → AllSeparated (final (approve now id approver notes db))
approve-AllSeparated now id approver notes db h =
    elim (approve-submissions now id approver notes db) [
      | inl e ↦ subst (Found IsSeparated) (sym e) h
      | inr (s, found, m, c, e) ↦ subst (Found IsSeparated) (sym e) (
          Found-update IsSeparated id _ db.submissions h (λ r there p.
            subst (λ x. IsSeparated (approved now approver notes x))
              (some-injective s r (sym found ∙ there))
              (approved-IsSeparated now approver notes s (h id s found) m c)))
    ]
