-- ===== src/Governance/Service/Laws.antt =====
-- What a successful or refused step of the workflow did.
use open_civic.Common.{
  ℕ, ◌+◌, ◌*◌, String, Bool, true, false, Option, none, some, ◌≡◌, ◌≢◌, refl, inl, inr, arith, ◌==◌,
  is_some, Option-cases, Bool-cases, ==_iff, holds, if◌then◌else◌,
}
use open_civic.Common.Table.{
  find, find-update_missing, update, insert, find-insert_self, find-update_self,
}
use open_civic.Catalog.{Dataset, Status, pending_review, published, archived}
use open_civic.Catalog.Quality.{compute_quality_score, compute_quality_score-free}
use open_civic.Session.{
  EventType, Payload, Db, Error, Submission, returned, raised, self_approval_not_allowed,
}
use open_civic.Governance.Transitions.{◌⟶◌, retire, may_transition-⟶}
use open_civic.Governance.Service.{
  new_submission, submit, review, action_map, review_target, review_values, approve, archive,
  emit_event, ReviewAction, reviewed, approved,
}

-- Events and queued tasks touch no row.
module _ (t : EventType) (k a : ℕ) (p : Payload) (db : Db) where
  pub emit_event-datasets : (emit_event t k a p db).datasets ≡ db.datasets
  unfolding emit_event
  emit_event-datasets = ground arith

  pub emit_event-submissions : (emit_event t k a p db).submissions ≡ db.submissions
  unfolding emit_event
  emit_event-submissions = ground arith

pub ruleset rows =
    (arith, emit_event-datasets, emit_event-submissions, find-update_self, find-insert_self)

-- A submission that goes through was made by the publisher of an ingested dataset, follows an edge
-- of the diagram, puts the dataset in review, and adds a pending submission with its due date.
pub submit_returned :
    (hours now now' new k maker : ℕ) (notes : String) (db db' : Db) {r : ℕ}
    → submit hours now now' new k maker notes db ≡ returned r db'
    → (d : Dataset) × (find k db.datasets ≡ some d)
      × (d.publisher_id ≡ maker)
      × (d.row_count ≢ none)
      × (d.status ⟶ pending_review)
      × (find k db'.datasets ≡ some (record d { status = pending_review }))
      × ((s : Submission) × (find new db'.submissions ≡ some s)
          × (s.maker_id ≡ maker)
          × (s.dataset_id ≡ k)
          × (s.status ≡ pending_review)
          × (s.review_due_at ≡ some (now + hours * 3600)))
unfolding submit
submit_returned hours now now' new k maker notes db db' e =
    elim (Option-cases (find k db.datasets)) [
      | inl missing ↦ absurd (ground arith)
      | inr (d, found) ↦ (
        d,
        found,
        ground arith,
        ground arith,
        may_transition-⟶ _ _ (ground arith),
        grind rows,
        (new_submission hours now now' k maker notes, grind rows, refl, refl, refl, refl),
      )
    ]

-- A review that returns was made by another user than the maker, follows an edge of the diagram,
-- records the checker, gives the dataset the new status of the submission, and stamps and scores
-- what it publishes.
pub review_returned :
    (now id checker : ℕ) (action : ReviewAction) (notes : String) (db db' : Db) {r : ℕ}
    → review now id checker action notes db ≡ returned r db'
    → (s s' : Submission) × (d d' : Dataset) × (find id db.submissions ≡ some s)
      × (find id db'.submissions ≡ some s')
      × (find s.dataset_id db.datasets ≡ some d)
      × (find s.dataset_id db'.datasets ≡ some d')
      × (s.maker_id ≢ checker)
      × (s.status ⟶ s'.status)
      × (s'.checker_id ≡ some checker)
      × (d'.status ≡ s'.status)
      × (s'.status ≡ published → d'.published_at ≡ some now)
      × (s'.status ≡ published → d'.quality_score ≡ some (compute_quality_score d))
unfolding review
review_returned now id checker action notes db db' e =
    elim (Option-cases (find id db.submissions)) [
      | inl missing ↦ absurd (ground arith)
      | inr (s, found) ↦ elim (Option-cases (find s.dataset_id db.datasets)) [
        | inl missing ↦ absurd (ground arith)
        | inr (d, there) ↦ elim (Option-cases (action_map action)) [
          | inl unknown ↦ absurd (ground arith)
          | inr (mapped, known) ↦
              let t = review_target action d.workflow_variant mapped in
              (
                s,
                reviewed now checker t notes s,
                d,
                review_values now t d,
                found,
                grind rows,
                there,
                grind rows,
                ground arith,
                may_transition-⟶ _ _ (ground arith),
                refl,
                ground arith,
                ground arith,
                ground arith,
              )
        ]
      ]
    ]

-- The maker of a submission cannot review it, whatever the action, and the attempt changes
-- nothing.
pub review_self :
    (now id : ℕ) (action : ReviewAction) (notes : String) (db : Db) (s : Submission)
    → find id db.submissions ≡ some s
    → review now id s.maker_id action notes db ≡ raised self_approval_not_allowed db
unfolding review
review_self now id action notes db s found = ground arith

-- A sign-off that goes through was made by a third user from a state with an edge to published,
-- and publishes both rows with the date and the score.
pub approve_returned :
    (now id approver : ℕ) (notes : String) (db db' : Db) {r : ℕ}
    → approve now id approver notes db ≡ returned r db'
    → (s s' : Submission) × (d d' : Dataset) × (find id db.submissions ≡ some s)
      × (find id db'.submissions ≡ some s')
      × (find s.dataset_id db.datasets ≡ some d)
      × (find s.dataset_id db'.datasets ≡ some d')
      × (s.maker_id ≢ approver)
      × (s.checker_id ≢ some approver)
      × (s.status ⟶ published)
      × (s' ≡ approved now approver notes s)
      × (d'.status ≡ published)
      × (d'.published_at ≡ some now)
      × (d'.quality_score ≡ some (compute_quality_score d))
unfolding approve
approve_returned now id approver notes db db' e = elim (Option-cases (find id db.submissions)) [
  | inl missing ↦ absurd (ground arith)
  | inr (s, found) ↦ elim (Option-cases (find s.dataset_id db.datasets)) [
    | inl missing ↦ absurd (grind (arith, find-update_missing))
    | inr (d, there) ↦
        let d' = record d { status = published; published_at = some now } in
        (
          s,
          approved now approver notes s,
          d,
          record d' { quality_score = some (compute_quality_score d') },
          found,
          grind rows,
          there,
          grind rows,
          ground arith,
          ground arith,
          may_transition-⟶ _ _ (ground arith),
          refl,
          refl,
          refl,
          rw (compute_quality_score-free d published (some now)),
        )
  ]
]

-- What a refused step leaves.
pub submit_raised :
    (hours now now' new k maker : ℕ) (notes : String) (db db' : Db) {x : Error}
    → submit hours now now' new k maker notes db ≡ raised x db'
    → db' ≡ db
unfolding submit
submit_raised hours now now' new k maker notes db db' e = ground arith

pub review_raised :
    (now id checker : ℕ) (action : ReviewAction) (notes : String) (db db' : Db) {x : Error}
    → review now id checker action notes db ≡ raised x db'
    → db' ≡ db
unfolding review
review_raised now id checker action notes db db' e = ground arith

pub archive_raised :
    (k actor : ℕ) (db db' : Db) {x : Error} → archive k actor db ≡ raised x db' → db' ≡ db
unfolding archive
archive_raised k actor db db' e = ground arith

may_archive : (s : Status) → s ⟶ archived → s ≡ published
may_archive s retire = refl

-- An archiving that goes through was of a published dataset, and changes only the status of that
-- dataset and no submission.
pub archive_returned :
    (k actor : ℕ) (db db' : Db) {r : ℕ}
    → archive k actor db ≡ returned r db'
    → (d : Dataset) × (find k db.datasets ≡ some d)
      × (d.status ≡ published)
      × (find k db'.datasets ≡ some (record d { status = archived }))
      × (db'.submissions ≡ db.submissions)
unfolding archive
archive_returned k actor db db' e = elim (Option-cases (find k db.datasets)) [
  | inl missing ↦ absurd (ground arith)
  | inr (d, found) ↦
      (d, found, may_archive d.status (may_transition-⟶ _ _ (ground arith)), grind rows, grind rows)
]
