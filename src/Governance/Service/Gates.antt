-- ===== src/Governance/Service/Gates.antt =====
-- The two gates of a sensitive dataset: what each call can publish.
use open_civic.Common.{ℕ, String, none, some, ◌≡◌, ◌≢◌, refl, inl, inr, arith, Option-cases}
use open_civic.Common.Table.{find}
use open_civic.Catalog.{Dataset, Status, pending_review, published, high_sensitivity}
use open_civic.Catalog.Quality.{compute_quality_score}
use open_civic.Session.{Db, Submission, returned, final}
use open_civic.Governance.Service.{
  review, approve, approve_it, ReviewAction, action_map, review_target, reviewed, review_values,
  approved,
}
use open_civic.Governance.Service.Laws.{rows}

review_target-ne-published :
    (action : ReviewAction) {mapped : Status}
    → action_map action ≡ some mapped
    → review_target action high_sensitivity mapped ≢ published
unfolding action_map review_target
review_target-ne-published approve_it e = ground arith
review_target-ne-published _ e = ground arith

review_values-status : (now : ℕ) (u : Status) (d : Dataset) → (review_values now u d).status ≡ u
unfolding review_values
review_values-status now u d = ground arith

-- A review alone never publishes a sensitive dataset.
pub review_sensitive :
    (now id checker : ℕ) (action : ReviewAction) (notes : String) (db db' : Db) {r : ℕ}
    → (s : Submission) (d : Dataset) → find id db.submissions ≡ some s
    → find s.dataset_id db.datasets ≡ some d
    → d.workflow_variant ≡ high_sensitivity
    → review now id checker action notes db ≡ returned r db'
    → (s' : Submission) × (d' : Dataset) × (find id db'.submissions ≡ some s')
      × (find s.dataset_id db'.datasets ≡ some d')
      × (s'.status ≢ published)
      × (d'.status ≢ published)
unfolding review
review_sensitive now id checker action notes db db' s d found there sensitive e =
    elim (Option-cases (action_map action)) [
      | inl unknown ↦ absurd (ground arith)
      | inr (mapped, known) ↦
          let u = review_target action d.workflow_variant mapped in
          let gate : u ≢ published = rw sensitive (review_target-ne-published action known) in
          (
            reviewed now checker u notes s,
            review_values now u d,
            grind rows,
            grind rows,
            gate,
            rw review_values-status gate,
          )
    ]

-- An approver who is not the maker publishes a pending submission that no steward has reviewed,
-- whatever the variant of the dataset.
pub approve_unreviewed :
    (now id approver : ℕ) (notes : String) (db : Db) (s : Submission) (d : Dataset)
    → find id db.submissions ≡ some s
    → find s.dataset_id db.datasets ≡ some d
    → s.status ≡ pending_review
    → s.checker_id ≡ none
    → s.maker_id ≢ approver
    → (db' : Db) × (s' : Submission) × (d' : Dataset) × (approve now id approver notes db
        ≡ returned id db')
      × (find id db'.submissions ≡ some s')
      × (find s.dataset_id db'.datasets ≡ some d')
      × (s'.status ≡ published)
      × (s'.checker_id ≡ none)
      × (d'.status ≡ published)
unfolding approve
approve_unreviewed now id approver notes db s d found there waits fresh other =
    let d' = record d { status = published; published_at = some now } in
    (
      final (approve now id approver notes db),
      approved now approver notes s,
      record d' { quality_score = some (compute_quality_score d') },
      grind rows,
      grind rows,
      grind rows,
      refl,
      fresh,
      refl,
    )
