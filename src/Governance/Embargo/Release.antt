-- ===== src/Governance/Embargo/Release.antt =====
-- Which datasets an embargo check publishes, and when.
use mathlib.Core.Option.{some-injective}
use open_civic.Common.{
  ℕ, ◌≤◌, ◌<◌, ◌≡◌, ◌≢◌, ap, true, false, none, some, List, [], ◌∷◌, arith, inl, inr, if◌then◌else◌,
  Bool-cases, leb, ◌⊎◌, ◌==◌,
}
use open_civic.Common.Table.{Table, find}
use open_civic.Catalog.{Blob, Dataset, scheduled, published, pending_review, pending_approval}
use open_civic.Session.{Db, returned}
use open_civic.Governance.Service.Laws.{rows}
use open_civic.Governance.Embargo.{
  DateTime, instant, Crypto, IsLawful, schedule_embargo, due, releases, release, release_due,
  check_embargo_releases,
}

module _ (c : Crypto) where
  step : ℕ → Dataset → Dataset
  step now d = if releases c now d then release c now d else d

  find-release_due :
      (now k : ℕ) (t : Table Dataset) (d : Dataset)
      → find k t ≡ some d
      → find k (release_due c now t).0 ≡ some (step now d)
  unfolding find step release_due releases
  find-release_due now k [] d e = cc
  find-release_due now k ((j, x) ∷ t) d e = elim (Bool-cases (k == j)) [
    | inl same ↦
        rw (same, find, release_due)
          (ap (λ y. some (step now y)) (some-injective x d (rw (same, find) at e)))
    | inr other ↦ rw (other, find, release_due) (find-release_due now k t d (rw (other, find) at e))
  ]

  -- An embargo check publishes exactly the scheduled datasets whose embargo can be read and is
  -- over, and leaves every other row as it was.
  pub check_embargo_releases_row :
      (now k : ℕ) (db db' : Db) {d : Dataset} {ids : List ℕ}
      → find k db.datasets ≡ some d
      → check_embargo_releases c now db ≡ returned ids db'
      → ((d.status ≡ scheduled)
          × (due c now d.embargo_until ≡ true)
          × (find k db'.datasets
              ≡ some
                  (record d { status = published; published_at = some now; embargo_until = none })))
        ⊎ (((d.status ≢ scheduled) ⊎ (due c now d.embargo_until ≡ false))
            × (find k db'.datasets ≡ some d))
  unfolding check_embargo_releases step releases release
  check_embargo_releases_row now k db db' {d = d} found e =
      ground (arith, find-release_due now k db.datasets d found)

  module _ (lawful : IsLawful c) where
    due_text :
        (now : ℕ) (t : DateTime) (x : ℕ) (xs : Blob)
        → c.encrypt t ≡ x ∷ xs
        → due c now (some (c.encrypt t)) ≡ leb t.wall now
    unfolding due
    due_text now t x xs e = rw (e, due) (rw (← e, lawful.decrypt-encrypt t) (ground arith))

    due-encrypt : (now : ℕ) (t : DateTime) → due c now (some (c.encrypt t)) ≡ leb t.wall now
    unfolding due
    due-encrypt now t = let (x, xs, e) = lawful.encrypt_nonempty t in due_text now t x xs e

    embargoed : DateTime → Dataset → Dataset
    embargoed t d = record d { status = scheduled; embargo_until = some (c.encrypt t) }

    step-embargoed :
        (now : ℕ) (t : DateTime) (d : Dataset)
        → (t.wall ≤ now → (step now (embargoed t d)).status ≡ published)
          × (now < t.wall → (step now (embargoed t d)).status ≡ scheduled)
    unfolding step embargoed releases release
    step-embargoed now t d = ground (arith, due-encrypt now t)

    schedule_embargo-row :
        (now k actor : ℕ) (t : DateTime) (db db' : Db) {d : Dataset}
        → find k db.datasets ≡ some d
        → schedule_embargo c now k t actor db ≡ returned tt db'
        → (now < instant t)
          × ((d.status ≡ pending_review) ⊎ (d.status ≡ pending_approval))
          × (find k db'.datasets ≡ some (embargoed t d))
    unfolding schedule_embargo embargoed
    schedule_embargo-row now k actor t db db' {d = d} found set =
        (grind arith, grind arith, grind rows)

    -- A dataset that the endpoint puts under an embargo was in a queue and the embargo in the
    -- future; a later check publishes it from the moment that a UTC clock shows the reading of the
    -- embargo in its own zone, and not before.
    pub check_embargo_releases-schedule_embargo :
        (now later k actor : ℕ) (t : DateTime) (db db' db'' : Db) {d : Dataset} {ids : List ℕ}
        → find k db.datasets ≡ some d
        → schedule_embargo c now k t actor db ≡ returned tt db'
        → check_embargo_releases c later db' ≡ returned ids db''
        → (now < instant t)
          × ((d.status ≡ pending_review) ⊎ (d.status ≡ pending_approval))
          × (d' : Dataset) × (find k db''.datasets ≡ some d')
          × (t.wall ≤ later → d'.status ≡ published)
          × (later < t.wall → d'.status ≡ scheduled)
    unfolding check_embargo_releases
    check_embargo_releases-schedule_embargo now later k actor t db db' db'' {d = d} found set
          checked =
        let (future, queued, row) = schedule_embargo-row now k actor t db db' found set in
        (
          future,
          queued,
          step later (embargoed t d),
          ground (arith, find-release_due later k db'.datasets (embargoed t d) row),
          (step-embargoed later t d).0,
          (step-embargoed later t d).1,
        )
