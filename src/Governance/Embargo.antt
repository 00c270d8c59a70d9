-- ===== src/Governance/Embargo.antt =====
-- `schedule` and `check_embargo_releases` of
-- backend/app/services/governance/workflow_service.py, and the endpoint `schedule_embargo` of
-- backend/app/api/v1/endpoints/datasets.py.
pub mod Release
use open_civic.Common.{
  ℕ, ◌+◌, ◌-◌, ◌≡◌, Bool, true, false, not, ◌||◌, ◌&&◌, Option, none, some, List, [], ◌∷◌, ◌++◌,
  leb, ltb, if◌then◌else◌,
}
use open_civic.Common.Table.{Table, update, find, insert}
use open_civic.Catalog.{
  Blob, Dataset, Status, draft, pending_review, changes_requested, pending_approval, scheduled,
  published, rejected, archived,
}
use open_civic.Session.{
  Db, Action, ◌>>=◌, ◌>>◌, guard, modify, pure, get_dataset, validation_error, dataset_scheduled,
  Payload,
}
use open_civic.Governance.Service.{emit_event, set_dataset}

-- How far the wall clock of a zone is ahead of UTC, or behind it.
pub data Offset : Type 0 where
  ahead behind : ℕ → Offset

-- An aware `datetime`: the wall clock's reading in seconds, and its zone.
pub record DateTime : Type 0 where
  pub wall : ℕ
  pub offset : Offset

-- The instant in UTC.
abbrev pub instant : DateTime → ℕ
instant t = elim t.offset [ ahead o ↦ t.wall - o | behind o ↦ t.wall + o ]

-- `embargo_dt.replace(tzinfo=UTC)`: the reading is kept, the zone is replaced.
abbrev pub replace_utc : DateTime → DateTime
replace_utc t = record t { offset = ahead 0 }

-- `encrypt` of the ISO text and `fromisoformat` of the decrypted one; `none` stands for an
-- exception. AES-GCM and the ISO format are outside the repository.
pub record Crypto : Type 0 where
  pub encrypt : DateTime → Blob
  pub decrypt : Blob → Option DateTime

-- What the code relies on: a ciphertext is not empty and decrypts to what was encrypted.
pub record IsLawful (c : Crypto) : Type 0 where
  pub decrypt-encrypt : (t : DateTime) → c.decrypt (c.encrypt t) ≡ some t
  pub encrypt_nonempty : (t : DateTime) → (x : ℕ) × (xs : Blob) × (c.encrypt t ≡ x ∷ xs)

module _ (c : Crypto) where
  -- `schedule`. It looks at neither the row nor its status.
  unfoldable pub schedule : ℕ → DateTime → ℕ → Action (Unit {0})
  unfolding emit_event
  schedule dataset_id embargo_until actor_id = do
    modify (
        set_dataset dataset_id
          (λ d. record d { status = scheduled; embargo_until = some (c.encrypt embargo_until) }))
    modify (emit_event dataset_scheduled dataset_id actor_id Payload.empty)

  -- `dataset.status not in {"pending_review", "pending_approval"}`
  in_queue : Status → Bool
  in_queue pending_review = true
  in_queue pending_approval = true
  in_queue _ = false

  -- The endpoint `schedule_embargo`.
  unfoldable pub schedule_embargo : ℕ → ℕ → DateTime → ℕ → Action (Unit {0})
  unfolding in_queue schedule
  schedule_embargo now dataset_id embargo_until actor_id = do
    dataset ← get_dataset dataset_id
    guard (in_queue dataset.status) validation_error
    guard (not (leb (instant embargo_until) now)) validation_error
    schedule dataset_id embargo_until actor_id

  -- `now >= embargo_dt.replace(tzinfo=UTC)`, for an embargo that can be read.
  unfoldable pub due : ℕ → Option Blob → Bool
  due now none = false
  due now (some []) = false
  due now (some (x ∷ xs)) = elim (c.decrypt (x ∷ xs)) [
    | none ↦ false
    | some t ↦ leb (instant (replace_utc t)) now
  ]

  is_scheduled : Status → Bool
  is_scheduled scheduled = true
  is_scheduled _ = false

  unfoldable pub release : ℕ → Dataset → Dataset
  release now d = record d { status = published; published_at = some now; embargo_until = none }

  -- The tests of the loop's body: the row is scheduled, its embargo can be read and is over.
  unfoldable pub releases : ℕ → Dataset → Bool
  unfolding is_scheduled due
  releases now d = is_scheduled d.status && due now d.embargo_until

  -- The loop of `check_embargo_releases`. An exception on one row is logged and the loop goes on.
  release_due : ℕ → Table Dataset → Table Dataset × List ℕ
  unfolding releases release
  release_due now [] = ([], [])
  release_due now ((k, d) ∷ t) =
      let (t', released) = release_due now t in
      let hit = releases now d in
      ((k, if hit then release now d else d) ∷ t', if hit then k ∷ released else released)

  -- `check_embargo_releases`
  unfoldable pub check_embargo_releases : ℕ → Action (List ℕ)
  unfolding release_due
  check_embargo_releases now db =
      let (datasets, released) = release_due now db.datasets in
      pure released (record db { datasets = datasets })
