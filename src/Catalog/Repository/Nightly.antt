-- ===== src/Catalog/Repository/Nightly.antt =====
-- The nightly passes over the published datasets, `refresh_staleness_states` and
-- `decay_stale_quality_scores` of backend/app/repositories/dataset_repository.py.
use open_civic.Common.{
  ℕ, suc, ◌-◌, ◌*◌, not, ◌&&◌, Option, none, some, [], ◌∷◌, leb, ◌==◌, if◌then◌else◌, get_or,
}
use open_civic.Common.Table.{Table}
use open_civic.Catalog.Model.{
  Dataset, same_state, is_published, Staleness, fresh, possibly_outdated, stale, Frequency, daily,
  weekly, monthly, on_demand,
}

hours_of : Option Frequency → Option ℕ
hours_of none = none
hours_of (some daily) = some 24
hours_of (some weekly) = some 168
hours_of (some monthly) = some 720
hours_of (some on_demand) = none

-- The state of a published dataset at a time.
unfoldable pub state_at : ℕ → Dataset → Staleness
unfolding hours_of
state_at now d =
    let anchor = get_or d.last_refreshed_at (get_or d.published_at d.created_at) in
    elim (hours_of d.update_frequency) [
      | none ↦ fresh
      | some hours ↦
          if leb (hours * 2 * 3600) (now - anchor)
          then stale
          else if leb (hours * 3600) (now - anchor)
          then possibly_outdated
          else fresh
    ]

-- `refresh_staleness_states`: how many rows changed, and the table.
unfoldable pub refresh_staleness_states : ℕ → Table Dataset → ℕ × Table Dataset
unfolding is_published same_state
refresh_staleness_states now [] = (0, [])
refresh_staleness_states now ((k, d) ∷ t) =
    let rest = refresh_staleness_states now t in
    if is_published d && not (same_state d.staleness_state (state_at now d))
    then (suc rest.0, (k, record d { staleness_state = state_at now d }) ∷ rest.1)
    else (rest.0, (k, d) ∷ rest.1)

-- What `decay_stale_quality_scores` does to a row, where it changes it: 5 points less, not below 0.
unfoldable pub decayed : Dataset → Option ℕ
unfolding is_published same_state
decayed d =
    if is_published d && same_state d.staleness_state stale
    then (elim d.quality_score [
      | none ↦ none
      | some current ↦ if current - 500 == current then none else some (current - 500)
    ])
    else none

-- `decay_stale_quality_scores`
unfoldable pub decay_stale_quality_scores : Table Dataset → ℕ × Table Dataset
unfolding decayed
decay_stale_quality_scores [] = (0, [])
decay_stale_quality_scores ((k, d) ∷ t) =
    let rest = decay_stale_quality_scores t in
    elim (decayed d) [
      | none ↦ (rest.0, (k, d) ∷ rest.1)
      | some n ↦ (suc rest.0, (k, record d { quality_score = some n }) ∷ rest.1)
    ]
