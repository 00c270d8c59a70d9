-- ===== src/Catalog/Repository/Passes.antt =====
-- What the nightly passes leave.
use mathlib.Core.Logic.{ite}
use mathlib.Core.Bool.{false≢true}
use open_civic.Common.{
  ℕ, ◌≡◌, refl, true, false, not, ◌&&◌, inl, inr, [], ◌∷◌, arith, All-mono, Bool-cases,
}
use open_civic.Common.Table.{Table, Rows}
use open_civic.Catalog.Model.{is_published, same_state, Dataset, Staleness, Staleness-discrete}
use open_civic.Catalog.Repository.{state_at, refresh_staleness_states}

same_state-eq : (s t : Staleness) → same_state s t ≡ true → s ≡ t
unfolding same_state
same_state-eq s t h =
    elim (Staleness-discrete s t) as (λ d. ite d true false ≡ true → s ≡ t) [
      | yes p ↦ λ e. p
      | no n ↦ λ e. absurd (false≢true e)
    ]
      h

same_state_refl : (s : Staleness) → same_state s s ≡ true
unfolding same_state
same_state_refl s = elim (Staleness-discrete s s) as (λ d. ite d true false ≡ true) [
  | yes p ↦ refl
  | no n ↦ absurd (n refl)
]

-- The state of a row depends on none of what the pass writes.
abbrev pub IsSettled : ℕ → Dataset → Type 0
IsSettled now d = is_published d && not (same_state d.staleness_state (state_at now d)) ≡ false

refreshed : (now : ℕ) (d : Dataset) → IsSettled now (record d { staleness_state = state_at now d })
unfolding is_published state_at
refreshed now d = rw (same_state_refl (state_at now d)) (ground arith)

settled :
    (now : ℕ) (t : Table Dataset) → Rows (λ k d. IsSettled now d) (refresh_staleness_states now t).1
unfolding refresh_staleness_states
settled now [] = tt
settled now ((k, d) ∷ t) =
    let others = settled now t in
    let flag = is_published d && not (same_state d.staleness_state (state_at now d)) in
    elim (Bool-cases flag) [
      | inl changes ↦ rw (changes, refresh_staleness_states) (refreshed now d, others)
      | inr stays ↦ rw (stays, refresh_staleness_states) (stays, others)
    ]

idle :
    (now : ℕ) (t : Table Dataset)
    → Rows (λ k d. IsSettled now d) t
    → refresh_staleness_states now t ≡ (0, t)
unfolding refresh_staleness_states
idle now [] h = refl
idle now ((k, d) ∷ t) h = rw (h.0, idle now t h.1) refl

state_of :
    (now : ℕ) (d : Dataset)
    → IsSettled now d
    → is_published d ≡ true
    → d.staleness_state ≡ state_at now d
state_of now d h e = same_state-eq d.staleness_state (state_at now d) (ground arith)

-- Refreshing leaves every published dataset in the state of the moment.
pub refresh_staleness_states_settles :
    (now : ℕ) (t : Table Dataset)
    → Rows
        (λ k d. is_published d ≡ true → d.staleness_state ≡ state_at now d)
        (refresh_staleness_states now t).1
refresh_staleness_states_settles now t =
    All-mono (λ x. IsSettled now x.1)
      (λ x. is_published x.1 ≡ true → x.1.staleness_state ≡ state_at now x.1)
      (refresh_staleness_states now t).1 (λ x. state_of now x.1) (settled now t)

-- A second pass at the same moment changes nothing.
pub refresh_staleness_states_again :
    (now : ℕ) (t : Table Dataset)
    → refresh_staleness_states now (refresh_staleness_states now t).1
      ≡ (0, (refresh_staleness_states now t).1)
refresh_staleness_states_again now t = idle now (refresh_staleness_states now t).1 (settled now t)
