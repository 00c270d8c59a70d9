-- ===== src/Connectors/Breaker.antt =====
-- The circuit breaker over every sequence of the repository's writes, and the queue of syncs.
use mathlib.Core.Option.{some-injective, none-ne-some}
use open_civic.Common.{
  ℕ, suc, ◌≤◌, ◌<◌, ◌≡◌, sym, ◌∙◌, subst, String, true, false, inl, inr, Option, some, leb, length,
  length-take-le, get_or, arith, Bool-cases, Option-cases,
}
use open_civic.Common.Table.{
  Table, Found, Found-insert, Found-update, Rows, Rows-select, find, update, select,
}
use open_civic.Common.Order.{
  order_by, IsSorted, order_by-IsSorted, All-order_by, All-take, IsSorted-take,
}
use open_civic.Catalog.{Blob}
use open_civic.Connectors.{
  Connector, closed, is_active, is_open, is_due, runs_next, due_before, get_due_syncs, create,
  mark_sync_success, mark_sync_failure, close_circuit, succeeded, counted_failure,
}

module _ (threshold : ℕ) where
  -- The circuit is open exactly when the failures have reached the threshold.
  abbrev pub IsConsistent : Connector → Type 0
  IsConsistent c = is_open c ≡ leb threshold c.failure_count

  -- One write of the repository that goes through.
  pub data Write : Table Connector → Table Connector → Type 0 where
    create_write :
        (t : Table Connector) (now key : ℕ) (name type_name : String) (config : Blob)
        (created_by : ℕ) (dataset_id : Option ℕ) (frequency : Option String)
        → Write t (create now key name type_name config created_by dataset_id frequency t)
    success_write : (t : Table Connector) (now k : ℕ) → Write t (mark_sync_success now k t)
    failure_write :
        (t t' : Table Connector) (k : ℕ) → mark_sync_failure threshold k t ≡ some t' → Write t t'
    close_write : (t : Table Connector) (k : ℕ) → Write t (close_circuit k t)

  pub data Writes (t : Table Connector) : Table Connector → Type 0 where
    start : Writes t t
    after : {t' t'' : Table Connector} → Writes t t' → Write t' t'' → Writes t t''

  counted_failure-Consistent :
      (c r : Connector)
      → IsConsistent c
      → IsConsistent (counted_failure threshold (suc c.failure_count) c.circuit_state r)
  unfolding counted_failure is_open
  counted_failure-Consistent c r h = elim (Bool-cases (leb threshold (suc c.failure_count))) [
    | inl enough ↦ rw (enough, counted_failure, is_open)
    | inr few ↦
        let below : leb threshold c.failure_count ≡ false = ground arith in
        rw (few, counted_failure, is_open) (h ∙ below)
  ]

  written : ℕ → Table Connector → Connector → Table Connector
  written k t c = update k (counted_failure threshold (suc c.failure_count) c.circuit_state) t

  mark_sync_failure-written :
      (k : ℕ) (t : Table Connector) {c : Connector}
      → find k t ≡ some c
      → mark_sync_failure threshold k t ≡ some (written k t c)
  unfolding mark_sync_failure written
  mark_sync_failure-written k t {c = c} there = rw (there, mark_sync_failure)

  module _ (positive : 0 < threshold) where
    Write-Consistent :
        {t t' : Table Connector} → Write t t' → Found IsConsistent t → Found IsConsistent t'
    unfolding create mark_sync_success close_circuit succeeded is_open mark_sync_failure written
    Write-Consistent (create_write t now key name type_name config created_by dataset_id frequency)
          h =
        Found-insert IsConsistent key _ t h (ground arith)
    Write-Consistent (success_write t now k) h =
        Found-update IsConsistent k (succeeded now) t h (λ c there ok. ground arith)
    Write-Consistent (close_write t k) h =
        Found-update IsConsistent k (λ c. record c { circuit_state = closed; failure_count = 0 }) t
          h (λ c there ok. ground arith)
    Write-Consistent (failure_write t t' k e) h = elim (Option-cases (find k t)) [
      | inl missing ↦ absurd (none-ne-some t' (rw (missing, mark_sync_failure) at e))
      | inr (c, there) ↦
          subst (Found IsConsistent)
            (some-injective (written k t c) t' (sym (mark_sync_failure-written k t there) ∙ e))
            (Found-update IsConsistent k
              (counted_failure threshold (suc c.failure_count) c.circuit_state) t h
              (λ r again ok. counted_failure-Consistent c r (h k c there)))
    ]

    -- After any sequence of writes of the repository, from a table in which it holds and with a
    -- positive threshold, the circuit of a connector is open exactly when its failures in a row
    -- have reached the threshold.
    pub Writes-Consistent :
        {t t' : Table Connector} → Writes t t' → Found IsConsistent t → Found IsConsistent t'
    Writes-Consistent start h = h
    Writes-Consistent (after ws w) h = Write-Consistent w (Writes-Consistent ws h)

le_total : (a b : ℕ) → leb a b ≡ false → leb b a ≡ true
le_total a b h = ground arith

le_trans : (a b c : ℕ) → leb a b ≡ true → leb b c ≡ true → leb a c ≡ true
le_trans a b c h k = ground arith

ready :
    (now : ℕ) (c : Connector)
    → runs_next now c ≡ true
    → (is_active c ≡ true) × (is_open c ≡ false) × (is_due now c ≡ true)
unfolding runs_next
ready now c h = (ground arith, ground arith, ground arith)

-- The queue of syncs holds only connectors that are active, due and not cut off, the longest due
-- first, and no more than asked for.
pub get_due_syncs_lem :
    (now limit : ℕ) (t : Table Connector)
    → Rows
        (λ k c. (is_active c ≡ true) × (is_open c ≡ false) × (is_due now c ≡ true))
        (get_due_syncs now limit t)
      × IsSorted due_before (get_due_syncs now limit t)
      × (length (get_due_syncs now limit t) ≤ limit)
unfolding get_due_syncs
get_due_syncs_lem now limit t =
    let rows = select (λ k c. runs_next now c) t in
    let P : ℕ × Connector → Type 0 =
      λ x. (is_active x.1 ≡ true) × (is_open x.1 ≡ false) × (is_due now x.1 ≡ true) in
    let chosen = Rows-select (λ k c. P (k, c)) (λ k c. runs_next now c) t (λ k c. ready now c) in
    (
      All-take P limit (order_by due_before rows) (All-order_by due_before P rows chosen),
      IsSorted-take due_before limit (order_by due_before rows) (
          order_by-IsSorted due_before
            (λ x y e. le_total (get_or x.1.next_sync_at 0) (get_or y.1.next_sync_at 0) e)
            (λ x y z e f.
              le_trans (get_or x.1.next_sync_at 0) (get_or y.1.next_sync_at 0)
                (get_or z.1.next_sync_at 0) e f)
            rows),
      length-take-le limit (order_by due_before rows),
    )
