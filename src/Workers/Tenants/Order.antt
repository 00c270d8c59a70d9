-- ===== src/Workers/Tenants/Order.antt =====
-- A pass handles the tenants in turn, and ends at the first whose handler raises.
use open_civic.Common.{
  ℕ, ◌≡◌, refl, sym, ap, ◌∙◌, Bool, false, ◌||◌, List, [], ◌∷◌, ◌++◌, ◌==◌, ==_refl, contains, All,
  All-mono, subst, arith,
}
use open_civic.Session.{Db, Action, Error, returned, raised, in_session}
use open_civic.Workers.Tenants.{
  Databases, set_db, Pass, finished, stopped, add_result, run_for_all_tenants,
}

add_result-dbs : {A : Type 0} (k : ℕ) (a : A) (p : Pass A × Databases) → (add_result k a p).1 ≡ p.1
unfolding add_result
add_result-dbs k a (finished results, dbs) = refl
add_result-dbs k a (stopped j e, dbs) = refl

add_result-stopped :
    {A : Type 0} (k j : ℕ) (e : Error) (a : A) (p : Pass A × Databases)
    → p.0 ≡ stopped j e
    → (add_result k a p).0 ≡ stopped j e
unfolding add_result
add_result-stopped k j e a (finished results, dbs) h = cc h
add_result-stopped k j e a (stopped i e', dbs) h = h

add_result-finished :
    {A : Type 0} (k : ℕ) (a : A) (p : Pass A × Databases)
    → (rs : List (ℕ × A)) × (p.0 ≡ finished rs)
    → (rs : List (ℕ × A)) × ((add_result k a p).0 ≡ finished rs)
unfolding add_result
add_result-finished k a (finished results, dbs) h = ((k, a) ∷ results, refl)
add_result-finished k a (stopped i e', dbs) (rs, h) = cc h

left_of : (b c : Bool) → (b || c) ≡ false → b ≡ false
left_of b c h = ground (arith, h)

module _ {A : Type 0} (handler : ℕ → Action A) where
  add_step :
      (i : ℕ) (ks : List ℕ) (a : A) (db : Db) (dbs : Databases)
      → in_session (handler i) (dbs i) ≡ returned a db
      → run_for_all_tenants handler (i ∷ ks) dbs
        ≡ add_result i a (run_for_all_tenants handler ks (set_db i db dbs))
  unfolding run_for_all_tenants
  add_step i ks a db dbs e = rw (e, run_for_all_tenants) refl

  -- The handler returns for each of the tenants, one after the other.
  pub data Passes : List ℕ → Databases → Databases → Type 0 where
    none_left : {dbs : Databases} → Passes [] dbs dbs
    next :
        {k : ℕ} {ks : List ℕ} {a : A} {db : Db} {dbs after : Databases}
        → in_session (handler k) (dbs k) ≡ returned a db
        → Passes ks (set_db k db dbs) after
        → Passes (k ∷ ks) dbs after

  untouched :
      (ks : List ℕ) (j : ℕ) {dbs after : Databases}
      → Passes ks dbs after
      → contains ks j ≡ false
      → after j ≡ dbs j
  untouched [] j none_left h = refl
  untouched (k ∷ ks) j (next {db = db} {dbs = dbs} e ps) h =
      let other : (j == k) ≡ false = ground arith in
      let later : contains ks j ≡ false = ground arith in untouched ks j ps later ∙ rw other refl

  -- A pass ends at the first tenant whose handler raises, and leaves the databases of the tenants
  -- that are neither before it nor itself as they were.
  pub run_for_all_tenants_stops :
      (pre post : List ℕ) (k : ℕ) (e : Error) (db : Db) (dbs mid : Databases)
      → Passes pre dbs mid
      → in_session (handler k) (mid k) ≡ raised e db
      → ((run_for_all_tenants handler (pre ++ k ∷ post) dbs).0 ≡ stopped k e)
        × ((j : ℕ)
            → contains pre j ≡ false
            → (j == k) ≡ false
            → (run_for_all_tenants handler (pre ++ k ∷ post) dbs).1 j ≡ dbs j)
  unfolding run_for_all_tenants add_result
  run_for_all_tenants_stops [] post k e db dbs mid none_left fails =
      rw (fails, run_for_all_tenants) (refl, λ j h other. rw other refl)
  run_for_all_tenants_stops (i ∷ pre) post k e db dbs mid (next {a = a} {db = db'} first ps) fails =
      let (ends, rest) =
        run_for_all_tenants_stops pre post k e db (set_db i db' dbs) mid ps fails in
      let later = run_for_all_tenants handler (pre ++ k ∷ post) (set_db i db' dbs) in
      let opened = add_step i (pre ++ k ∷ post) a db' dbs first in
      (
        ap (λ p. p.0) opened ∙ add_result-stopped i k e a later ends,
        λ j h other.
            ap (λ p. p.1 j) opened
            ∙ ap (λ f. f j) (add_result-dbs i a later)
            ∙ rest j (ground arith) other
            ∙ rw (left_of (j == i) (contains pre j) h) refl,
      )

-- No identifier twice.
abbrev pub Distinct : List ℕ → Type 0
Distinct [] = Unit
Distinct (k ∷ ks) = (contains ks k ≡ false) × Distinct ks

-- Setting one database leaves what holds of the others.
All-set_db :
    (P : Db → Type 0) (k : ℕ) (db : Db) (dbs : Databases) (ks : List ℕ)
    → contains ks k ≡ false
    → All (λ j. P (dbs j)) ks
    → All (λ j. P (set_db k db dbs j)) ks
All-set_db P k db dbs [] out h = tt
All-set_db P k db dbs (i ∷ is) out h =
    let other : (i == k) ≡ false = grind (arith, out) in
    (rw other h.0, All-set_db P k db dbs is (ground (arith, out)) h.1)

-- What holds of each tenant's database before the pass and after its handler.
module _ {A : Type 0} (handler : ℕ → Action A) (P Q : Db → Type 0)
    (step : (k : ℕ) (db : Db)
      → P db
      → (a : A) × (db' : Db) × (in_session (handler k) db ≡ returned a db') × Q db') where
  -- Where the handler of every tenant returns, the pass finishes, and each database is as its
  -- handler leaves it.
  pub run_for_all_tenants_finishes :
      (ks : List ℕ) (dbs : Databases)
      → Distinct ks
      → All (λ k. P (dbs k)) ks
      → ((results : List (ℕ × A)) × ((run_for_all_tenants handler ks dbs).0 ≡ finished results))
        × All (λ k. Q ((run_for_all_tenants handler ks dbs).1 k)) ks
        × ((j : ℕ) → contains ks j ≡ false → (run_for_all_tenants handler ks dbs).1 j ≡ dbs j)
  unfolding run_for_all_tenants
  run_for_all_tenants_finishes [] dbs d h = (([], refl), tt, λ j out. refl)
  run_for_all_tenants_finishes (k ∷ ks) dbs d h =
      let (a, db, e, q) = step k (dbs k) h.0 in
      let later = run_for_all_tenants handler ks (set_db k db dbs) in
      let opened = add_step handler k ks a db dbs e in
      let same : (j : ℕ) → (run_for_all_tenants handler (k ∷ ks) dbs).1 j ≡ later.1 j =
        λ j. ap (λ p. p.1 j) opened ∙ ap (λ f. f j) (add_result-dbs k a later) in
      let (ends, each, others) =
        run_for_all_tenants_finishes ks (set_db k db dbs) d.1 (All-set_db P k db dbs ks d.0 h.1) in
      let own : (run_for_all_tenants handler (k ∷ ks) dbs).1 k ≡ db =
        same k ∙ others k d.0 ∙ rw (==_refl k) refl in
      (
        subst (λ p. (rs : List (ℕ × A)) × (p.0 ≡ finished rs)) (sym opened)
            (add_result-finished k a later ends),
        (
          subst Q (sym own) q,
          All-mono (λ j. Q (later.1 j)) (λ j. Q ((run_for_all_tenants handler (k ∷ ks) dbs).1 j)) ks
              (λ j held. subst Q (sym (same j)) held) each,
        ),
        λ j out.
            same j
            ∙ others j (ground (arith, out))
            ∙ rw (left_of (j == k) (contains ks j) out) refl,
      )
