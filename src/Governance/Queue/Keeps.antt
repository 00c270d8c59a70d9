-- ===== src/Governance/Queue/Keeps.antt =====
-- Flagging overdue submissions keeps the constraints on maker, checker and approver.
use open_civic.Common.{ℕ, ◌≡◌, ◌⊎◌, refl, sym, subst, true, [], ◌∷◌, arith, inl, inr}
use open_civic.Common.Table.{Table, Found, Found-update, update}
use open_civic.Session.{Db, Submission, final, Step, returned, raised}
use open_civic.Governance.Service.Separation.{IsSeparated, AllSeparated}
use open_civic.Governance.Queue.{flag, flag_all, flag_sla_breaches, list_overdue_pending}

flag-submissions :
    (k : ℕ) (r : Submission) (db : Db)
    → (final (flag (k, r) db)).submissions
      ≡ update k (λ s. record s { sla_breached = true }) db.submissions
unfolding flag
flag-submissions k r db = ground arith

-- The loop stops with the exception of its first step, or goes on from what the step left.
flag_all-cons :
    (k : ℕ) (r : Submission) (rs : Table Submission) (db : Db)
    → (final (flag_all ((k, r) ∷ rs) db) ≡ final (flag (k, r) db))
      ⊎ (final (flag_all ((k, r) ∷ rs) db) ≡ final (flag_all rs (final (flag (k, r) db))))
unfolding flag_all
flag_all-cons k r rs db = go (flag (k, r) db) refl
  where
    go :
        (x : Step (Unit {0}))
        → flag (k, r) db ≡ x
        → (final (flag_all ((k, r) ∷ rs) db) ≡ final (flag (k, r) db))
          ⊎ (final (flag_all ((k, r) ∷ rs) db) ≡ final (flag_all rs (final (flag (k, r) db))))
    go (returned a db') e = inr (ground arith)
    go (raised x db') e = inl (ground arith)

flag-AllSeparated :
    (k : ℕ) (r : Submission) (db : Db) → AllSeparated db → AllSeparated (final (flag (k, r) db))
flag-AllSeparated k r db h = subst (Found IsSeparated) (sym (flag-submissions k r db)) (
    Found-update IsSeparated k _ db.submissions h (λ s there p. record {
      checker_not_maker = p.checker_not_maker;
      approver_not_maker = p.approver_not_maker;
      approver_not_checker = p.approver_not_checker;
      approved_is_published = p.approved_is_published;
    }))

flag_all-AllSeparated :
    (rs : Table Submission) (db : Db) → AllSeparated db → AllSeparated (final (flag_all rs db))
unfolding flag_all
flag_all-AllSeparated [] db h = h
flag_all-AllSeparated ((k, r) ∷ rs) db h =
    let h' = flag-AllSeparated k r db h in
    let rest = flag_all-AllSeparated rs (final (flag (k, r) db)) h' in
    elim (flag_all-cons k r rs db) [
      | inl e ↦ subst AllSeparated (sym e) h'
      | inr e ↦ subst AllSeparated (sym e) rest
    ]

pub flag_sla_breaches-AllSeparated :
    (now : ℕ) (db : Db) → AllSeparated db → AllSeparated (final (flag_sla_breaches now db))
unfolding flag_sla_breaches
flag_sla_breaches-AllSeparated now db h = flag_all-AllSeparated (list_overdue_pending now db) db h
