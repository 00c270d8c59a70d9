-- ===== src/Governance/Transitions.antt =====
-- `TRANSITIONS` and `_assert_transition`, as a table and as a relation.
use mathlib.Core.Logic.{ite}
use open_civic.Common.{◌≡◌, refl, Bool, true, false, List, [], ◌∷◌, arith}
use open_civic.Catalog.{
  Status, Status-discrete, draft, pending_review, changes_requested, pending_approval, scheduled,
  published, rejected, archived,
}
use open_civic.Session.{Action, guard, invalid_workflow_transition}

-- `TRANSITIONS`
unfoldable pub transitions : Status → List Status
transitions draft = pending_review ∷ []
transitions pending_review = changes_requested ∷ pending_approval ∷ published ∷ rejected ∷ []
transitions changes_requested = pending_review ∷ []
transitions pending_approval = published ∷ rejected ∷ []
transitions scheduled = published ∷ []
transitions published = archived ∷ []
transitions rejected = []
transitions archived = []

-- `target in allowed`
listed : Status → List Status → Bool
listed s [] = false
listed s (t ∷ ts) = ite (Status-discrete s t) true (listed s ts)

unfoldable pub may_transition : Status → Status → Bool
unfolding transitions listed Status-discrete
may_transition current target = listed target (transitions current)

unfoldable pub assert_transition : Status → Status → Action (Unit {0})
unfolding may_transition
assert_transition current target = guard (may_transition current target) invalid_workflow_transition

-- The diagram of the workflow.
infix 40 ◌⟶◌
pub data ◌⟶◌ : Status → Status → Type 0 where
  submit : draft ⟶ pending_review
  resubmit : changes_requested ⟶ pending_review
  send_back : pending_review ⟶ changes_requested
  escalate : pending_review ⟶ pending_approval
  publish : pending_review ⟶ published
  reject : pending_review ⟶ rejected
  sign_off : pending_approval ⟶ published
  refuse : pending_approval ⟶ rejected
  release : scheduled ⟶ published
  retire : published ⟶ archived

-- What the table admits is an edge of the diagram.
pub may_transition-⟶ : (s t : Status) → may_transition s t ≡ true → s ⟶ t
unfolding may_transition
may_transition-⟶ s t h = grind (
  arith, submit, resubmit, send_back, escalate, publish, reject, sign_off, refuse, release, retire,
)

pub ⟶-may_transition : {s t : Status} → s ⟶ t → may_transition s t ≡ true
unfolding may_transition
⟶-may_transition submit = refl
⟶-may_transition resubmit = refl
⟶-may_transition send_back = refl
⟶-may_transition escalate = refl
⟶-may_transition publish = refl
⟶-may_transition reject = refl
⟶-may_transition sign_off = refl
⟶-may_transition refuse = refl
⟶-may_transition release = refl
⟶-may_transition retire = refl
