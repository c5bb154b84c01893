-- ===== src/Store/Case/Gate.antt =====
-- Approval and its undoing: commit_case and uncommit_case of engine/app/store/api.py.
use structured_chaos.Prelude.{
  String, String-Eq, arith, if◌then◌else◌, lookup, lookup-update, ltb, none, some, ℕ, ℕ-Eq, ◌+◌,
  ◌≡◌,
}
use structured_chaos.Elicit.Policy.{committed}
use structured_chaos.Store.Case.{
  CaseRecord, Cases, approved, commit_case, commit_status, reopened, uncommit_case,
}

-- commit_case on a case that is not approved stamps it with the time and the reviewer, makes it
-- `committed`, and returns that stamp.
pub commit_case_fresh :
    (id : ℕ) (reviewer : String) (now : ℕ) (cases : Cases) (c : CaseRecord)
    → lookup id cases ≡ some c
    → c.committed_at ≡ none
    → c.committed_by ≡ none
    → let (after, answer) = commit_case id reviewer now cases in
      (answer ≡ some (now, some reviewer))
      × (commit_status id after ≡ some (now, some reviewer))
      × (lookup id after
          ≡ some (record c {
            committed_at = some now;
            committed_by = some reviewer;
            case_state = committed;
          }))
unfolding commit_case commit_status
commit_case_fresh id reviewer now cases c e h k =
    ground (arith, lookup-update id id (approved now reviewer) cases)

-- A second approval changes nothing: whoever commits an approved case, and whenever, the rows
-- of all cases stay as they are, and the answer is the first stamp.
pub commit_case_first_wins :
    (id j : ℕ) (reviewer : String) (now t : ℕ) (cases : Cases) (c : CaseRecord)
    → lookup id cases ≡ some c
    → c.committed_at ≡ some t
    → let (after, answer) = commit_case id reviewer now cases in
      (lookup j after ≡ lookup j cases) × (answer ≡ some (t, c.committed_by))
unfolding commit_case commit_status
commit_case_first_wins id j reviewer now t cases c e h = ground (
  arith,
  lookup-update id id (approved now reviewer) cases,
  lookup-update id j (approved now reviewer) cases,
  ℕ-Eq.beq_iff id j,
)

-- Undo, on the case that was just approved at the time `approval`: within the window it takes the stamp away and
-- puts the case in review, after the window the approval stands.
pub commit_case-uncommit_case :
    (id : ℕ) (reviewer : String) (window now approval : ℕ) (cases : Cases) (c : CaseRecord)
    → lookup id cases ≡ some c
    → c.committed_at ≡ none
    → c.committed_by ≡ none
    → let after = (commit_case id reviewer approval cases).0 in
      let (undone, answer) = uncommit_case id window now after in
      (answer ≡ (if ltb now (approval + window) then some id else none))
      × (commit_status id undone
          ≡ (if ltb now (approval + window) then none else some (approval, some reviewer)))
unfolding commit_case commit_status uncommit_case
commit_case-uncommit_case id reviewer window now approval cases c e h k =
    let after = (commit_case id reviewer approval cases).0 in
    ground (
      arith,
      lookup-update id id (approved approval reviewer) cases,
      lookup-update id id (reopened window now) after,
    )
