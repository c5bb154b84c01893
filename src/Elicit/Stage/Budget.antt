-- ===== src/Elicit/Stage/Budget.antt =====
-- The operations on case rows (engine/app/elicit/stage.py, engine/app/store/api.py) as steps in any
-- order, and the invariant of a row.
use structured_chaos.Prelude.{
  Bool, Bool-cases, Option, Option-cases, Rows, String, String-Eq, Table, [], arith, bit, false,
  inl, inr, is_some, lookup, none, put, some, sym, true, update, update-Rows, ℕ, ℕ-Eq, ◌+◌, ◌=?◌,
  ◌≡◌, ◌≤◌, ◌⊎◌,
}
use structured_chaos.Elicit.Policy.{CaseState, ElicitationPlan, Situation, committed, decide}
use structured_chaos.Elicit.Provenance.{Services, record_provenance, snapshot_object}
use structured_chaos.Elicit.Stage.{
  elicit_case, elicit_claimed, elicit_key, elicit_open, elicit_row, governed_keys, is_finished,
  meta_of, persist, provenance_of, resolution_of, resolved_id, situation_of,
}
use structured_chaos.Resolve.Resolver.{Resolution}
use structured_chaos.Store.Case.{
  CaseRecord, Cases, apply_elicitation, approved, asked_anchor, commit_case, create_case, elicited,
  fail_case_processing, failed, get_case_elicit_state, new_case, reopened, touch_elicit_processed,
  touched, uncommit_case,
}
use structured_chaos.Store.Database.{Database, get_emergent_values_by_head}
use structured_chaos.Store.Ledger.{claim_stage, is_done, running}
use structured_chaos.Store.Log.{get_field_values}

abbrev pub is_committed : CaseState → Bool
is_committed committed = true
is_committed _ = false

-- The budget and the trust gate, of one row: at most three questions; at most two besides the anchor;
-- committed exactly when stamped with a time, and with a reviewer exactly when with a time.
abbrev pub IsSafe : CaseRecord → Type 0
IsSafe c =
    (c.question_count ≤ 3)
    × (c.question_count ≤ 2 + bit (asked_anchor c))
    × (is_committed c.case_state ≡ is_some c.committed_at)
    × (is_some c.committed_by ≡ is_some c.committed_at)

-- One operation on the rows of a tenant; the last stands for every operation that writes no case row.
pub data Step : Database → Database → Type 0 where
  opened :
      (id : ℕ) (channel : String) (at : ℕ) (ref : Option String) (db : Database)
      → Step db (record db { cases = create_case id channel at ref db.cases })
  asked_about :
      (env : Services) (now new_id case : ℕ) (db : Database)
      → Step db (elicit_case env now new_id case db).0
  stalled :
      (id : ℕ) (db : Database)
      → Step db (record db { cases = (fail_case_processing id db.cases).0 })
  approved_by :
      (id : ℕ) (reviewer : String) (now : ℕ) (db : Database)
      → Step db (record db { cases = (commit_case id reviewer now db.cases).0 })
  undone :
      (id window now : ℕ) (db : Database)
      → Step db (record db { cases = (uncommit_case id window now db.cases).0 })
  other : (db after : Database) → after.cases ≡ db.cases → Step db after

pub data Run : Database → Database → Type 0 where
  here : (db : Database) → Run db db
  then_step : {start db after : Database} → Run start db → Step db after → Run start after

provenance_of-cases :
    (env : Services) (now new_id case : ℕ) (r : Option Resolution) (governed : Table String String)
    (db : Database)
    → (provenance_of env now new_id case r governed db).0.cases ≡ db.cases
unfolding record_provenance snapshot_object
provenance_of-cases env now new_id case r governed db = ground arith

-- What a recorded move does to a safe row that is not finished.
elicited-IsSafe :
    (now : ℕ) (s : Situation) (snapshot : Option ℕ) (n : ℕ) (c : CaseRecord)
    → IsSafe c
    → is_finished c.case_state ≡ false
    → s.question_count ≡ c.question_count
    → s.anchor_asked ≡ asked_anchor c
    → IsSafe (
        elicited
          (decide s).state
          (is_some (decide s).next_question)
          (meta_of now s (decide s) snapshot n)
          c)
unfolding decide
elicited-IsSafe now s snapshot n c safe unfinished count asked =
    ground (arith, safe, unfinished, count, asked)

create-Rows :
    (id : ℕ) (channel : String) (at : ℕ) (ref : Option String) (cases : Cases)
    → Rows IsSafe cases
    → Rows IsSafe (create_case id channel at ref cases)
unfolding create_case
create-Rows id channel at ref cases h j c row = elim (Bool-cases (id =? j)) [
  | inl same ↦
      let eq : new_case channel at ref ≡ c = ground (arith, same, row) in rw (sym eq) (ground arith)
  | inr different ↦ h j c (ground (arith, different, row))
]

commit-cases :
    (id : ℕ) (reviewer : String) (now : ℕ) (cases : Cases)
    → let after = (commit_case id reviewer now cases).0 in
      (after ≡ cases) ⊎ (after ≡ update id (approved now reviewer) cases)
unfolding commit_case
commit-cases id reviewer now cases = elim (Option-cases (lookup id cases)) [
  | inl absent ↦ inl (ground (arith, absent))
  | inr (c, row) ↦ inr (ground (arith, row))
]

commit-Rows :
    (id : ℕ) (reviewer : String) (now : ℕ) (cases : Cases)
    → Rows IsSafe cases
    → Rows IsSafe (commit_case id reviewer now cases).0
commit-Rows id reviewer now cases h = elim (commit-cases id reviewer now cases) [
  | inl same ↦ rw same h
  | inr updated ↦
      rw updated (
        update-Rows IsSafe id (approved now reviewer) cases h (λ v row. ground (arith, h id v row)))
]

fail-Rows :
    (id : ℕ) (cases : Cases) → Rows IsSafe cases → Rows IsSafe (fail_case_processing id cases).0
unfolding fail_case_processing
fail-Rows id cases h = update-Rows IsSafe id failed cases h (λ v at. ground (arith, h id v at))

uncommit-Rows :
    (id window now : ℕ) (cases : Cases)
    → Rows IsSafe cases
    → Rows IsSafe (uncommit_case id window now cases).0
unfolding uncommit_case
uncommit-Rows id window now cases h =
    update-Rows IsSafe id (reopened window now) cases h (λ v at. ground (arith, h id v at))

touch-Rows :
    (id at : ℕ) (cases : Cases)
    → Rows IsSafe cases
    → Rows IsSafe (touch_elicit_processed id at cases)
unfolding touch_elicit_processed
touch-Rows id at cases h =
    update-Rows IsSafe id (touched at) cases h (λ v row. ground (arith, h id v row))

persist-cases :
    (now case : ℕ) (key : String) (s : Situation) (plan : ElicitationPlan) (snapshot : Option ℕ)
    (n : ℕ) (db : Database)
    → (persist now case key s plan snapshot n db).cases
      ≡ update case
          (elicited plan.state (is_some plan.next_question) (meta_of now s plan snapshot n))
          db.cases
unfolding persist apply_elicitation
persist-cases now case key s plan snapshot n db = ground arith

claimed-Rows :
    (env : Services) (now new_id case question_count : ℕ) (anchor_asked : Bool)
    (ref : Option String) (governed : Table String String) (db : Database)
    → Rows IsSafe db.cases
    → ((c : CaseRecord)
        → lookup case db.cases ≡ some c
        → (is_finished c.case_state ≡ false)
          × (question_count ≡ c.question_count)
          × (anchor_asked ≡ asked_anchor c))
    → Rows IsSafe
        (elicit_claimed env now new_id case (question_count, anchor_asked, ref) governed db).cases
unfolding elicit_claimed
claimed-Rows env now new_id case question_count anchor_asked ref governed db h agrees =
    let r = resolution_of env case ref governed db in
    let s = situation_of env case (question_count, anchor_asked, ref) governed (resolved_id r) db in
    let p = provenance_of env now new_id case r governed db in
    rw (persist-cases now case (elicit_key env case governed) s (decide s) p.1 p.2 p.0) (
      rw (provenance_of-cases env now new_id case r governed db) (
        update-Rows IsSafe case _ db.cases h (λ c row.
          elicited-IsSafe now s p.1 p.2 c (h case c row) (agrees c row).0 (agrees c row).1
            (agrees c row).2)))

open-Rows :
    (env : Services) (now new_id case question_count : ℕ) (anchor_asked : Bool)
    (ref : Option String) (db : Database)
    → Rows IsSafe db.cases
    → ((c : CaseRecord)
        → lookup case db.cases ≡ some c
        → (is_finished c.case_state ≡ false)
          × (question_count ≡ c.question_count)
          × (anchor_asked ≡ asked_anchor c))
    → Rows IsSafe (elicit_open env now new_id case (question_count, anchor_asked, ref) db).0.cases
unfolding claim_stage
open-Rows env now new_id case question_count anchor_asked ref db h agrees =
    let governed = get_field_values case governed_keys db.logs in
    let key = elicit_key env case governed in
    elim (Bool-cases (is_done (lookup key db.ledger))) [
      | inl skipped ↦ rw skipped (touch-Rows case now db.cases h)
      | inr fresh ↦
          elim (Bool-cases
            (is_some (get_emergent_values_by_head case "person" db.logs db.registry))) [
              | inr unnamed ↦ rw (fresh, unnamed) h
              | inl named ↦
                  rw (fresh, named)
                    (claimed-Rows env now new_id case question_count anchor_asked ref governed
                      (record db { ledger = put key running db.ledger }) h agrees)
            ]
    ]

get_case_elicit_state_absent :
    (case : ℕ) (cases : Cases) → lookup case cases ≡ none → get_case_elicit_state case cases ≡ none
unfolding get_case_elicit_state
get_case_elicit_state_absent case cases h = ground (arith, h)

pub get_case_elicit_state_present :
    (case : ℕ) (cases : Cases) (c : CaseRecord)
    → lookup case cases ≡ some c
    → get_case_elicit_state case cases
      ≡ some (c.case_state, c.question_count, asked_anchor c, c.contact_ref)
unfolding get_case_elicit_state
get_case_elicit_state_present case cases c h = ground (arith, h)

row-Rows :
    (env : Services) (now new_id case : ℕ) (c : CaseRecord) (db : Database)
    → lookup case db.cases ≡ some c
    → Rows IsSafe db.cases
    → Rows IsSafe
        (elicit_row env now new_id case
          (some (c.case_state, c.question_count, asked_anchor c, c.contact_ref))
          db).0.cases
row-Rows env now new_id case c db row h = elim (Bool-cases (is_finished c.case_state)) [
  | inl finished ↦ rw finished h
  | inr unfinished ↦ rw unfinished (
      open-Rows env now new_id case c.question_count (asked_anchor c) c.contact_ref db h
        (λ d same. ground (arith, row, same, unfinished)))
]

elicit-Rows :
    (env : Services) (now new_id case : ℕ) (db : Database)
    → Rows IsSafe db.cases
    → Rows IsSafe (elicit_case env now new_id case db).0.cases
unfolding elicit_case
elicit-Rows env now new_id case db h = elim (Option-cases (lookup case db.cases)) [
  | inl absent ↦ rw (get_case_elicit_state_absent case db.cases absent) h
  | inr (c, row) ↦
      rw (get_case_elicit_state_present case db.cases c row)
        (row-Rows env now new_id case c db row h)
]

Step-Rows : (db after : Database) → Step db after → Rows IsSafe db.cases → Rows IsSafe after.cases
Step-Rows _ _ (opened id channel at ref db) h = create-Rows id channel at ref db.cases h
Step-Rows _ _ (asked_about env now new_id case db) h = elicit-Rows env now new_id case db h
Step-Rows _ _ (stalled id db) h = fail-Rows id db.cases h
Step-Rows _ _ (approved_by id reviewer now db) h = commit-Rows id reviewer now db.cases h
Step-Rows _ _ (undone id window now db) h = uncommit-Rows id window now db.cases h
Step-Rows _ _ (other db after same) h = rw same h

-- Of a tenant that starts without cases, whatever operations follow in whatever order, with
-- elicitations, failures, approvals and undone approvals of any cases among them, every case row has
-- had at most three questions, at most two besides the anchor, and is `committed` exactly when
-- it is stamped with a time, and with a reviewer exactly when with a time.
pub Run-IsSafe :
    (start db : Database) (id : ℕ) (c : CaseRecord)
    → start.cases ≡ []
    → Run start db
    → lookup id db.cases ≡ some c
    → IsSafe c
Run-IsSafe start db id c empty run at = go db run id c at
  where
    go : (db : Database) → Run start db → Rows IsSafe db.cases
    go _ (here db) = λ j v row. ground (arith, empty, row)
    go _ (then_step {db = db} {after = after} run step) = Step-Rows db after step (go db run)
