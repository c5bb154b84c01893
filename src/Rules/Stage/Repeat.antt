-- ===== src/Rules/Stage/Repeat.antt =====
-- What decide_case writes, and its second run (engine/app/rules/stage.py).
use structured_chaos.Prelude.{
  >>=-ok, Bool, Bool-cases, Option, Option-cases, Result, String, String-Eq, Table, ap, arith,
  beq_refl, false, if◌then◌else◌, inl, inr, lookup, lookup-put, none, ok, put, raise, refl, some,
  some_or, sym, true, ℕ, ℕ-Eq, ◌∙◌, ◌≡◌,
}
use structured_chaos.Rules.Policy.{Decision, Policy, PolicyError, evaluate}
use structured_chaos.Rules.Policy.Parse.{load_policy}
use structured_chaos.Rules.Stage.{
  RulesEnv, StageError, case_inputs, decide_case, decide_claimed, decide_row, get_input, lift,
  no_deadline, rules_key, store_decision,
}
use structured_chaos.Store.Case.{CaseRecord}
use structured_chaos.Store.Database.{CaseDecision, Database}
use structured_chaos.Store.Decision.{decision_keys, get_case_decision_inputs, upsert_case_decision}
use structured_chaos.Store.Ledger.{claim_stage, is_done, running}
use structured_chaos.Store.Ledger.Once.{put-complete-done}
use structured_chaos.Store.Log.{get_field_values}

lift-ok : {A : Type 0} (m : Result PolicyError A) (a : A) → lift m ≡ ok a → m ≡ ok a
lift-ok (ok x) a h = ground (arith, h)
lift-ok (raise e) a h = cc

some_or-ok : {A : Type 0} (o : Option A) (e : StageError) (a : A) → some_or o e ≡ ok a → o ≡ some a
some_or-ok (some x) e a h = ground (arith, h)
some_or-ok none e a h = cc

ok_pair :
    {A : Type 0} (x y : A) (b c : Bool)
    → ◌≡◌ {A = Result StageError (A × Bool)} (ok (x, b)) (ok (y, c))
    → (y ≡ x) × (b ≡ c)
ok_pair x y b c h = (ground (arith, h), ground (arith, h))

-- What a run that decided has done.
abbrev pub IsDecided : RulesEnv → ℕ → ℕ → Table String String → Database → Database → Type 0
IsDecided env case at governed db after =
    let inputs = case_inputs env case governed db in
    (p : Policy) × (d : Decision) × (due : ℕ) × (load_policy env.safe_load env.is_blank
        env.default_text db.policy_yaml
      ≡ ok p)
    × (evaluate (get_input inputs) p ≡ ok d)
    × (env.after_hours at d.sla_target_hours ≡ some due)
    × (after
        ≡ store_decision case (rules_key env case inputs p) inputs d due
            (record db { ledger = put (rules_key env case inputs p) running db.ledger }))

decide_claimed-ok :
    (env : RulesEnv) (case at : ℕ) (key : String) (inputs : Table String (Option String))
    (p : Policy) (db after : Database) (ran : Bool)
    → decide_claimed env case at key inputs p db ≡ ok (after, ran)
    → (d : Decision) × (due : ℕ) × (evaluate (get_input inputs) p ≡ ok d)
      × (env.after_hours at d.sla_target_hours ≡ some due)
      × (after ≡ store_decision case key inputs d due db)
decide_claimed-ok env case at key inputs p db after ran h =
    let (d, h1, k1) = >>=-ok (lift (evaluate (get_input inputs) p)) _ h in
    let (due, h2, k2) = >>=-ok (some_or (env.after_hours at d.sla_target_hours) no_deadline) _ k1 in
    (
      d,
      due,
      lift-ok (evaluate (get_input inputs) p) d h1,
      some_or-ok (env.after_hours at d.sla_target_hours) no_deadline due h2,
      (ok_pair (store_decision case key inputs d due db) after true ran k2).0,
    )

-- The two ways on from the claim.
abbrev claimed_branch :
    RulesEnv
    → ℕ
    → ℕ
    → String
    → Table String (Option String)
    → Policy
    → Database
    → Result StageError (Database × Bool)
claimed_branch env case at key inputs p db =
    let (ledger, fresh) = claim_stage key db.ledger in
    if fresh
    then decide_claimed env case at key inputs p (record db { ledger = ledger })
    else ok (db, false)

claimed_branch_old :
    (env : RulesEnv) (case at : ℕ) (key : String) (inputs : Table String (Option String))
    (p : Policy) (db : Database)
    → is_done (lookup key db.ledger) ≡ true
    → claimed_branch env case at key inputs p db ≡ ok (db, false)
unfolding claim_stage
claimed_branch_old env case at key inputs p db old = rw old refl

claimed_branch_fresh :
    (env : RulesEnv) (case at : ℕ) (key : String) (inputs : Table String (Option String))
    (p : Policy) (db : Database)
    → is_done (lookup key db.ledger) ≡ false
    → claimed_branch env case at key inputs p db
      ≡ decide_claimed env case at key inputs p (record db { ledger = put key running db.ledger })
unfolding claim_stage
claimed_branch_fresh env case at key inputs p db fresh = rw fresh refl

decide_row-ok :
    (env : RulesEnv) (case at : ℕ) (governed : Table String String) (db after : Database)
    → decide_row env case (some (at, governed)) db ≡ ok (after, true)
    → IsDecided env case at governed db after
unfolding claim_stage
decide_row-ok env case at governed db after h =
    let load = load_policy env.safe_load env.is_blank env.default_text db.policy_yaml in
    let (p, h1, k1) = >>=-ok (lift load) _ h in
    let inputs = case_inputs env case governed db in
    let key = rules_key env case inputs p in
    let claimed_db : Database = record db { ledger = put key running db.ledger } in
    elim (Bool-cases (is_done (lookup key db.ledger))) [
      | inl old ↦
          let same =
            ok_pair db after false true
              (sym (claimed_branch_old env case at key inputs p db old) ∙ k1) in
          absurd (ground (arith, same.1))
      | inr fresh ↦
          let (d, due, evaluated, dated, stored) =
            decide_claimed-ok env case at key inputs p claimed_db after true
              (sym (claimed_branch_fresh env case at key inputs p db fresh) ∙ k1) in
          (p, d, due, lift-ok load p h1, evaluated, dated, stored)
    ]

inputs_present :
    (case : ℕ) (db : Database) (c : CaseRecord)
    → lookup case db.cases ≡ some c
    → get_case_decision_inputs case db
      ≡ some (c.first_contact_at, get_field_values case decision_keys db.logs)
unfolding get_case_decision_inputs
inputs_present case db c row = ground (arith, row)

inputs_absent :
    (case : ℕ) (db : Database)
    → lookup case db.cases ≡ none
    → get_case_decision_inputs case db ≡ none
unfolding get_case_decision_inputs
inputs_absent case db row = ground (arith, row)

-- The result of a run that decided is a state on which the key is done.
stored_repeat :
    (env : RulesEnv) (case at : ℕ) (governed : Table String String) (db : Database) (p : Policy)
    (d : Decision) (due : ℕ)
    → load_policy env.safe_load env.is_blank env.default_text db.policy_yaml ≡ ok p
    → let inputs = case_inputs env case governed db in
      let key = rules_key env case inputs p in
      let after =
        store_decision case key inputs d due (record db { ledger = put key running db.ledger }) in
      decide_row env case (some (at, governed)) after ≡ ok (after, false)
unfolding upsert_case_decision case_inputs
stored_repeat env case at governed db p d due loaded =
    let inputs = case_inputs env case governed db in
    let key = rules_key env case inputs p in
    let after =
      store_decision case key inputs d due (record db { ledger = put key running db.ledger }) in
    rw loaded (claimed_branch_old env case at key inputs p after (put-complete-done key db.ledger))

stored_again :
    (env : RulesEnv) (case : ℕ) (db : Database) (c : CaseRecord) (p : Policy) (d : Decision)
    (due : ℕ)
    → lookup case db.cases ≡ some c
    → load_policy env.safe_load env.is_blank env.default_text db.policy_yaml ≡ ok p
    → let inputs = case_inputs env case (get_field_values case decision_keys db.logs) db in
      let key = rules_key env case inputs p in
      let after =
        store_decision case key inputs d due (record db { ledger = put key running db.ledger }) in
      decide_case env case after ≡ ok (after, false)
unfolding decide_case upsert_case_decision
stored_again env case db c p d due row loaded =
    let governed = get_field_values case decision_keys db.logs in
    let inputs = case_inputs env case governed db in
    let key = rules_key env case inputs p in
    let after =
      store_decision case key inputs d due (record db { ledger = put key running db.ledger }) in
    ap (λ o. decide_row env case o after) (inputs_present case after c row)
    ∙ stored_repeat env case c.first_contact_at governed db p d due loaded

-- A run that decides a case has loaded the tenant's policy, evaluated it on the case's inputs, and
-- left as the decision of the case what the evaluation returned, with the deadline counted from the
-- first contact, and those inputs.
pub decide_case-evaluate :
    (env : RulesEnv) (case : ℕ) (db after : Database) (c : CaseRecord)
    → lookup case db.cases ≡ some c
    → decide_case env case db ≡ ok (after, true)
    → let inputs = case_inputs env case (get_field_values case decision_keys db.logs) db in
      (p : Policy) × (d : Decision) × (due : ℕ) × (load_policy env.safe_load env.is_blank
          env.default_text db.policy_yaml
        ≡ ok p)
      × (evaluate (get_input inputs) p ≡ ok d)
      × (env.after_hours c.first_contact_at d.sla_target_hours ≡ some due)
      × (lookup case after.decisions
          ≡ some (record { decision = d; sla_response_due_at = due; inputs = inputs }))
unfolding decide_case get_case_decision_inputs upsert_case_decision
decide_case-evaluate env case db after c row h =
    let governed = get_field_values case decision_keys db.logs in
    let got = ap (λ o. decide_row env case o db) (inputs_present case db c row) in
    let (p, d, due, loaded, evaluated, dated, stored) =
      decide_row-ok env case c.first_contact_at governed db after (sym got ∙ h) in
    let decision : CaseDecision = record {
      decision = d;
      sla_response_due_at = due;
      inputs = case_inputs env case governed db;
    } in
    (
      p,
      d,
      due,
      loaded,
      evaluated,
      dated,
      rw stored (lookup-put case case decision db.decisions ∙ rw (beq_refl case) refl),
    )

-- A decision is made once for the same inputs and policy: a run on the result of a run that decided
-- changes nothing and says so.
pub decide_case_repeat :
    (env : RulesEnv) (case : ℕ) (db after : Database)
    → decide_case env case db ≡ ok (after, true)
    → decide_case env case after ≡ ok (after, false)
unfolding decide_case get_case_decision_inputs upsert_case_decision
decide_case_repeat env case db after h = elim (Option-cases (lookup case db.cases)) [
  | inl absent ↦
      let got = ap (λ o. decide_row env case o db) (inputs_absent case db absent) in
      absurd (ground (arith, (ok_pair db after false true (sym got ∙ h)).1))
  | inr (c, row) ↦
      let governed = get_field_values case decision_keys db.logs in
      let got = ap (λ o. decide_row env case o db) (inputs_present case db c row) in
      let (p, d, due, loaded, evaluated, dated, stored) =
        decide_row-ok env case c.first_contact_at governed db after (sym got ∙ h) in
      rw stored (stored_again env case db c p d due row loaded)
]
