-- ===== src/Store/Database.antt =====
-- The rows of one tenant: what a `tenant_session` reads and writes, with the jobs that its
-- transaction defers (engine/app/queue.py, defer_in_transaction).
use structured_chaos.Prelude.{
  Bool, List, Option, String, String-Eq, Table, [], if◌then◌else◌, is_some, none, not, or_else,
  some, sort_by, text_lt, true, ℕ, ℕ-Eq, ◌&&◌, ◌=?◌, ◌||◌, ◌∷◌,
}
use structured_chaos.Resolve.Objects.{Objects}
use structured_chaos.Rules.Policy.{Decision}
use structured_chaos.Store.Case.{Cases}
use structured_chaos.Store.Documents.{Documents}
use structured_chaos.Store.Ledger.{Ledger}
use structured_chaos.Store.Log.{Logs, current_at, present_value}
use structured_chaos.Store.Outbound.{Outbox}
use structured_chaos.Store.Registry.{EmergentField, Registry, has_head}

pub data Job : Type 0 where
  normalise_job extract_job elicit_job rules_job dispatch_job : ℕ → Job

-- A row of `case_decision`: the decision with its deadline and the inputs that it was made on.
pub record CaseDecision : Type 0 where
  pub decision : Decision
  pub sla_response_due_at : ℕ
  pub inputs : Table String (Option String)

pub record Database : Type 0 where
  pub cases : Cases
  pub ledger : Ledger
  pub logs : Logs
  pub objects : Objects
  pub documents : Documents
  pub outbox : Outbox
  pub registry : Registry
  pub jobs : List Job
  pub policy_yaml : Option String
  pub decisions : Table ℕ CaseDecision

-- The pairs (qualifier, value) of one head on one case: the rows of the join.
abbrev pub emergent_values :
    ℕ → String → (String → Option String) → Logs → List EmergentField → List (String × String)
emergent_values case head column l [] = []
emergent_values case head column l (e ∷ es) =
    let rest = emergent_values case head column l es in
    if has_head head e
    then elim (present_value (current_at case e.field_name l.current)) [
      | none ↦ rest
      | some v ↦ (or_else (column e.field_name_hash) "", v) ∷ rest
    ]
    else rest

-- ORDER BY qualifier NULLS LAST, field_name
abbrev pub qualified_first : (String → Option String) → EmergentField → EmergentField → Bool
qualified_first column e f = elim (column e.field_name_hash) [
  | none ↦ not (is_some (column f.field_name_hash)) && text_lt e.field_name f.field_name
  | some q ↦ elim (column f.field_name_hash) [
    | none ↦ true
    | some p ↦ text_lt q p || ((q =? p) && text_lt e.field_name f.field_name)
  ]
]

-- `none`: the query raises, since the table has no column `qualifier`.
unfoldable pub get_emergent_values_by_head :
    ℕ → String → Logs → Registry → Option (List (String × String))
get_emergent_values_by_head case head l r = elim r.qualifier_column [
  | none ↦ none
  | some column ↦
      some (emergent_values case head column l (sort_by (qualified_first column) r.fields))
]
