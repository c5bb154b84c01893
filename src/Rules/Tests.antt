-- ===== src/Rules/Tests.antt =====
-- The rules' theorems on a policy of two rules, and on the default policy.
use structured_chaos.Prelude.{
  List, Option, String, String-Eq, Table, [], false, if◌then◌else◌, lookup, none, ok, put, refl,
  some, ℕ, ℕ-Eq, ◌+◌, ◌=?◌, ◌∷◌, ◌≡◌,
}
use structured_chaos.Rules.Default.{default_policy, default_policy_safety, priority_of}
use structured_chaos.Rules.Policy.{
  Decision, Entries, InputKey, Inputs, Policy, Rule, Yaml, cons, decimal, decision_of, emotion, end,
  entry, evaluate, int, mapping, matches, nil, seq, str,
}
use structured_chaos.Rules.Policy.Parse.{conditions, load_policy, parse_policy, parse_rule}
use structured_chaos.Rules.Policy.Total.{IsSound, load_policy-evaluate, parse_policy-IsSound}
use structured_chaos.Rules.Sentiment.{analyze}
use structured_chaos.Rules.Stage.{
  RulesEnv, case_inputs, decide_case, get_input, rules_key, store_decision,
}
use structured_chaos.Rules.Stage.Repeat.{decide_case-evaluate, decide_case_repeat}
use structured_chaos.Store.Case.{CaseRecord, new_case}
use structured_chaos.Store.Registry.{no_registry}
use structured_chaos.Store.Database.{Database}
use structured_chaos.Store.Decision.{
  decision_keys, get_case_decision_inputs, get_emotion_history, upsert_case_decision,
}
use structured_chaos.Store.Ledger.{claim_stage, complete_stage, compute_idempotency_key, running}
use structured_chaos.Store.Log.{get_field_values}

abbrev raw_rule : String → Entries → Yaml
raw_rule id conditions = mapping (
    entry (some "id") (str id) (
      entry (some "when") (mapping conditions) (
        entry (some "priority") (str "P2") (
          entry (some "routing") (str "care")
            (entry (some "sla_hours") (int 4) (entry (some "rationale") (str "why") end))))))

abbrev yaml : Yaml
yaml = mapping (
    entry (some "version") (str "v1") (
      entry (some "rules")
        (seq (
          cons (raw_rule "angry" (entry (some "emotion") (seq (cons (str "angry") nil)) end))
            (cons (raw_rule "rest" end) nil)))
        end))

abbrev care : String → List (InputKey × List String) → Rule
care id conditions = record {
  rule_id = id;
  when = conditions;
  priority = "P2";
  routing = "care";
  sla_hours = decimal 4 0;
  rationale = "why";
}

abbrev angry_rule : Rule
angry_rule = care "angry" ((emotion, "angry" ∷ []) ∷ [])

abbrev small : Policy
small = record { version = "v1"; rules = angry_rule ∷ care "rest" [] ∷ [] }

abbrev load : String → Option Yaml
load text = some yaml

abbrev calm_signals : Inputs
calm_signals k = if k =? "category" then some "safety_health" else none

abbrev angry_signals : Inputs
angry_signals k = if k =? "emotion_signal" then some "angry" else none

parse_policy-IsSound_example : IsSound small
unfolding parse_policy parse_rule
parse_policy-IsSound_example = parse_policy-IsSound load "text" small refl

load_policy-evaluate_example : (d : Decision) × (evaluate calm_signals small ≡ ok d)
unfolding load_policy parse_policy parse_rule
load_policy-evaluate_example =
    load_policy-evaluate load (λ s. false) "text" none small calm_signals refl

default_policy_safety_example : priority_of (evaluate calm_signals default_policy) ≡ "P1"
default_policy_safety_example = default_policy_safety calm_signals refl refl

abbrev stage_env : RulesEnv
stage_env = record {
  sha256 = λ s. s;
  uuid_text = λ n. "case";
  dumps = λ inputs version. version;
  safe_load = load;
  is_blank = λ s. false;
  default_text = "text";
  after_hours = λ at hours. some (at + 14400);
  window = 86400;
  code_version = "1";
}

abbrev decided_case : CaseRecord
decided_case = new_case "portal" 100 none

abbrev tenant : Database
tenant = record {
  cases = (1, decided_case) ∷ [];
  ledger = [];
  logs = record { extractions = []; citations = []; corrections = []; current = [] };
  objects = record { records = []; keys = []; embeddings = [] };
  documents = record { sources = []; contents = [] };
  outbox = [];
  registry = no_registry;
  jobs = [];
  policy_yaml = none;
  decisions = [];
}

abbrev tenant_inputs : Table String (Option String)
tenant_inputs =
    ("category", none)
    ∷ ("severity_signal", none)
    ∷ ("emotion_signal", none)
    ∷ ("emotion_trend", some "single")
    ∷ ("emotion_current", none)
    ∷ []

abbrev rest_decision : Decision
rest_decision = decision_of small (care "rest" [])

abbrev decided_tenant : Database
decided_tenant =
    store_decision 1 (rules_key stage_env 1 tenant_inputs small) tenant_inputs rest_decision 14500
      (record tenant {
        ledger = put (rules_key stage_env 1 tenant_inputs small) running tenant.ledger;
      })

decide_case_repeat_example : decide_case stage_env 1 decided_tenant ≡ ok (decided_tenant, false)
unfolding decide_case get_case_decision_inputs get_field_values load_policy parse_policy parse_rule
    case_inputs get_emotion_history analyze rules_key compute_idempotency_key claim_stage evaluate
    matches upsert_case_decision complete_stage
decide_case_repeat_example = decide_case_repeat stage_env 1 tenant decided_tenant refl

decide_case-evaluate_example :
    let inputs = case_inputs stage_env 1 (get_field_values 1 decision_keys tenant.logs) tenant in
    (p : Policy) × (d : Decision) × (due : ℕ) × (load_policy load (λ s. false) "text" none ≡ ok p)
    × (evaluate (get_input inputs) p ≡ ok d)
    × (stage_env.after_hours 100 d.sla_target_hours ≡ some due)
    × (lookup 1 decided_tenant.decisions
        ≡ some (record { decision = d; sla_response_due_at = due; inputs = inputs }))
unfolding decide_case get_case_decision_inputs get_field_values load_policy parse_policy parse_rule
    case_inputs get_emotion_history analyze rules_key compute_idempotency_key claim_stage evaluate
    matches upsert_case_decision complete_stage
decide_case-evaluate_example =
    decide_case-evaluate stage_env 1 tenant decided_tenant decided_case refl refl
