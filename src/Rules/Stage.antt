-- ===== src/Rules/Stage.antt =====
-- engine/app/rules/stage.py: decide_case, the whole transaction on one case. An exception rolls the
-- transaction back, so the answer is the exception alone.
pub mod Repeat
pub mod Escalate
use Prim.Native.String.{◌++◌ as str_append}
use structured_chaos.Prelude.{
  Bool, List, Option, Result, String, String-Eq, Table, [], false, if◌then◌else◌, lookup, map, none,
  ok, or_else, raise, some, some_or, true, ℕ, ℕ-Eq, ◌>>=◌, ◌>>◌, ◌∷◌,
}
use structured_chaos.Rules.Policy.{Decision, Float, Inputs, Policy, PolicyError, Yaml, evaluate}
use structured_chaos.Rules.Policy.Parse.{load_policy}
use structured_chaos.Rules.Sentiment.{Trend, analyze, de_escalating, escalating, single, steady}
use structured_chaos.Store.Database.{Database}
use structured_chaos.Store.Decision.{
  get_case_decision_inputs, get_emotion_history, upsert_case_decision,
}
use structured_chaos.Store.Ledger.{claim_stage, complete_stage, compute_idempotency_key, separator}

-- What the stage gets from outside of the repository.
pub record RulesEnv : Type 0 where
  pub sha256 : String → String
  pub uuid_text : ℕ → String
  pub dumps : Table String (Option String) → String → String  -- the JSON text of inputs and version
  pub safe_load : String → Option Yaml
  pub is_blank : String → Bool
  pub default_text : String  -- the file policy_default.yaml
  pub after_hours : ℕ → Float → Option ℕ  -- `at + timedelta(hours=h)`; `none` where it raises
  pub window : ℕ  -- sentiment_window_hours, in seconds
  pub code_version : String

pub data StageError : Type 0 where
  policy_error : PolicyError → StageError
  no_deadline : StageError

abbrev pub trend_name : Trend → String
trend_name single = "single"
trend_name steady = "steady"
trend_name escalating = "escalating"
trend_name de_escalating = "de_escalating"

-- `history or [governed.get("emotion_signal")]`
abbrev pub readings_of : List String → Option String → List (Option String)
readings_of [] current = current ∷ []
readings_of (e ∷ es) current = map some (e ∷ es)

-- `traj.peak or governed.get("emotion_signal")`: a peak is never the empty text.
abbrev pub routed_emotion : Option String → Option String → Option String
routed_emotion (some peak) current = some peak
routed_emotion none current = current

abbrev pub inputs_of : Table String String → List String → Table String (Option String)
inputs_of governed history =
    let arc = analyze (readings_of history (lookup "emotion_signal" governed)) in
    ("category", lookup "category" governed)
    ∷ ("severity_signal", lookup "severity_signal" governed)
    ∷ ("emotion_signal", routed_emotion arc.peak (lookup "emotion_signal" governed))
    ∷ ("emotion_trend", some (trend_name arc.trend))
    ∷ ("emotion_current", arc.current)
    ∷ []

-- `inputs.get`
abbrev pub get_input : Table String (Option String) → Inputs
get_input inputs k = or_else (lookup k inputs) none

unfoldable pub case_inputs :
    RulesEnv → ℕ → Table String String → Database → Table String (Option String)
case_inputs env case governed db = inputs_of governed (get_emotion_history case env.window db.logs)

unfoldable pub rules_key : RulesEnv → ℕ → Table String (Option String) → Policy → String
rules_key env case inputs p = compute_idempotency_key env.sha256 (record {
  source_sha256 =
      env.sha256
        (str_append (env.uuid_text case) (str_append separator (env.dumps inputs p.version)));
  stage = "rules";
  model_version = "-";
  prompt_version = p.version;
  code_version = env.code_version;
})

-- The exceptions of the rules engine, as exceptions of the stage.
abbrev pub lift {ℓ} : {A : Type ℓ} → Result PolicyError A → Result StageError A
lift (raise e) = raise (policy_error e)
lift (ok a) = ok a

abbrev pub store_decision :
    ℕ → String → Table String (Option String) → Decision → ℕ → Database → Database
store_decision case key inputs d due db =
    let after =
      upsert_case_decision case
        (record { decision = d; sla_response_due_at = due; inputs = inputs }) db in
    record after { ledger = complete_stage key after.ledger }

abbrev pub decide_claimed :
    RulesEnv
    → ℕ
    → ℕ
    → String
    → Table String (Option String)
    → Policy
    → Database
    → Result StageError (Database × Bool)
decide_claimed env case at key inputs p db = do
  d ← lift (evaluate (get_input inputs) p)
  due ← some_or (env.after_hours at d.sla_target_hours) no_deadline
  ok (store_decision case key inputs d due db, true)

abbrev pub decide_row :
    RulesEnv → ℕ → Option (ℕ × Table String String) → Database → Result StageError (Database × Bool)
decide_row env case none db = ok (db, false)
decide_row env case (some (at, governed)) db = do
  p ← lift (load_policy env.safe_load env.is_blank env.default_text db.policy_yaml)
  let inputs = case_inputs env case governed db
  let key = rules_key env case inputs p
  let (ledger, fresh) = claim_stage key db.ledger
  if fresh
      then decide_claimed env case at key inputs p (record db { ledger = ledger })
      else ok (db, false)

unfoldable pub decide_case : RulesEnv → ℕ → Database → Result StageError (Database × Bool)
decide_case env case db = decide_row env case (get_case_decision_inputs case db) db
