-- ===== src/Rules/Policy.antt =====
-- engine/app/rules/engine.py: policies, their validation, and the first-match evaluation. The value
-- that `yaml.safe_load` returns is the data type `Yaml`; a float is its decimal, or not finite.
pub mod Parse
pub mod Total
use structured_chaos.Prelude.{
  Bool, List, Option, Result, String, String-Eq, [], any, raise, false, if◌then◌else◌, none, not,
  ok, some, true, ℕ, ℕ-Eq, ◌=?◌, ◌∷◌,
}

pub data Float : Type 0 where
  decimal : ℕ → ℕ → Float  -- mantissa and scale, zero or above
  negative : ℕ → ℕ → Float  -- the same below zero; the mantissa is one less
  inf neg_inf nan : Float

mutual
  pub data Yaml : Type 0 where
    null : Yaml
    bool : Bool → Yaml
    int : ℕ → Yaml  -- zero or above
    neg_int : ℕ → Yaml  -- -(n + 1)
    float : Float → Yaml
    str : String → Yaml
    seq : Items → Yaml
    mapping : Entries → Yaml

  pub data Items : Type 0 where
    nil : Items
    cons : Yaml → Items → Items

  -- A key that is no text is `none`.
  pub data Entries : Type 0 where
    end : Entries
    entry : Option String → Yaml → Entries → Entries

-- The condition keys of `_INPUT_KEYS`.
pub data InputKey : Type 0 where
  category severity emotion emotion_trend : InputKey

abbrev pub parse_key : Option String → Option InputKey
parse_key none = none
parse_key (some k) =
    if k =? "category"
    then some category
    else if k =? "severity"
    then some severity
    else if k =? "emotion"
    then some emotion
    else if k =? "emotion_trend"
    then some emotion_trend
    else none

-- `_INPUT_KEYS[k]`
abbrev pub source_key : InputKey → String
source_key category = "category"
source_key severity = "severity_signal"
source_key emotion = "emotion_signal"
source_key emotion_trend = "emotion_trend"

pub record Rule : Type 0 where
  pub rule_id : String
  pub when : List (InputKey × List String)
  pub priority : String
  pub routing : String
  pub sla_hours : Float
  pub rationale : String

pub record Policy : Type 0 where
  pub version : String
  pub rules : List Rule

pub record Decision : Type 0 where
  pub priority : String
  pub routing : String
  pub sla_target_hours : Float
  pub matched_rule_id : String
  pub rationale : String
  pub policy_version : String

pub data PolicyError : Type 0 where
  not_yaml not_a_mapping no_version no_rules no_catch_all no_match : PolicyError
  rule_not_a_mapping missing_id : ℕ → PolicyError
  when_not_a_mapping unknown_key bad_condition bad_priority bad_routing bad_sla bad_rationale :
      String → PolicyError
  duplicate_id : String → PolicyError

-- `inputs.get`
abbrev pub Inputs : Type 0
Inputs = String → Option String

abbrev pub one_of : List String → Option String → Bool
one_of allowed none = false
one_of allowed (some v) = any (λ a. a =? v) allowed

abbrev pub holds_all : Inputs → List (InputKey × List String) → Bool
holds_all inputs [] = true
holds_all inputs ((k, allowed) ∷ conditions) =
    let rest = holds_all inputs conditions in
    if not (one_of allowed (inputs (source_key k))) then false else rest

unfoldable pub matches : Rule → Inputs → Bool
matches r inputs = holds_all inputs r.when

abbrev pub decision_of : Policy → Rule → Decision
decision_of p r = record {
  priority = r.priority;
  routing = r.routing;
  sla_target_hours = r.sla_hours;
  matched_rule_id = r.rule_id;
  rationale = r.rationale;
  policy_version = p.version;
}

abbrev pub first_match : Inputs → List Rule → Option Rule
first_match inputs [] = none
first_match inputs (r ∷ rs) =
    let rest = first_match inputs rs in if matches r inputs then some r else rest

unfoldable pub evaluate : Inputs → Policy → Result PolicyError Decision
evaluate inputs p = elim (first_match inputs p.rules) [
  | none ↦ raise no_match
  | some r ↦ ok (decision_of p r)
]

-- The snapshot of the three governed signals.
unfoldable pub evaluated_inputs : Inputs → List (String × Option String)
evaluated_inputs governed =
    ("category", governed "category")
    ∷ ("severity_signal", governed "severity_signal")
    ∷ ("emotion_signal", governed "emotion_signal")
    ∷ []
