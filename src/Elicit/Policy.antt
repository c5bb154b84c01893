-- ===== src/Elicit/Policy.antt =====
-- engine/app/elicit/policy.py: the pure decision on the next question. The set of present fields is
-- its membership test; the governed keys are those of engine/app/extract/schema.py.
pub mod Moves
use Prim.Native.String.{◌++◌ as str_append}
use structured_chaos.Prelude.{
  ℕ, ◌+◌, String, Bool, true, false, not, ◌&&◌, ◌||◌, Option, none, some, List, [], ◌∷◌, ltb, leb,
  bit, if◌then◌else◌, ◌=?◌, String-Eq,
}

pub data GovernedKey : Type 0 where
  category fault desired_outcome emotion_signal severity_signal anchor_value : GovernedKey

-- The values of `case_record.case_state`.
pub data CaseState : Type 0 where
  created incomplete actionable in_review committed processing_failed : CaseState

pub data QuestionKind : Type 0 where
  anchor drill : QuestionKind

abbrev pub drill_budget : ℕ
drill_budget = 2

abbrev pub total_cap : ℕ
total_cap = 3

abbrev pub anchor_q : String
anchor_q = "To pull up your case, what's your order number — or the phone number you used to order?"

abbrev pub fault_q : String
fault_q =
    "What happened? A sentence or two is all we need — it goes straight to the person handling it."

abbrev pub outcome_q : String
outcome_q = "What would you like us to do to put this right?"

abbrev pub clarify_q : String
clarify_q = "Just so we route this right — can you tell us briefly what the issue is?"

abbrev pub outcome_options : List String
outcome_options = "Refund" ∷ "Replacement" ∷ "Fix it" ∷ "An answer" ∷ "Escalate" ∷ []

abbrev pub fault_options : List String
fault_options =
    "It was late" ∷ "It was wrong or faulty" ∷ "It never arrived" ∷ "Something else" ∷ []

pub record ElicitationPlan : Type 0 where
  pub state : CaseState
  pub next_question : Option String
  pub question_kind : Option QuestionKind
  pub reason : String
  pub options : Option (List String)

abbrev pub Fields : Type 0
Fields = GovernedKey → Bool

abbrev pub same_key : GovernedKey → GovernedKey → Bool
same_key category category = true
same_key fault fault = true
same_key desired_outcome desired_outcome = true
same_key emotion_signal emotion_signal = true
same_key severity_signal severity_signal = true
same_key anchor_value anchor_value = true
same_key _ _ = false

-- `set.discard`
abbrev pub discard : GovernedKey → Fields → Fields
discard k fs j = if same_key k j then false else fs j

-- The keyword arguments of `decide`.
pub record Situation : Type 0 where
  pub present_fields : Fields
  pub emotion : Option String
  pub has_anchor : Bool
  pub anchor_asked : Bool
  pub question_count : ℕ
  pub confirmation : Option String
  pub fault_grounded : Bool
  pub category_known : Bool
  pub fault_prompt : Option String
  pub offered : Option (List String)  -- `fault_options`

-- Python's truth value of an optional text.
abbrev pub truthy : Option String → Bool
truthy none = false
truthy (some s) = not (s =? "")

abbrev pub text_or : Option String → String → String
text_or none d = d
text_or (some s) d = if s =? "" then d else s

abbrev pub is_angry : Option String → Bool
is_angry none = false
is_angry (some e) = e =? "angry"

abbrev pub effective_fields : Situation → Fields
effective_fields s =
    if s.fault_grounded then s.present_fields else discard category (discard fault s.present_fields)

-- `essentials <= effective_fields`
abbrev pub has_essentials : Fields → Bool
has_essentials fs = fs category && fs fault && fs desired_outcome

-- `question_count - (1 if anchor_asked else 0) < DRILL_BUDGET`, with no subtraction.
abbrev pub drills_left : Bool → ℕ → Bool
drills_left anchor_asked question_count = ltb question_count (drill_budget + bit anchor_asked)

-- A move that asks nothing.
abbrev pub close : CaseState → String → ElicitationPlan
close state reason = record {
  state = state;
  next_question = none;
  question_kind = none;
  reason = reason;
  options = none;
}

-- A move that asks one question.
abbrev pub ask : String → QuestionKind → String → Option (List String) → ElicitationPlan
ask question kind reason options = record {
  state = incomplete;
  next_question = some question;
  question_kind = some kind;
  reason = reason;
  options = options;
}

abbrev pub ask_outcome : Option String → ElicitationPlan
ask_outcome confirmation =
    ask
      (if truthy confirmation
        then str_append (text_or confirmation "") (str_append " " outcome_q)
        else outcome_q)
      drill "missing desired_outcome (never inferable)" (some outcome_options)

abbrev pub ask_fault : Situation → ElicitationPlan
ask_fault s =
    ask (text_or s.fault_prompt fault_q) drill
      (if truthy s.fault_prompt
        then "fault not grounded in the customer's words → state the record and narrow"
        else "fault not grounded in the customer's words → ask what happened")
      (if truthy s.fault_prompt then s.offered else none)

unfoldable pub decide : Situation → ElicitationPlan
decide s =
    let effective = effective_fields s in
    let within_cap = ltb s.question_count total_cap in
    let budget_left = drills_left s.anchor_asked s.question_count && within_cap in
    let contentless = not (effective fault) && not s.has_anchor && not s.category_known in
    if has_essentials effective
    then close actionable "has category + fault + desired_outcome"
    else if contentless && budget_left
    then ask fault_q drill "contentless opener → ask what happened before any handoff" none
    else if is_angry s.emotion
    then close in_review "angry + incomplete → hand to a human, do not question"
    else if not s.has_anchor && not s.anchor_asked && within_cap
    then ask anchor_q anchor "no resolvable identifier → ask the anchor key" none
    else if not (drills_left s.anchor_asked s.question_count) || leb total_cap s.question_count
    then close in_review "anchor + 2 budget spent → hand off to a human"
    else if not (effective fault)
    then ask_fault s
    else if not (s.present_fields desired_outcome)
    then ask_outcome s.confirmation
    else if not (effective category)
    then ask clarify_q drill "too sparse to categorise → one clarifying question" none
    else close actionable "no further closable gaps"
