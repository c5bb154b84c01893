-- ===== src/Intake/Windowing.antt =====
-- engine/app/intake/windowing.py: new case or follow-up. Times are seconds. The classifier is a parameter:
-- its verdict is the value of the key `decision`, if any, and the cut reason; any failure is `none`.
pub mod Merge
use structured_chaos.Prelude.{
  Bool, List, Option, String, String-Eq, false, if◌then◌else◌, leb, ltb, none, some, true, ℕ, ℕ-Eq,
  ◌&&◌, ◌+◌, ◌=?◌,
}
use structured_chaos.Elicit.Policy.{CaseState, committed}

abbrev pub open_idle : ℕ
open_idle = 86400

abbrev pub terminal_reopen : ℕ
terminal_reopen = 345600

-- The bytes of a file are kept as a text; an attachment without them is `missing`.
pub record InboundAttachment : Type 0 where
  pub mime : String
  pub bytes : String
  pub missing : Bool

pub record InboundMessage : Type 0 where
  pub channel : String
  pub sender : String
  pub sent_at : ℕ
  pub text : Option String
  pub attachments : List InboundAttachment

pub record PriorCase : Type 0 where
  pub case_id : ℕ
  pub case_state : CaseState
  pub last_activity_at : ℕ
  pub prior_text : String

pub data Method : Type 0 where
  no_prior idle_gap terminal_state classifier : Method

-- `action` and `case_id`: a follow-up has the case that it follows.
pub data Action : Type 0 where
  new : Action
  follow_up : ℕ → Action

pub record WindowDecision : Type 0 where
  pub action : Action
  pub reason : String
  pub method : Method

abbrev pub Classifier : Type 0
Classifier = InboundMessage → PriorCase → Option (Option String × String)

abbrev pub start_new : String → Method → WindowDecision
start_new reason method = record { action = new; reason = reason; method = method }

abbrev pub follow : ℕ → String → Method → WindowDecision
follow id reason method = record { action = follow_up id; reason = reason; method = method }

abbrev pub reason_or : String → String → String
reason_or reason default = if reason =? "" then default else reason

abbrev pub says_follow_up : Option String → Bool
says_follow_up none = false
says_follow_up (some d) = d =? "follow_up"

abbrev pub verdict_of : PriorCase → Option (Option String × String) → WindowDecision
verdict_of prior none = start_new "classifier unavailable/unusable → default new" classifier
verdict_of prior (some (decision, reason)) =
    if says_follow_up decision
    then follow prior.case_id (reason_or reason "classifier: same issue") classifier
    else start_new (reason_or reason "classifier: new issue") classifier

-- `_classify`, where a missing backend has its own answer.
abbrev pub classify :
    InboundMessage → PriorCase → Option Classifier → WindowDecision → WindowDecision
classify inbound prior none missing = missing
classify inbound prior (some llm) missing = verdict_of prior (llm inbound prior)

abbrev pub is_terminal : CaseState → Bool
is_terminal committed = true
is_terminal _ = false

-- `abs(sent_at - last_activity_at) <= OPEN_IDLE`
abbrev pub is_near : ℕ → ℕ → Bool
is_near sent_at last = leb sent_at (last + open_idle) && leb last (sent_at + open_idle)

unfoldable pub decide_window :
    InboundMessage → Option PriorCase → Option Classifier → WindowDecision
decide_window inbound none llm = start_new "no prior case for this sender" no_prior
decide_window inbound (some prior) llm =
    if is_terminal prior.case_state
    then (if ltb (prior.last_activity_at + terminal_reopen) inbound.sent_at
        then start_new "prior case closed long ago" terminal_state
        else classify inbound prior llm
            (start_new "closed case, no classifier available → default new" terminal_state))
    else if is_near inbound.sent_at prior.last_activity_at
    then follow prior.case_id "within 24h of open-case activity" idle_gap
    else classify inbound prior llm
        (start_new "open case, message outside 24h window, no classifier → default new" idle_gap)
