-- ===== src/Portal/Status.antt =====
-- engine/app/portal/store.py: the customer-safe projection of a case. The label of a case and the
-- worker's heartbeat are arguments; times are seconds.
pub mod Fresh
use text.Mathlib.Text.{starts_with}
use Prim.Native.String.{◌++◌ as str_append}
use structured_chaos.Prelude.{
  Bool, List, Option, String, String-Eq, Table, [], any, false, if◌then◌else◌, lookup, ltb, max,
  none, not, or_else, some, true, ℕ, ℕ-Eq, ◌&&◌, ◌+◌, ◌=?◌, ◌||◌, ◌∷◌,
}
use structured_chaos.Elicit.Policy.{
  CaseState, committed, created, in_review, processing_failed, text_or, truthy,
}
use structured_chaos.Elicit.Stage.Budget.{stalled}
use structured_chaos.Resolve.Resolver.{elicit}
use structured_chaos.Store.Case.{CaseRecord, get_pending_question}
use structured_chaos.Store.Database.{Database}
use structured_chaos.Store.Decision.{newest}
use structured_chaos.Store.Documents.{SourceDocument, is_inbound}
use structured_chaos.Store.Log.{get_field_values}

abbrev pub category_phrase : String → String
category_phrase c =
    if c =? "product_fault"
    then "a problem with a product"
    else if c =? "service_fault"
    then "a problem with the service"
    else if c =? "delivery_fulfilment"
    then "a delivery problem"
    else if c =? "billing_charge"
    then "a billing problem"
    else if c =? "record_accuracy"
    then "an issue with your records"
    else if c =? "access_availability"
    then "a problem accessing your account or service"
    else if c =? "staff_conduct"
    then "an issue with how you were treated"
    else if c =? "safety_health"
    then "a safety or health concern"
    else "an issue"

abbrev pub outcome_phrase : String → String
outcome_phrase o =
    if o =? "refund"
    then "you'd like a refund"
    else if o =? "replacement"
    then "you'd like a replacement"
    else if o =? "repair_redo"
    then "you'd like it put right"
    else if o =? "escalation"
    then "you'd like it escalated"
    else if o =? "information"
    then "you'd like an answer"
    else if o =? "acknowledgement"
    then "you'd like it acknowledged"
    else if o =? "other"
    then "you've told us what you'd like"
    else ""

abbrev pub with_anchor : String → Option String → String
with_anchor phrase o =
    if truthy o then str_append phrase (str_append " with order " (text_or o "")) else phrase

abbrev pub with_tail : String → String → String
with_tail sentence tail =
    if tail =? "" then sentence else str_append sentence (str_append ", and " tail)

unfoldable pub read_back : Table String String → Option String
read_back gov =
    let c = lookup "category" gov in
    if not (truthy c) || (or_else c "" =? "UNCLEAR")
    then none
    else some (
        str_append
          (with_tail
            (str_append "Looks like "
              (with_anchor (category_phrase (or_else c "")) (lookup "anchor_value" gov)))
            (outcome_phrase (or_else (lookup "desired_outcome" gov) "")))
          ".")

-- `max(received_at)` of the inbound documents
abbrev pub newest_inbound : ℕ → List SourceDocument → Option ℕ
newest_inbound case [] = none
newest_inbound case (d ∷ ds) =
    let rest = newest_inbound case ds in
    if (d.case_id =? case) && is_inbound d.doc_kind
    then some (max d.received_at (or_else rest 0))
    else rest

abbrev pub processed_at_of : CaseRecord → Option ℕ
processed_at_of c = elim c.elicit [ none ↦ none | some m ↦ some m.processed_at ]

abbrev pub is_after : Option ℕ → Option ℕ → Bool
is_after (some newest) (some processed) = ltb processed newest
is_after newest processed = false

-- The flag, and the time since which the reply waits.
unfoldable pub reprocessing : ℕ → CaseRecord → Database → Bool × ℕ
reprocessing case c db =
    let newest_in = newest_inbound case db.documents.sources in
    (is_after newest_in (processed_at_of c), or_else newest_in c.first_contact_at)

abbrev pub has_audio : ℕ → List SourceDocument → Bool
has_audio case ds = any (λ d. (d.case_id =? case) && starts_with d.mime "audio/") ds

unfoldable pub processing_stage : ℕ → Option String → Database → String
processing_stage case category db =
    if truthy category
    then "checking"
    else if any (λ c. c.case_id =? case) db.documents.contents
    then "understanding"
    else if has_audio case db.documents.sources
    then "transcribing"
    else "received"

-- `max(beat_at)` of the queue, and the bound that the settings give, if any.
unfoldable pub worker_down : ℕ → Option ℕ → Option ℕ → Bool
worker_down now beat none = false
worker_down now none (some liveness) = false
worker_down now (some beat) (some liveness) = ltb (beat + liveness) now

pub data PublicStatus : Type 0 where
  waiting : (stalled : Bool) (stage headline detail : String) → PublicStatus
  ready :
      (headline detail : String) (deadline : Option ℕ) (understood question : Option String)
      (options : Option (List String))
      → PublicStatus

abbrev pub snag : PublicStatus
snag =
    waiting true "delayed" "We've hit a snag on our end — a person is taking over"
      "We've got everything you sent and it's safe. Someone on our team will pick this up personally — you don't need to resend it."

abbrev pub slow : PublicStatus
slow =
    waiting true "delayed" "This is taking a little longer than usual"
      "We've got your case and we'll pick it up — you don't need to resend it."

abbrev pub reading : String → PublicStatus
reading stage = waiting false stage "Reading what you sent…" "This usually takes a few seconds."

abbrev pub state_copy : CaseState → String × String
state_copy in_review = (
  "We're getting a person on your team to help",
  "This clearly matters, so someone will look at it personally and reach out to you directly.",
)
state_copy committed = ("This has been reviewed and actioned", "Thanks for letting us know.")
state_copy _ = ("We've got it — and we're on it", "Your case is with our team.")

abbrev pub needs_input : String × String
needs_input = ("We need one more thing from you", "Just one quick question to finish your case.")

abbrev pub headline_of : CaseState → Option String → String × String
headline_of state pending = if truthy pending then needs_input else state_copy state

abbrev pub options_of : CaseRecord → Option (List String)
options_of c = elim c.elicit [ none ↦ none | some m ↦ m.options ]

-- `fault_grounded is False`
abbrev pub is_ungrounded : CaseRecord → Bool
is_ungrounded c = elim c.elicit [ none ↦ false | some m ↦ not m.fault_grounded ]

-- `{k: v for k, v in gov.items() if k != "category"}`
abbrev pub without_category : Table String String → Table String String
without_category [] = []
without_category ((k, v) ∷ m) =
    let rest = without_category m in if k =? "category" then rest else (k, v) ∷ rest

abbrev pub trusted : CaseRecord → Table String String → Table String String
trusted c gov = if is_ungrounded c then without_category gov else gov

abbrev pub status_keys : List String
status_keys = "category" ∷ "anchor_value" ∷ "desired_outcome" ∷ []

-- The settings and the clock of one request.
pub record Clock : Type 0 where
  pub now : ℕ
  pub stall_seconds : ℕ
  pub beat : Option ℕ
  pub worker_liveness : Option ℕ

abbrev pub is_failed : CaseState → Bool
is_failed processing_failed = true
is_failed _ = false

abbrev pub is_created : CaseState → Bool
is_created created = true
is_created _ = false

abbrev pub still_waiting : Clock → ℕ → ℕ → Table String String → Database → PublicStatus
still_waiting clock case since gov db =
    if worker_down clock.now clock.beat clock.worker_liveness
    then snag
    else if ltb (since + clock.stall_seconds) clock.now
    then slow
    else reading (processing_stage case (lookup "category" gov) db)

abbrev pub due_of : ℕ → Database → Option ℕ
due_of case db = elim (lookup case db.decisions) [
  | none ↦ none
  | some d ↦ some d.sla_response_due_at
]

abbrev pub settled : ℕ → CaseRecord → Table String String → Database → PublicStatus
settled case c gov db =
    let pending = get_pending_question case db.cases in
    let (headline, detail) = headline_of c.case_state pending in
    ready headline detail (due_of case db) (read_back (trusted c gov)) pending (options_of c)

abbrev pub status_of : Clock → ℕ → CaseRecord → Database → PublicStatus
status_of clock case c db =
    let gov = get_field_values case status_keys db.logs in
    let (reproc, since) = reprocessing case c db in
    if is_failed c.case_state
    then snag
    else if is_created c.case_state || reproc
    then still_waiting clock case since gov db
    else settled case c gov db

unfoldable pub public_status : Clock → ℕ → Database → Option PublicStatus
public_status clock case db = elim (lookup case db.cases) [
  | none ↦ none
  | some c ↦ some (status_of clock case c db)
]
