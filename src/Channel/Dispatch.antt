-- ===== src/Channel/Dispatch.antt =====
-- engine/app/channel/dispatch.py: dispatch_case_question, one transaction. The hash of a question and
-- the channel are parameters: the channel answers with its reference, or `none` where `send` raises.
pub mod Claims
pub mod Once
use structured_chaos.Prelude.{Bool, Option, String, String-Eq, if◌then◌else◌, none, some, ℕ, ℕ-Eq}
use structured_chaos.Elicit.Policy.{CaseState, text_or, truthy}
use structured_chaos.Store.Case.{
  Cases, get_case_channel, get_case_elicit_state, get_pending_question,
}
use structured_chaos.Store.Database.{Database}
use structured_chaos.Store.Outbound.{OutboundMessage, Outbox, claim_outbound, mark_outbound_sent}

-- What the stage did: nothing to do, a message sent, or an exception that rolls the transaction back.
pub data Outcome : Type 0 where
  skipped sent raised : Outcome

pub record Sender : Type 0 where
  pub question_hash : ℕ → String → String
  pub send : String → String → Option String

abbrev pub outbound_of : Sender → ℕ → ℕ → String → String → String → OutboundMessage
outbound_of ch new_id case channel recipient question = record {
  id = new_id;
  case_id = case;
  channel = channel;
  recipient = recipient;
  body = question;
  question_hash = ch.question_hash case question;
  external_ref = none;
}

-- `get_case_channel(...) or "whatsapp"`
abbrev pub channel_name : ℕ → Cases → String
channel_name case cases = text_or (get_case_channel case cases) "whatsapp"

abbrev pub finish : ℕ → Option String → Database → Database → Database × Outcome
finish id none before db = (before, raised)
finish id (some ref) before db = (record db { outbox = mark_outbound_sent id ref db.outbox }, sent)

abbrev pub claimed_send :
    Sender → String → String → Database → Outbox × Option ℕ → Database × Outcome
claimed_send ch recipient question db (box, none) = (db, skipped)
claimed_send ch recipient question db (box, some id) =
    finish id (ch.send recipient question) db (record db { outbox = box })

abbrev pub transmit : Sender → ℕ → ℕ → String → String → Database → Database × Outcome
transmit ch new_id case recipient question db = claimed_send ch recipient question db (
    claim_outbound (outbound_of ch new_id case (channel_name case db.cases) recipient question)
      db.outbox)

abbrev pub to_recipient :
    Sender
    → ℕ
    → ℕ
    → String
    → Option (CaseState × ℕ × Bool × Option String)
    → Database
    → Database × Outcome
to_recipient ch new_id case question none db = (db, skipped)
to_recipient ch new_id case question (some (state, count, asked, contact_ref)) db =
    if truthy contact_ref
    then transmit ch new_id case (text_or contact_ref "") question db
    else (db, skipped)

abbrev pub of_question : Sender → ℕ → ℕ → Option String → Database → Database × Outcome
of_question ch new_id case none db = (db, skipped)
of_question ch new_id case (some question) db =
    to_recipient ch new_id case question (get_case_elicit_state case db.cases) db

unfoldable pub dispatch_case_question : Sender → ℕ → ℕ → Database → Database × Outcome
dispatch_case_question ch new_id case db =
    of_question ch new_id case (get_pending_question case db.cases) db
