-- ===== src/Channel/Dispatch/Claims.antt =====
-- The claims that dispatch_case_question (engine/app/channel/dispatch.py) makes in the outbox.
use text.Mathlib.TextEquality.{eq_iff}
use structured_chaos.Prelude.{
  Bool, Bool-cases, Option, String, String-Eq, [], any, arith, false, inl, inr, keep, length, none,
  refl, some, ℕ, ℕ-Eq, ◌∷◌, ◌≡◌, ◌≤◌,
}
use structured_chaos.Channel.Dispatch.{
  Sender, channel_name, claimed_send, dispatch_case_question, finish, of_question, outbound_of,
  to_recipient, transmit,
}
use structured_chaos.Elicit.Policy.{CaseState, text_or, truthy}
use structured_chaos.Store.Case.{get_case_elicit_state, get_pending_question}
use structured_chaos.Store.Database.{Database}
use structured_chaos.Store.Outbound.{
  OutboundMessage, Outbox, claim_outbound, is_claim_of, mark_outbound_sent,
}

-- The claims of one question on one case.
abbrev pub claims : ℕ → String → Outbox → ℕ
claims case hash box = length (keep (is_claim_of case hash) box)

claims-none :
    (case : ℕ) (hash : String) (box : Outbox)
    → any (is_claim_of case hash) box ≡ false
    → claims case hash box ≡ 0
claims-none case hash [] h = refl
claims-none case hash (m ∷ box) h = ground (arith, h, claims-none case hash box)

claim_outbound-claims :
    (m : OutboundMessage) (case : ℕ) (hash : String) (box : Outbox)
    → claims case hash box ≤ 1
    → claims case hash (claim_outbound m box).0 ≤ 1
unfolding claim_outbound
claim_outbound-claims m case hash box h =
    ground (arith, h, claims-none case hash box, eq_iff m.question_hash hash)

mark_outbound_sent-claims :
    (id case : ℕ) (ref hash : String) (box : Outbox)
    → claims case hash (mark_outbound_sent id ref box) ≡ claims case hash box
unfolding mark_outbound_sent
mark_outbound_sent-claims id case ref hash [] = refl
mark_outbound_sent-claims id case ref hash (m ∷ box) =
    ground (arith, mark_outbound_sent-claims id case ref hash box)

finish-claims :
    (id case : ℕ) (hash : String) (ref : Option String) (before db : Database)
    → claims case hash before.outbox ≤ 1
    → claims case hash db.outbox ≤ 1
    → claims case hash (finish id ref before db).0.outbox ≤ 1
finish-claims id case hash none before db h k = h
finish-claims id case hash (some ref) before db h k =
    ground (arith, k, mark_outbound_sent-claims id case ref hash db.outbox)

claimed_send-claims :
    (ch : Sender) (recipient question hash : String) (case : ℕ) (db : Database)
    (claim : Outbox × Option ℕ)
    → claims case hash db.outbox ≤ 1
    → claims case hash claim.0 ≤ 1
    → claims case hash (claimed_send ch recipient question db claim).0.outbox ≤ 1
claimed_send-claims ch recipient question hash case db (box, none) h k = h
claimed_send-claims ch recipient question hash case db (box, some id) h k =
    finish-claims id case hash (ch.send recipient question) db (record db { outbox = box }) h k

transmit-claims :
    (ch : Sender) (new_id id case : ℕ) (recipient question hash : String) (db : Database)
    → claims case hash db.outbox ≤ 1
    → claims case hash (transmit ch new_id id recipient question db).0.outbox ≤ 1
transmit-claims ch new_id id case recipient question hash db h =
    let m = outbound_of ch new_id id (channel_name id db.cases) recipient question in
    claimed_send-claims ch recipient question hash case db (claim_outbound m db.outbox) h
      (claim_outbound-claims m case hash db.outbox h)

to_recipient-claims :
    (ch : Sender) (new_id id case : ℕ) (question hash : String)
    (row : Option (CaseState × ℕ × Bool × Option String)) (db : Database)
    → claims case hash db.outbox ≤ 1
    → claims case hash (to_recipient ch new_id id question row db).0.outbox ≤ 1
to_recipient-claims ch new_id id case question hash none db h = h
to_recipient-claims ch new_id id case question hash (some (state, n, asked, ref)) db h =
    elim (Bool-cases (truthy ref)) [
      | inl given ↦ rw given (transmit-claims ch new_id id case (text_or ref "") question hash db h)
      | inr absent ↦ rw absent h
    ]

of_question-claims :
    (ch : Sender) (new_id id case : ℕ) (hash : String) (question : Option String) (db : Database)
    → claims case hash db.outbox ≤ 1
    → claims case hash (of_question ch new_id id question db).0.outbox ≤ 1
of_question-claims ch new_id id case hash none db h = h
of_question-claims ch new_id id case hash (some q) db h =
    to_recipient-claims ch new_id id case q hash (get_case_elicit_state id db.cases) db h

-- Each question of a case has at most one row in the outbox: a dispatch of any case, whether it
-- sends, skips or is rolled back, keeps that so.
pub dispatch_case_question-claims :
    (ch : Sender) (new_id id case : ℕ) (hash : String) (db : Database)
    → claims case hash db.outbox ≤ 1
    → claims case hash (dispatch_case_question ch new_id id db).0.outbox ≤ 1
unfolding dispatch_case_question
dispatch_case_question-claims ch new_id id case hash db h =
    of_question-claims ch new_id id case hash (get_pending_question id db.cases) db h
