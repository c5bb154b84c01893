-- ===== src/Channel/Dispatch/Once.antt =====
-- Repeated runs of dispatch_case_question (engine/app/channel/dispatch.py).
use text.Mathlib.TextEquality.{eq_iff}
use structured_chaos.Prelude.{
  Bool, Bool-cases, List, Option, Option-cases, String, String-Eq, [], any, ap, arith, inl, inr,
  none, refl, some, true, ℕ, ℕ-Eq, ◌∙◌, ◌∷◌, ◌≡◌,
}
use structured_chaos.Channel.Dispatch.{
  Sender, channel_name, claimed_send, dispatch_case_question, of_question, outbound_of, sent,
  skipped, to_recipient, transmit,
}
use structured_chaos.Elicit.Policy.{CaseState, text_or, truthy}
use structured_chaos.Store.Case.{get_case_elicit_state, get_pending_question}
use structured_chaos.Store.Database.{Database}
use structured_chaos.Store.Outbound.{
  OutboundMessage, Outbox, claim_outbound, is_claim_of, mark_outbound_sent,
}

marked-any :
    (id case : ℕ) (ref hash : String) (box : Outbox)
    → any (is_claim_of case hash) (mark_outbound_sent id ref box) ≡ any (is_claim_of case hash) box
unfolding mark_outbound_sent
marked-any id case ref hash [] = refl
marked-any id case ref hash (m ∷ box) = ground (arith, marked-any id case ref hash box)

-- A claim that is there is not made again.
claimed_again :
    (ch : Sender) (recipient question : String) (m : OutboundMessage) (db : Database)
    → any (is_claim_of m.case_id m.question_hash) db.outbox ≡ true
    → claimed_send ch recipient question db (claim_outbound m db.outbox) ≡ (db, skipped)
unfolding claim_outbound
claimed_again ch recipient question m db h = rw h refl

-- What a dispatch that sent leaves: the cases as they were, and a claim of the question.
claimed_sent :
    (ch : Sender) (recipient question : String) (m : OutboundMessage) (db : Database)
    → let (after, outcome) = claimed_send ch recipient question db (claim_outbound m db.outbox) in
      outcome ≡ sent
      → (after.cases ≡ db.cases) × (any (is_claim_of m.case_id m.question_hash) after.outbox ≡ true)
unfolding claim_outbound
claimed_sent ch recipient question m db h =
    elim (Bool-cases (any (is_claim_of m.case_id m.question_hash) db.outbox)) [
      | inl there ↦ absurd (ground (arith, h, there))
      | inr free ↦ elim (Option-cases (ch.send recipient question)) [
        | inl lost ↦ absurd (ground (arith, h, free, lost))
        | inr (ref, sent_ref) ↦
            rw (free, sent_ref)
              (
                refl,
                rw (marked-any m.id m.case_id ref m.question_hash (m ∷ db.outbox))
                    (ground (arith, eq_iff m.question_hash m.question_hash)),
              )
      ]
    ]

-- A dispatch leaves the cases as they are, and every claim that is there.
abbrev Keeps : Database → Database → Type 0
Keeps db after =
    (after.cases ≡ db.cases)
    × ((k : ℕ) (hash : String)
        → any (is_claim_of k hash) db.outbox ≡ true
        → any (is_claim_of k hash) after.outbox ≡ true)

same-Keeps : (db : Database) → Keeps db db
same-Keeps db = (refl, λ k hash h. h)

transmit-Keeps :
    (ch : Sender) (new_id case : ℕ) (recipient question : String) (db : Database)
    → Keeps db (transmit ch new_id case recipient question db).0
unfolding claim_outbound
transmit-Keeps ch new_id case recipient question db =
    let m = outbound_of ch new_id case (channel_name case db.cases) recipient question in
    elim (Bool-cases (any (is_claim_of m.case_id m.question_hash) db.outbox)) [
      | inl there ↦ rw there (same-Keeps db)
      | inr free ↦ elim (Option-cases (ch.send recipient question)) [
        | inl lost ↦ rw (free, lost) (same-Keeps db)
        | inr (ref, sent_ref) ↦
            rw (free, sent_ref)
              (
                refl,
                λ k hash h. rw (marked-any m.id k ref hash (m ∷ db.outbox)) (ground (arith, h)),
              )
      ]
    ]

to_recipient-Keeps :
    (ch : Sender) (new_id case : ℕ) (question : String)
    (row : Option (CaseState × ℕ × Bool × Option String)) (db : Database)
    → Keeps db (to_recipient ch new_id case question row db).0
to_recipient-Keeps ch new_id case question none db = same-Keeps db
to_recipient-Keeps ch new_id case question (some (state, n, asked, ref)) db =
    elim (Bool-cases (truthy ref)) [
      | inl given ↦ rw given (transmit-Keeps ch new_id case (text_or ref "") question db)
      | inr absent ↦ rw absent (same-Keeps db)
    ]

of_question-Keeps :
    (ch : Sender) (new_id case : ℕ) (question : Option String) (db : Database)
    → Keeps db (of_question ch new_id case question db).0
of_question-Keeps ch new_id case none db = same-Keeps db
of_question-Keeps ch new_id case (some q) db =
    to_recipient-Keeps ch new_id case q (get_case_elicit_state case db.cases) db

-- The hash of the pending question is claimed.
abbrev IsClaimed : Sender → ℕ → Database → Type 0
IsClaimed ch case db =
    (q : String) × (get_pending_question case db.cases ≡ some q)
    × (any (is_claim_of case (ch.question_hash case q)) db.outbox ≡ true)

to_recipient-sent :
    (ch : Sender) (new_id case : ℕ) (question : String)
    (row : Option (CaseState × ℕ × Bool × Option String)) (db : Database)
    → let (after, outcome) = to_recipient ch new_id case question row db in
      outcome ≡ sent → any (is_claim_of case (ch.question_hash case question)) after.outbox ≡ true
to_recipient-sent ch new_id case question none db h = cc
to_recipient-sent ch new_id case question (some (state, n, asked, ref)) db h =
    elim (Bool-cases (truthy ref)) [
      | inl given ↦
          let m =
            outbound_of ch new_id case (channel_name case db.cases) (text_or ref "") question in
          rw given (claimed_sent ch (text_or ref "") question m db (ground (arith, h, given))).1
      | inr absent ↦ absurd (ground (arith, h, absent))
    ]

dispatch-IsClaimed :
    (ch : Sender) (new_id case : ℕ) (db : Database)
    → (dispatch_case_question ch new_id case db).1 ≡ sent
    → IsClaimed ch case (dispatch_case_question ch new_id case db).0
unfolding dispatch_case_question
dispatch-IsClaimed ch new_id case db h = elim (Option-cases (get_pending_question case db.cases)) [
  | inl nothing ↦ cc (rw nothing at h)
  | inr (q, asked) ↦
      let row = get_case_elicit_state case db.cases in
      let kept = to_recipient-Keeps ch new_id case q row db in
      rw asked (
        q,
        ap (get_pending_question case) kept.0 ∙ asked,
        to_recipient-sent ch new_id case q row db (rw asked at h),
      )
]

IsClaimed-skipped :
    (ch : Sender) (new_id case : ℕ) (question : String)
    (row : Option (CaseState × ℕ × Bool × Option String)) (db : Database)
    → any (is_claim_of case (ch.question_hash case question)) db.outbox ≡ true
    → to_recipient ch new_id case question row db ≡ (db, skipped)
IsClaimed-skipped ch new_id case question none db h = refl
IsClaimed-skipped ch new_id case question (some (state, n, asked, ref)) db h =
    let m = outbound_of ch new_id case (channel_name case db.cases) (text_or ref "") question in
    elim (Bool-cases (truthy ref)) [
      | inl given ↦ rw given (claimed_again ch (text_or ref "") question m db h)
      | inr absent ↦ rw absent refl
    ]

-- Dispatches of any cases, each with the id of its outbox row and the channel's own answers.
abbrev pub dispatch_all :
    Sender → List (ℕ × ℕ × (String → String → Option String)) → Database → Database
dispatch_all ch [] db = db
dispatch_all ch ((new_id, case, send) ∷ more) db =
    dispatch_all ch more (dispatch_case_question (record ch { send = send }) new_id case db).0

dispatch_all-IsClaimed :
    (ch : Sender) (case : ℕ) (more : List (ℕ × ℕ × (String → String → Option String)))
    (db : Database)
    → IsClaimed ch case db
    → IsClaimed ch case (dispatch_all ch more db)
unfolding dispatch_case_question
dispatch_all-IsClaimed ch case [] db h = h
dispatch_all-IsClaimed ch case ((new_id, k, send) ∷ more) db (q, asked, claimed) =
    let other = record ch { send = send } in
    let (cases, claims_kept) =
      of_question-Keeps other new_id k (get_pending_question k db.cases) db in
    dispatch_all-IsClaimed ch case more (dispatch_case_question other new_id k db).0 (
      q,
      ap (get_pending_question case) cases ∙ asked,
      claims_kept case (ch.question_hash case q) claimed,
    )

-- After a message was sent, a dispatch on the case sends nothing and changes nothing, also after any
-- further dispatches, of this case and of others, whatever the channel answers to each of them.
pub dispatch_case_question_once :
    (ch : Sender) (new_id other_id case : ℕ)
    (between : List (ℕ × ℕ × (String → String → Option String))) (db : Database)
    → (dispatch_case_question ch new_id case db).1 ≡ sent
    → let later = dispatch_all ch between (dispatch_case_question ch new_id case db).0 in
      dispatch_case_question ch other_id case later ≡ (later, skipped)
unfolding dispatch_case_question
dispatch_case_question_once ch new_id other_id case between db h =
    let first = (dispatch_case_question ch new_id case db).0 in
    let later = dispatch_all ch between first in
    let (q, asked, claimed) =
      dispatch_all-IsClaimed ch case between first (dispatch-IsClaimed ch new_id case db h) in
    rw asked
      (IsClaimed-skipped ch other_id case q (get_case_elicit_state case later.cases) later claimed)
