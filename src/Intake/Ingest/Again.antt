-- ===== src/Intake/Ingest/Again.antt =====
-- A second run over the messages of one sender (engine/app/intake/ingest.py).
use structured_chaos.Prelude.{
  All, Bool, Bool-cases, List, Option, Option-cases, String, String-Eq, [], ap, arith, false,
  if◌then◌else◌, inl, inr, lookup, none, put, refl, some, true, ℕ, ℕ-Eq, ◌∙◌, ◌∷◌, ◌≡◌, ◌≢◌,
}
use structured_chaos.Intake.Ingest.{
  IngestEnv, Progress, accept, complete_key, ingest_message, ingest_run, message_key, or_load,
  store_and_queue, store_file, store_files, store_text, target, touch_case,
}
use structured_chaos.Intake.Windowing.{
  Action, InboundAttachment, InboundMessage, PriorCase, decide_window, follow_up, new,
}
use structured_chaos.Store.Ledger.{Ledger, claim_stage, complete_stage, is_done, running}
use structured_chaos.Store.Ledger.Once.{apply-done, claim-complete-done, claimed, completed}

store_file-ledger :
    (env : IngestEnv) (case : ℕ) (m : InboundMessage) (att : InboundAttachment) (s : Progress)
    → (store_file env case m att s).db.ledger ≡ s.db.ledger
unfolding store_and_queue
store_file-ledger env case m att s = ground arith

store_files-ledger :
    (env : IngestEnv) (case : ℕ) (m : InboundMessage) (atts : List InboundAttachment) (s : Progress)
    → (store_files env case m atts s).db.ledger ≡ s.db.ledger
store_files-ledger env case m [] s = refl
store_files-ledger env case m (att ∷ atts) s =
    store_files-ledger env case m atts (store_file env case m att s)
    ∙ store_file-ledger env case m att s

store_text-ledger :
    (env : IngestEnv) (case : ℕ) (m : InboundMessage) (s : Progress)
    → (store_text env case m s).db.ledger ≡ s.db.ledger
unfolding store_and_queue
store_text-ledger env case m s = ground arith

target-ledger :
    (a : Action) (m : InboundMessage) (s : Progress) → (target a m s).1.db.ledger ≡ s.db.ledger
target-ledger (follow_up id) m s = refl
target-ledger new m s = refl

touch_case-ledger : (id : ℕ) (s : Progress) → (touch_case id s).db.ledger ≡ s.db.ledger
touch_case-ledger id s = ground arith

abbrev completed_key : Option String → Ledger → Ledger
completed_key none l = l
completed_key (some key) l = complete_stage key l

complete_key-ledger :
    (key : Option String) (s : Progress)
    → (complete_key key s).db.ledger ≡ completed_key key s.db.ledger
complete_key-ledger none s = refl
complete_key-ledger (some key) s = refl

accept-ledger :
    (env : IngestEnv) (building : Option PriorCase) (m : InboundMessage) (s : Progress)
    → (accept env building m s).1.db.ledger ≡ completed_key (message_key env m) s.db.ledger
unfolding accept
accept-ledger env building m s =
    let a = (decide_window m (or_load env building m s.db) env.llm).action in
    let t = target a m s in
    let opened_case = touch_case t.0 t.1 in
    let texted = store_text env t.0 m opened_case in
    complete_key-ledger (message_key env m) (store_files env t.0 m m.attachments texted)
    ∙ ap (completed_key (message_key env m)) (
        store_files-ledger env t.0 m m.attachments texted
        ∙ store_text-ledger env t.0 m opened_case
        ∙ touch_case-ledger t.0 t.1
        ∙ target-ledger a m s)

-- A message whose key is done; a message with no key is never skipped.
abbrev pub key_done : Option String → Ledger → Bool
key_done none l = false
key_done (some k) l = is_done (lookup k l)

abbrev pub is_ingested : IngestEnv → Ledger → InboundMessage → Bool
is_ingested env l m = key_done (message_key env m) l

ingest_message_skips :
    (env : IngestEnv) (building : Option PriorCase) (m : InboundMessage) (s : Progress)
    → is_ingested env s.db.ledger m ≡ true
    → ingest_message env building m s ≡ (building, s)
unfolding ingest_message claim_stage
ingest_message_skips env building m s h = elim (Option-cases (message_key env m)) [
  | inl keyless ↦ absurd (ground (arith, h, keyless))
  | inr (k, keyed) ↦
      let old : is_done (lookup k s.db.ledger) ≡ true = ground (arith, h, keyed) in
      rw (keyed, old) refl
]

-- The ledger after a message.
abbrev after_message : Option String → Ledger → Ledger
after_message none l = l
after_message (some k) l = if is_done (lookup k l) then l else complete_stage k (claim_stage k l).0

ingest_message-ledger :
    (env : IngestEnv) (building : Option PriorCase) (m : InboundMessage) (s : Progress)
    → (ingest_message env building m s).1.db.ledger ≡ after_message (message_key env m) s.db.ledger
unfolding ingest_message claim_stage
ingest_message-ledger env building m s = elim (Option-cases (message_key env m)) [
  | inl keyless ↦ rw keyless (accept-ledger env building m s ∙ rw keyless refl)
  | inr (k, keyed) ↦ elim (Bool-cases (is_done (lookup k s.db.ledger))) [
    | inl old ↦ rw (keyed, old) refl
    | inr fresh ↦
        rw (keyed, fresh)
          (accept-ledger env building m
              (record s { db = record s.db { ledger = put k running s.db.ledger } })
            ∙ rw keyed refl)
  ]
]

after_message-done :
    (key : Option String) (j : String) (l : Ledger)
    → is_done (lookup j l) ≡ true
    → is_done (lookup j (after_message key l)) ≡ true
after_message-done none j l d = d
after_message-done (some k) j l d =
    let claimed_first = apply-done j (claimed k) l refl d in
    let completed_then = apply-done j (completed k) (claim_stage k l).0 refl claimed_first in
    ground (arith, d, completed_then)

after_message-own : (k : String) (l : Ledger) → is_done (lookup k (after_message (some k) l)) ≡ true
after_message-own k l = ground (arith, claim-complete-done k l)

ingest_message-keeps :
    (env : IngestEnv) (building : Option PriorCase) (m n : InboundMessage) (s : Progress)
    → is_ingested env s.db.ledger n ≡ true
    → is_ingested env (ingest_message env building m s).1.db.ledger n ≡ true
ingest_message-keeps env building m n s h = elim (Option-cases (message_key env n)) [
  | inl keyless ↦ absurd (ground (arith, h, keyless))
  | inr (k, keyed) ↦
      let old : is_done (lookup k s.db.ledger) ≡ true = ground (arith, h, keyed) in
      rw (keyed, ingest_message-ledger env building m s)
        (after_message-done (message_key env m) k s.db.ledger old)
]

ingest_message-ingests :
    (env : IngestEnv) (building : Option PriorCase) (m : InboundMessage) (s : Progress)
    → message_key env m ≢ none
    → is_ingested env (ingest_message env building m s).1.db.ledger m ≡ true
ingest_message-ingests env building m s h = elim (Option-cases (message_key env m)) [
  | inl keyless ↦ absurd (h keyless)
  | inr (k, keyed) ↦
      rw (ingest_message-ledger env building m s, keyed) (after_message-own k s.db.ledger)
]

pub ingest_run-keeps :
    (env : IngestEnv) (building : Option PriorCase) (ms : List InboundMessage) (n : InboundMessage)
    (s : Progress)
    → is_ingested env s.db.ledger n ≡ true
    → is_ingested env (ingest_run env building ms s).db.ledger n ≡ true
ingest_run-keeps env building [] n s h = h
ingest_run-keeps env building (m ∷ ms) n s h =
    let next = ingest_message env building m s in
    ingest_run-keeps env next.0 ms n next.1 (ingest_message-keeps env building m n s h)

pub ingest_run-ingests :
    (env : IngestEnv) (building : Option PriorCase) (ms : List InboundMessage) (s : Progress)
    → All (λ m. message_key env m ≢ none) ms
    → All (λ m. is_ingested env (ingest_run env building ms s).db.ledger m ≡ true) ms
ingest_run-ingests env building [] s h = tt
ingest_run-ingests env building (m ∷ ms) s h =
    let next = ingest_message env building m s in
    (
      ingest_run-keeps env next.0 ms m next.1 (ingest_message-ingests env building m s h.0),
      ingest_run-ingests env next.0 ms next.1 h.1,
    )

pub ingest_run_skips :
    (env : IngestEnv) (building : Option PriorCase) (ms : List InboundMessage) (s : Progress)
    → All (λ m. is_ingested env s.db.ledger m ≡ true) ms
    → ingest_run env building ms s ≡ s
ingest_run_skips env building [] s h = refl
ingest_run_skips env building (m ∷ ms) s h =
    rw (ingest_message_skips env building m s h.0) (ingest_run_skips env building ms s h.1)
