-- ===== src/Intake/Ingest/Batch.antt =====
-- A second run over a batch of several senders (engine/app/intake/ingest.py).
use text.Mathlib.TextEquality.{eq_iff}
use structured_chaos.Prelude.{
  All, Bool, Bool-cases, List, String, String-Eq, [], ap, arith, false, if◌then◌else◌, inl, inr,
  keep, leb, none, refl, sym, true, ℕ, ℕ-Eq, ◌=?◌, ◌||◌, ◌∙◌, ◌∷◌, ◌≡◌, ◌≢◌, ◌⊎◌,
}
use structured_chaos.Intake.Ingest.{
  IngestEnv, Progress, ingest_messages, ingest_run, ingest_senders, insert_message, message_key,
  senders, sort_messages,
}
use structured_chaos.Intake.Ingest.Again.{
  ingest_run-ingests, ingest_run-keeps, ingest_run_skips, is_ingested,
}
use structured_chaos.Intake.Windowing.{InboundMessage}
use structured_chaos.Store.Database.{Database}
use structured_chaos.Store.Log.{holds}

abbrev pub Mem : InboundMessage → List InboundMessage → Type 0
Mem n [] = ⊥
Mem n (m ∷ ms) = (n ≡ m) ⊎ Mem n ms

keep_here :
    (b : Bool) (n m : InboundMessage) (rest : List InboundMessage)
    → b ≡ true
    → n ≡ m
    → Mem n (elim b [ true ↦ m ∷ rest | false ↦ rest ])
keep_here true n m rest h same = inl same
keep_here false n m rest h same = absurd (ground (arith, h))

keep_later :
    (b : Bool) (n m : InboundMessage) (rest : List InboundMessage)
    → Mem n rest
    → Mem n (elim b [ true ↦ m ∷ rest | false ↦ rest ])
keep_later true n m rest later = inr later
keep_later false n m rest later = later

Mem-keep :
    (p : InboundMessage → Bool) (n : InboundMessage) (ms : List InboundMessage)
    → p n ≡ true
    → Mem n ms
    → Mem n (keep p ms)
Mem-keep p n [] h k = absurd k
Mem-keep p n (m ∷ ms) h (inl same) = keep_here (p m) n m (keep p ms) (ap p (sym same) ∙ h) same
Mem-keep p n (m ∷ ms) h (inr later) = keep_later (p m) n m (keep p ms) (Mem-keep p n ms h later)

kept_step :
    (b : Bool) (n m : InboundMessage) (rest ms : List InboundMessage)
    → (Mem n rest → Mem n ms)
    → Mem n (elim b [ true ↦ m ∷ rest | false ↦ rest ])
    → Mem n (m ∷ ms)
kept_step true n m rest ms h (inl same) = inl same
kept_step true n m rest ms h (inr later) = inr (h later)
kept_step false n m rest ms h later = inr (h later)

Mem-kept :
    (p : InboundMessage → Bool) (n : InboundMessage) (ms : List InboundMessage)
    → Mem n (keep p ms)
    → Mem n ms
Mem-kept p n [] k = absurd k
Mem-kept p n (m ∷ ms) k = kept_step (p m) n m (keep p ms) ms (Mem-kept p n ms) k

insert_step :
    (b : Bool) (m n x : InboundMessage) (xs rest : List InboundMessage)
    → (Mem n (m ∷ xs) → Mem n rest)
    → Mem n (m ∷ x ∷ xs)
    → Mem n (if b then m ∷ x ∷ xs else x ∷ rest)
insert_step true m n x xs rest h k = k
insert_step false m n x xs rest h (inl same) = inr (h (inl same))
insert_step false m n x xs rest h (inr (inl same)) = inl same
insert_step false m n x xs rest h (inr (inr later)) = inr (h (inr later))

Mem-insert :
    (m n : InboundMessage) (ms : List InboundMessage) → Mem n (m ∷ ms) → Mem n (insert_message m ms)
Mem-insert m n [] k = k
Mem-insert m n (x ∷ xs) k =
    insert_step (leb m.sent_at x.sent_at) m n x xs (insert_message m xs) (Mem-insert m n xs) k

swap : (m n x : InboundMessage) (xs : List InboundMessage) → Mem n (m ∷ xs) → Mem n (m ∷ x ∷ xs)
swap m n x xs (inl same) = inl same
swap m n x xs (inr later) = inr (inr later)

inserted_step :
    (b : Bool) (m n x : InboundMessage) (xs rest : List InboundMessage)
    → (Mem n rest → Mem n (m ∷ xs))
    → Mem n (if b then m ∷ x ∷ xs else x ∷ rest)
    → Mem n (m ∷ x ∷ xs)
inserted_step true m n x xs rest h k = k
inserted_step false m n x xs rest h (inl same) = inr (inl same)
inserted_step false m n x xs rest h (inr later) = swap m n x xs (h later)

Mem-inserted :
    (m n : InboundMessage) (ms : List InboundMessage) → Mem n (insert_message m ms) → Mem n (m ∷ ms)
Mem-inserted m n [] k = k
Mem-inserted m n (x ∷ xs) k =
    inserted_step (leb m.sent_at x.sent_at) m n x xs (insert_message m xs) (Mem-inserted m n xs) k

Mem-sort : (n : InboundMessage) (ms : List InboundMessage) → Mem n ms → Mem n (sort_messages ms)
Mem-sort n [] k = k
Mem-sort n (m ∷ ms) (inl same) = Mem-insert m n (sort_messages ms) (inl same)
Mem-sort n (m ∷ ms) (inr later) = Mem-insert m n (sort_messages ms) (inr (Mem-sort n ms later))

Mem-sorted : (n : InboundMessage) (ms : List InboundMessage) → Mem n (sort_messages ms) → Mem n ms
Mem-sorted n [] k = k
Mem-sorted n (m ∷ ms) k = elim (Mem-inserted m n (sort_messages ms) k) [
  | inl same ↦ inl same
  | inr later ↦ inr (Mem-sorted n ms later)
]

All-Mem :
    (P : InboundMessage → Type 0) (ms : List InboundMessage)
    → ((n : InboundMessage) → Mem n ms → P n)
    → All P ms
All-Mem P [] h = tt
All-Mem P (m ∷ ms) h = (h m (inl refl), All-Mem P ms (λ n k. h n (inr k)))

Mem-All :
    (P : InboundMessage → Type 0) (n : InboundMessage) (ms : List InboundMessage)
    → All P ms
    → Mem n ms
    → P n
Mem-All P n [] h k = absurd k
Mem-All P n (m ∷ ms) h (inl same) = rw same h.0
Mem-All P n (m ∷ ms) h (inr later) = Mem-All P n ms h.1 later

senders-holds :
    (n : InboundMessage) (ms : List InboundMessage) (seen : List String)
    → Mem n ms
    → (holds n.sender (senders ms seen) || holds n.sender seen) ≡ true
senders-holds n [] seen k = absurd k
senders-holds n (m ∷ ms) seen (inl same) =
    ground (arith, ap (λ x. x.sender) same, eq_iff m.sender n.sender)
senders-holds n (m ∷ ms) seen (inr later) =
    ground (arith, senders-holds n ms (m.sender ∷ seen) later, eq_iff m.sender n.sender)

-- The messages of one sender, as they are ingested.
abbrev run_of : String → List InboundMessage → List InboundMessage
run_of sender ms = sort_messages (keep (λ m. m.sender =? sender) ms)

ingest_senders-keeps :
    (env : IngestEnv) (ms : List InboundMessage) (who : List String) (n : InboundMessage)
    (s : Progress)
    → is_ingested env s.db.ledger n ≡ true
    → is_ingested env (ingest_senders env ms who s).db.ledger n ≡ true
ingest_senders-keeps env ms [] n s h = h
ingest_senders-keeps env ms (w ∷ who) n s h =
    ingest_senders-keeps env ms who n (ingest_run env none (run_of w ms) s)
      (ingest_run-keeps env none (run_of w ms) n s h)

ingest_senders-ingests :
    (env : IngestEnv) (ms : List InboundMessage) (who : List String) (n : InboundMessage)
    (s : Progress)
    → ((m : InboundMessage) → Mem m ms → message_key env m ≢ none)
    → Mem n ms
    → holds n.sender who ≡ true
    → is_ingested env (ingest_senders env ms who s).db.ledger n ≡ true
ingest_senders-ingests env ms [] n s keyed k h = cc
ingest_senders-ingests env ms (w ∷ who) n s keyed k h = elim (Bool-cases (n.sender =? w)) [
  | inl own ↦
      let run = run_of w ms in
      let all_keyed =
        All-Mem (λ m. message_key env m ≢ none) run
          (λ m there. keyed m (
            Mem-kept (λ m. m.sender =? w) m ms
              (Mem-sorted m (keep (λ m. m.sender =? w) ms) there))) in
      let there =
        Mem-sort n (keep (λ m. m.sender =? w) ms) (Mem-keep (λ m. m.sender =? w) n ms own k) in
      let after = ingest_run env none run s in
      ingest_senders-keeps env ms who n after (
        Mem-All (λ m. is_ingested env after.db.ledger m ≡ true) n run
          (ingest_run-ingests env none run s all_keyed) there)
  | inr foreign ↦
      ingest_senders-ingests env ms who n (ingest_run env none (run_of w ms) s) keyed k
        (ground (arith, h, foreign, eq_iff w n.sender, eq_iff n.sender w))
]

ingest_senders_skips :
    (env : IngestEnv) (ms : List InboundMessage) (who : List String) (s : Progress)
    → ((n : InboundMessage) → Mem n ms → is_ingested env s.db.ledger n ≡ true)
    → ingest_senders env ms who s ≡ s
ingest_senders_skips env ms [] s h = refl
ingest_senders_skips env ms (w ∷ who) s h =
    let run = run_of w ms in
    let done_run =
      All-Mem (λ m. is_ingested env s.db.ledger m ≡ true) run
        (λ m there. h m (
          Mem-kept (λ m. m.sender =? w) m ms
            (Mem-sorted m (keep (λ m. m.sender =? w) ms) there))) in
    rw (ingest_run_skips env none run s done_run) (ingest_senders_skips env ms who s h)

-- Uploading the same export again is a no-op: if each message has text or a file with bytes, a batch
-- that is ingested on its own result, under any numbering of new rows, leaves the whole database as
-- it is, and reports no case, no document and no missing file.
pub ingest_messages_again :
    (env : IngestEnv) (ms : List InboundMessage) (next_id other_id : ℕ) (db : Database)
    → ((m : InboundMessage) → Mem m ms → message_key env m ≢ none)
    → let after = (ingest_messages env ms next_id db).db in
      ingest_messages env ms other_id after ≡ record {
        db = after;
        next_id = other_id;
        case_ids = [];
        source_document_ids = [];
        missing_attachments = 0;
      }
unfolding ingest_messages
ingest_messages_again env ms next_id other_id db keyed =
    ingest_senders_skips env ms (senders ms []) _ (λ n there.
      ingest_senders-ingests env ms (senders ms []) n _ keyed there
        (ground (arith, senders-holds n ms [] there)))
