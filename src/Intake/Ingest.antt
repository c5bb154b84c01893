-- ===== src/Intake/Ingest.antt =====
-- engine/app/intake/ingest.py: ingest_messages, one transaction. The id of a new row is the next number;
-- the hash, the printed times and the cut of a text are parameters; metering is left out.
pub mod Again
pub mod Batch
use Prim.Native.String.{◌++◌ as str_append}
use structured_chaos.Prelude.{
  Bool, List, Option, String, String-Eq, [], any, if◌then◌else◌, keep, leb, none, not, or_else,
  some, suc, true, ℕ, ℕ-Eq, ◌++◌, ◌=?◌, ◌||◌, ◌∷◌,
}
use structured_chaos.Elicit.Policy.{CaseState, created, text_or, truthy}
use structured_chaos.Intake.Windowing.{
  Action, Classifier, InboundAttachment, InboundMessage, PriorCase, decide_window, follow_up, new,
}
use structured_chaos.Store.Case.{create_case}
use structured_chaos.Store.Database.{Database, normalise_job}
use structured_chaos.Store.Documents.{
  DocKind, SourceDocument, add_source_document, file, get_case_normalised_text,
  latest_case_for_contact, message,
}
use structured_chaos.Store.Ledger.{Ledger, claim_stage, complete_stage, separator}
use structured_chaos.Store.Log.{holds}

pub record IngestEnv : Type 0 where
  pub sha256 : String → String
  pub show_time : ℕ → String
  pub last_chars : String → String  -- `s[-_PRIOR_TEXT_CHARS:]`
  pub byte_size : String → ℕ
  pub llm : Option Classifier

pub record Progress : Type 0 where
  pub db : Database
  pub next_id : ℕ
  pub case_ids : List ℕ
  pub source_document_ids : List ℕ
  pub missing_attachments : ℕ

abbrev pub has_bytes : InboundAttachment → Bool
has_bytes att = not (att.missing || (att.bytes =? ""))

abbrev pub first_bytes : List InboundAttachment → Option String
first_bytes [] = none
first_bytes (att ∷ atts) = if has_bytes att then some att.bytes else first_bytes atts

abbrev pub content_of : InboundMessage → Option String
content_of m = if truthy m.text then m.text else first_bytes m.attachments

unfoldable pub message_key : IngestEnv → InboundMessage → Option String
message_key env m = elim (content_of m) [
  | none ↦ none
  | some content ↦ some (
      env.sha256 (
        str_append m.sender (
          str_append separator
            (str_append (env.show_time m.sent_at) (str_append separator (env.sha256 content))))))
]

abbrev pub prior_of : IngestEnv → Database → Option (ℕ × CaseState × ℕ) → Option PriorCase
prior_of env db none = none
prior_of env db (some (id, state, at)) = some (record {
  case_id = id;
  case_state = state;
  last_activity_at = at;
  prior_text = env.last_chars (get_case_normalised_text id db.documents);
})

unfoldable pub load_prior : IngestEnv → String → Database → Option PriorCase
load_prior env sender db =
    if sender =? ""
    then none
    else prior_of env db (latest_case_for_contact sender db.documents db.cases)

-- `sender or None`
abbrev pub contact_of : String → Option String
contact_of sender = if sender =? "" then none else some sender

-- The case of a message: the one that it follows, or a new one.
abbrev pub target : Action → InboundMessage → Progress → ℕ × Progress
target (follow_up id) m s = (id, s)
target new m s = (
  s.next_id,
  record s {
    db = record s.db {
      cases = create_case s.next_id m.channel m.sent_at (contact_of m.sender) s.db.cases;
    };
    next_id = suc s.next_id;
  },
)

abbrev pub touch_case : ℕ → Progress → Progress
touch_case id s =
    if any (λ i. i =? id) s.case_ids then s else record s { case_ids = s.case_ids ++ id ∷ [] }

abbrev pub document_of :
    IngestEnv → ℕ → ℕ → InboundMessage → String → String → DocKind → SourceDocument
document_of env id case m bytes mime kind = record {
  id = id;
  case_id = case;
  sha256 = env.sha256 bytes;
  blob_key = env.sha256 bytes;
  mime = mime;
  channel = m.channel;
  byte_size = env.byte_size bytes;
  received_at = m.sent_at;
  doc_kind = kind;
}

-- `_store_and_queue`
unfoldable pub store_and_queue :
    IngestEnv → ℕ → InboundMessage → String → String → DocKind → Progress → Progress
store_and_queue env case m bytes mime kind s =
    let (docs, id) =
      add_source_document (document_of env s.next_id case m bytes mime kind) s.db.documents in
    record s {
      db = record s.db { documents = docs; jobs = normalise_job id ∷ s.db.jobs };
      next_id = suc s.next_id;
      source_document_ids = s.source_document_ids ++ id ∷ [];
    }

abbrev pub store_text : IngestEnv → ℕ → InboundMessage → Progress → Progress
store_text env case m s =
    if truthy m.text
    then store_and_queue env case m (or_else m.text "") "text/plain" message s
    else s

abbrev pub store_file : IngestEnv → ℕ → InboundMessage → InboundAttachment → Progress → Progress
store_file env case m att s =
    if has_bytes att
    then store_and_queue env case m att.bytes att.mime file s
    else record s { missing_attachments = suc s.missing_attachments }

abbrev pub store_files :
    IngestEnv → ℕ → InboundMessage → List InboundAttachment → Progress → Progress
store_files env case m [] s = s
store_files env case m (att ∷ atts) s = store_files env case m atts (store_file env case m att s)

abbrev pub complete_key : Option String → Progress → Progress
complete_key none s = s
complete_key (some key) s = record s {
  db = record s.db { ledger = complete_stage key s.db.ledger };
}

abbrev pub join_words : Option PriorCase → Option String → String
join_words none body = text_or body ""
join_words (some prior) body =
    if truthy body
    then str_append prior.prior_text (str_append " " (text_or body ""))
    else prior.prior_text

-- The case that is being built, after the message.
abbrev pub built : IngestEnv → ℕ → Option PriorCase → InboundMessage → PriorCase
built env case building m = record {
  case_id = case;
  case_state = created;
  last_activity_at = m.sent_at;
  prior_text = env.last_chars (join_words building m.text);
}

abbrev pub or_load : IngestEnv → Option PriorCase → InboundMessage → Database → Option PriorCase
or_load env none m db = load_prior env m.sender db
or_load env (some building) m db = some building

-- A message after its claim.
unfoldable pub accept :
    IngestEnv → Option PriorCase → InboundMessage → Progress → Option PriorCase × Progress
accept env building m s =
    let decision = decide_window m (or_load env building m s.db) env.llm in
    let (case, started) = target decision.action m s in
    let stored =
      store_files env case m m.attachments (store_text env case m (touch_case case started)) in
    (some (built env case building m), complete_key (message_key env m) stored)

abbrev pub claim_key : Option String → Ledger → Ledger × Bool
claim_key none ledger = (ledger, true)
claim_key (some key) ledger = claim_stage key ledger

unfoldable pub ingest_message :
    IngestEnv → Option PriorCase → InboundMessage → Progress → Option PriorCase × Progress
ingest_message env building m s =
    let (ledger, fresh) = claim_key (message_key env m) s.db.ledger in
    if fresh
    then accept env building m (record s { db = record s.db { ledger = ledger } })
    else (building, s)

-- The messages of one sender, oldest first.
abbrev pub ingest_run : IngestEnv → Option PriorCase → List InboundMessage → Progress → Progress
ingest_run env building [] s = s
ingest_run env building (m ∷ ms) s =
    let (next, after) = ingest_message env building m s in ingest_run env next ms after

-- The stable sort by `sent_at`.
abbrev pub insert_message : InboundMessage → List InboundMessage → List InboundMessage
insert_message m [] = m ∷ []
insert_message m (n ∷ ns) = if leb m.sent_at n.sent_at then m ∷ n ∷ ns else n ∷ insert_message m ns

abbrev pub sort_messages : List InboundMessage → List InboundMessage
sort_messages [] = []
sort_messages (m ∷ ms) = insert_message m (sort_messages ms)

-- The senders in the order of their first message.
abbrev pub senders : List InboundMessage → List String → List String
senders [] seen = []
senders (m ∷ ms) seen =
    let rest = senders ms (m.sender ∷ seen) in if holds m.sender seen then rest else m.sender ∷ rest

abbrev pub ingest_senders : IngestEnv → List InboundMessage → List String → Progress → Progress
ingest_senders env ms [] s = s
ingest_senders env ms (sender ∷ rest) s =
    ingest_senders env ms rest
      (ingest_run env none (sort_messages (keep (λ m. m.sender =? sender) ms)) s)

unfoldable pub ingest_messages : IngestEnv → List InboundMessage → ℕ → Database → Progress
ingest_messages env ms next_id db = ingest_senders env ms (senders ms []) (record {
  db = db;
  next_id = next_id;
  case_ids = [];
  source_document_ids = [];
  missing_attachments = 0;
})
