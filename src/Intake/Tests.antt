-- ===== src/Intake/Tests.antt =====
-- The windowing theorem on a late reply to a committed case.
use structured_chaos.Prelude.{String-Eq, [], inl, inr, none, some, ℕ-Eq, ◌∷◌, ◌≡◌, ◌≢◌, ◌⊎◌}
use structured_chaos.Elicit.Policy.{committed}
use structured_chaos.Intake.Ingest.{IngestEnv, Progress, ingest_messages, message_key}
use structured_chaos.Intake.Ingest.Batch.{Mem, ingest_messages_again}
use structured_chaos.Intake.Windowing.{
  Classifier, InboundMessage, PriorCase, decide_window, follow_up, new,
}
use structured_chaos.Intake.Windowing.Merge.{MayMerge, decide_window_merge}
use structured_chaos.Store.Registry.{no_registry}

abbrev closed : PriorCase
closed = record {
  case_id = 4;
  case_state = committed;
  last_activity_at = 1000;
  prior_text = "late";
}

abbrev reply : InboundMessage
reply = record {
  channel = "whatsapp";
  sender = "0770";
  sent_at = 90000;
  text = some "still late";
  attachments = [];
}

abbrev model : Classifier
model inbound prior = some (some "follow_up", "same order")

decide_window_merge_example :
    (((decide_window reply (some closed) (some model)).action ≡ follow_up closed.case_id)
      × MayMerge (some model) reply closed)
    ⊎ (((decide_window reply (some closed) (some model)).action ≡ new)
        × (MayMerge (some model) reply closed → ⊥))
decide_window_merge_example = decide_window_merge reply closed (some model)

abbrev intake_env : IngestEnv
intake_env = record {
  sha256 = λ s. s;
  show_time = λ t. "t";
  last_chars = λ s. s;
  byte_size = λ s. 4;
  llm = some model;
}

abbrev start : Progress
start = record {
  db = record {
    cases = [];
    ledger = [];
    logs = record { extractions = []; citations = []; corrections = []; current = [] };
    objects = record { records = []; keys = []; embeddings = [] };
    documents = record { sources = []; contents = [] };
    outbox = [];
    registry = no_registry;
    jobs = [];
    policy_yaml = none;
    decisions = [];
  };
  next_id = 1;
  case_ids = [];
  source_document_ids = [];
  missing_attachments = 0;
}

reply_keyed : (m : InboundMessage) → Mem m (reply ∷ []) → message_key intake_env m ≢ none
unfolding message_key
reply_keyed m (inl same) = rw same (λ e. cc)
reply_keyed m (inr none_left) = absurd none_left

ingest_messages_again_example :
    let after = (ingest_messages intake_env (reply ∷ []) 1 start.db).db in
    ingest_messages intake_env (reply ∷ []) 40 after ≡ record {
      db = after;
      next_id = 40;
      case_ids = [];
      source_document_ids = [];
      missing_attachments = 0;
    }
ingest_messages_again_example =
    ingest_messages_again intake_env (reply ∷ []) 1 40 start.db reply_keyed
