-- ===== src/Pipeline/Tests.antt =====
-- The normalisation of one document.
use structured_chaos.Prelude.{String-Eq, [], false, none, refl, some, ℕ-Eq, ◌∷◌, ◌≡◌}
use structured_chaos.Pipeline.{Content, PipelineEnv, normalise_key, normalise_source_document}
use structured_chaos.Store.Case.{new_case}
use structured_chaos.Store.Database.{Database, extract_job}
use structured_chaos.Store.Documents.{
  SourceDocument, get_source_document, message, save_normalised_content,
}
use structured_chaos.Store.Ledger.{claim_stage, complete_stage, compute_idempotency_key}
use structured_chaos.Store.Registry.{no_registry}

abbrev late : Content
late = record {
  text = "late";
  language = "en";
  spans = [];
  stage = "text";
  model = "";
  model_version = "";
  degraded = false;
}

abbrev stage_env : PipelineEnv
stage_env = record {
  sha256 = λ s. s;
  starts_with = λ p s. false;
  whisper_model = "small";
  ocr_lang = "en";
  code_version = "1";
  get = λ k. some "late";
  normalise = λ id bytes mime. some late;
}

abbrev letter : SourceDocument
letter = record {
  id = 11;
  case_id = 1;
  sha256 = "h";
  blob_key = "k";
  mime = "text/plain";
  channel = "whatsapp";
  byte_size = 4;
  received_at = 100;
  doc_kind = message;
}

abbrev one_case : Database
one_case = record {
  cases = (1, new_case "whatsapp" 100 none) ∷ [];
  ledger = [];
  logs = record { extractions = []; citations = []; corrections = []; current = [] };
  objects = record { records = []; keys = []; embeddings = [] };
  documents = record { sources = letter ∷ []; contents = [] };
  outbox = [];
  registry = no_registry;
  jobs = [];
  policy_yaml = none;
  decisions = [];
}

abbrev after_run : Database
after_run = elim (normalise_source_document stage_env 11 one_case) [
  | none ↦ one_case
  | some (db, text) ↦ db
]

after_run_jobs : after_run.jobs ≡ extract_job 1 ∷ []
unfolding normalise_source_document get_source_document claim_stage normalise_key
    compute_idempotency_key save_normalised_content complete_stage
after_run_jobs = refl
