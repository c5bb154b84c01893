-- ===== src/Extract/Tests.antt =====
-- The extraction theorems on two cases with one text.
use structured_chaos.Prelude.{
  List, String-Eq, [], false, map, none, refl, some, ℕ, ℕ-Eq, ◌+◌, ◌=?◌, ◌∷◌, ◌≡◌,
}
use structured_chaos.Confidence.{blank, confidence}
use structured_chaos.Extract.Extractor.{RawExtraction, extract, gather}
use structured_chaos.Extract.Grounded.{SourceTools, is_all_redacted, is_extractive, is_grounded}
use structured_chaos.Extract.Names.{compose_name, normalise_token, split_qualifier}
use structured_chaos.Extract.Names.Compose.{split_qualifier-compose_name}
use structured_chaos.Extract.Profile.{ProfileTools, profile_value}
use structured_chaos.Extract.Provenance.{build_field_citations, locate}
use structured_chaos.Extract.Stage.{ExtractEnv, extract_case, extract_key}
use structured_chaos.Extract.Stage.SameText.{extract_case_same_text}
use structured_chaos.Store.Case.{new_case}
use structured_chaos.Store.Database.{Database}
use structured_chaos.Store.Documents.{
  NormalisedContent, SourceDocument, get_case_normalised_text, list_case_normalised_spans,
  list_case_source_documents, message,
}
use structured_chaos.Store.Ledger.{claim_stage, compute_idempotency_key}
use structured_chaos.Store.Ledger.Once.{Event, apply_all, claimed, crashed}
use structured_chaos.Store.Log.{add_citation, rebuild_field_current, record_extraction}
use structured_chaos.Store.Registry.{no_registry}
use structured_chaos.Store.Registry.Minted.{list_minted_head_glosses, list_minted_heads}

abbrev py : SourceTools
py = record {
  lower = λ s. s;
  strip = λ s. s;
  tokens = λ s. s ∷ [];
  contains = λ s t. t =? "late";
  size = λ s. 4;
  spaced = λ s. s;
}

abbrev profile : ProfileTools
profile = record {
  words = λ s. s ∷ [];
  is_money = λ s. false;
  is_date = λ s. false;
  has_digit = λ s. false;
  is_numeric = λ s. false;
}

split_qualifier-compose_name_example :
    split_qualifier (compose_name (λ s. s) "fee" (some "late")) "fee" ≡ some "late"
unfolding normalise_token
split_qualifier-compose_name_example = split_qualifier-compose_name (λ s. s) "fee" (some "late")

abbrev answer : RawExtraction
answer = record {
  governed = ("category", some "delivery_fulfilment") ∷ ("fault", none) ∷ [];
  attributes =
      record { head = "status"; qualifier = some "very"; value = "late" }
      ∷ record { head = "date"; qualifier = none; value = "monday" }
      ∷ [];
}

abbrev env : ExtractEnv
env = record {
  py = py;
  profile = profile;
  locator = record {
    strip = λ s. s;
    lower = λ s. s;
    find = λ s t. none;
    size = λ s. 4;
    is_multi_span = λ s. false;
  };
  floats = record { product = λ a b. 9000; strip = λ s. s };
  calibration = blank;
  ratio = λ a b. "0.5";
  answer = λ text heads glosses. some answer;
  sha256 = λ s. s;
  first_eight = λ s. s;
  prompt_version = "extract-v20";
  model = "m";
  code_version = "1";
  now = 200;
}

abbrev letter : ℕ → SourceDocument
letter case = record {
  id = case + 10;
  case_id = case;
  sha256 = "h";
  blob_key = "h";
  mime = "text/plain";
  channel = "whatsapp";
  byte_size = 4;
  received_at = 100;
  doc_kind = message;
}

abbrev letter_text : ℕ → NormalisedContent
letter_text case = record {
  case_id = case;
  source_document_id = case + 10;
  text = "late";
  language = "en";
  spans = [];
  stage = "normalise.text";
  model = "-";
  model_version = "1";
}

abbrev two_cases : Database
two_cases = record {
  cases = (2, new_case "whatsapp" 100 none) ∷ (1, new_case "whatsapp" 100 none) ∷ [];
  ledger = [];
  logs = record { extractions = []; citations = []; corrections = []; current = [] };
  objects = record { records = []; keys = []; embeddings = [] };
  documents = record {
    sources = letter 2 ∷ letter 1 ∷ [];
    contents = letter_text 1 ∷ letter_text 2 ∷ [];
  };
  outbox = [];
  registry = no_registry;
  jobs = [];
  policy_yaml = none;
  decisions = [];
}

abbrev first_done : Database
first_done = elim (extract_case env 5 20 1 two_cases) [ none ↦ two_cases | some (db, ran) ↦ db ]

-- The first case has its category; the second, which has the same text, is not extracted after it.
first_extracted : map (λ e. e.case_id) first_done.logs.extractions ≡ 1 ∷ 1 ∷ []
unfolding extract_case get_case_normalised_text list_minted_heads extract_key
    compute_idempotency_key claim_stage list_minted_head_glosses extract gather normalise_token
    is_grounded is_all_redacted compose_name profile_value confidence record_extraction
    build_field_citations locate add_citation is_extractive list_case_source_documents
    list_case_normalised_spans rebuild_field_current
first_extracted = refl

-- The next run of the first case is claimed meanwhile, and the vocabulary stays.
abbrev meanwhile : List Event
meanwhile = claimed "next" ∷ crashed "next" ∷ []

abbrev later_on : Database
later_on = record first_done { ledger = apply_all meanwhile first_done.ledger }

extract_case_same_text_example :
    extract_case (record env { answer = λ text heads glosses. none; now = 300 }) 6 30 2 later_on
    ≡ some (later_on, false)
unfolding extract_case get_case_normalised_text list_minted_heads extract_key
    compute_idempotency_key claim_stage list_minted_head_glosses extract gather normalise_token
    is_grounded is_all_redacted compose_name profile_value confidence record_extraction
    build_field_citations locate add_citation is_extractive list_case_source_documents
    list_case_normalised_spans
extract_case_same_text_example =
    extract_case_same_text env 5 20 1 two_cases first_done later_on (λ text heads glosses. none) 300
      6 30 2 meanwhile refl refl refl refl refl
