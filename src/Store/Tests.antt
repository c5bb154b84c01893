-- ===== src/Store/Tests.antt =====
-- The store's theorems on a few rows.
use structured_chaos.Prelude.{List, String-Eq, [], false, lookup, none, refl, some, ℕ-Eq, ◌∷◌, ◌≡◌}
use structured_chaos.Elicit.Policy.{committed}
use structured_chaos.Store.Case.{CaseRecord, commit_case, new_case}
use structured_chaos.Store.Case.Gate.{commit_case_first_wins}
use structured_chaos.Store.Documents.{Documents, SourceDocument, add_source_document, message}
use structured_chaos.Store.Documents.Content.{add_all, add_source_document_again}
use structured_chaos.Store.Ledger.{claim_stage, complete_stage}
use structured_chaos.Store.Ledger.Once.{
  Event, apply_all, claim_stage_once, claimed, completed, crashed,
}
use structured_chaos.Store.Log.{
  Citation, Correction, Extraction, Logs, add_citation, current_at, from_correction, governed_core,
  primary, rebuild_field_current, record_correction, record_extraction,
}
use structured_chaos.Store.Log.Append.{IsCited, correction_wins, record_extraction-IsCited}
use structured_chaos.Store.Log.Projection.{expected, rebuild_field_current-lookup}

abbrev reading : Extraction
reading = record {
  id = 11;
  case_id = 1;
  field_path = "fault";
  value = some "late";
  layer = governed_core;
  model = "m";
  model_version = "1";
  prompt_version = "1";
  confidence = 9000;
  run_id = 3;
  created_at = 110;
}

abbrev rereading : Extraction
rereading = record reading { id = 12; value = some "cold"; run_id = 4 }

abbrev source : Citation
source = record { source_document_id = 2; role = primary; locator = none; weight = none }

abbrev fix : Correction
fix = record {
  id = 21;
  case_id = 1;
  field_path = "fault";
  prev_value = some "late";
  new_value = some "wrong item";
  based_on_extraction_id = some 11;
  reviewer_id = "ann";
  note = none;
}

abbrev logs : Logs
logs = record {
  extractions = reading ∷ [];
  citations = (11, source) ∷ [];
  corrections = [];
  current = [];
}

abbrev reread_logs : Logs
reread_logs = record logs {
  extractions = rereading ∷ reading ∷ [];
  citations = (12, source) ∷ (11, source) ∷ [];
}

abbrev fixed_logs : Logs
fixed_logs = record reread_logs { corrections = fix ∷ [] }

rebuild_field_current-lookup_example :
    current_at 1 "fault" (rebuild_field_current 1 fixed_logs).0.current
    ≡ expected (some rereading) (some fix) 1
rebuild_field_current-lookup_example = rebuild_field_current-lookup 1 "fault" fixed_logs

record_extraction-IsCited_example : IsCited reread_logs
unfolding record_extraction add_citation
record_extraction-IsCited_example =
    record_extraction-IsCited rereading (source ∷ []) logs reread_logs 12 (refl, tt) refl

correction_wins_example :
    current_at 1 "fault" (rebuild_field_current 1 fixed_logs).0.current
    ≡ some (from_correction 1 fix)
unfolding record_extraction add_citation record_correction
correction_wins_example = correction_wins fix rereading (source ∷ []) logs fixed_logs 12 refl

abbrev row : CaseRecord
row = new_case "portal" 100 none

abbrev approved_row : CaseRecord
approved_row = record row {
  case_state = committed;
  committed_at = some 200;
  committed_by = some "ann";
}

commit_case_first_wins_example :
    let (after, answer) = commit_case 1 "bob" 300 ((1, approved_row) ∷ []) in
    (lookup 1 after ≡ some approved_row) × (answer ≡ some (200, some "ann"))
commit_case_first_wins_example =
    commit_case_first_wins 1 1 "bob" 300 200 ((1, approved_row) ∷ []) approved_row refl refl

-- Another key is claimed and fails, and the finished key is asked for, in between.
abbrev events : List Event
events = claimed "b" ∷ crashed "b" ∷ claimed "a" ∷ completed "b" ∷ []

claim_stage_once_example :
    let after = apply_all events (complete_stage "a" (claim_stage "a" []).0) in
    claim_stage "a" after ≡ (after, false)
claim_stage_once_example = claim_stage_once "a" [] events refl

abbrev yes : SourceDocument
yes = record {
  id = 2;
  case_id = 1;
  sha256 = "yes";
  blob_key = "yes";
  mime = "text/plain";
  channel = "web";
  byte_size = 3;
  received_at = 150;
  doc_kind = message;
}

abbrev yes_again : SourceDocument
yes_again = record yes { id = 3; case_id = 2; received_at = 900 }

abbrev no_again : SourceDocument
no_again = record yes { id = 4; sha256 = "no"; blob_key = "no"; byte_size = 2 }

abbrev no_documents : Documents
no_documents = record { sources = []; contents = [] }

-- The reply of the second case is stored as the document of the first.
add_source_document_again_example :
    let later = add_all (no_again ∷ []) (add_source_document yes no_documents).0 in
    add_source_document yes_again later ≡ (later, (add_source_document yes no_documents).1)
add_source_document_again_example =
    add_source_document_again yes yes_again (no_again ∷ []) no_documents refl
