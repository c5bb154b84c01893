-- ===== src/Elicit/Tests.antt =====
-- The elicitation theorems on one tenant with one case.
use structured_chaos.Prelude.{String-Eq, [], false, none, not, refl, some, true, ℕ-Eq, ◌∷◌, ◌≡◌}
use structured_chaos.Elicit.Grounding.{is_fault_grounded}
use structured_chaos.Elicit.Policy.{
  Situation, anchor, anchor_q, decide, desired_outcome, incomplete, same_key,
}
use structured_chaos.Elicit.Policy.Moves.{decide_budget, within_budget}
use structured_chaos.Elicit.Provenance.{Services, record_provenance}
use structured_chaos.Elicit.Stage.{elicit_case, elicit_claimed, elicit_key, persist, resolution_of}
use structured_chaos.Elicit.Stage.Budget.{IsSafe, Run-IsSafe, asked_about, here, opened, then_step}
use structured_chaos.Elicit.Stage.Replay.{IsIdle, elicit_case_replay}
use structured_chaos.Resolve.Objects.{ObjectRecord, resolve_object_by_key}
use structured_chaos.Resolve.Resolver.{key_hash, normalise_key_value, resolve_object}
use structured_chaos.Store.Case.{CaseRecord, apply_elicitation, create_case, get_case_elicit_state}
use structured_chaos.Store.Registry.{no_registry}
use structured_chaos.Store.Database.{Database, get_emergent_values_by_head}
use structured_chaos.Store.Documents.{get_case_normalised_text}
use structured_chaos.Store.Ledger.{claim_stage, complete_stage, compute_idempotency_key}
use structured_chaos.Store.Log.{get_field_values}

abbrev object : ObjectRecord
object = record {
  id = 5;
  object_type = "order";
  external_id = some "AB-1";
  content_hash = "h";
  attributes = ("status", "late") ∷ [];
  key_fields = "order_id" ∷ [];
}

abbrev env : Services
env = record {
  py = record {
    tokens = λ s. s ∷ [];
    size = λ s. 4;
    strip_lower = λ s. s;
    squeeze = λ s. s;
    cut = λ n s. s;
    spaced = λ s. s;
    is_contact_field = λ s. false;
  };
  is_blank = λ s. false;
  sha256 = λ s. s;
  uuid_text = λ n. "case";
  dumps = λ t. "governed";
  payload = λ o. "record";
  byte_size = λ s. 6;
  lookups = record {
    before = λ a b. false;
    strip = λ s. s;
    digits = λ s. s;
    fold = λ s. s;
    key_sha256 = λ s. s;
    nearest = none;
    show_score = λ n. "0.9";
  };
  llm = none;
  has_blob = true;
  code_version = "1";
}

abbrev empty_db : Database
empty_db = record {
  cases = [];
  ledger = [];
  logs = record { extractions = []; citations = []; corrections = []; current = [] };
  objects = record { records = object ∷ []; keys = []; embeddings = [] };
  documents = record { sources = []; contents = [] };
  outbox = [];
  registry = record no_registry { qualifier_column = some (λ hash. none) };
  jobs = [];
  policy_yaml = none;
  decisions = [];
}

abbrev open_db : Database
open_db = record empty_db { cases = create_case 1 "whatsapp" 100 (some "0770") empty_db.cases }

abbrev asked_db : Database
asked_db = (elicit_case env 120 9 1 open_db).0

-- The first move on a case with no field and a sender that no object has: the anchor.
abbrev asked_row : CaseRecord
asked_row = record {
  channel = "whatsapp";
  case_state = incomplete;
  first_contact_at = 100;
  contact_ref = some "0770";
  question_count = 1;
  elicit = some (record {
    anchor_asked = true;
    next_question = some anchor_q;
    question_kind = some anchor;
    reason = "no resolvable identifier → ask the anchor key";
    state = incomplete;
    options = none;
    object_snapshot = none;
    contradictions = 0;
    fault_grounded = false;
    processed_at = 120;
  });
  committed_at = none;
  committed_by = none;
}

Run-IsSafe_example : IsSafe asked_row
unfolding create_case elicit_case get_case_elicit_state get_field_values claim_stage complete_stage
    elicit_claimed persist apply_elicitation decide resolution_of resolve_object
    resolve_object_by_key key_hash normalise_key_value get_emergent_values_by_head is_fault_grounded
    get_case_normalised_text record_provenance compute_idempotency_key elicit_key
Run-IsSafe_example =
    Run-IsSafe empty_db asked_db 1 asked_row refl
      (then_step (then_step (here empty_db) (opened 1 "whatsapp" 100 (some "0770") empty_db))
        (asked_about env 120 9 1 open_db))
      refl

elicit_case_replay_example : IsIdle 1 150 asked_db (elicit_case env 150 10 1 asked_db)
unfolding create_case elicit_case get_case_elicit_state get_field_values claim_stage complete_stage
    elicit_claimed persist apply_elicitation decide resolution_of resolve_object
    resolve_object_by_key key_hash normalise_key_value get_emergent_values_by_head is_fault_grounded
    get_case_normalised_text record_provenance compute_idempotency_key elicit_key
elicit_case_replay_example = elicit_case_replay env 120 9 150 10 1 open_db

-- A case with a grounded fault and a category, one question asked, and no wish stated.
abbrev known : Situation
known = record {
  present_fields = λ k. not (same_key k desired_outcome);
  emotion = some "calm";
  has_anchor = true;
  anchor_asked = true;
  question_count = 1;
  confirmation = none;
  fault_grounded = true;
  category_known = true;
  fault_prompt = none;
  offered = none;
}

abbrev nothing : Situation
nothing = record known {
  present_fields = λ k. false;
  emotion = some "angry";
  has_anchor = false;
  fault_grounded = false;
  category_known = false;
}

abbrev spent : Situation
spent = record known { question_count = 3 }

decide_budget_example : within_budget known (decide known).question_kind ≡ true
decide_budget_example = decide_budget known
