-- ===== src/Channel/Tests.antt =====
-- The dispatch theorems on a case that waits for an answer.
use structured_chaos.Prelude.{
  List, Option, String, String-Eq, [], false, none, refl, some, true, ℕ, ℕ-Eq, ◌∷◌, ◌≡◌,
}
use structured_chaos.Channel.Dispatch.{Sender, dispatch_case_question, skipped}
use structured_chaos.Channel.Dispatch.Once.{dispatch_all, dispatch_case_question_once}
use structured_chaos.Elicit.Policy.{anchor, anchor_q, incomplete}
use structured_chaos.Store.Case.{CaseRecord, get_case_elicit_state, get_pending_question, new_case}
use structured_chaos.Store.Database.{Database}
use structured_chaos.Store.Outbound.{claim_outbound}
use structured_chaos.Store.Registry.{no_registry}

abbrev waiting : CaseRecord
waiting = record (new_case "whatsapp" 100 (some "0770")) {
  case_state = incomplete;
  question_count = 1;
  elicit = some (record {
    anchor_asked = true;
    next_question = some anchor_q;
    question_kind = some anchor;
    reason = "";
    state = incomplete;
    options = none;
    object_snapshot = none;
    contradictions = 0;
    fault_grounded = false;
    processed_at = 120;
  });
}

abbrev tenant : Database
tenant = record {
  cases = (1, waiting) ∷ [];
  ledger = [];
  logs = record { extractions = []; citations = []; corrections = []; current = [] };
  objects = record { records = []; keys = []; embeddings = [] };
  documents = record { sources = []; contents = [] };
  outbox = [];
  registry = no_registry;
  jobs = [];
  policy_yaml = none;
  decisions = [];
}

abbrev whatsapp : Sender
whatsapp = record { question_hash = λ case q. q; send = λ recipient text. some "wamid-1" }

-- A dispatch of the same case that would be lost, and one of a case that is not there.
abbrev retries : List (ℕ × ℕ × (String → String → Option String))
retries = (8, 1, λ recipient text. none) ∷ (8, 2, λ recipient text. some "wamid-2") ∷ []

dispatch_case_question_once_example :
    let later = dispatch_all whatsapp retries (dispatch_case_question whatsapp 7 1 tenant).0 in
    dispatch_case_question whatsapp 9 1 later ≡ (later, skipped)
unfolding dispatch_case_question get_pending_question get_case_elicit_state claim_outbound
dispatch_case_question_once_example = dispatch_case_question_once whatsapp 7 9 1 retries tenant refl
