-- ===== src/Portal/Tests.antt =====
-- The portal's theorems on a case that was asked for its anchor and on one in review.
use structured_chaos.Prelude.{
  List, String, String-Eq, [], arith, false, if◌then◌else◌, inl, none, refl, some, true, ℕ, ℕ-Eq,
  ◌=?◌, ◌∷◌, ◌≡◌, ◌≢◌, ◌≤◌,
}
use structured_chaos.Elicit.Grounding.{TextTools}
use structured_chaos.Elicit.Policy.{anchor, anchor_q, in_review, incomplete}
use structured_chaos.Elicit.Provenance.{Services}
use structured_chaos.Portal.Limit.{allow, rate_limit}
use structured_chaos.Portal.Limit.Window.{Rule, calls, calls_limit, granted_within}
use structured_chaos.Portal.Status.{Clock, public_status}
use structured_chaos.Portal.Status.Fresh.{elicit_all, is_waiting, public_status_finished_reply}
use structured_chaos.Portal.Submit.{
  Request, Submission, SubmitEnv, Upload, enforce_origin, read_submission, submit,
}
use structured_chaos.Portal.Submit.Accepted.{IsAccepted, submit-IsAccepted}
use structured_chaos.Portal.Tokens.{
  TokenEnv, b64d, ids_in, ids_of, sign_case_token, signature, split_at, verify_case_token,
}
use structured_chaos.Portal.Tokens.Signed.{
  IsToken, verify_case_token-sign_case_token, verify_case_token-signature,
}
use structured_chaos.Store.Case.{CaseRecord, ElicitMeta, new_case}
use structured_chaos.Store.Database.{Database}
use structured_chaos.Store.Documents.{SourceDocument, message}
use structured_chaos.Store.Registry.{no_registry}

abbrev py : TextTools
py = record {
  tokens = λ s. s ∷ [];
  size = λ s. 4;
  strip_lower = λ s. s;
  squeeze = λ s. s;
  cut = λ n s. s;
  spaced = λ s. s;
  is_contact_field = λ s. false;
}

abbrev env : Services
env = record {
  py = py;
  is_blank = λ s. false;
  sha256 = λ s. s;
  uuid_text = λ n. "case";
  dumps = λ t. "governed";
  payload = λ o. "record";
  byte_size = λ s. 6;
  lookups = record {
    before = λ a b. false;
    strip = λ s. s;
    digits = λ s. s;
    fold = λ s. s;
    key_sha256 = λ s. s;
    nearest = none;
    show_score = λ n. "0.9";
  };
  llm = none;
  has_blob = true;
  code_version = "1";
}

abbrev move : ElicitMeta
move = record {
  anchor_asked = true;
  next_question = some anchor_q;
  question_kind = some anchor;
  reason = "";
  state = incomplete;
  options = none;
  object_snapshot = none;
  contradictions = 0;
  fault_grounded = false;
  processed_at = 120;
}

abbrev asked : CaseRecord
asked = record (new_case "web" 100 none) {
  case_state = incomplete;
  question_count = 1;
  elicit = some move;
}

abbrev reviewed : CaseRecord
reviewed = record asked { case_state = in_review }

abbrev late_reply : SourceDocument
late_reply = record {
  id = 3;
  case_id = 2;
  sha256 = "s";
  blob_key = "s";
  mime = "text/plain";
  channel = "web";
  byte_size = 2;
  received_at = 500;
  doc_kind = message;
}

abbrev first_message : SourceDocument
first_message = record late_reply { id = 2; case_id = 1; sha256 = "f"; received_at = 100 }

abbrev tenant : Database
tenant = record {
  cases = (1, asked) ∷ (2, reviewed) ∷ [];
  ledger = [];
  logs = record { extractions = []; citations = []; corrections = []; current = [] };
  objects = record { records = []; keys = []; embeddings = [] };
  documents = record { sources = first_message ∷ late_reply ∷ []; contents = [] };
  outbox = [];
  registry = no_registry;
  jobs = [];
  policy_yaml = none;
  decisions = [];
}

abbrev clock : Clock
clock = record { now = 600; stall_seconds = 90; beat = some 590; worker_liveness = some 60 }

abbrev runs : List (Services × ℕ × ℕ)
runs = (env, 600, 9) ∷ (env, 900, 10) ∷ []

public_status_finished_reply_example :
    (elicit_all runs 2 tenant ≡ tenant)
    × (is_waiting (public_status clock 2 (elicit_all runs 2 tenant)) ≡ true)
public_status_finished_reply_example =
    public_status_finished_reply clock runs 2 tenant reviewed move (first_message ∷ []) []
      late_reply refl (inl refl) refl refl refl refl (omega arith)

abbrev limits_of : String → Rule
limits_of key = record { limit = 1; window = 600 }

calls_limit_example :
    granted_within limits_of "ip:a" 700 (calls limits_of (("ip:a", 650) ∷ ("ip:a", 100) ∷ [])).1 ≤ 1
calls_limit_example =
    calls_limit limits_of "ip:a" 700 (("ip:a", 650) ∷ ("ip:a", 100) ∷ [])
      (omega arith, (omega arith, tt))

abbrev tokens : TokenEnv
tokens = record {
  secret = "k";
  utf8 = λ s. [];
  from_utf8 = λ bytes. some "1:2";
  b64encode = λ raw. "AAA=";
  b64decode = λ s. some [];
  hmac_sha256 = λ k p. [];
  show_uuid = λ n. if n =? 1 then "1" else "2";
  parse_uuid = λ s. if s =? "1" then some 1 else some 2;
}

abbrev token_kept : IsToken tokens 1 2
token_kept = record {
  payload = record {
    body = "AAA";
    fill = 1;
    fill_small = omega arith;
    encoded = refl;
    no_pad = refl;
    no_dot = refl;
    divided = refl;
    decoded = refl;
  };
  utf8_text = refl;
  no_colon = refl;
  tenant_id = refl;
  case_id = refl;
  ascii = refl;
}

verify_case_token-sign_case_token_example : verify_case_token tokens "AAA.AAA" ≡ ids_of 1 2
unfolding sign_case_token signature
verify_case_token-sign_case_token_example =
    verify_case_token-sign_case_token tokens 1 2 "AAA.AAA" token_kept refl

verify_case_token-signature_example :
    (tokens.secret ≢ "")
    × ((head sig : String) × (payload : List ℕ) × (split_at b'.' "AAA.AAA" ≡ some (head, sig))
        × (b64d tokens head ≡ some payload)
        × (signature tokens payload ≡ some sig)
        × (ids_in tokens payload ≡ ids_of 1 2))
unfolding verify_case_token signature
verify_case_token-signature_example = verify_case_token-signature tokens 1 2 "AAA.AAA" refl

abbrev edge : SubmitEnv
edge = record {
  resolve_embed_key = λ k. some ("bakery", []);
  strip = λ s. s;
  utf8_size = λ s. 4;
  media_type = λ s. s;
  is_image = λ s. s =? "image/png";
  guess_mime = λ s. "text/plain";
  urlsplit = λ s. ("https", "host", "");
  limits = record { per_ip = 5; per_tenant = 60 };
  max_file_bytes = 3;
  max_request_bytes = 9;
}

abbrev visit : Request
visit = record { host = "host"; origin = none; client = none }

abbrev photo : Upload
photo = record { filename = none; content_type = some "image/png"; content = 1 ∷ 2 ∷ [] }

abbrev accepted : Submission
accepted = record {
  tenant = "bakery";
  origin = none;
  body = "late";
  attachments = record { filename = "upload"; mime = "image/png"; bytes = 1 ∷ 2 ∷ [] } ∷ [];
}

submit-IsAccepted_example : IsAccepted edge visit "k" accepted
unfolding submit read_submission enforce_origin rate_limit allow
submit-IsAccepted_example =
    submit-IsAccepted edge visit "k" "late" (photo ∷ []) 100 [] accepted refl
