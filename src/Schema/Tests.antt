-- ===== src/Schema/Tests.antt =====
-- The emergent schema's theorems on a small registry and one case.
use structured_chaos.Prelude.{
  List, Option, String, String-Eq, [], any, arith, false, leb, map, none, refl, some, true, ℕ, ℕ-Eq,
  ◌&&◌, ◌++◌, ◌=?◌, ◌||◌, ◌∷◌, ◌≡◌,
}
use structured_chaos.Confidence.{blank}
use structured_chaos.Extract.Concept.{extract_concept}
use structured_chaos.Schema.Backfill.{
  BackfillEnv, backfill, backfill_case, backfill_concept_batch, scanned, was_absent,
}
use structured_chaos.Schema.Backfill.Marked.{backfill_all, backfill_once}
use structured_chaos.Schema.Backfill.Stuck.{backfill_stuck}
use structured_chaos.Schema.Dedup.{DedupTools, dedup_field, dedup_registry}
use structured_chaos.Schema.Dedup.Invariant.{IsMerged, dedup_registry-IsMerged}
use structured_chaos.Schema.Dedup.Settled.{dedup_registry_again}
use structured_chaos.Schema.Pii.{NameTools, checksum, luhn_ok}
use structured_chaos.Schema.Pii.Luhn.{luhn_ok-one_digit}
use structured_chaos.Schema.Promote.{BackfillJob, is_open_name, promote, promote_heads}
use structured_chaos.Schema.Promote.Earned.{is_earned, promote-is_earned}
use structured_chaos.Schema.Promote.Rounds.{is_field_promoted}
use structured_chaos.Schema.Promote.Heads.{is_promoted, promote_heads-is_promoted, support_of}
use structured_chaos.Store.Case.{new_case}
use structured_chaos.Store.Database.{Database}
use structured_chaos.Store.Documents.{
  NormalisedContent, SourceDocument, get_case_normalised_text, list_case_source_documents, message,
}
use structured_chaos.Store.Log.{CurrentField, Logs, correction}
use structured_chaos.Store.Registry.{
  EmergentField, EmergentHead, Registry, list_undeduped_variants, nearest_canonical_field,
  set_field_embedding_canonical,
}
use structured_chaos.Store.Registry.Backlog.{cases_needing_backfill, record_backfill_attempt}

abbrev names : NameTools
names = record {
  tokens = λ s. s ∷ [];
  lower = λ s. s;
  squash = λ s. s;
  contains = λ s t. false;
  has_ssn = λ s. false;
  card_runs = λ s. [];
}

abbrev field : String → Option String → Option String → EmergentField
field name embedding canonical = record {
  field_name_hash = name;
  field_name = name;
  head = some "fee";
  embedding = embedding;
  support_count = 9;
  canonical_hash = canonical;
  promoted = false;
  sensitivity = none;
  first_seen_at = 100;
}

abbrev head : ℕ → EmergentHead
head support = record { support_count = support; promoted = false; sensitivity = none }

abbrev registry : Registry
registry = record {
  fields =
      field "late_fee" (some "v") (some "late_fee")
      ∷ field "lateness_fee" none none
      ∷ field "pin_fee" (some "w") none
      ∷ [];
  heads = ("fee", head 5) ∷ ("pin", head 6) ∷ ("date", head 2) ∷ [];
  minted = [];
  attempts = [];
  qualifier_column = none;
}

abbrev no_logs : Logs
no_logs = record { extractions = []; citations = []; corrections = []; current = [] }

promote_heads-is_promoted_example : is_promoted "pin" (promote_heads names registry).0 ≡ (
    is_promoted "pin" registry || (leb 4 (support_of "pin" registry) && is_open_name names "pin"))
promote_heads-is_promoted_example =
    promote_heads-is_promoted names "pin" registry (refl, (refl, (refl, tt)))

promote-is_earned_example :
    let after = (promote names no_logs registry).0 in
    is_field_promoted "pin_fee" after ≡ (
      is_field_promoted "pin_fee" registry
      || any
          (λ e.
            (e.field_name_hash =? "pin_fee")
            && is_earned names no_logs registry.fields after.heads e)
          registry.fields)
promote-is_earned_example = promote-is_earned names no_logs "pin_fee" registry

abbrev card_end : List ℕ
card_end = 1 ∷ 1 ∷ 1 ∷ 1 ∷ 1 ∷ 1 ∷ 1 ∷ 1 ∷ 1 ∷ 1 ∷ 1 ∷ 1 ∷ 1 ∷ 1 ∷ []

luhn_ok-one_digit_example : luhn_ok ((4 ∷ []) ++ 7 ∷ card_end) ≡ false
unfolding luhn_ok checksum
luhn_ok-one_digit_example =
    luhn_ok-one_digit (4 ∷ []) card_end 1 7 (omega arith) (omega arith) (omega arith) refl

abbrev dedup : DedupTools
dedup = record { embed = λ s. s; similarity = λ a b. 9000; adjudicate = λ a b. none }

abbrev fields_IsMerged : IsMerged registry.fields
fields_IsMerged = record {
  unique = (refl, (refl, (refl, tt)));
  placed = (refl, (refl, (refl, tt)));
  merged = (refl, (refl, (refl, tt)));
}

dedup_registry-IsMerged_example : IsMerged (dedup_registry dedup registry).0.fields
dedup_registry-IsMerged_example = dedup_registry-IsMerged dedup registry fields_IsMerged

dedup_registry_again_example :
    dedup_registry dedup (dedup_registry dedup registry).0 ≡ ((dedup_registry dedup registry).0, [])
dedup_registry_again_example = dedup_registry_again dedup dedup registry

-- The synonym under the same head became an alias of the first field.
merged_synonym :
    map (λ e. e.canonical_hash) (dedup_registry dedup registry).0.fields
    ≡ some "late_fee" ∷ some "late_fee" ∷ none ∷ []
unfolding dedup_registry dedup_field set_field_embedding_canonical nearest_canonical_field
    list_undeduped_variants
merged_synonym = refl

abbrev backfiller : BackfillEnv
backfiller = record {
  py = record {
    lower = λ s. s;
    strip = λ s. s;
    tokens = λ s. s ∷ [];
    contains = λ s t. true;
    size = λ s. 4;
    spaced = λ s. s;
  };
  floats = record { product = λ a b. 9000; strip = λ s. s };
  calibration = blank;
  answer = λ text h q. none;
  name_hash = λ s. s;
  run_id = λ n s. n;
  model = "m";
  now = 200;
}

abbrev job : BackfillJob
job = record {
  concept_key = "fee";
  head = "fee";
  qualifier = none;
  categories = "billing_charge" ∷ [];
  batch_size = 1;
}

abbrev categorised : CurrentField
categorised = record {
  case_id = 1;
  field_path = "category";
  value = some "billing_charge";
  source_kind = correction;
  source_id = 1;
  confidence = none;
}

abbrev bare : Database
bare = record {
  cases = (1, new_case "whatsapp" 100 none) ∷ [];
  ledger = [];
  logs = record no_logs { current = categorised ∷ [] };
  objects = record { records = []; keys = []; embeddings = [] };
  documents = record { sources = []; contents = [] };
  outbox = [];
  registry = registry;
  jobs = [];
  policy_yaml = none;
  decisions = [];
}

backfill_stuck_example : backfill backfiller job 7 bare ≡ (bare, job ∷ [])
unfolding cases_needing_backfill get_case_normalised_text list_case_source_documents
backfill_stuck_example = backfill_stuck backfiller job 7 bare refl (refl, tt)

abbrev letter : SourceDocument
letter = record {
  id = 2;
  case_id = 1;
  sha256 = "h";
  blob_key = "h";
  mime = "text/plain";
  channel = "whatsapp";
  byte_size = 4;
  received_at = 100;
  doc_kind = message;
}

abbrev letter_text : NormalisedContent
letter_text = record {
  case_id = 1;
  source_document_id = 2;
  text = "late";
  language = "en";
  spans = [];
  stage = "normalise.text";
  model = "-";
  model_version = "1";
}

abbrev written_case : Database
written_case = record bare {
  documents = record { sources = letter ∷ []; contents = letter_text ∷ [] };
}

-- The same concept with other categories, after a batch of another concept.
abbrev wider : BackfillJob
wider = record job { batch_size = 9 }

abbrev others : List (BackfillEnv × BackfillJob × ℕ)
others = (backfiller, record job { concept_key = "colour" }, 8) ∷ []

backfill_once_example :
    any
      (λ i. i =? 1)
      (scanned wider (backfill_all others (backfill_concept_batch backfiller job 7 written_case).0))
    ≡ false
unfolding cases_needing_backfill get_case_normalised_text list_case_source_documents backfill_case
    extract_concept record_backfill_attempt
backfill_once_example =
    backfill_once backfiller job wider 7 written_case 1 was_absent others refl (cc) refl
