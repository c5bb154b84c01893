-- ===== src/Extract/Stage.antt =====
-- engine/app/extract/stage.py: extract_case, one transaction. The model's answers, the hash, the ids and
-- Python's `str` methods are parameters; metering and log lines are left out.
pub mod SameText
use Prim.Native.String.{◌++◌ as str_append}
use structured_chaos.Prelude.{
  Bool, List, Option, String, String-Eq, Table, [], false, if◌then◌else◌, length, none, not, some,
  sort_by, suc, text_lt, true, ℕ, ℕ-Eq, ◌++◌, ◌+◌, ◌=?◌, ◌∷◌,
}
use structured_chaos.Confidence.{Calibration, FloatTools, confidence}
use structured_chaos.Extract.Extractor.{ExtractionResult, RawExtraction, extract, grounded_emergent}
use structured_chaos.Extract.Grounded.{EmergentAttribute, SourceTools, name_of}
use structured_chaos.Extract.Names.{head_nouns}
use structured_chaos.Extract.Profile.{ProfileTools}
use structured_chaos.Extract.Provenance.{LocateTools, build_field_citations}
use structured_chaos.Schema.Backfill.{register_attribute}
use structured_chaos.Store.Database.{Database, elicit_job, rules_job}
use structured_chaos.Store.Documents.{
  NormalisedContent, get_case_normalised_text, list_case_normalised_spans,
  list_case_source_documents,
}
use structured_chaos.Store.Ledger.{Versions, claim_stage, complete_stage, compute_idempotency_key}
use structured_chaos.Store.Log.{
  Citation, Extraction, Layer, Logs, emergent, governed_core, rebuild_field_current,
  record_extraction,
}
use structured_chaos.Store.Registry.{Registry}
use structured_chaos.Store.Registry.Minted.{list_minted_head_glosses, list_minted_heads}

pub record ExtractEnv : Type 0 where
  pub py : SourceTools
  pub profile : ProfileTools
  pub locator : LocateTools
  pub floats : FloatTools
  pub calibration : Calibration
  pub ratio : ℕ → ℕ → String  -- the quotient, as a float
  pub answer : String → List String → Table String String → Option RawExtraction
  pub sha256 : String → String
  pub first_eight : String → String  -- `s[:8]`
  pub prompt_version : String
  pub model : String
  pub code_version : String
  pub now : ℕ

abbrev pub join_commas : List String → String
join_commas [] = ""
join_commas (s ∷ []) = s
join_commas (s ∷ t ∷ ts) = str_append s (str_append "," (join_commas (t ∷ ts)))

abbrev pub vocab_sig : ExtractEnv → List String → String
vocab_sig env [] = ""
vocab_sig env (h ∷ hs) =
    str_append "+h" (env.first_eight (env.sha256 (join_commas (sort_by text_lt (h ∷ hs)))))

abbrev pub extract_versions : ExtractEnv → String → List String → Versions
extract_versions env text minted = record {
  source_sha256 = env.sha256 text;
  stage = "extract";
  model_version = env.model;
  prompt_version = str_append env.prompt_version (vocab_sig env minted);
  code_version = env.code_version;
}

unfoldable pub extract_key : ExtractEnv → String → List String → String
extract_key env text minted = compute_idempotency_key env.sha256 (extract_versions env text minted)

abbrev pub extracted_row : ExtractEnv → ℕ → ℕ → ℕ → String → String → Layer → ℕ → Extraction
extracted_row env id case run path value layer conf = record {
  id = id;
  case_id = case;
  field_path = path;
  value = some value;
  layer = layer;
  model = env.model;
  model_version = env.model;
  prompt_version = env.prompt_version;
  confidence = conf;
  run_id = run;
  created_at = env.now;
}

-- The texts and documents that the values cite.
pub record Sources : Type 0 where
  pub spans : List (String × NormalisedContent)
  pub docs : List ℕ

abbrev pub cite : ExtractEnv → Sources → String → List Citation
cite env src value = build_field_citations env.locator value src.spans src.docs

-- The governed values: none is recorded for a value that is absent or empty. The ids are the next
-- numbers; `none`: record_extraction raised.
abbrev pub write_governed :
    ExtractEnv → ℕ → ℕ → Sources → ℕ → Table String (Option String) → Logs → Option Logs
write_governed env case run src id [] l = some l
write_governed env case run src id ((path, value) ∷ values) l = elim value [
  | none ↦ write_governed env case run src (suc id) values l
  | some v ↦
      let skip = write_governed env case run src (suc id) values l in
      let row =
        extracted_row env id case run path v governed_core
          (confidence env.floats env.calibration path (some v) "1.0") in
      let next : Option Logs = elim (record_extraction row (cite env src v) l) [
        | none ↦ none
        | some (after, _) ↦ write_governed env case run src (suc id) values after
      ] in
      if v =? "" then skip else next
]

abbrev pub write_emergent :
    ExtractEnv
    → ℕ
    → ℕ
    → Sources
    → String
    → ℕ
    → List EmergentAttribute
    → Logs
    → Registry
    → Option (Logs × Registry)
write_emergent env case run src validity id [] l r = some (l, r)
write_emergent env case run src validity id (a ∷ rest) l r =
    let name = name_of env.py a in
    let row =
      extracted_row env id case run name a.value emergent
        (confidence env.floats env.calibration name (some a.value) validity) in
    elim (record_extraction row (cite env src a.value) l) [
      | none ↦ none
      | some (after, _) ↦
          write_emergent env case run src validity (suc id) rest after
            (register_attribute env.py env.sha256 env.now a after r)
    ]

abbrev pub field_validity : ExtractEnv → ExtractionResult → String
field_validity env result =
    let n = length result.emergent in
    if n =? 0 then "1.0" else env.ratio (length (grounded_emergent result)) n

abbrev pub write_result :
    ExtractEnv → ℕ → ℕ → Sources → ℕ → ExtractionResult → Logs → Registry → Option (Logs × Registry)
write_result env case run src id result l r =
    elim (write_governed env case run src id result.governed l) [
      | none ↦ none
      | some after ↦
          write_emergent env case run src (field_validity env result) (id + length result.governed)
            (grounded_emergent result) after r
    ]

-- After the claim: the values, the projection, the ledger, and the two stages that follow.
abbrev pub finish : ℕ → String → Database → Option (Logs × Registry) → Option (Database × Bool)
finish case key db none = none
finish case key db (some (logs, registry)) = some (
  record db {
    logs = (rebuild_field_current case logs).0;
    registry = registry;
    ledger = complete_stage key db.ledger;
    jobs = rules_job case ∷ elicit_job case ∷ db.jobs;
  },
  true,
)

abbrev pub heads_of : List String → List String
heads_of minted = head_nouns ++ minted

abbrev pub sources_of : ℕ → Database → Sources
sources_of case db = record {
  spans = list_case_normalised_spans case db.documents;
  docs = list_case_source_documents case db.documents;
}

abbrev pub answered : ExtractEnv → ℕ → Database → ExtractionResult
answered env case db =
    let text = get_case_normalised_text case db.documents in
    let heads = heads_of (list_minted_heads db.registry) in
    extract env.py env.profile heads text
      (env.answer text heads (list_minted_head_glosses db.registry))

-- `none`: an exception, and the transaction is undone. The flag says whether extraction ran; `run` and
-- `id` are the ids of the run and of its first row.
unfoldable pub extract_case : ExtractEnv → ℕ → ℕ → ℕ → Database → Option (Database × Bool)
extract_case env run id case db =
    let text = get_case_normalised_text case db.documents in
    let key = extract_key env text (list_minted_heads db.registry) in
    let (ledger, fresh) = claim_stage key db.ledger in
    if env.py.strip text =? ""
    then some (db, false)
    else if not fresh
    then some (db, false)
    else finish case key (record db { ledger = ledger })
        (write_result env case run (sources_of case db) id (answered env case db) db.logs
          db.registry)
