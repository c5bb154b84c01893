-- ===== src/Schema/Backfill.antt =====
-- engine/app/schema/backfill.py and the task `backfill` of engine/app/queue.py. The model's answers,
-- the hashes and Python's `str` methods are parameters; metering is left out.
pub mod Marked
pub mod Stuck
use structured_chaos.Prelude.{
  Bool, List, Option, String, String-Eq, [], false, if◌then◌else◌, length, map, none, some, suc,
  true, ℕ, ℕ-Eq, ◌=?◌, ◌||◌, ◌∷◌,
}
use structured_chaos.Confidence.{Calibration, FloatTools, confidence}
use structured_chaos.Extract.Concept.{ConceptAnswer, extract_concept}
use structured_chaos.Extract.Grounded.{EmergentAttribute, SourceTools, name_of}
use structured_chaos.Schema.Promote.{BackfillJob}
use structured_chaos.Store.Database.{Database}
use structured_chaos.Store.Documents.{get_case_normalised_text, list_case_source_documents}
use structured_chaos.Store.Log.{
  Citation, Extraction, Logs, emergent, primary, rebuild_field_current, record_extraction,
}
use structured_chaos.Store.Registry.{
  Registry, absent, found, register_emergent_field, register_emergent_head,
}
use structured_chaos.Store.Registry.Backlog.{cases_needing_backfill, record_backfill_attempt}

pub record BackfillEnv : Type 0 where
  pub py : SourceTools
  pub floats : FloatTools
  pub calibration : Calibration
  pub answer : String → String → Option String → Option ConceptAnswer  -- text, head, qualifier
  pub name_hash : String → String
  pub run_id : ℕ → String → ℕ  -- uuid5 of the case, the concept and the prompt's version
  pub model : String
  pub now : ℕ

abbrev pub concept_prompt_version : String
concept_prompt_version = "concept-v1"

abbrev pub whole_document : ℕ → Citation
whole_document id = record {
  source_document_id = id;
  role = primary;
  locator = none;
  weight = none;
}

abbrev pub backfilled_row : BackfillEnv → ℕ → ℕ → BackfillJob → EmergentAttribute → Extraction
backfilled_row env id case job a = record {
  id = id;
  case_id = case;
  field_path = name_of env.py a;
  value = some a.value;
  layer = emergent;
  model = env.model;
  model_version = env.model;
  prompt_version = concept_prompt_version;
  confidence = confidence env.floats env.calibration (name_of env.py a) (some a.value) "1.0";
  run_id = env.run_id case job.concept_key;
  created_at = env.now;
}

-- `register_emergent_field` and `register_emergent_head`, on the logs with the new row.
abbrev pub register_attribute :
    SourceTools → (String → String) → ℕ → EmergentAttribute → Logs → Registry → Registry
register_attribute py name_hash now a l r =
    let name = name_of py a in
    let (with_field, _) = register_emergent_field name (name_hash name) (some a.head) now l r in
    let (with_head, _) = register_emergent_head a.head l with_field in with_head

-- `none`: record_extraction raised, and the transaction is undone.
abbrev pub write_found :
    BackfillEnv → ℕ → ℕ → List ℕ → BackfillJob → EmergentAttribute → Database → Option Database
write_found env id case docs job a db =
    elim (record_extraction (backfilled_row env id case job a) (map whole_document docs) db.logs) [
      | none ↦ none
      | some (logs, _) ↦ some (record db {
        logs = (rebuild_field_current case logs).0;
        registry =
            record_backfill_attempt case job.concept_key found
              (register_attribute env.py env.name_hash env.now a logs db.registry);
      })
    ]

abbrev pub mark_absent : ℕ → BackfillJob → Database → Database
mark_absent case job db = record db {
  registry = record_backfill_attempt case job.concept_key absent db.registry;
}

pub data CaseResult : Type 0 where
  was_found was_absent was_skipped : CaseResult

abbrev pub text_of : ℕ → Database → String
text_of case db = get_case_normalised_text case db.documents

-- A case that has no text, or no inbound document.
abbrev pub is_unready : BackfillEnv → ℕ → Database → Bool
is_unready env case db =
    (env.py.strip (text_of case db) =? "")
    || (length (list_case_source_documents case db.documents) =? 0)

abbrev pub concept_of : BackfillEnv → BackfillJob → ℕ → Database → Option EmergentAttribute
concept_of env job case db =
    let text = text_of case db in
    extract_concept env.py text job.head job.qualifier (env.answer text job.head job.qualifier)

abbrev pub written : Option Database → Option (Database × CaseResult)
written none = none
written (some after) = some (after, was_found)

abbrev pub conclude :
    BackfillEnv
    → BackfillJob
    → ℕ
    → ℕ
    → Database
    → Option EmergentAttribute
    → Option (Database × CaseResult)
conclude env job id case db none = some (mark_absent case job db, was_absent)
conclude env job id case db (some a) =
    written (write_found env id case (list_case_source_documents case db.documents) job a db)

-- One case; the id is that of the new row.
unfoldable pub backfill_case :
    BackfillEnv → BackfillJob → ℕ → ℕ → Database → Option (Database × CaseResult)
backfill_case env job id case db =
    if is_unready env case db
    then some (db, was_skipped)
    else conclude env job id case db (concept_of env job case db)

-- The cases of the batch, each a transaction of its own; an exception ends the batch, and the cases
-- before it stay done.
abbrev pub backfill_cases :
    BackfillEnv → BackfillJob → ℕ → List ℕ → Database → Database × List CaseResult × Bool
backfill_cases env job id [] db = (db, [], true)
backfill_cases env job id (case ∷ cases) db = elim (backfill_case env job id case db) [
  | none ↦ (db, [], false)
  | some (after, result) ↦
      let (final, results, ended) = backfill_cases env job (suc id) cases after in
      (final, result ∷ results, ended)
]

abbrev pub scanned : BackfillJob → Database → List ℕ
scanned job db =
    cases_needing_backfill job.concept_key job.categories job.batch_size db.logs db.registry
      db.cases

-- The results, one for each case, and `more`; `none` for a batch that an exception ended.
unfoldable pub backfill_concept_batch :
    BackfillEnv → BackfillJob → ℕ → Database → Database × Option (List CaseResult × Bool)
backfill_concept_batch env job id db =
    let cases = scanned job db in
    let (final, results, ended) = backfill_cases env job id cases db in
    (final, if ended then some (results, length cases =? job.batch_size) else none)

-- The task: the next batch is queued while a full one came back.
unfoldable pub backfill : BackfillEnv → BackfillJob → ℕ → Database → Database × List BackfillJob
backfill env job id db =
    let (after, outcome) = backfill_concept_batch env job id db in
    elim outcome [
      | none ↦ (after, [])
      | some (results, more) ↦ (after, if more then job ∷ [] else [])
    ]
