-- ===== src/Pipeline.antt =====
-- engine/app/pipeline.py and the tasks of engine/app/queue.py that mark a case whose stage failed for
-- good. The blob store, the normaliser, sha256 and the formatting of a version are parameters; the
-- meter is left out. `none` is an exception, and the transaction is undone.
pub mod Chained
mod Tests
use Prim.Native.String.{◌++◌ as str_append}
use structured_chaos.Prelude.{
  Bool, List, Option, String, String-Eq, false, if◌then◌else◌, none, some, true, ℕ, ℕ-Eq, ◌=?◌, ◌∷◌,
}
use structured_chaos.Extract.Stage.{ExtractEnv, extract_case}
use structured_chaos.Store.Case.{fail_case_processing}
use structured_chaos.Store.Database.{Database, extract_job}
use structured_chaos.Store.Documents.{
  NormalisedContent, Span, get_source_document, save_normalised_content,
}
use structured_chaos.Store.Ledger.{
  Versions, claim_stage, complete_stage, compute_idempotency_key, fail_stage,
}

pub record Content : Type 0 where
  pub text : String
  pub language : String
  pub spans : List Span
  pub stage : String
  pub model : String
  pub model_version : String
  pub degraded : Bool

pub record PipelineEnv : Type 0 where
  pub sha256 : String → String
  pub starts_with : String → String → Bool  -- `mime.startswith(prefix)`, the prefix first
  pub whisper_model : String
  pub ocr_lang : String
  pub code_version : String
  pub get : String → Option String  -- `blob.get`
  pub normalise : ℕ → String → String → Option Content

abbrev pub model_version_tag : PipelineEnv → String → String
model_version_tag env mime =
    if env.starts_with "audio/" mime
    then str_append "faster-whisper/" env.whisper_model
    else if env.starts_with "image/" mime
    then str_append "paddleocr/" env.ocr_lang
    else if mime =? "application/pdf"
    then "pdfplumber+pypdfium2"
    else if env.starts_with "text/" mime
    then str_append "passthrough/" env.code_version
    else "raw"

abbrev pub normalise_versions : PipelineEnv → String → String → Versions
normalise_versions env sha mime = record {
  source_sha256 = sha;
  stage = "normalise";
  model_version = model_version_tag env mime;
  prompt_version = "-";
  code_version = env.code_version;
}

unfoldable pub normalise_key : PipelineEnv → String → String → String
normalise_key env sha mime = compute_idempotency_key env.sha256 (normalise_versions env sha mime)

abbrev pub content_row : ℕ → ℕ → Content → NormalisedContent
content_row case id c = record {
  case_id = case;
  source_document_id = id;
  text = c.text;
  language = c.language;
  spans = c.spans;
  stage = c.stage;
  model = c.model;
  model_version = c.model_version;
}

abbrev pub or_none_text : String → Option String
or_none_text s = if s =? "" then none else some s

-- After the normaliser: a degraded result is kept, but its stage can be claimed again.
abbrev pub saved : ℕ → ℕ → String → Content → Database → Database × Option String
saved case id key c db =
    let documents = save_normalised_content (content_row case id c) db.documents in
    if c.degraded
    then (
      record db { documents = documents; ledger = fail_stage key db.ledger },
      or_none_text c.text,
    )
    else (
      record db {
        documents = documents;
        ledger = complete_stage key db.ledger;
        jobs = extract_job case ∷ db.jobs;
      },
      some c.text,
    )

abbrev pub normalised_by : PipelineEnv → ℕ → String → String → Option Content
normalised_by env id blob_key mime = elim (env.get blob_key) [
  | none ↦ none
  | some bytes ↦ env.normalise id bytes mime
]

abbrev pub with_content :
    ℕ → ℕ → String → Database → Option Content → Option (Database × Option String)
with_content case id key db none = none
with_content case id key db (some c) = some (saved case id key c db)

abbrev pub normalise_row :
    PipelineEnv → ℕ → ℕ × String × String × String → Database → Option (Database × Option String)
normalise_row env id (case, sha, blob_key, mime) db =
    let key = normalise_key env sha mime in
    let (ledger, fresh) = claim_stage key db.ledger in
    if fresh
    then with_content case id key (record db { ledger = ledger })
        (normalised_by env id blob_key mime)
    else some (db, none)

-- The text that was normalised, if the stage ran.
unfoldable pub normalise_source_document :
    PipelineEnv → ℕ → Database → Option (Database × Option String)
normalise_source_document env id db = elim (get_source_document id db.documents) [
  | none ↦ some (db, none)
  | some row ↦ normalise_row env id row db
]

-- The flag says that the queue will try again; `get_retry_exception` is the queue's.
unfoldable pub fail_case_if_terminal : Bool → ℕ → Database → Database
fail_case_if_terminal retry case db =
    if retry then db else record db { cases = (fail_case_processing case db.cases).0 }

-- The flag of the result says that the task raised.
unfoldable pub normalise_document : PipelineEnv → Bool → ℕ → Database → Database × Bool
normalise_document env retry id db = elim (normalise_source_document env id db) [
  | some (after, text) ↦ (after, false)
  | none ↦ (
    elim (get_source_document id db.documents) [
      | none ↦ db
      | some row ↦ fail_case_if_terminal retry row.0 db
    ],
    true,
  )
]

unfoldable pub extract_case_task : ExtractEnv → Bool → ℕ → ℕ → ℕ → Database → Database × Bool
extract_case_task env retry run id case db = elim (extract_case env run id case db) [
  | some (after, ran) ↦ (after, false)
  | none ↦ (fail_case_if_terminal retry case db, true)
]
