-- ===== src/Elicit/Provenance.antt =====
-- What a bind leaves behind: engine/app/resolve/snapshot.py, engine/app/resolve/contradiction.py and
-- `_record_provenance` of engine/app/elicit/stage.py. The hash, the JSON text and the model are
-- parameters.
use structured_chaos.Prelude.{
  Bool, List, Option, String, String-Eq, Table, [], false, if◌then◌else◌, is_some, keep, length,
  lookup, map, none, or_else, some, true, ℕ, ℕ-Eq, ◌&&◌, ◌=?◌, ◌||◌, ◌∷◌,
}
use structured_chaos.Elicit.Grounding.{TextTools}
use structured_chaos.Elicit.Policy.{truthy}
use structured_chaos.Resolve.Objects.{get_object}
use structured_chaos.Resolve.Resolver.{Lookups, Mode, Resolution, confirm, elicit, silent}
use structured_chaos.Store.Case.{get_case_channel}
use structured_chaos.Store.Database.{Database}
use structured_chaos.Store.Documents.{SourceDocument, add_source_document, object_snapshot}
use structured_chaos.Store.Log.{
  Citation, cite_all, contradicts, disagreement, get_latest_extraction_id, mismatch,
}

-- One entry of the model's answer: a key that is missing or null is `none`.
pub record RawContradiction : Type 0 where
  pub record_field : Option String
  pub record_value : Option String
  pub claim : Option String

pub record Contradiction : Type 0 where
  pub record_field : String
  pub record_value : String
  pub claim : String

abbrev pub Attributes : Type 0
Attributes = Table String String

-- The grounding gate: the cited field exists in the record, and nothing is empty.
abbrev pub grounded_entry : Attributes → RawContradiction → Bool
grounded_entry rec c = elim c.record_field [
  | none ↦ false
  | some f ↦ is_some (lookup f rec) && truthy c.record_value && truthy c.claim
]

abbrev pub as_contradiction : RawContradiction → Contradiction
as_contradiction c = record {
  record_field = or_else c.record_field "";
  record_value = or_else c.record_value "";
  claim = or_else c.claim "";
}

abbrev pub is_empty {ℓ} : {A : Type ℓ} → List A → Bool
is_empty [] = true
is_empty (x ∷ xs) = false

-- The model answers with the decoded list, or with `none` for a text that is no JSON.
unfoldable pub detect_contradictions :
    (String → Bool)
    → (String → Attributes → Option (List RawContradiction))
    → String
    → Attributes
    → List Contradiction
detect_contradictions is_blank llm complaint rec =
    if is_blank complaint || is_empty rec then [] else elim (llm complaint rec) [
      | none ↦ []
      | some entries ↦ map as_contradiction (keep (grounded_entry rec) entries)
    ]

-- What the stage gets from outside of the repository. An absent backend is `none`.
pub record Services : Type 0 where
  pub py : TextTools
  pub is_blank : String → Bool  -- `not s.strip()`
  pub sha256 : String → String
  pub uuid_text : ℕ → String
  pub dumps : Table String String → String  -- `json.dumps(governed, sort_keys=True)`
  pub payload : String × Option String × Attributes → String
  pub byte_size : String → ℕ
  pub lookups : Lookups
  pub llm : Option (String → Attributes → Option (List RawContradiction))
  pub has_blob : Bool
  pub code_version : String

abbrev pub snapshot_document :
    Services → ℕ → ℕ → ℕ → String → String × Option String × Attributes → SourceDocument
snapshot_document env now new_id case channel obj = record {
  id = new_id;
  case_id = case;
  sha256 = env.sha256 (env.payload obj);
  blob_key = env.sha256 (env.payload obj);
  mime = "application/json";
  channel = channel;
  byte_size = env.byte_size (env.payload obj);
  received_at = now;
  doc_kind = object_snapshot;
}

-- The blob store's own state is not kept: it has every payload under its hash.
unfoldable pub snapshot_object : Services → ℕ → ℕ → ℕ → ℕ → Database → Database × Option ℕ
snapshot_object env now new_id case object_id db = elim (get_object object_id db.objects) [
  | none ↦ (db, none)
  | some obj ↦ elim (get_case_channel case db.cases) [
    | none ↦ (db, none)
    | some channel ↦
        let (docs, id) =
          add_source_document (snapshot_document env now new_id case channel obj) db.documents in
        (record db { documents = docs }, some id)
  ]
]

abbrev pub disagreement_of : ℕ → Contradiction → Citation
disagreement_of snap c = record {
  source_document_id = snap;
  role = contradicts;
  locator = some (disagreement c.record_field c.record_value c.claim);
  weight = none;
}

abbrev pub mismatch_of : ℕ → Citation
mismatch_of snap = record {
  source_document_id = snap;
  role = contradicts;
  locator = some (mismatch "quoted id belongs to a different record than the sender's phone");
  weight = none;
}

abbrev pub cite : ℕ → List Citation → Database → Database
cite extraction_id cs db = record db { logs = cite_all extraction_id cs db.logs }

-- The contradictions that the model finds, if there is a snapshot, a model, a fault and an object.
abbrev pub found :
    Services
    → Option ℕ
    → Option String
    → Option (String × Option String × Attributes)
    → List Contradiction
found env (some snap) (some complaint) (some (object_type, external_id, attrs)) = elim env.llm [
  | none ↦ []
  | some llm ↦
      if complaint =? "" then [] else detect_contradictions env.is_blank llm complaint attrs
]
found env snap complaint obj = []

abbrev pub cite_found :
    Option ℕ → Option ℕ → List Contradiction → Database → Database × Option ℕ × ℕ
cite_found (some snap) (some ext) cs db =
    (cite ext (map (disagreement_of snap) cs) db, some snap, length cs)
cite_found snap ext cs db = (db, snap, 0)

abbrev pub cite_mismatch : Option ℕ → Option ℕ → Database → Database × Option ℕ × ℕ
cite_mismatch (some snap) (some ext) db = (cite ext (mismatch_of snap ∷ []) db, some snap, 1)
cite_mismatch snap ext db = (db, snap, 0)

abbrev pub is_silent : Mode → Bool
is_silent silent = true
is_silent confirm = false
is_silent elicit = false

unfoldable pub record_provenance :
    Services → ℕ → ℕ → ℕ → Resolution → Option String → Database → Database × Option ℕ × ℕ
record_provenance env now new_id case r fault_value db = elim r.object_id [
  | none ↦ (db, none, 0)
  | some object_id ↦
      let (after, snap) = snapshot_object env now new_id case object_id db in
      if is_silent r.mode
      then cite_found snap (get_latest_extraction_id case "fault" after.logs)
          (found env snap fault_value (get_object object_id after.objects)) after
      else if r.is_contradiction
      then cite_mismatch snap (get_latest_extraction_id case "anchor_value" after.logs) after
      else (db, none, 0)
]
