-- ===== src/Store/Log.antt =====
-- The append-only provenance logs of engine/app/store/api.py and the projection `field_current`.
-- A log is kept newest first, so the first match is the row with the greatest `seq`. A value is the
-- text of a JSON scalar, `none` is SQL NULL; a confidence is a number of ten-thousandths.
pub mod Projection
pub mod Append
use structured_chaos.Prelude.{
  Bool, List, Option, String, String-Eq, Table, [], any, if◌then◌else◌, keep, length, none, not,
  some, ℕ, ℕ-Eq, ◌&&◌, ◌++◌, ◌=?◌, ◌∷◌,
}

pub data Layer : Type 0 where
  governed_core emergent : Layer

pub data Role : Type 0 where
  primary corroborating derived_from contradicts : Role

pub data Locator : Type 0 where
  chars : ℕ → ℕ → Locator  -- char_start, char_end
  segment : String → Locator  -- the locator of a span: a time range or a box
  disagreement : String → String → String → Locator  -- record_field, record_value, claim
  mismatch : String → Locator  -- reason

pub record Citation : Type 0 where
  pub source_document_id : ℕ
  pub role : Role
  pub locator : Option Locator
  pub weight : Option ℕ

pub record Extraction : Type 0 where
  pub id : ℕ
  pub case_id : ℕ
  pub field_path : String
  pub value : Option String
  pub layer : Layer
  pub model : String
  pub model_version : String
  pub prompt_version : String
  pub confidence : ℕ
  pub run_id : ℕ
  pub created_at : ℕ

pub record Correction : Type 0 where
  pub id : ℕ
  pub case_id : ℕ
  pub field_path : String
  pub prev_value : Option String
  pub new_value : Option String
  pub based_on_extraction_id : Option ℕ
  pub reviewer_id : String
  pub note : Option String

pub data SourceKind : Type 0 where
  correction extraction : SourceKind

pub record CurrentField : Type 0 where
  pub case_id : ℕ
  pub field_path : String
  pub value : Option String
  pub source_kind : SourceKind
  pub source_id : ℕ
  pub confidence : Option ℕ

pub record Logs : Type 0 where
  pub extractions : List Extraction
  pub citations : List (ℕ × Citation)  -- with the extraction's id
  pub corrections : List Correction
  pub current : List CurrentField

-- The row that `UNIQUE (run_id, field_path)` conflicts with.
abbrev pub of_run : ℕ → String → List Extraction → Option ℕ
of_run run path [] = none
of_run run path (e ∷ es) =
    if (e.run_id =? run) && (e.field_path =? path) then some e.id else of_run run path es

unfoldable pub add_citation : ℕ → Citation → Logs → Logs
add_citation extraction_id c l = record l { citations = (extraction_id, c) ∷ l.citations }

abbrev pub cite_all : ℕ → List Citation → Logs → Logs
cite_all extraction_id [] l = l
cite_all extraction_id (c ∷ cs) l = cite_all extraction_id cs (add_citation extraction_id c l)

-- `none` is the ValueError: an extraction must cite at least one source.
unfoldable pub record_extraction : Extraction → List Citation → Logs → Option (Logs × ℕ)
record_extraction e [] l = none
record_extraction e (c ∷ cs) l = elim (of_run e.run_id e.field_path l.extractions) [
  | none ↦ some (cite_all e.id (c ∷ cs) (record l { extractions = e ∷ l.extractions }), e.id)
  | some existing ↦ some (l, existing)
]

unfoldable pub record_correction : Correction → Logs → Logs × ℕ
record_correction c l = (record l { corrections = c ∷ l.corrections }, c.id)

abbrev pub is_at : ℕ → String → ℕ → String → Bool
is_at case path c p = (c =? case) && (p =? path)

abbrev pub latest_ext : ℕ → String → List Extraction → Option Extraction
latest_ext case path [] = none
latest_ext case path (e ∷ es) =
    if is_at case path e.case_id e.field_path then some e else latest_ext case path es

abbrev pub latest_corr : ℕ → String → List Correction → Option Correction
latest_corr case path [] = none
latest_corr case path (c ∷ cs) =
    if is_at case path c.case_id c.field_path then some c else latest_corr case path cs

unfoldable pub get_latest_extraction_id : ℕ → String → Logs → Option ℕ
get_latest_extraction_id case path l = elim (latest_ext case path l.extractions) [
  | none ↦ none
  | some e ↦ some e.id
]

abbrev pub holds : String → List String → Bool
holds p ps = any (λ q. q =? p) ps

-- SELECT DISTINCT
abbrev pub distinct : List String → List String
distinct [] = []
distinct (p ∷ ps) = let rest = distinct ps in if holds p rest then rest else p ∷ rest

abbrev pub ext_paths : ℕ → List Extraction → List String
ext_paths case [] = []
ext_paths case (e ∷ es) =
    let rest = ext_paths case es in if e.case_id =? case then e.field_path ∷ rest else rest

abbrev pub corr_paths : ℕ → List Correction → List String
corr_paths case [] = []
corr_paths case (c ∷ cs) =
    let rest = corr_paths case cs in if c.case_id =? case then c.field_path ∷ rest else rest

abbrev pub from_correction : ℕ → Correction → CurrentField
from_correction case c = record {
  case_id = case;
  field_path = c.field_path;
  value = c.new_value;
  source_kind = correction;
  source_id = c.id;
  confidence = none;
}

abbrev pub from_extraction : ℕ → Extraction → CurrentField
from_extraction case e = record {
  case_id = case;
  field_path = e.field_path;
  value = e.value;
  source_kind = extraction;
  source_id = e.id;
  confidence = some e.confidence;
}

-- One row of the join of the two `latest` tables, before the rows that follow: the CASE
-- expressions of the INSERT.
abbrev pub joined :
    ℕ → Option Extraction → Option Correction → List CurrentField → List CurrentField
joined case e (some c) rows = from_correction case c ∷ rows
joined case (some e) none rows = from_extraction case e ∷ rows
joined case none none rows = rows

abbrev pub projected : ℕ → Logs → List String → List CurrentField → List CurrentField
projected case l [] rows = rows
projected case l (p ∷ ps) rows =
    joined case (latest_ext case p l.extractions) (latest_corr case p l.corrections)
      (projected case l ps rows)

-- The paths of the FULL OUTER JOIN: the extracted ones, then the corrected ones among the others.
abbrev pub joined_paths : ℕ → Logs → List String
joined_paths case l = distinct (ext_paths case l.extractions ++ corr_paths case l.corrections)

abbrev pub of_case : ℕ → CurrentField → Bool
of_case case f = f.case_id =? case

unfoldable pub rebuild_field_current : ℕ → Logs → Logs × ℕ
rebuild_field_current case l =
    let others = keep (λ f. not (of_case case f)) l.current in
    let rows = projected case l (joined_paths case l) others in
    (record l { current = rows }, length (keep (of_case case) rows))

abbrev pub current_at : ℕ → String → List CurrentField → Option CurrentField
current_at case path [] = none
current_at case path (f ∷ fs) =
    if is_at case path f.case_id f.field_path then some f else current_at case path fs

-- The dict of present values, for the given paths.
abbrev pub present_value : Option CurrentField → Option String
present_value none = none
present_value (some f) = elim f.value [ none ↦ none | some v ↦ if v =? "" then none else some v ]

unfoldable pub get_field_values : ℕ → List String → Logs → Table String String
get_field_values case [] l = []
get_field_values case (p ∷ ps) l =
    let rest = get_field_values case ps l in
    elim (present_value (current_at case p l.current)) [ none ↦ rest | some v ↦ (p, v) ∷ rest ]
