-- ===== src/Store/Documents.antt =====
-- `source_document` and `normalised_content`: the immutable originals and their derived texts, by the
-- functions of engine/app/store/api.py. Originals are kept newest first; a derived text keeps the
-- place of its creation, oldest first.
pub mod Content
use Prim.Native.String.{◌++◌ as str_append}
use structured_chaos.Prelude.{
  Bool, List, Option, String, String-Eq, [], false, if◌then◌else◌, keep, leb, ltb, map, max, none,
  not, some, true, ℕ, ℕ-Eq, ◌&&◌, ◌=?◌, ◌||◌, ◌∷◌,
}
use structured_chaos.Elicit.Policy.{CaseState}
use structured_chaos.Store.Case.{CaseRecord, Cases}
use structured_chaos.Store.Log.{Locator}

pub data DocKind : Type 0 where
  message file object_snapshot : DocKind

pub record SourceDocument : Type 0 where
  pub id : ℕ
  pub case_id : ℕ
  pub sha256 : String
  pub blob_key : String
  pub mime : String
  pub channel : String
  pub byte_size : ℕ
  pub received_at : ℕ
  pub doc_kind : DocKind

-- A span of a derived text, with the place in the original that it comes from.
pub record Span : Type 0 where
  pub text : String
  pub locator : Option Locator

pub record NormalisedContent : Type 0 where
  pub case_id : ℕ
  pub source_document_id : ℕ
  pub text : String
  pub language : String
  pub spans : List Span
  pub stage : String
  pub model : String
  pub model_version : String

pub record Documents : Type 0 where
  pub sources : List SourceDocument
  pub contents : List NormalisedContent

abbrev pub with_sha : String → List SourceDocument → Option ℕ
with_sha h [] = none
with_sha h (d ∷ ds) = if d.sha256 =? h then some d.id else with_sha h ds

-- The new row has the id that the database generates; known bytes give the row that has them.
unfoldable pub add_source_document : SourceDocument → Documents → Documents × ℕ
add_source_document d docs = elim (with_sha d.sha256 docs.sources) [
  | none ↦ (record docs { sources = d ∷ docs.sources }, d.id)
  | some existing ↦ (docs, existing)
]

abbrev pub find_source : ℕ → List SourceDocument → Option SourceDocument
find_source id [] = none
find_source id (d ∷ ds) = if d.id =? id then some d else find_source id ds

unfoldable pub get_source_document : ℕ → Documents → Option (ℕ × String × String × String)
get_source_document id docs = elim (find_source id docs.sources) [
  | none ↦ none
  | some d ↦ some (d.case_id, d.sha256, d.blob_key, d.mime)
]

abbrev pub is_inbound : DocKind → Bool
is_inbound message = true
is_inbound file = true
is_inbound object_snapshot = false

-- ORDER BY received_at, id
abbrev pub insert_source : SourceDocument → List SourceDocument → List SourceDocument
insert_source d [] = d ∷ []
insert_source d (e ∷ es) =
    let rest = insert_source d es in
    if ltb e.received_at d.received_at || ((e.received_at =? d.received_at) && leb e.id d.id)
    then e ∷ rest
    else d ∷ e ∷ es

abbrev pub sort_sources : List SourceDocument → List SourceDocument
sort_sources [] = []
sort_sources (d ∷ ds) = insert_source d (sort_sources ds)

unfoldable pub list_case_source_documents : ℕ → Documents → List ℕ
list_case_source_documents case docs =
    map (λ d. d.id)
      (sort_sources (keep (λ d. (d.case_id =? case) && is_inbound d.doc_kind) docs.sources))

abbrev pub same_stage : NormalisedContent → NormalisedContent → Bool
same_stage c d = (c.source_document_id =? d.source_document_id) && (c.stage =? d.stage)

-- ON CONFLICT DO UPDATE: the columns that are set; `case_id` is not one of them.
abbrev pub put_content : NormalisedContent → List NormalisedContent → List NormalisedContent
put_content c [] = c ∷ []
put_content c (d ∷ ds) =
    if same_stage c d then record c { case_id = d.case_id } ∷ ds else d ∷ put_content c ds

unfoldable pub save_normalised_content : NormalisedContent → Documents → Documents
save_normalised_content c docs = record docs { contents = put_content c docs.contents }

abbrev pub has_text : ℕ → NormalisedContent → Bool
has_text case c = (c.case_id =? case) && not (c.text =? "")

-- `"\n".join`
abbrev pub join_lines : List String → String
join_lines [] = ""
join_lines (s ∷ []) = s
join_lines (s ∷ t ∷ ts) = str_append s (str_append "\n" (join_lines (t ∷ ts)))

unfoldable pub get_case_normalised_text : ℕ → Documents → String
get_case_normalised_text case docs =
    join_lines (map (λ c. c.text) (keep (has_text case) docs.contents))

-- GREATEST(first_contact_at, MAX(received_at))
abbrev pub last_activity : ℕ → ℕ → List SourceDocument → ℕ
last_activity case at [] = at
last_activity case at (d ∷ ds) =
    let rest = last_activity case at ds in
    if d.case_id =? case then max d.received_at rest else rest

-- ORDER BY last_activity DESC LIMIT 1; of rows that tie, the newest.
abbrev pub later_case : ℕ × CaseState × ℕ → Option (ℕ × CaseState × ℕ) → ℕ × CaseState × ℕ
later_case c none = c
later_case (i, s, t) (some (j, r, u)) = if ltb t u then (j, r, u) else (i, s, t)

abbrev pub belongs_to : String → CaseRecord → Bool
belongs_to ref c = elim c.contact_ref [ none ↦ false | some r ↦ r =? ref ]

unfoldable pub latest_case_for_contact : String → Documents → Cases → Option (ℕ × CaseState × ℕ)
latest_case_for_contact ref docs [] = none
latest_case_for_contact ref docs ((id, c) ∷ cases) =
    let rest = latest_case_for_contact ref docs cases in
    if belongs_to ref c
    then some (later_case (id, c.case_state, last_activity id c.first_contact_at docs.sources) rest)
    else rest

-- The derived texts of the case that are not empty, each with its document's mime: the join.
abbrev pub with_mime :
    List SourceDocument → List NormalisedContent → List (String × NormalisedContent)
with_mime sources [] = []
with_mime sources (c ∷ cs) = elim (find_source c.source_document_id sources) [
  | none ↦ with_mime sources cs
  | some d ↦ (d.mime, c) ∷ with_mime sources cs
]

unfoldable pub list_case_normalised_spans : ℕ → Documents → List (String × NormalisedContent)
list_case_normalised_spans case docs = with_mime docs.sources (keep (has_text case) docs.contents)
