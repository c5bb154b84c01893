-- ===== src/Store/Case.antt =====
-- `case_record` and the functions of engine/app/store/api.py that read and write one case's state:
-- elicitation, processing failure, the commit gate. Times are seconds. A row's id is its key.
pub mod Gate
use structured_chaos.Prelude.{
  ℕ, ◌+◌, String, Bool, true, false, Option, none, some, List, ◌∷◌, ltb, bit, is_some,
  if◌then◌else◌, Table, lookup, update, map_some, ℕ-Eq,
}
use structured_chaos.Elicit.Policy.{
  CaseState, created, incomplete, in_review, committed, processing_failed, QuestionKind,
}

-- `external_mappings.elicit`
pub record ElicitMeta : Type 0 where
  pub anchor_asked : Bool
  pub next_question : Option String
  pub question_kind : Option QuestionKind
  pub reason : String
  pub state : CaseState
  pub options : Option (List String)
  pub object_snapshot : Option ℕ
  pub contradictions : ℕ
  pub fault_grounded : Bool
  pub processed_at : ℕ

pub record CaseRecord : Type 0 where
  pub channel : String
  pub case_state : CaseState
  pub first_contact_at : ℕ
  pub contact_ref : Option String
  pub question_count : ℕ
  pub elicit : Option ElicitMeta
  pub committed_at : Option ℕ
  pub committed_by : Option String

abbrev pub Cases : Type 0
Cases = Table ℕ CaseRecord

-- The row that `create_case` inserts: the other columns have their defaults.
abbrev pub new_case : String → ℕ → Option String → CaseRecord
new_case channel first_contact_at contact_ref = record {
  channel = channel;
  case_state = created;
  first_contact_at = first_contact_at;
  contact_ref = contact_ref;
  question_count = 0;
  elicit = none;
  committed_at = none;
  committed_by = none;
}

-- The id that the database generates is the argument.
unfoldable pub create_case : ℕ → String → ℕ → Option String → Cases → Cases
create_case id channel first_contact_at contact_ref cases =
    (id, new_case channel first_contact_at contact_ref) ∷ cases

abbrev pub asked_anchor : CaseRecord → Bool
asked_anchor c = elim c.elicit [ none ↦ false | some m ↦ m.anchor_asked ]

unfoldable pub get_case_elicit_state : ℕ → Cases → Option (CaseState × ℕ × Bool × Option String)
get_case_elicit_state id cases = elim (lookup id cases) [
  | none ↦ none
  | some c ↦ some (c.case_state, c.question_count, asked_anchor c, c.contact_ref)
]

unfoldable pub get_case_channel : ℕ → Cases → Option String
get_case_channel id cases = elim (lookup id cases) [ none ↦ none | some c ↦ some c.channel ]

abbrev pub elicited : CaseState → Bool → ElicitMeta → CaseRecord → CaseRecord
elicited state asked meta c = record c {
  case_state = state;
  question_count = c.question_count + bit asked;
  elicit = some meta;
}

unfoldable pub apply_elicitation : ℕ → CaseState → Bool → ElicitMeta → Cases → Cases
apply_elicitation id state asked meta cases = update id (elicited state asked meta) cases

abbrev pub stamp : ℕ → ElicitMeta → ElicitMeta
stamp at m = record m { processed_at = at }

-- `jsonb_set` creates the last key of its path only: a case with no decision stays as it is.
abbrev pub touched : ℕ → CaseRecord → CaseRecord
touched at c = record c { elicit = map_some (stamp at) c.elicit }

unfoldable pub touch_elicit_processed : ℕ → ℕ → Cases → Cases
touch_elicit_processed id at cases = update id (touched at) cases

abbrev pub in_flight : CaseState → Bool
in_flight created = true
in_flight incomplete = true
in_flight _ = false

abbrev pub failed : CaseRecord → CaseRecord
failed c = if in_flight c.case_state then record c { case_state = processing_failed } else c

-- The flag says whether a row was updated.
unfoldable pub fail_case_processing : ℕ → Cases → Cases × Bool
fail_case_processing id cases = (
  update id failed cases,
  elim (lookup id cases) [ none ↦ false | some c ↦ in_flight c.case_state ],
)

abbrev pub is_incomplete : CaseState → Bool
is_incomplete incomplete = true
is_incomplete _ = false

abbrev pub pending_of : CaseRecord → Option String
pending_of c =
    if is_incomplete c.case_state
    then elim c.elicit [ none ↦ none | some m ↦ m.next_question ]
    else none

unfoldable pub get_pending_question : ℕ → Cases → Option String
get_pending_question id cases = elim (lookup id cases) [ none ↦ none | some c ↦ pending_of c ]

-- `str(row[1])` of a stamped row: the two columns are set together (migration 0017).
abbrev pub stamp_of : CaseRecord → Option (ℕ × Option String)
stamp_of c = elim c.committed_at [ none ↦ none | some t ↦ some (t, c.committed_by) ]

unfoldable pub commit_status : ℕ → Cases → Option (ℕ × Option String)
commit_status id cases = elim (lookup id cases) [ none ↦ none | some c ↦ stamp_of c ]

-- `COALESCE(a, b)`
abbrev pub coalesce : {A : Type 0} → Option A → A → Option A
coalesce none b = some b
coalesce (some a) b = some a

abbrev pub approved : ℕ → String → CaseRecord → CaseRecord
approved now reviewer c = if is_some c.committed_at then c else record c {
  committed_at = coalesce c.committed_at now;
  committed_by = coalesce c.committed_by reviewer;
  case_state = committed;
}

-- `none` for a case that is absent.
unfoldable pub commit_case : ℕ → String → ℕ → Cases → Cases × Option (ℕ × Option String)
commit_case id reviewer now cases = elim (lookup id cases) [
  | none ↦ (cases, none)
  | some _ ↦ let after = update id (approved now reviewer) cases in (after, commit_status id after)
]

-- `committed_at > now() - make_interval(secs => w)`
abbrev pub within_window : ℕ → ℕ → CaseRecord → Bool
within_window window now c = elim c.committed_at [ none ↦ false | some t ↦ ltb now (t + window) ]

abbrev pub reopened : ℕ → ℕ → CaseRecord → CaseRecord
reopened window now c =
    if within_window window now c
    then record c { committed_at = none; committed_by = none; case_state = in_review }
    else c

unfoldable pub uncommit_case : ℕ → ℕ → ℕ → Cases → Cases × Option ℕ
uncommit_case id window now cases = (
  update id (reopened window now) cases,
  elim (lookup id cases) [
    | none ↦ none
    | some c ↦ if within_window window now c then some id else none
  ],
)
