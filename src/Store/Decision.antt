-- ===== src/Store/Decision.antt =====
-- The reads and the write of the rules stage in engine/app/store/api.py.
use structured_chaos.Prelude.{
  Bool, List, Option, String, String-Eq, Table, [], if◌then◌else◌, keep, leb, lookup, ltb, max,
  none, put, some, ℕ, ℕ-Eq, ◌&&◌, ◌+◌, ◌=?◌, ◌||◌, ◌∷◌,
}
use structured_chaos.Store.Database.{CaseDecision, Database}
use structured_chaos.Store.Log.{Extraction, Logs, get_field_values, is_at}

-- `{k: values.get(k) for k in keys}`
abbrev pub decision_keys : List String
decision_keys = "category" ∷ "severity_signal" ∷ "emotion_signal" ∷ []

unfoldable pub get_case_decision_inputs : ℕ → Database → Option (ℕ × Table String String)
get_case_decision_inputs case db = elim (lookup case db.cases) [
  | none ↦ none
  | some c ↦ some (c.first_contact_at, get_field_values case decision_keys db.logs)
]

abbrev pub is_reading : ℕ → Extraction → Bool
is_reading case e = is_at case "emotion_signal" e.case_id e.field_path

-- ORDER BY created_at, id
abbrev pub insert_reading : Extraction → List Extraction → List Extraction
insert_reading e [] = e ∷ []
insert_reading e (f ∷ fs) =
    let rest = insert_reading e fs in
    if ltb f.created_at e.created_at || ((f.created_at =? e.created_at) && leb f.id e.id)
    then f ∷ rest
    else e ∷ f ∷ fs

abbrev pub sort_readings : List Extraction → List Extraction
sort_readings [] = []
sort_readings (e ∷ es) = insert_reading e (sort_readings es)

-- `max(created_at)`
abbrev pub newest : List Extraction → ℕ
newest [] = 0
newest (e ∷ es) = max e.created_at (newest es)

abbrev pub values_of : List Extraction → List String
values_of [] = []
values_of (e ∷ es) = let rest = values_of es in elim e.value [ none ↦ rest | some v ↦ v ∷ rest ]

-- The readings within so many seconds of the newest one, oldest first.
unfoldable pub get_emotion_history : ℕ → ℕ → Logs → List String
get_emotion_history case window l =
    let readings = keep (is_reading case) l.extractions in
    values_of (sort_readings (keep (λ e. leb (newest readings) (e.created_at + window)) readings))

unfoldable pub upsert_case_decision : ℕ → CaseDecision → Database → Database
upsert_case_decision case d db = record db { decisions = put case d db.decisions }
