-- ===== src/Store/Registry/Backlog.antt =====
-- The scope and the markers of a backfill, and the facts under the escape-valve heads, by the
-- functions of engine/app/store/api.py.
use structured_chaos.Prelude.{
  Bool, List, Option, String, String-Eq, [], any, false, if◌then◌else◌, keep, ltb, map, none, not,
  some, sort_by, take, ℕ, ℕ-Eq, ◌&&◌, ◌=?◌, ◌||◌, ◌∷◌,
}
use structured_chaos.Store.Case.{CaseRecord, Cases}
use structured_chaos.Store.Log.{CurrentField, Logs, current_at, holds}
use structured_chaos.Store.Registry.{
  BackfillOutcome, EmergentField, Registry, attesting, has_head, names_field,
}

abbrev pub is_category : CurrentField → Bool
is_category f = f.field_path =? "category"

-- The distinct categories of the attesting cases.
abbrev pub categories_of : List ℕ → List CurrentField → List String
categories_of ids [] = []
categories_of ids (f ∷ fs) =
    let rest = categories_of ids fs in
    if is_category f && any (λ i. i =? f.case_id) ids
    then elim f.value [ none ↦ rest | some v ↦ if holds v rest then rest else v ∷ rest ]
    else rest

-- A variant is attested by its composite name, a head by any field under it.
abbrev pub attests : String → Option String → List EmergentField → String → Bool
attests head none fields path = names_field (has_head head) fields path
attests head (some composite) fields path = path =? composite

unfoldable pub concept_attested_categories : String → Option String → Logs → Registry → List String
concept_attested_categories head composite l r =
    categories_of (attesting (attests head composite r.fields) l.extractions) l.current

abbrev pub is_attempt : ℕ → String → ℕ × String × BackfillOutcome → Bool
is_attempt case key (c, k, _) = (c =? case) && (k =? key)

abbrev pub is_attempted : ℕ → String → Registry → Bool
is_attempted case key r = any (is_attempt case key) r.attempts

-- `fc.value #>> '{}' = ANY(:categories)` on the case's row of `category`
abbrev pub in_category : List String → Option CurrentField → Bool
in_category categories none = false
in_category categories (some f) = elim f.value [ none ↦ false | some v ↦ holds v categories ]

abbrev pub needs_backfill : String → List String → Logs → Registry → ℕ × CaseRecord → Bool
needs_backfill key categories l r (id, c) =
    in_category categories (current_at id "category" l.current) && not (is_attempted id key r)

abbrev pub older_case : ℕ × CaseRecord → ℕ × CaseRecord → Bool
older_case (i, c) (j, d) =
    ltb c.first_contact_at d.first_contact_at
    || ((c.first_contact_at =? d.first_contact_at) && ltb i j)

abbrev pub pending_cases : String → List String → Logs → Registry → Cases → List (ℕ × CaseRecord)
pending_cases key categories l r cases =
    sort_by older_case (keep (needs_backfill key categories l r) cases)

unfoldable pub cases_needing_backfill : String → List String → ℕ → Logs → Registry → Cases → List ℕ
cases_needing_backfill key [] limit l r cases = []
cases_needing_backfill key (c ∷ cs) limit l r cases =
    map (λ row. row.0) (take limit (pending_cases key (c ∷ cs) l r cases))

-- The outcomes are the two that the function accepts.
unfoldable pub record_backfill_attempt : ℕ → String → BackfillOutcome → Registry → Registry
record_backfill_attempt case key outcome r =
    if is_attempted case key r then r else record r { attempts = (case, key, outcome) ∷ r.attempts }

abbrev pub escape_heads : List String
escape_heads = "other" ∷ "description" ∷ []

abbrev pub is_escape : EmergentField → Bool
is_escape e = elim e.head [ none ↦ false | some h ↦ holds h escape_heads ]

abbrev pub facts_of : List EmergentField → List CurrentField → List (ℕ × String)
facts_of fields [] = []
facts_of fields (f ∷ fs) =
    let rest = facts_of fields fs in
    if names_field is_escape fields f.field_path
    then elim f.value [ none ↦ rest | some v ↦ if v =? "" then rest else (f.case_id, v) ∷ rest ]
    else rest

unfoldable pub list_escape_valve_facts : Logs → Registry → List (ℕ × String)
list_escape_valve_facts l r = facts_of r.fields l.current
