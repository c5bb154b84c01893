-- ===== src/Extract/Concept.antt =====
-- engine/app/extract/concept_extract.py: one concept of one case. The model's answer to the prompt is a
-- parameter, `none` where it is no JSON object.
use structured_chaos.Prelude.{
  Bool, Option, String, String-Eq, if◌then◌else◌, none, not, or_else, some, true, ℕ-Eq, ◌=?◌, ◌||◌,
}
use structured_chaos.Extract.Grounded.{
  EmergentAttribute, SourceTools, folded, is_extractive, is_grounded, kept_qualifier,
}
use structured_chaos.Extract.Names.{normalise_token}

pub record ConceptAnswer : Type 0 where
  pub present : Bool
  pub value : Option String  -- `none`: null
  pub qualifier : Option String

-- `str(obj.get("value", "")).strip()`: Python prints null as None.
abbrev pub value_text : SourceTools → ConceptAnswer → String
value_text py a = py.strip (or_else a.value "None")

abbrev pub free_qualifier : SourceTools → Option String → Option String
free_qualifier py none = none
free_qualifier py (some q) =
    let n = normalise_token (folded py) q in if (q =? "") || (n =? "") then none else some n

abbrev pub attribute : String → Option String → String → EmergentAttribute
attribute head qualifier value = record {
  head = head;
  qualifier = qualifier;
  value = value;
  grounded = true;
}

-- The qualifier of the promoted variant, which the text must have.
abbrev pub qualified :
    SourceTools → String → Option String → ConceptAnswer → String → Option EmergentAttribute
qualified py head (some q) a source =
    let n = normalise_token (folded py) q in
    if is_extractive py n source then some (attribute head (some n) (value_text py a)) else none
qualified py head none a source =
    some
      (attribute head (kept_qualifier py source (free_qualifier py a.qualifier)) (value_text py a))

unfoldable pub extract_concept :
    SourceTools → String → String → Option String → Option ConceptAnswer → Option EmergentAttribute
extract_concept py text head qualifier none = none
extract_concept py text head qualifier (some a) =
    if not a.present || (value_text py a =? "")
    then none
    else if not (is_grounded py (value_text py a) (py.lower text))
    then none
    else qualified py head qualifier a (py.lower text)
