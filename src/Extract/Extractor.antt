-- ===== src/Extract/Extractor.antt =====
-- engine/app/extract/extractor.py: from the model's answer to the attributes that the text grounds.
-- The answer is a parameter, `none` where it is no JSON object; entries that are no objects are
-- left out of it.
pub mod Attested
use structured_chaos.Prelude.{
  Bool, List, Option, String, String-Eq, Table, [], if◌then◌else◌, keep, lookup, map, none, not,
  or_else, some, ℕ-Eq, ◌&&◌, ◌=?◌, ◌||◌, ◌∷◌,
}
use structured_chaos.Elicit.Stage.{governed_keys}
use structured_chaos.Extract.Grounded.{
  EmergentAttribute, SourceTools, folded, is_all_redacted, is_grounded, kept_qualifier, name_of,
}
use structured_chaos.Extract.Names.{normalise_token}
use structured_chaos.Extract.Profile.{ProfileTools, is_concrete, profile_value}
use structured_chaos.Store.Log.{holds}

pub record RawAttribute : Type 0 where
  pub head : String
  pub qualifier : Option String
  pub value : String

pub record RawExtraction : Type 0 where
  pub governed : Table String (Option String)
  pub attributes : List RawAttribute

pub record ExtractionResult : Type 0 where
  pub governed : Table String (Option String)
  pub emergent : List EmergentAttribute

abbrev pub escape_valve : List String
escape_valve = "other" ∷ "description" ∷ []

abbrev pub qualifier_in : SourceTools → Option String → Option String
qualifier_in py none = none
qualifier_in py (some q) =
    let n = normalise_token (folded py) q in if (q =? "") || (n =? "") then none else some n

abbrev pub attribute_of : SourceTools → String → RawAttribute → EmergentAttribute
attribute_of py source raw =
    let value = py.strip raw.value in
    record {
      head = normalise_token (folded py) raw.head;
      qualifier = kept_qualifier py source (qualifier_in py raw.qualifier);
      value = value;
      grounded = is_grounded py value source;
    }

-- An entry that is passed over: an unknown head, no content, or narrative in the escape valve.
abbrev pub is_passed : SourceTools → ProfileTools → List String → RawAttribute → Bool
is_passed py profile heads raw =
    let head = normalise_token (folded py) raw.head in
    let value = py.strip raw.value in
    not (holds head heads)
    || (value =? "")
    || is_all_redacted py value
    || (holds head escape_valve && not (is_concrete (profile_value profile value)))

-- The loop; `seen` holds the names that were added.
unfoldable pub gather :
    SourceTools
    → ProfileTools
    → List String
    → String
    → List RawAttribute
    → List String
    → List EmergentAttribute
gather py profile heads source [] seen = []
gather py profile heads source (raw ∷ raws) seen =
    let a = attribute_of py source raw in
    let passed = gather py profile heads source raws seen in
    let added = a ∷ gather py profile heads source raws (name_of py a ∷ seen) in
    if is_passed py profile heads raw || holds (name_of py a) seen then passed else added

abbrev pub governed_values :
    List String → Table String (Option String) → Table String (Option String)
governed_values [] t = []
governed_values (k ∷ ks) t = (k, or_else (lookup k t) none) ∷ governed_values ks t

unfoldable pub extract :
    SourceTools → ProfileTools → List String → String → Option RawExtraction → ExtractionResult
extract py profile heads text none = record { governed = []; emergent = [] }
extract py profile heads text (some raw) = record {
  governed = governed_values governed_keys raw.governed;
  emergent =
      gather py profile (map (normalise_token (folded py)) heads) (py.lower text) raw.attributes [];
}

abbrev pub grounded_emergent : ExtractionResult → List EmergentAttribute
grounded_emergent result = keep (λ a. a.grounded) result.emergent
