-- ===== src/Resolve/Resolver.antt =====
-- engine/app/resolve/resolver.py: bind a case to one object, or ask. The methods of Python's
-- str, sha256, the embedding search and the formatting of a score are parameters; a score is a number of ten-thousandths.
pub mod Binding
use Prim.Native.String.{◌++◌ as str_append}
use structured_chaos.Prelude.{
  Bool, List, Option, String, String-Eq, [], any, false, if◌then◌else◌, keep, leb, length, ltb, map,
  none, not, some, true, ℕ, ℕ-Eq, ◌&&◌, ◌+◌, ◌-◌, ◌=?◌, ◌||◌, ◌∷◌,
}
use structured_chaos.Elicit.Policy.{text_or, truthy}
use structured_chaos.Resolve.Objects.{ObjectHit, Objects, resolve_object_by_key}

abbrev pub match_tau : ℕ
match_tau = 7200

abbrev pub margin : ℕ
margin = 600

pub data Mode : Type 0 where
  silent confirm elicit : Mode

pub record Resolution : Type 0 where
  pub mode : Mode
  pub object_id : Option ℕ
  pub candidates : List ℕ
  pub reason : String
  pub is_contradiction : Bool

-- What the resolver calls and this repository does not implement.
pub record Lookups : Type 0 where
  pub before : ObjectHit → ObjectHit → Bool  -- the database's collation
  pub strip : String → String  -- `s.strip()`
  pub digits : String → String  -- `re.sub(r"\\D", "", s)`
  pub fold : String → String  -- the whitespace collapsed, then `casefold`
  pub key_sha256 : String → String
  pub nearest : Option (String → List (ℕ × ℕ))  -- embedder and `nearest_objects`, k = 2
  pub show_score : ℕ → String

-- The flag says that the key is a phone number.
unfoldable pub normalise_key_value : Lookups → Bool → String → String
normalise_key_value l as_phone value =
    let v = l.strip value in if v =? "" then "" else if as_phone then l.digits v else l.fold v

unfoldable pub key_hash : Lookups → Bool → String → String
key_hash l as_phone value = l.key_sha256 (normalise_key_value l as_phone value)

abbrev pub hit_ids : List ObjectHit → List ℕ
hit_ids = map (λ h. h.object_id)

abbrev pub quoted_hits : Lookups → Objects → Bool → String → List ObjectHit
quoted_hits l o as_phone value = resolve_object_by_key l.before o (key_hash l as_phone value)

abbrev pub phone_ids : Lookups → Objects → Option String → List ℕ
phone_ids l o phone = if truthy phone then hit_ids (quoted_hits l o true (text_or phone "")) else []

abbrev pub bind : ℕ → String → Resolution
bind id reason = record {
  mode = silent;
  object_id = some id;
  candidates = [];
  reason = reason;
  is_contradiction = false;
}

abbrev pub ask_about : List ℕ → String → Resolution
ask_about candidates reason = record {
  mode = confirm;
  object_id = none;
  candidates = candidates;
  reason = reason;
  is_contradiction = false;
}

abbrev pub conflict : ℕ → Resolution
conflict id = record {
  mode = confirm;
  object_id = some id;
  candidates = id ∷ [];
  reason =
      "quoted id and sender phone point to DIFFERENT objects — contradiction, do not silent-bind";
  is_contradiction = true;
}

abbrev pub open_question : Resolution
open_question = record {
  mode = elicit;
  object_id = none;
  candidates = [];
  reason = "no usable anchor — open elicitation";
  is_contradiction = false;
}

-- 1. the quoted id, cross-checked against the sender's phone
abbrev pub by_anchor : String → List ℕ → List ℕ → Resolution
by_anchor anchor_id phones [] =
    ask_about []
      (str_append "quoted id '" (str_append anchor_id "' not found — do not fuzzy-bind a typo"))
by_anchor anchor_id phones (oid ∷ []) =
    let agrees = any (λ p. p =? oid) phones in
    if not (agrees || (length phones =? 0))
    then conflict oid
    else bind oid (if agrees then "id exact & unique, phone agrees" else "id exact & unique")
by_anchor anchor_id phones (x ∷ y ∷ more) =
    ask_about (x ∷ y ∷ more) "quoted id resolves to multiple objects"

-- 3. the name, with the two nearest objects; the scores are exact ten-thousandths, so that the lead is
-- tested without the rounding of a difference of floats
abbrev pub by_score : Lookups → ℕ → ℕ → ℕ → List (ℕ × ℕ) → Resolution
by_score l top_id top second near =
    if leb match_tau top && leb (second + margin) top
    then bind top_id (
        str_append "name unique (cos=" (
          str_append (l.show_score top)
            (str_append ", margin=" (str_append (l.show_score (top - second)) ")"))))
    else if leb match_tau top
    then ask_about (map (λ n. n.0) (keep (λ n. ltb top (n.1 + margin)) near)) (
        str_append "name ambiguous (cos=" (
          str_append (l.show_score top)
            (str_append ", 2nd=" (str_append (l.show_score second) ")"))))
    else open_question

abbrev pub by_name : Lookups → List (ℕ × ℕ) → Resolution
by_name l [] = open_question
by_name l ((top_id, top) ∷ []) = by_score l top_id top 0 ((top_id, top) ∷ [])
by_name l ((top_id, top) ∷ (b, second) ∷ rest) =
    by_score l top_id top second ((top_id, top) ∷ (b, second) ∷ rest)

abbrev pub named : Lookups → Option (String → List (ℕ × ℕ)) → Option String → Resolution
named l none name = open_question
named l (some nearest) name =
    if truthy name then by_name l (nearest (text_or name "")) else open_question

abbrev pub try_name : Lookups → Option String → Resolution
try_name l name = named l l.nearest name

-- 2. the sender's phone, and what follows when it finds nothing
abbrev pub by_phone : Lookups → List ℕ → Option String → Resolution
by_phone l [] name = try_name l name
by_phone l (oid ∷ []) name = bind oid "sender phone resolves to one object"
by_phone l (x ∷ y ∷ more) name = ask_about (x ∷ y ∷ more) "sender phone shared by multiple objects"

unfoldable pub resolve_object :
    Lookups → Objects → Option String → Option String → Option String → Resolution
resolve_object l o anchor_id phone name =
    if truthy anchor_id
    then by_anchor (text_or anchor_id "") (phone_ids l o phone)
        (hit_ids (quoted_hits l o false (text_or anchor_id "")))
    else by_phone l (phone_ids l o phone) name
