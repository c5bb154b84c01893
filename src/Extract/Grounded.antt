-- ===== src/Extract/Grounded.antt =====
-- engine/app/extract/extractor.py and models.py: the grounding of an attribute in the case's text.
-- Python's `str` methods and the regular expression `_TOKEN` are parameters.
use Prim.Native.Char.{code}
use Prim.Native.String.{◌++◌ as str_append}
use structured_chaos.Prelude.{
  Bool, List, Option, String, String-Eq, [], all, any, false, if◌then◌else◌, keep, leb, length, ltb,
  none, not, some, suc, true, ℕ, ℕ-Eq, ◌&&◌, ◌*◌, ◌==◌, ◌=?◌, ◌||◌, ◌∷◌,
}
use structured_chaos.Extract.Names.{compose_name}

pub record SourceTools : Type 0 where
  pub lower : String → String
  pub strip : String → String
  pub tokens : String → List String  -- `_TOKEN.findall`
  pub contains : String → String → Bool  -- `t in s`, the text first
  pub size : String → ℕ
  pub spaced : String → String  -- `" ".join(s.split("_"))`

-- `token.strip().lower()`
abbrev pub folded : SourceTools → String → String
folded py s = py.lower (py.strip s)

pub record EmergentAttribute : Type 0 where
  pub head : String
  pub qualifier : Option String
  pub value : String
  pub grounded : Bool

abbrev pub name_of : SourceTools → EmergentAttribute → String
name_of py a = compose_name (folded py) a.head a.qualifier

abbrev pub max_qualifier_tokens : ℕ
max_qualifier_tokens = 4

-- `len(s.split("_"))`
abbrev pub pieces : String → ℕ
pieces String.[] = 1
pieces (String.◌∷◌ c s) = let rest = pieces s in if code c == b'_' then suc rest else rest

-- `" ".join`
abbrev pub join_spaces : List String → String
join_spaces [] = ""
join_spaces (s ∷ []) = s
join_spaces (s ∷ t ∷ ts) = str_append s (str_append " " (join_spaces (t ∷ ts)))

unfoldable pub is_extractive : SourceTools → String → String → Bool
is_extractive py qualifier source =
    let phrase = py.spaced qualifier in
    if phrase =? "" then false else py.contains (join_spaces (py.tokens source)) phrase

abbrev pub all_x : String → Bool
all_x String.[] = true
all_x (String.◌∷◌ c s) = (code c == b'x') && all_x s

unfoldable pub is_all_redacted : SourceTools → String → Bool
is_all_redacted py value = all all_x (py.tokens (py.lower value))

abbrev pub significant : SourceTools → String → Bool
significant py t = ltb 2 (py.size t)

-- `hits / len(significant) >= 0.6`, with no division.
abbrev pub overlaps : SourceTools → String → List String → List String → Bool
overlaps py source [] raw = any (py.contains source) raw
overlaps py source (t ∷ ts) raw =
    leb (3 * length (t ∷ ts)) (5 * length (keep (py.contains source) (t ∷ ts)))

unfoldable pub is_grounded : SourceTools → String → String → Bool
is_grounded py value source =
    let v = py.lower (py.strip value) in
    if v =? ""
    then false
    else if py.contains source v
    then true
    else overlaps py source (keep (significant py) (py.tokens v)) (py.tokens v)

-- A qualifier is kept if it is short and stands in the text.
abbrev pub kept_qualifier : SourceTools → String → Option String → Option String
kept_qualifier py source none = none
kept_qualifier py source (some q) =
    if ltb max_qualifier_tokens (pieces q) || not (is_extractive py q source) then none else some q
