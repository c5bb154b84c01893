-- ===== src/Elicit/Grounding.antt =====
-- engine/app/elicit/stage.py: is the fault attested in the customer's words, and what the record says.
-- The methods of Python's `str`, and the regular expression of is_contact_field, are parameters.
use text.Mathlib.Text.{starts_with}
use Prim.Native.String.{◌++◌ as str_append}
use structured_chaos.Prelude.{
  Bool, List, Option, String, String-Eq, Table, [], any, false, if◌then◌else◌, keep, leb, length,
  ltb, map, not, or_else, take, ℕ, ℕ-Eq, ◌&&◌, ◌*◌, ◌-◌, ◌=?◌, ◌||◌, ◌∷◌,
}
use structured_chaos.Elicit.Policy.{text_or, truthy}
use structured_chaos.Store.Log.{distinct, holds}

pub record TextTools : Type 0 where
  pub tokens : String → List String  -- the alphanumeric runs of the lowered text
  pub size : String → ℕ  -- `len`
  pub strip_lower : String → String
  pub squeeze : String → String  -- `" ".join(s.split())`
  pub cut : ℕ → String → String  -- `s[:n].rstrip()`
  pub spaced : String → String  -- `s.replace("_", " ")`
  pub is_contact_field : String → Bool

abbrev pub stopwords : List String
stopwords =
    "the" ∷ "a" ∷ "an" ∷ "and" ∷ "or" ∷ "but" ∷ "not" ∷ "was" ∷ "were" ∷ "is" ∷ "are" ∷ "be"
    ∷ "been" ∷ "being" ∷ "to" ∷ "of" ∷ "in" ∷ "on" ∷ "at" ∷ "for" ∷ "with" ∷ "from" ∷ "by" ∷ "that"
    ∷ "this" ∷ "it" ∷ "its" ∷ "they" ∷ "them" ∷ "their" ∷ "you" ∷ "your" ∷ "we" ∷ "our" ∷ "us"
    ∷ "my" ∷ "me" ∷ "have" ∷ "has" ∷ "had" ∷ "did" ∷ "do" ∷ "does" ∷ "done" ∷ "as" ∷ "so" ∷ "if"
    ∷ "then" ∷ "than" ∷ "there" ∷ "here" ∷ "about" ∷ "into" ∷ "out" ∷ "over" ∷ "under" ∷ "can"
    ∷ "could" ∷ "will" ∷ "would" ∷ "should" ∷ "may" ∷ "no" ∷ "yes" ∷ "any" ∷ "some" ∷ "all" ∷ "one"
    ∷ "two" ∷ "get" ∷ "got" ∷ []

abbrev pub is_content : TextTools → String → Bool
is_content py w = leb 3 (py.size w) && not (holds w stopwords)

-- A set of words is a list that has each once.
unfoldable pub content_words : TextTools → String → List String
content_words py text = distinct (keep (is_content py) (py.tokens text))

abbrev pub customer_state_starts : List String
customer_state_starts =
    "the customer" ∷ "customer " ∷ "customer's" ∷ "the user" ∷ "the client" ∷ "the complainant"
    ∷ "they feel" ∷ "they are feeling" ∷ "they're feeling" ∷ "user feels" ∷ "user is" ∷ []

unfoldable pub is_customer_state_narration : TextTools → String → Bool
is_customer_state_narration py fault_value =
    any (λ s. starts_with (py.strip_lower fault_value) s) customer_state_starts

abbrev pub overlap : List String → List String → ℕ
overlap words text_words = length (keep (λ w. holds w text_words) words)

-- `hits / len(fault_words) >= 0.4`, with no division.
abbrev pub attested : List String → List String → Bool
attested [] text_words = false
attested (w ∷ ws) text_words = leb (2 * length (w ∷ ws)) (5 * overlap (w ∷ ws) text_words)

unfoldable pub is_fault_grounded : TextTools → Option String → String → Bool
is_fault_grounded py fault_value customer_text =
    if not (truthy fault_value) || (customer_text =? "")
    then false
    else if is_customer_state_narration py (text_or fault_value "")
    then false
    else attested (content_words py (text_or fault_value "")) (content_words py customer_text)

abbrev pub max_confirm_facts : ℕ
max_confirm_facts = 4

abbrev pub max_fact_len : ℕ
max_fact_len = 40

abbrev pub shorten : TextTools → String → String
shorten py text =
    if ltb max_fact_len (py.size text)
    then str_append (py.cut (max_fact_len - 1) text) "…"
    else text

-- The value that is None has the empty text.
abbrev pub is_stated : TextTools → String → String × String → Bool
is_stated py external_id (key, value) =
    not (py.is_contact_field key)
    && not ((py.squeeze value =? "") || (py.squeeze value =? external_id))

abbrev pub fact : TextTools → String × String → String
fact py (key, value) = str_append (py.spaced key) (str_append " " (shorten py (py.squeeze value)))

unfoldable pub confirmed_facts : TextTools → Option String → Table String String → List String
confirmed_facts py external_id attrs =
    take max_confirm_facts (map (fact py) (keep (is_stated py (or_else external_id "")) attrs))

abbrev pub join_commas : List String → String
join_commas [] = ""
join_commas (s ∷ []) = s
join_commas (s ∷ t ∷ ts) = str_append s (str_append ", " (join_commas (t ∷ ts)))

abbrev pub with_facts : String → List String → String
with_facts head [] = str_append head "."
with_facts head (f ∷ fs) = str_append head (str_append ": " (str_append (join_commas (f ∷ fs)) "."))

unfoldable pub confirmation_of : TextTools → String × Option String × Table String String → String
confirmation_of py (object_type, external_id, attrs) =
    let named = str_append "We've found your " object_type in
    with_facts
      (if truthy external_id
        then str_append named (str_append " " (text_or external_id ""))
        else named)
      (confirmed_facts py external_id attrs)
