-- ===== src/Extract/Profile.antt =====
-- engine/app/extract/profile.py: what kind of value a text is, without a model. The regular expressions
-- and Python's tests of characters are parameters.
use structured_chaos.Prelude.{
  Bool, List, String, String-Eq, [], false, if◌then◌else◌, keep, leb, length, true, ℕ, ℕ-Eq, ◌&&◌,
  ◌*◌, ◌=?◌, ◌||◌, ◌∷◌,
}
use structured_chaos.Extract.Grounded.{all_x}
use structured_chaos.Store.Log.{holds}

pub record ProfileTools : Type 0 where
  pub words : String → List String  -- `_TOKEN.findall(v.lower())`, of the stripped text
  pub is_money : String → Bool
  pub is_date : String → Bool
  pub has_digit : String → Bool
  pub is_numeric : String → Bool  -- each character a digit or no letter

abbrev pub function_words : List String
function_words =
    "a" ∷ "an" ∷ "the" ∷ "this" ∷ "that" ∷ "these" ∷ "those" ∷ "such" ∷ "my" ∷ "your" ∷ "our"
    ∷ "their" ∷ "his" ∷ "her" ∷ "its" ∷ "it" ∷ "they" ∷ "them" ∷ "we" ∷ "you" ∷ "i" ∷ "me" ∷ "he"
    ∷ "she" ∷ "who" ∷ "whom" ∷ "which" ∷ "what" ∷ "to" ∷ "of" ∷ "in" ∷ "on" ∷ "at" ∷ "for" ∷ "with"
    ∷ "from" ∷ "by" ∷ "about" ∷ "into" ∷ "over" ∷ "under" ∷ "as" ∷ "than" ∷ "then" ∷ "and" ∷ "or"
    ∷ "but" ∷ "nor" ∷ "so" ∷ "yet" ∷ "if" ∷ "because" ∷ "while" ∷ "when" ∷ "where" ∷ "is" ∷ "are"
    ∷ "was" ∷ "were" ∷ "be" ∷ "been" ∷ "being" ∷ "am" ∷ "has" ∷ "have" ∷ "had" ∷ "do" ∷ "does"
    ∷ "did" ∷ "will" ∷ "would" ∷ "shall" ∷ "can" ∷ "could" ∷ "should" ∷ "may" ∷ "might" ∷ "must"
    ∷ "not" ∷ "no" ∷ "nor" ∷ "never" ∷ []

pub data ValueKind : Type 0 where
  money date number identifier phrase clause redaction empty : ValueKind

abbrev pub is_concrete : ValueKind → Bool
is_concrete money = true
is_concrete date = true
is_concrete number = true
is_concrete identifier = true
is_concrete phrase = true
is_concrete clause = false
is_concrete redaction = false
is_concrete empty = false

abbrev pub count_in : (String → Bool) → List String → ℕ
count_in p ws = length (keep p ws)

-- `(n >= 6 and fn / n >= 0.25) or (n >= 4 and fn / n >= 0.4)`, with no division.
abbrev pub is_clause : ℕ → ℕ → Bool
is_clause n fn = (leb 6 n && leb n (4 * fn)) || (leb 4 n && leb (2 * n) (5 * fn))

unfoldable pub profile_value : ProfileTools → String → ValueKind
profile_value py value =
    let toks = py.words value in
    let n = length toks in
    let fn = count_in (λ t. holds t function_words) toks in
    if n =? 0
    then empty
    else if py.is_money value
    then money
    else if py.is_date value
    then date
    else if leb n (2 * count_in all_x toks)
    then redaction
    else if is_clause n fn
    then clause
    else if py.has_digit value && leb n 5
    then if py.is_numeric value then number else identifier
    else phrase
