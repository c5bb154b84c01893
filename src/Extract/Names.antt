-- ===== src/Extract/Names.antt =====
-- engine/app/extract/head_nouns.py: the names of emergent fields. `token.strip().lower()` is a
-- parameter.
pub mod Compose
use Prim.Native.Char.{Char, code}
use Prim.Native.String.{◌++◌ as str_append}
use structured_chaos.Prelude.{
  Bool, List, Option, String, String-Eq, [], false, if◌then◌else◌, leb, none, some, true, ℕ, ℕ-Eq,
  ◌&&◌, ◌=?◌, ◌||◌, ◌∷◌,
}
use structured_chaos.Store.Log.{holds}

abbrev pub head_nouns : List String
head_nouns =
    "identifier" ∷ "name" ∷ "amount" ∷ "fee" ∷ "rate" ∷ "balance" ∷ "quantity" ∷ "count"
    ∷ "frequency" ∷ "duration" ∷ "date" ∷ "time" ∷ "status" ∷ "type" ∷ "condition" ∷ "rating"
    ∷ "method" ∷ "action" ∷ "request" ∷ "response" ∷ "reason" ∷ "outcome" ∷ "description" ∷ "person"
    ∷ "organization" ∷ "product" ∷ "service" ∷ "location" ∷ "document" ∷ "event" ∷ "other" ∷ []

-- `[a-z0-9]`
abbrev pub is_name_char : ℕ → Bool
is_name_char c = (leb b'a' c && leb c b'z') || (leb b'0' c && leb c b'9')

-- `_SNAKE.sub("_", s).strip("_")`: one underscore for each run of other characters, none at the ends.
-- The flag says that such a run is open behind a character that was written.
abbrev pub snake_rest : Bool → String → String
snake_rest gap String.[] = ""
snake_rest gap (String.◌∷◌ c s) =
    let same = snake_rest false s in
    let open_run = snake_rest true s in
    if is_name_char (code c)
    then if gap then String.◌∷◌ "_" (String.◌∷◌ c same) else String.◌∷◌ c same
    else open_run

abbrev pub snake : String → String
snake String.[] = ""
snake (String.◌∷◌ c s) =
    let skip = snake s in if is_name_char (code c) then String.◌∷◌ c (snake_rest false s) else skip

-- `lower` is `token.strip().lower()`.
unfoldable pub normalise_token : (String → String) → String → String
normalise_token lower token = snake (lower token)

unfoldable pub is_head : (String → String) → String → Bool
is_head lower head = holds (normalise_token lower head) head_nouns

abbrev pub composed : String → String → String
composed q h = if (q =? "") || (q =? h) then h else str_append q (str_append "_" h)

unfoldable pub compose_name : (String → String) → String → Option String → String
compose_name lower head qualifier =
    composed
      (elim qualifier [ none ↦ "" | some q ↦ if q =? "" then "" else normalise_token lower q ])
      (normalise_token lower head)

abbrev pub prefixed : Char → Option String → Option String
prefixed c none = none
prefixed c (some s) = some (String.◌∷◌ c s)

-- `name[:-len(suffix)]`, if the name ends with the suffix.
abbrev pub before_suffix : String → String → Option String
before_suffix suffix String.[] = if "" =? suffix then some "" else none
before_suffix suffix (String.◌∷◌ c s) =
    let rest = before_suffix suffix s in
    if String.◌∷◌ c s =? suffix then some "" else prefixed c rest

abbrev pub or_none : Option String → Option String
or_none none = none
or_none (some s) = if s =? "" then none else some s

unfoldable pub split_qualifier : String → String → Option String
split_qualifier field_name head =
    if field_name =? head then none else or_none (before_suffix (str_append "_" head) field_name)
