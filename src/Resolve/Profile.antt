-- ===== src/Resolve/Profile.antt =====
-- engine/app/resolve/profile.py: which fields of an upload identify an object. The regular expressions
-- are parameters; a ratio is compared by its numerator and denominator.
use structured_chaos.Prelude.{
  Bool, List, Option, String, String-Eq, Table, [], any, if◌then◌else◌, keep, leb, length, lookup,
  ltb, map, none, not, put, some, sort_by, suc, text_lt, ℕ, ℕ-Eq, ◌&&◌, ◌*◌, ◌++◌, ◌=?◌, ◌||◌, ◌∷◌,
}

pub record FieldTools : Type 0 where
  pub strip : String → String
  pub is_contact_name : String → Bool  -- `_CONTACT_HINT.search`
  pub is_contact_value : String → Bool  -- `_EMAIL.match` or `_PHONE_VALUE.match`
  pub is_id_name : String → Bool  -- `_ID_NAME.search`
  pub is_phone : String → Bool  -- `is_phone_field`

-- An object by its fields; a field whose value is None is not in the table.
abbrev pub Attributes : Type 0
Attributes = Table String String

abbrev pub add_to : String → Option (List String) → List String
add_to s none = s ∷ []
add_to s (some values) = values ++ s ∷ []

-- `fields.setdefault(k, []).append(s)`, for the fields of one object.
abbrev pub add_fields :
    FieldTools → Attributes → Table String (List String) → Table String (List String)
add_fields py [] columns = columns
add_fields py ((k, v) ∷ rest) columns =
    let s = py.strip v in
    add_fields py rest (if s =? "" then columns else put k (add_to s (lookup k columns)) columns)

abbrev pub columns_of :
    FieldTools → List Attributes → Table String (List String) → Table String (List String)
columns_of py [] columns = columns
columns_of py (o ∷ objects) columns = columns_of py objects (add_fields py o columns)

-- `len(set(values))`
abbrev pub distinct : List String → ℕ
distinct [] = 0
distinct (s ∷ values) = if any (λ t. t =? s) values then distinct values else suc (distinct values)

-- `hits / len(values) >= 0.8 if values else False`, where the name is no hint.
abbrev pub is_contact_column : FieldTools → String → List String → Bool
is_contact_column py field values =
    py.is_contact_name field
    || (not (length values =? 0)
        && leb (8 * length values) (10 * length (keep py.is_contact_value values)))

-- A column with its distinct values and their number: the uniqueness is the quotient.
pub record Score : Type 0 where
  pub field : String
  pub different : ℕ
  pub total : ℕ

abbrev pub score : String × List String → Score
score (field, values) = record { field = field; different = distinct values; total = length values }

abbrev pub is_key_column : FieldTools → String × List String → Bool
is_key_column py (field, values) =
    not (length values =? 0)
    && (leb (9 * length values) (10 * distinct values) || is_contact_column py field values)

-- `key=lambda t: (-t[0], t[1])`
abbrev pub more_selective : Score → Score → Bool
more_selective a b =
    let left = a.different * b.total in
    let right = b.different * a.total in
    ltb right left || ((left =? right) && text_lt a.field b.field)

unfoldable pub profile_key_fields : FieldTools → List Attributes → List String
profile_key_fields py objects =
    map (λ s. s.field)
      (sort_by more_selective (map score (keep (is_key_column py) (columns_of py objects []))))
