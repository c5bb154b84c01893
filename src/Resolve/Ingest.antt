-- ===== src/Resolve/Ingest.antt =====
-- engine/app/resolve/ingest.py: an uploaded collection into the object store, with its key index. The
-- canonical JSON text with its hash, and the embedder, are parameters.
pub mod Again
pub mod Found
pub mod Indexed
pub mod Lookup
use structured_chaos.Prelude.{
  Bool, List, Option, String, String-Eq, [], if◌then◌else◌, is_some, lookup, map, none, not, some,
  suc, true, ℕ, ℕ-Eq, ◌&&◌, ◌++◌, ◌=?◌, ◌∷◌,
}
use structured_chaos.Resolve.Objects.{
  ObjectKey, ObjectRecord, Objects, add_object_key, set_object_embedding, upsert_object_record,
}
use structured_chaos.Resolve.Profile.{Attributes, FieldTools, profile_key_fields}
use structured_chaos.Resolve.Resolver.{Lookups, normalise_key_value}

pub record IngestEnv : Type 0 where
  pub py : FieldTools
  pub lookups : Lookups
  pub content_hash : Attributes → String
  pub join_spaces : List String → String
  pub embed : Option (List String → List String)

-- `normalised_hash`: none for an all-noise value.
unfoldable pub normalised_hash : Lookups → Bool → String → Option (String × String)
normalised_hash l as_phone value =
    let norm = normalise_key_value l as_phone value in
    if norm =? "" then none else some (norm, l.key_sha256 norm)

-- A value that is not in `(None, "")`.
abbrev pub given : String → Attributes → Option String
given field attributes = elim (lookup field attributes) [
  | none ↦ none
  | some v ↦ if v =? "" then none else some v
]

abbrev pub first_given : (String → Bool) → Attributes → List String → Option String
first_given p attributes [] = none
first_given p attributes (field ∷ fields) =
    let rest = first_given p attributes fields in
    if p field then elim (given field attributes) [ none ↦ rest | some v ↦ some v ] else rest

abbrev pub or_next : Option String → Option String → Option String
or_next none b = b
or_next (some a) b = some a

unfoldable pub pick_external_id : FieldTools → Attributes → List String → Option String
pick_external_id py attributes fields =
    let own = first_given (λ f. py.is_id_name f && not (py.is_contact_name f)) attributes fields in
    let plain = first_given (λ f. not (py.is_contact_name f)) attributes fields in
    let every = first_given (λ f. true) attributes fields in
    elim (or_next own (or_next plain every)) [ none ↦ none | some v ↦ some (py.strip v) ]

abbrev pub parts : FieldTools → Attributes → List String
parts py [] = []
parts py ((k, v) ∷ rest) =
    let others = parts py rest in
    if not (py.is_contact_name k) && not (v =? "") then py.strip v ∷ others else others

unfoldable pub render_for_embedding : IngestEnv → Attributes → String
render_for_embedding env attributes = env.join_spaces (parts env.py attributes)

abbrev pub key_row : ℕ → String → String → String → ObjectKey
key_row id field hash value = record {
  object_id = id;
  key_field = field;
  key_value_hash = hash;
  key_value = value;
}

-- The key of one field, if the object has a value there that is not all noise.
unfoldable pub key_of : IngestEnv → ℕ → Attributes → String → Option ObjectKey
key_of env id attributes field = elim (given field attributes) [
  | none ↦ none
  | some raw ↦ elim (normalised_hash env.lookups (env.py.is_phone field) raw) [
    | none ↦ none
    | some (norm, hash) ↦ some (key_row id field hash (env.lookups.strip raw))
  ]
]

-- The loop over the key fields, with `keys_indexed`.
abbrev pub index_keys : IngestEnv → ℕ → Attributes → List String → Objects × ℕ → Objects × ℕ
index_keys env id attributes [] s = s
index_keys env id attributes (field ∷ fields) (o, n) = elim (key_of env id attributes field) [
  | none ↦ index_keys env id attributes fields (o, n)
  | some k ↦ index_keys env id attributes fields (add_object_key k o, suc n)
]

pub record Counts : Type 0 where
  pub ingested : ℕ
  pub duplicates : ℕ
  pub keys_indexed : ℕ
  pub to_embed : List (ℕ × String)

abbrev pub no_counts : Counts
no_counts = record { ingested = 0; duplicates = 0; keys_indexed = 0; to_embed = [] }

abbrev pub queued : IngestEnv → ℕ → Attributes → List (ℕ × String) → List (ℕ × String)
queued env id attributes rows =
    let text = render_for_embedding env attributes in
    if is_some env.embed && not (text =? "") then rows ++ (id, text) ∷ [] else rows

abbrev pub object_row : IngestEnv → String → List String → ℕ → Attributes → ObjectRecord
object_row env kind fields id attributes = record {
  id = id;
  object_type = kind;
  external_id = pick_external_id env.py attributes fields;
  content_hash = env.content_hash attributes;
  attributes = attributes;
  key_fields = fields;
}

abbrev pub counted_duplicate : Counts → Counts
counted_duplicate c = record c { duplicates = suc c.duplicates }

abbrev pub counted : IngestEnv → ℕ → Attributes → ℕ → Counts → Counts
counted env id attributes keys c = record c {
  ingested = suc c.ingested;
  keys_indexed = keys;
  to_embed = queued env id attributes c.to_embed;
}

-- One object of the upload; `id` is the id of its row, if one is inserted.
unfoldable pub ingest_object :
    IngestEnv → String → List String → ℕ → Attributes → Objects × Counts → Objects × Counts
ingest_object env kind fields id attributes (o, c) =
    let (stored, own, is_new) = upsert_object_record (object_row env kind fields id attributes) o in
    let (indexed, keys) = index_keys env own attributes fields (stored, c.keys_indexed) in
    if is_new then (indexed, counted env own attributes keys c) else (stored, counted_duplicate c)

abbrev pub ingest_objects :
    IngestEnv → String → List String → ℕ → List Attributes → Objects × Counts → Objects × Counts
ingest_objects env kind fields id [] s = s
ingest_objects env kind fields id (a ∷ objects) s =
    ingest_objects env kind fields (suc id) objects (ingest_object env kind fields id a s)

-- `zip(to_embed, vectors)`, with `embedded`.
abbrev pub embed_rows : List (ℕ × String) → List String → Objects × ℕ → Objects × ℕ
embed_rows [] vectors s = s
embed_rows (row ∷ rows) [] s = s
embed_rows ((id, text) ∷ rows) (v ∷ vectors) (o, n) =
    embed_rows rows vectors (set_object_embedding id v o, suc n)

abbrev pub embedded_by :
    Option (List String → List String) → List (ℕ × String) → Objects → Objects × ℕ
embedded_by none rows o = (o, 0)
embedded_by (some embed) rows o = embed_rows rows (embed (map (λ r. r.1) rows)) (o, 0)

pub record IngestResult : Type 0 where
  pub object_type : String
  pub ingested : ℕ
  pub duplicates : ℕ
  pub keys_indexed : ℕ
  pub embedded : ℕ
  pub key_fields : List String

-- The rows that are inserted have the ids from `id` on.
unfoldable pub ingest_object_collection :
    IngestEnv → String → ℕ → List Attributes → Objects → Objects × IngestResult
ingest_object_collection env kind id objects o =
    let fields = profile_key_fields env.py objects in
    let (stored, c) = ingest_objects env kind fields id objects (o, no_counts) in
    let (final, embedded) = embedded_by env.embed c.to_embed stored in
    (
      final,
      record {
        object_type = kind;
        ingested = c.ingested;
        duplicates = c.duplicates;
        keys_indexed = c.keys_indexed;
        embedded = embedded;
        key_fields = fields;
      },
    )
