-- ===== src/Resolve/Objects.antt =====
-- `object_record` and `object_key` of engine/app/store/api.py: idempotent upsert, key index, lookup
-- by key. An attribute's value is its text; the database's collation is a parameter.
use structured_chaos.Prelude.{
  ℕ, String, Bool, true, false, ◌&&◌, Option, none, some, List, [], ◌∷◌, if◌then◌else◌, Table, put,
  ◌=?◌, ℕ-Eq, String-Eq,
}

pub record ObjectRecord : Type 0 where
  pub id : ℕ
  pub object_type : String
  pub external_id : Option String
  pub content_hash : String
  pub attributes : Table String String
  pub key_fields : List String

pub record ObjectKey : Type 0 where
  pub object_id : ℕ
  pub key_field : String
  pub key_value_hash : String
  pub key_value : String

pub record Objects : Type 0 where
  pub records : List ObjectRecord
  pub keys : List ObjectKey
  pub embeddings : Table ℕ String  -- the vectors, by the object's id

pub record ObjectHit : Type 0 where
  pub object_id : ℕ
  pub object_type : String
  pub external_id : Option String
  pub key_field : String

abbrev pub with_hash : String → List ObjectRecord → Option ℕ
with_hash h [] = none
with_hash h (r ∷ rs) = if r.content_hash =? h then some r.id else with_hash h rs

-- `object_id, created`: the new row has the id that the database generates.
unfoldable pub upsert_object_record : ObjectRecord → Objects → Objects × ℕ × Bool
upsert_object_record r o = elim (with_hash r.content_hash o.records) [
  | none ↦ (record o { records = r ∷ o.records }, r.id, true)
  | some existing ↦ (o, existing, false)
]

abbrev pub same_slot : ObjectKey → ObjectKey → Bool
same_slot k j = (k.object_id =? j.object_id) && (k.key_field =? j.key_field)

abbrev pub put_key : ObjectKey → List ObjectKey → List ObjectKey
put_key k [] = k ∷ []
put_key k (j ∷ js) = if same_slot k j then k ∷ js else j ∷ put_key k js

unfoldable pub add_object_key : ObjectKey → Objects → Objects
add_object_key k o = record o { keys = put_key k o.keys }

unfoldable pub set_object_embedding : ℕ → String → Objects → Objects
set_object_embedding id v o = record o { embeddings = put id v o.embeddings }

abbrev pub find_record : ℕ → List ObjectRecord → Option ObjectRecord
find_record id [] = none
find_record id (r ∷ rs) = if r.id =? id then some r else find_record id rs

unfoldable pub get_object : ℕ → Objects → Option (String × Option String × Table String String)
get_object id o = elim (find_record id o.records) [
  | none ↦ none
  | some r ↦ some (r.object_type, r.external_id, r.attributes)
]

abbrev pub hit : ObjectKey → ObjectRecord → ObjectHit
hit k r = record {
  object_id = r.id;
  object_type = r.object_type;
  external_id = r.external_id;
  key_field = k.key_field;
}

-- The join with `key_field = None`: all identifier fields are searched.
abbrev pub join_keys : String → List ObjectRecord → List ObjectKey → List ObjectHit
join_keys h rs [] = []
join_keys h rs (k ∷ ks) =
    let rest = join_keys h rs ks in
    if k.key_value_hash =? h
    then elim (find_record k.object_id rs) [ none ↦ rest | some r ↦ hit k r ∷ rest ]
    else rest

-- ORDER BY, with the database's order on the hits.
abbrev pub insert_hit : (ObjectHit → ObjectHit → Bool) → ObjectHit → List ObjectHit → List ObjectHit
insert_hit before x [] = x ∷ []
insert_hit before x (y ∷ ys) = if before y x then y ∷ insert_hit before x ys else x ∷ y ∷ ys

abbrev pub sort_hits : (ObjectHit → ObjectHit → Bool) → List ObjectHit → List ObjectHit
sort_hits before [] = []
sort_hits before (x ∷ xs) = insert_hit before x (sort_hits before xs)

unfoldable pub resolve_object_by_key :
    (ObjectHit → ObjectHit → Bool) → Objects → String → List ObjectHit
resolve_object_by_key before o h = sort_hits before (join_keys h o.records o.keys)
