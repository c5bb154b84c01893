-- ===== src/Resolve/Tests.antt =====
-- The resolver's theorems on two orders, one with two keys.
use structured_chaos.Prelude.{
  List, String, String-Eq, [], any, ap, arith, false, lookup, map, none, refl, some, true, ℕ, ℕ-Eq,
  ◌=?◌, ◌↔◌, ◌∷◌, ◌≡◌, ◌≢◌, ◌⊎◌,
}
use structured_chaos.Elicit.Policy.{truthy}
use structured_chaos.Resolve.Ingest.{
  IngestEnv, ingest_object, ingest_object_collection, key_of, normalised_hash, object_row,
  pick_external_id, render_for_embedding,
}
use structured_chaos.Resolve.Ingest.Again.{ingest_object_collection_again}
use structured_chaos.Resolve.Ingest.Found.{ingest_object_collection-IsIndexed}
use structured_chaos.Resolve.Ingest.Indexed.{IsIndexed}
use structured_chaos.Resolve.Ingest.Lookup.{is_hit, resolve_object_by_key-IsIndexed}
use structured_chaos.Resolve.Objects.{
  ObjectKey, ObjectRecord, Objects, add_object_key, resolve_object_by_key, set_object_embedding,
  upsert_object_record,
}
use structured_chaos.Resolve.Profile.{Attributes, profile_key_fields}
use structured_chaos.Resolve.Resolver.{
  Lookups, key_hash, normalise_key_value, phone_ids, resolve_object,
}
use structured_chaos.Resolve.Resolver.Binding.{
  anchor_ids, resolve_object-anchor, resolve_object-contradiction,
}

abbrev order : ℕ → String → ObjectRecord
order id ref = record {
  id = id;
  object_type = "order";
  external_id = some ref;
  content_hash = ref;
  attributes = [];
  key_fields = "order_id" ∷ "phone" ∷ [];
}

abbrev key : ℕ → String → String → ObjectKey
key id field value = record {
  object_id = id;
  key_field = field;
  key_value_hash = value;
  key_value = value;
}

abbrev objects : Objects
objects = record {
  records = order 5 "AB-1" ∷ order 6 "AB-2" ∷ [];
  keys = key 5 "order_id" "AB-1" ∷ key 5 "phone" "0770" ∷ key 6 "order_id" "AB-2" ∷ [];
  embeddings = [];
}

abbrev search : Lookups
search = record {
  before = λ a b. false;
  strip = λ s. s;
  digits = λ s. s;
  fold = λ s. s;
  key_sha256 = λ s. s;
  nearest = some (λ s. (5, 8000) ∷ (6, 7000) ∷ []);
  show_score = λ n. "0.8";
}

resolve_object-anchor_example :
    (anchor_ids search objects (some "AB-1") ≡ 5 ∷ [])
    × ((phone_ids search objects (some "0770") ≡ [])
        ⊎ (any (λ p. p =? 5) (phone_ids search objects (some "0770")) ≡ true))
unfolding resolve_object resolve_object_by_key key_hash normalise_key_value
resolve_object-anchor_example =
    resolve_object-anchor search objects (some "AB-1") (some "0770") none 5 refl refl refl

resolve_object-contradiction_example :
    ((resolve_object search objects (some "AB-2") (some "0770") none).is_contradiction ≡ true) ↔ (
      (truthy (some "AB-2") ≡ true)
      × ((id : ℕ) × (anchor_ids search objects (some "AB-2") ≡ id ∷ [])
          × (phone_ids search objects (some "0770") ≢ [])
          × (any (λ p. p =? id) (phone_ids search objects (some "0770")) ≡ false)))
resolve_object-contradiction_example =
    resolve_object-contradiction search objects (some "AB-2") (some "0770") none

abbrev bound : ℕ
bound = 5

abbrev uploader : IngestEnv
uploader = record {
  py = record {
    strip = λ s. s;
    is_contact_name = λ s. s =? "phone";
    is_contact_value = λ s. false;
    is_id_name = λ s. s =? "order_id";
    is_phone = λ s. s =? "phone";
  };
  lookups = search;
  content_hash = λ a. elim (lookup "order_id" a) [ none ↦ "" | some v ↦ v ];
  join_spaces = λ s. "words";
  embed = some (λ texts. map (λ s. "vector") texts);
}

abbrev upload : List Attributes
upload =
    (("order_id", "AB-1") ∷ ("phone", "0770") ∷ [])
    ∷ (("order_id", "AB-2") ∷ ("phone", "0770") ∷ [])
    ∷ []

abbrev no_objects : Objects
no_objects = record { records = []; keys = []; embeddings = [] }

abbrev uploaded : Objects
uploaded = (ingest_object_collection uploader "order" 5 upload no_objects).0

upload_fields : profile_key_fields uploader.py upload ≡ "order_id" ∷ "phone" ∷ []
unfolding profile_key_fields
upload_fields = refl

ingest_object_collection-IsIndexed_example : IsIndexed uploader uploaded
ingest_object_collection-IsIndexed_example =
    ingest_object_collection-IsIndexed uploader "order" 5 upload no_objects tt tt

ingest_object_collection_again_example :
    (ingest_object_collection uploader "order" 7 upload uploaded).0 ≡ uploaded
ingest_object_collection_again_example =
    ap (λ s. s.0) (ingest_object_collection_again uploader "order" 5 7 upload no_objects)

abbrev row : ObjectRecord
row =
    object_row uploader "order" ("order_id" ∷ "phone" ∷ []) 6
      (("order_id", "AB-2") ∷ ("phone", "0770") ∷ [])

resolve_object_by_key-IsIndexed_example :
    any
      (is_hit 6 "order_id")
      (resolve_object_by_key (λ a b. false) uploaded (key_hash search false "AB-2"))
    ≡ true
unfolding ingest_object_collection ingest_object upsert_object_record add_object_key key_of
    normalised_hash normalise_key_value render_for_embedding set_object_embedding profile_key_fields
    pick_external_id
resolve_object_by_key-IsIndexed_example =
    resolve_object_by_key-IsIndexed uploader (λ a b. false) uploaded 6 row "order_id" "AB-2" "AB-2"
      (ingest_object_collection-IsIndexed uploader "order" 5 upload no_objects tt tt) refl refl refl
      (λ same. ground (arith, (String-Eq.beq_iff "AB-2" "").1 same)) refl
