-- ===== src/Resolve/Ingest/Found.antt =====
-- A stored object is found by its identifiers: the index that the ingest writes is the one that the
-- lookup reads.
use structured_chaos.Prelude.{
  All, List, Option, Option-cases, String, String-Eq, [], arith, inl, inr, map, none, refl, some,
  suc, true, ℕ, ℕ-Eq, ◌<◌, ◌∷◌, ◌≡◌,
}
use structured_chaos.Resolve.Ingest.{
  Counts, IngestEnv, counted_duplicate, embed_rows, embedded_by, index_keys, ingest_object,
  ingest_object_collection, ingest_objects, no_counts, object_row,
}
use structured_chaos.Resolve.Ingest.Indexed.{
  All-both_map, All-map, IsBelow, IsIndexed, index_keys-IsIndexed, index_keys-records,
  is_indexed_at, older_kept,
}
use structured_chaos.Resolve.Objects.{
  Objects, set_object_embedding, upsert_object_record, with_hash,
}
use structured_chaos.Resolve.Profile.{Attributes, profile_key_fields}

abbrev pub stored : IngestEnv → String → List String → ℕ → Attributes → Objects → Objects
stored env kind fields id a o = record o { records = object_row env kind fields id a ∷ o.records }

-- An object that is in the store already leaves it as it is.
pub ingest_object_known :
    (env : IngestEnv) (kind : String) (fields : List String) (id : ℕ) (a : Attributes) (o : Objects)
    (c : Counts) (existing : ℕ)
    → with_hash (env.content_hash a) o.records ≡ some existing
    → ingest_object env kind fields id a (o, c) ≡ (o, counted_duplicate c)
unfolding ingest_object upsert_object_record
ingest_object_known env kind fields id a o c existing present =
    rw (present, ingest_object, upsert_object_record) refl

-- A new one is stored and indexed.
pub ingest_object_new :
    (env : IngestEnv) (kind : String) (fields : List String) (id : ℕ) (a : Attributes) (o : Objects)
    (c : Counts)
    → with_hash (env.content_hash a) o.records ≡ none
    → (ingest_object env kind fields id a (o, c)).0
      ≡ (index_keys env id a fields (stored env kind fields id a o, c.keys_indexed)).0
unfolding ingest_object upsert_object_record
ingest_object_new env kind fields id a o c absent =
    rw (absent, ingest_object, upsert_object_record) refl

ingest_object-IsIndexed :
    (env : IngestEnv) (kind : String) (fields : List String) (id : ℕ) (a : Attributes) (o : Objects)
    (c : Counts)
    → IsIndexed env o
    → IsBelow id o
    → IsIndexed env (ingest_object env kind fields id a (o, c)).0
      × IsBelow (suc id) (ingest_object env kind fields id a (o, c)).0
ingest_object-IsIndexed env kind fields id a o c h below =
    let raised =
      All-map (λ r. r.id < id) (λ r. r.id < suc id) o.records (λ r lt. omega arith) below in
    elim (Option-cases (with_hash (env.content_hash a) o.records)) [
      | inr (existing, present) ↦
          rw (ingest_object_known env kind fields id a o c existing present) (h, raised)
      | inl absent ↦
          let after = stored env kind fields id a o in
          let n = c.keys_indexed in
          rw
            (
              ingest_object_new env kind fields id a o c absent,
              index_keys-records env id a fields after n,
            )
            (
              (
                index_keys-IsIndexed env id a fields after n,
                (All-both_map (λ r. r.id < id)
                    (λ r. All (λ f. is_indexed_at env o.keys r f ≡ true) r.key_fields)
                    (λ r.
                      All
                        (λ f.
                          is_indexed_at env (index_keys env id a fields (after, n)).0.keys r f
                          ≡ true)
                        r.key_fields)
                    o.records
                    (λ r lt all.
                      All-map (λ f. is_indexed_at env o.keys r f ≡ true)
                        (λ f.
                          is_indexed_at env (index_keys env id a fields (after, n)).0.keys r f
                          ≡ true)
                        r.key_fields (λ f held. older_kept env id a fields after n r f lt held) all)
                    below h),
              ),
              (omega arith, raised),
            )
    ]

ingest_objects-IsIndexed :
    (env : IngestEnv) (kind : String) (fields : List String) (id : ℕ) (objects : List Attributes)
    (o : Objects) (c : Counts)
    → IsIndexed env o
    → IsBelow id o
    → IsIndexed env (ingest_objects env kind fields id objects (o, c)).0
ingest_objects-IsIndexed env kind fields id [] o c h below = h
ingest_objects-IsIndexed env kind fields id (a ∷ objects) o c h below =
    let (held, above) = ingest_object-IsIndexed env kind fields id a o c h below in
    let (after, counts) = ingest_object env kind fields id a (o, c) in
    ingest_objects-IsIndexed env kind fields (suc id) objects after counts held above

-- The vectors leave the records and the keys.
embed_rows_keeps :
    (rows : List (ℕ × String)) (vectors : List String) (o : Objects) (n : ℕ)
    → ((embed_rows rows vectors (o, n)).0.records ≡ o.records)
      × ((embed_rows rows vectors (o, n)).0.keys ≡ o.keys)
unfolding set_object_embedding
embed_rows_keeps [] vectors o n = (refl, refl)
embed_rows_keeps (row ∷ rows) [] o n = (refl, refl)
embed_rows_keeps ((id, text) ∷ rows) (v ∷ vectors) o n =
    embed_rows_keeps rows vectors (set_object_embedding id v o) (suc n)

pub embedded_by_keeps :
    (embed : Option (List String → List String)) (rows : List (ℕ × String)) (o : Objects)
    → ((embedded_by embed rows o).0.records ≡ o.records)
      × ((embedded_by embed rows o).0.keys ≡ o.keys)
embedded_by_keeps none rows o = (refl, refl)
embedded_by_keeps (some embed) rows o = embed_rows_keeps rows (embed (map (λ r. r.1) rows)) o 0

-- An upload keeps the index complete: each value of a key field of each stored object that is not all
-- noise is in the index with the hash of its normal form, whatever was uploaded before and whether the
-- object is new or a duplicate, where the new rows get ids that are above those in the store.
pub ingest_object_collection-IsIndexed :
    (env : IngestEnv) (kind : String) (id : ℕ) (objects : List Attributes) (o : Objects)
    → IsIndexed env o
    → IsBelow id o
    → IsIndexed env (ingest_object_collection env kind id objects o).0
unfolding ingest_object_collection
ingest_object_collection-IsIndexed env kind id objects o h below =
    let fields = profile_key_fields env.py objects in
    let (after, c) = ingest_objects env kind fields id objects (o, no_counts) in
    let (same_records, same_keys) = embedded_by_keeps env.embed c.to_embed after in
    rw (same_records, same_keys)
      (ingest_objects-IsIndexed env kind fields id objects o no_counts h below)
