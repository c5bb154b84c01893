-- ===== src/Resolve/Ingest/Again.antt =====
-- An upload that is repeated changes nothing.
use structured_chaos.Prelude.{
  All, Bool, List, Option, Option-cases, String, String-Eq, [], ap, arith, inl, inr, is_some,
  length, none, refl, some, suc, true, ℕ, ℕ-Eq, ◌+◌, ◌∙◌, ◌∷◌, ◌≡◌, ◌⊎◌,
}
use structured_chaos.Resolve.Ingest.{
  Counts, IngestEnv, counted_duplicate, embedded_by, ingest_object, ingest_object_collection,
  ingest_objects, no_counts,
}
use structured_chaos.Resolve.Ingest.Found.{
  embedded_by_keeps, ingest_object_known, ingest_object_new, stored,
}
use structured_chaos.Resolve.Ingest.Indexed.{index_keys-records}
use structured_chaos.Resolve.Objects.{Objects, with_hash}
use structured_chaos.Resolve.Profile.{Attributes, profile_key_fields}

abbrev pub is_stored : String → Objects → Bool
is_stored hash o = is_some (with_hash hash o.records)

-- What is in the store stays, and the new object is there.
ingest_object_stays :
    (env : IngestEnv) (kind : String) (fields : List String) (id : ℕ) (a : Attributes) (o : Objects)
    (c : Counts) (hash : String)
    → (is_stored hash o ≡ true) ⊎ (env.content_hash a ≡ hash)
    → is_stored hash (ingest_object env kind fields id a (o, c)).0 ≡ true
ingest_object_stays env kind fields id a o c hash h =
    elim (Option-cases (with_hash (env.content_hash a) o.records)) [
      | inr (existing, present) ↦
          rw (ingest_object_known env kind fields id a o c existing present)
            (ground (arith, h, present))
      | inl absent ↦
          rw
            (
              ingest_object_new env kind fields id a o c absent,
              index_keys-records env id a fields (stored env kind fields id a o) c.keys_indexed,
            )
            (ground (arith, h, String-Eq.beq_iff (env.content_hash a) hash))
    ]

ingest_objects_stays :
    (env : IngestEnv) (kind : String) (fields : List String) (id : ℕ) (objects : List Attributes)
    (o : Objects) (c : Counts) (hash : String)
    → is_stored hash o ≡ true
    → is_stored hash (ingest_objects env kind fields id objects (o, c)).0 ≡ true
ingest_objects_stays env kind fields id [] o c hash h = h
ingest_objects_stays env kind fields id (a ∷ objects) o c hash h =
    let (after, counts) = ingest_object env kind fields id a (o, c) in
    ingest_objects_stays env kind fields (suc id) objects after counts hash
      (ingest_object_stays env kind fields id a o c hash (inl h))

ingest_objects_stored :
    (env : IngestEnv) (kind : String) (fields : List String) (id : ℕ) (objects : List Attributes)
    (o : Objects) (c : Counts)
    → All
        (λ a.
          is_stored (env.content_hash a) (ingest_objects env kind fields id objects (o, c)).0
          ≡ true)
        objects
ingest_objects_stored env kind fields id [] o c = tt
ingest_objects_stored env kind fields id (a ∷ objects) o c =
    let (after, counts) = ingest_object env kind fields id a (o, c) in
    (
      ingest_objects_stays env kind fields (suc id) objects after counts (env.content_hash a)
          (ingest_object_stays env kind fields id a o c (env.content_hash a) (inr refl)),
      ingest_objects_stored env kind fields (suc id) objects after counts,
    )

-- A run over objects that are all stored only counts them.
ingest_objects_known :
    (env : IngestEnv) (kind : String) (fields : List String) (id : ℕ) (objects : List Attributes)
    (o : Objects) (c : Counts)
    → All (λ a. is_stored (env.content_hash a) o ≡ true) objects
    → ingest_objects env kind fields id objects (o, c)
      ≡ (o, record c { duplicates = c.duplicates + length objects })
ingest_objects_known env kind fields id [] o c h =
    let none_more : c.duplicates ≡ c.duplicates + 0 = omega arith in
    ap (λ n. (o, record c { duplicates = n })) none_more
ingest_objects_known env kind fields id (a ∷ objects) o c h =
    elim (Option-cases (with_hash (env.content_hash a) o.records)) [
      | inl absent ↦ ground (arith, absent, h.0)
      | inr (existing, present) ↦
          let one_more : suc c.duplicates + length objects ≡ c.duplicates + suc (length objects) =
            omega arith in
          rw (ingest_object_known env kind fields id a o c existing present) (
            ingest_objects_known env kind fields (suc id) objects o (counted_duplicate c) h.1
            ∙ ap (λ n. (o, record c { duplicates = n })) one_more)
    ]

embedded_by_nothing :
    (embed : Option (List String → List String)) (o : Objects) → embedded_by embed [] o ≡ (o, 0)
embedded_by_nothing none o = refl
embedded_by_nothing (some embed) o = refl

-- An upload that is repeated changes nothing, whatever ids the database would give and whatever stood
-- in the store before: every object counts as a duplicate, and no key and no vector is written.
pub ingest_object_collection_again :
    (env : IngestEnv) (kind : String) (id later : ℕ) (objects : List Attributes) (o : Objects)
    → ingest_object_collection env kind later objects
        (ingest_object_collection env kind id objects o).0
      ≡ (
        (ingest_object_collection env kind id objects o).0,
        record {
          object_type = kind;
          ingested = 0;
          duplicates = length objects;
          keys_indexed = 0;
          embedded = 0;
          key_fields = profile_key_fields env.py objects;
        },
      )
unfolding ingest_object_collection
ingest_object_collection_again env kind id later objects o =
    let fields = profile_key_fields env.py objects in
    let (after, c) = ingest_objects env kind fields id objects (o, no_counts) in
    let final = (embedded_by env.embed c.to_embed after).0 in
    let kept = embedded_by_keeps env.embed c.to_embed after in
    let all_stored : All (λ a. is_stored (env.content_hash a) final ≡ true) objects =
      rw kept.0 (ingest_objects_stored env kind fields id objects o no_counts) in
    let total : 0 + length objects ≡ length objects = omega arith in
    rw
      (
        ingest_objects_known env kind fields later objects final no_counts all_stored,
        embedded_by_nothing env.embed final,
        total,
      )
      refl
