-- ===== src/Resolve/Ingest/Indexed.antt =====
-- The key index of the object store: every identifier of every stored object is in it.
use structured_chaos.Prelude.{
  All, Bool, Bool-cases, List, Option, Option-cases, String, String-Eq, [], all, any, ap, arith,
  beq_refl, inl, inr, none, refl, some, suc, sym, true, ℕ, ℕ-Eq, ◌&&◌, ◌<◌, ◌=?◌, ◌∙◌, ◌∷◌, ◌≡◌,
}
use structured_chaos.Resolve.Ingest.{IngestEnv, index_keys, key_of}
use structured_chaos.Resolve.Objects.{
  ObjectKey, ObjectRecord, Objects, add_object_key, put_key, same_slot,
}
use structured_chaos.Resolve.Profile.{Attributes}

abbrev pub is_key : ObjectKey → ObjectKey → Bool
is_key k j = same_slot k j && (k.key_value_hash =? j.key_value_hash)

abbrev pub is_indexed : Option ObjectKey → List ObjectKey → Bool
is_indexed none keys = true
is_indexed (some k) keys = any (is_key k) keys

abbrev pub is_indexed_at : IngestEnv → List ObjectKey → ObjectRecord → String → Bool
is_indexed_at env keys r field = is_indexed (key_of env r.id r.attributes field) keys

-- Each value of a key field that is not all noise is in the index, with the hash of its normal form.
abbrev pub IsIndexed : IngestEnv → Objects → Type 0
IsIndexed env o =
    All (λ r. All (λ field. is_indexed_at env o.keys r field ≡ true) r.key_fields) o.records

abbrev pub IsBelow : ℕ → Objects → Type 0
IsBelow id o = All (λ r. r.id < id) o.records

put_key_there : (k : ObjectKey) (ks : List ObjectKey) → any (is_key k) (put_key k ks) ≡ true
put_key_there k [] =
    ground (arith, beq_refl k.object_id, beq_refl k.key_field, beq_refl k.key_value_hash)
put_key_there k (i ∷ is) = ground (
  arith,
  put_key_there k is,
  beq_refl k.object_id,
  beq_refl k.key_field,
  beq_refl k.key_value_hash,
)

put_key_keeps :
    (k j : ObjectKey) (ks : List ObjectKey)
    → (same_slot k j ≡ true → k.key_value_hash ≡ j.key_value_hash)
    → any (is_key k) ks ≡ true
    → any (is_key k) (put_key j ks) ≡ true
put_key_keeps k j [] same h = ground (arith, h)
put_key_keeps k j (i ∷ is) same h = ground (
  arith,
  put_key_keeps k j is same,
  same,
  String-Eq.beq_iff k.key_field i.key_field,
  String-Eq.beq_iff k.key_field j.key_field,
  String-Eq.beq_iff j.key_field i.key_field,
  String-Eq.beq_iff k.key_value_hash i.key_value_hash,
  String-Eq.beq_iff k.key_value_hash j.key_value_hash,
  ℕ-Eq.beq_iff k.object_id i.object_id,
  ℕ-Eq.beq_iff k.object_id j.object_id,
  ℕ-Eq.beq_iff j.object_id i.object_id,
)

key_of-key :
    (env : IngestEnv) (id : ℕ) (a : Attributes) (field : String) (k : ObjectKey)
    → key_of env id a field ≡ some k
    → (k.object_id ≡ id) × (k.key_field ≡ field)
unfolding key_of
key_of-key env id a field k h = ground (arith, h)

-- The loop changes no record.
pub index_keys-records :
    (env : IngestEnv) (id : ℕ) (a : Attributes) (fields : List String) (o : Objects) (n : ℕ)
    → (index_keys env id a fields (o, n)).0.records ≡ o.records
unfolding add_object_key
index_keys-records env id a [] o n = refl
index_keys-records env id a (f ∷ fields) o n = elim (Option-cases (key_of env id a f)) [
  | inl nothing ↦ rw (nothing, index_keys) (index_keys-records env id a fields o n)
  | inr (k, found) ↦
      rw (found, index_keys) (index_keys-records env id a fields (add_object_key k o) (suc n))
]

-- A key stays in the index if the loop puts the same hash wherever it puts that slot.
index_keys_keeps :
    (env : IngestEnv) (id : ℕ) (a : Attributes) (fields : List String) (o : Objects) (n : ℕ)
    (k : ObjectKey)
    → ((f : String) (j : ObjectKey)
        → key_of env id a f ≡ some j
        → same_slot k j ≡ true
        → k.key_value_hash ≡ j.key_value_hash)
    → any (is_key k) o.keys ≡ true
    → any (is_key k) (index_keys env id a fields (o, n)).0.keys ≡ true
unfolding add_object_key
index_keys_keeps env id a [] o n k same h = h
index_keys_keeps env id a (f ∷ fields) o n k same h = elim (Option-cases (key_of env id a f)) [
  | inl nothing ↦ rw (nothing, index_keys) (index_keys_keeps env id a fields o n k same h)
  | inr (j, found) ↦
      rw (found, index_keys)
        (index_keys_keeps env id a fields (add_object_key j o) (suc n) k same
          (put_key_keeps k j o.keys (same f j found) h))
]

-- Two keys of one object in the same slot are the same.
key_of-same :
    (env : IngestEnv) (id : ℕ) (a : Attributes) (f g : String) (k j : ObjectKey)
    → key_of env id a f ≡ some k
    → key_of env id a g ≡ some j
    → same_slot k j ≡ true
    → k.key_value_hash ≡ j.key_value_hash
key_of-same env id a f g k j hk hj same =
    let (kid, kf) = key_of-key env id a f k hk in
    let (jid, jf) = key_of-key env id a g j hj in
    let one : f ≡ g = ground (arith, same, kf, jf, String-Eq.beq_iff k.key_field j.key_field) in
    let both : some k ≡ some j = sym hk ∙ ap (key_of env id a) one ∙ hj in cc

-- After the loop every key of the object is there.
index_keys_there :
    (env : IngestEnv) (id : ℕ) (a : Attributes) (fields : List String) (o : Objects) (n : ℕ)
    (f : String) (k : ObjectKey)
    → key_of env id a f ≡ some k
    → any (λ g. g =? f) fields ≡ true
    → any (is_key k) (index_keys env id a fields (o, n)).0.keys ≡ true
unfolding add_object_key
index_keys_there env id a [] o n f k hk listed = ground (arith, listed)
index_keys_there env id a (g ∷ fields) o n f k hk listed = elim (Bool-cases (g =? f)) [
  | inl this_one ↦
      let found : key_of env id a g ≡ some k =
        ap (key_of env id a) ((String-Eq.beq_iff g f).0 this_one) ∙ hk in
      rw (found, index_keys)
        (index_keys_keeps env id a fields (add_object_key k o) (suc n) k
          (λ h j hj same. key_of-same env id a f h k j hk hj same) (put_key_there k o.keys))
  | inr elsewhere ↦
      let rest : any (λ h. h =? f) fields ≡ true = ground (arith, listed, elsewhere) in
      elim (Option-cases (key_of env id a g)) [
        | inl nothing ↦ rw (nothing, index_keys) (index_keys_there env id a fields o n f k hk rest)
        | inr (j, found) ↦
            rw (found, index_keys)
              (index_keys_there env id a fields (add_object_key j o) (suc n) f k hk rest)
      ]
]

pub All-listed {κ} :
    (P : String → Type κ) (xs : List String)
    → ((x : String) → any (λ g. g =? x) xs ≡ true → P x)
    → All P xs
All-listed P [] h = tt
All-listed P (x ∷ xs) h =
    (h x (ground (arith, beq_refl x)), All-listed P xs (λ y listed. h y (ground (arith, listed))))

pub All-map {κ μ} :
    {A : Type 0} (P : A → Type κ) (Q : A → Type μ) (xs : List A)
    → ((x : A) → P x → Q x)
    → All P xs
    → All Q xs
All-map P Q [] h all = tt
All-map P Q (x ∷ xs) h all = (h x all.0, All-map P Q xs h all.1)

pub All-both_map {κ μ ν} :
    {A : Type 0} (P : A → Type κ) (Q : A → Type μ) (R : A → Type ν) (xs : List A)
    → ((x : A) → P x → Q x → R x)
    → All P xs
    → All Q xs
    → All R xs
All-both_map P Q R [] h ps qs = tt
All-both_map P Q R (x ∷ xs) h ps qs = (h x ps.0 qs.0, All-both_map P Q R xs h ps.1 qs.1)

is_indexed_found :
    (found : Option ObjectKey) (keys : List ObjectKey)
    → ((k : ObjectKey) → found ≡ some k → any (is_key k) keys ≡ true)
    → is_indexed found keys ≡ true
is_indexed_found none keys h = refl
is_indexed_found (some k) keys h = h k refl

-- What one created object leaves: the older records keep their keys, and its own are all there.
pub index_keys-IsIndexed :
    (env : IngestEnv) (id : ℕ) (a : Attributes) (fields : List String) (o : Objects) (n : ℕ)
    → All
        (λ f. is_indexed (key_of env id a f) (index_keys env id a fields (o, n)).0.keys ≡ true)
        fields
index_keys-IsIndexed env id a fields o n =
    All-listed
      (λ f. is_indexed (key_of env id a f) (index_keys env id a fields (o, n)).0.keys ≡ true) fields
      (λ f listed.
        is_indexed_found (key_of env id a f) (index_keys env id a fields (o, n)).0.keys
          (λ k hk. index_keys_there env id a fields o n f k hk listed))

pub older_kept :
    (env : IngestEnv) (id : ℕ) (a : Attributes) (fields : List String) (o : Objects) (n : ℕ)
    (r : ObjectRecord) (f : String)
    → r.id < id
    → is_indexed_at env o.keys r f ≡ true
    → is_indexed_at env (index_keys env id a fields (o, n)).0.keys r f ≡ true
older_kept env id a fields o n r f below h = elim (Option-cases (key_of env r.id r.attributes f)) [
  | inl nothing ↦ rw (nothing, is_indexed) refl
  | inr (k, found) ↦
      let (kid, _) = key_of-key env r.id r.attributes f k found in
      let there : any (is_key k) o.keys ≡ true = rw (found, is_indexed) at h in
      rw (found, is_indexed)
        (index_keys_keeps env id a fields o n k
          (λ g j hj same. ground (
            arith,
            same,
            kid,
            below,
            key_of-key env id a g j hj,
            ℕ-Eq.beq_iff k.object_id j.object_id,
          ))
          there)
]
