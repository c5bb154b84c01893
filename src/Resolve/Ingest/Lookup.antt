-- ===== src/Resolve/Ingest/Lookup.antt =====
-- What the ingest indexes, the lookup finds.
use mathlib.Core.Path.{subst}
use structured_chaos.Prelude.{
  All, Bool, Bool-cases, List, Option-cases, String, String-Eq, [], any, ap, arith, inl, inr,
  or_else, refl, some, sym, true, ℕ, ℕ-Eq, ◌&&◌, ◌=?◌, ◌||◌, ◌∙◌, ◌∷◌, ◌≡◌, ◌≢◌,
}
use structured_chaos.Resolve.Ingest.{IngestEnv, given, key_of, key_row, normalised_hash}
use structured_chaos.Resolve.Ingest.Indexed.{IsIndexed, is_indexed, is_indexed_at, is_key}
use structured_chaos.Resolve.Objects.{
  ObjectHit, ObjectKey, ObjectRecord, Objects, find_record, insert_hit, join_keys,
  resolve_object_by_key, sort_hits,
}
use structured_chaos.Resolve.Profile.{Attributes}
use structured_chaos.Resolve.Resolver.{key_hash, normalise_key_value}

abbrev pub is_hit : ℕ → String → ObjectHit → Bool
is_hit id field h = (h.object_id =? id) && (h.key_field =? field)

any-insert_hit :
    (before : ObjectHit → ObjectHit → Bool) (p : ObjectHit → Bool) (x : ObjectHit)
    (xs : List ObjectHit)
    → any p (insert_hit before x xs) ≡ (p x || any p xs)
any-insert_hit before p x [] = refl
any-insert_hit before p x (y ∷ ys) = ground (arith, any-insert_hit before p x ys)

any-sort_hits :
    (before : ObjectHit → ObjectHit → Bool) (p : ObjectHit → Bool) (xs : List ObjectHit)
    → any p (sort_hits before xs) ≡ any p xs
any-sort_hits before p [] = refl
any-sort_hits before p (x ∷ xs) =
    ground (arith, any-insert_hit before p x (sort_hits before xs), any-sort_hits before p xs)

join_keys_finds :
    (k : ObjectKey) (r : ObjectRecord) (rs : List ObjectRecord) (ks : List ObjectKey)
    → find_record k.object_id rs ≡ some r
    → r.id ≡ k.object_id
    → any (is_key k) ks ≡ true
    → any (is_hit k.object_id k.key_field) (join_keys k.key_value_hash rs ks) ≡ true
join_keys_finds k r rs [] row own h = ground (arith, h)
join_keys_finds k r rs (j ∷ ks) row own h = elim (Bool-cases (is_key k j)) [
  | inl this_one ↦
      let id : j.object_id ≡ k.object_id =
        ground (arith, this_one, ℕ-Eq.beq_iff k.object_id j.object_id) in
      let field : j.key_field ≡ k.key_field =
        ground (arith, this_one, String-Eq.beq_iff k.key_field j.key_field) in
      let hash : j.key_value_hash ≡ k.key_value_hash =
        ground (arith, this_one, String-Eq.beq_iff k.key_value_hash j.key_value_hash) in
      let found : find_record j.object_id rs ≡ some r = ap (λ i. find_record i rs) id ∙ row in
      ground (
        arith,
        found,
        String-Eq.beq_iff j.key_value_hash k.key_value_hash,
        hash,
        own,
        field,
        String-Eq.beq_iff j.key_field k.key_field,
        ℕ-Eq.beq_iff r.id k.object_id,
      )
  | inr another ↦
      let rest = join_keys_finds k r rs ks row own (ground (arith, h, another)) in
      elim (Option-cases (find_record j.object_id rs)) [
        | inl gone ↦ ground (arith, gone, rest)
        | inr (s, found) ↦ ground (arith, found, rest)
      ]
]

All-at :
    (P : ObjectRecord → Type 0) (id : ℕ) (rs : List ObjectRecord) (r : ObjectRecord)
    → find_record id rs ≡ some r
    → All P rs
    → P r × (r.id ≡ id)
All-at P id [] r row h = ground (arith, row)
All-at P id (s ∷ rs) r row h = elim (Bool-cases (s.id =? id)) [
  | inl this_one ↦
      let both : some s ≡ some r = rw this_one at row in
      let same : s ≡ r = ap (λ t. or_else t s) both in
      (subst P same h.0, ap (λ t. t.id) (sym same) ∙ (ℕ-Eq.beq_iff s.id id).0 this_one)
  | inr another ↦ All-at P id rs r (rw another at row) h.1
]

All-member :
    (P : String → Type 0) (x : String) (xs : List String)
    → any (λ y. y =? x) xs ≡ true
    → All P xs
    → P x
All-member P x [] listed h = ground (arith, listed)
All-member P x (y ∷ ys) listed h = elim (Bool-cases (y =? x)) [
  | inl this_one ↦ subst P ((String-Eq.beq_iff y x).0 this_one) h.0
  | inr another ↦ All-member P x ys (ground (arith, listed, another)) h.1
]

-- The key of a value that is not all noise.
key_of-given :
    (env : IngestEnv) (id : ℕ) (a : Attributes) (field raw : String)
    → given field a ≡ some raw
    → normalise_key_value env.lookups (env.py.is_phone field) raw ≢ ""
    → key_of env id a field
      ≡ some (
          key_row id field
            (key_hash env.lookups (env.py.is_phone field) raw)
            (env.lookups.strip raw))
unfolding key_of normalised_hash key_hash
key_of-given env id a field raw value real =
    let norm = normalise_key_value env.lookups (env.py.is_phone field) raw in
    elim (Bool-cases (norm =? "")) [
      | inl noise ↦ ground (arith, real ((String-Eq.beq_iff norm "").0 noise))
      | inr signal ↦ rw (value, signal, key_of, normalised_hash) refl
    ]

-- In a store whose index is complete, an object is found by what it has in any of its key fields, where
-- that is not all noise: the lookup of any spelling with the same normal form finds it under that
-- field.
pub resolve_object_by_key-IsIndexed :
    (env : IngestEnv) (before : ObjectHit → ObjectHit → Bool) (o : Objects) (id : ℕ)
    (r : ObjectRecord) (field raw quoted : String)
    → IsIndexed env o
    → find_record id o.records ≡ some r
    → any (λ f. f =? field) r.key_fields ≡ true
    → given field r.attributes ≡ some raw
    → normalise_key_value env.lookups (env.py.is_phone field) raw ≢ ""
    → normalise_key_value env.lookups (env.py.is_phone field) quoted
      ≡ normalise_key_value env.lookups (env.py.is_phone field) raw
    → any
        (is_hit id field)
        (resolve_object_by_key before o (key_hash env.lookups (env.py.is_phone field) quoted))
      ≡ true
unfolding resolve_object_by_key key_hash
resolve_object_by_key-IsIndexed env before o id r field raw quoted h row listed value real same =
    let (at_row, own) =
      All-at (λ t. All (λ f. is_indexed_at env o.keys t f ≡ true) t.key_fields) id o.records r row
        h in
    let there =
      All-member (λ f. is_indexed_at env o.keys r f ≡ true) field r.key_fields listed at_row in
    let hash = key_hash env.lookups (env.py.is_phone field) in
    let k = key_row r.id field (hash raw) (env.lookups.strip raw) in
    let keyed = key_of-given env r.id r.attributes field raw value real in
    let indexed : any (is_key k) o.keys ≡ true = rw (keyed, is_indexed) at there in
    let own_row : find_record r.id o.records ≡ some r =
      ap (λ i. find_record i o.records) own ∙ row in
    let found = join_keys_finds k r o.records o.keys own_row refl indexed in
    let sorted = any-sort_hits before (is_hit r.id field) (join_keys (hash raw) o.records o.keys) in
    subst (λ i. any (is_hit i field) (resolve_object_by_key before o (hash quoted)) ≡ true) own
      (rw (ap env.lookups.key_sha256 same) (sorted ∙ found))
