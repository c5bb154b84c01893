-- ===== src/Schema/Dedup/Settled.antt =====
-- A second pass of dedup_registry (engine/app/schema/dedup.py).
use text.Mathlib.TextEquality.{eq_iff}
use structured_chaos.Prelude.{
  Bool, Bool-cases, List, String, String-Eq, [], any, any-sort_by, arith, beq_refl, false,
  if◌then◌else◌, inl, inr, keep, map, not, refl, some, sort_by, ℕ-Eq, ◌&&◌, ◌=?◌, ◌∷◌, ◌≡◌,
}
use structured_chaos.Schema.Dedup.{DedupTools, dedup_all, dedup_field, dedup_registry, gate}
use structured_chaos.Store.Registry.{
  EmergentField, Registry, is_pending, list_undeduped_variants, nearest_canonical_field,
  seen_earlier, set_field_embedding_canonical,
}

abbrev is_pending_at : String → EmergentField → Bool
is_pending_at hash e = is_pending e && (e.field_name_hash =? hash)

abbrev has_hash : String → EmergentField → Bool
has_hash hash e = e.field_name_hash =? hash

abbrev assigned : String → String → EmergentField → EmergentField
assigned embedding canonical e = record e {
  embedding = some embedding;
  canonical_hash = some canonical;
}

assigned_rows :
    (key embedding canonical hash : String) (fs : List EmergentField)
    → any
        (is_pending_at hash)
        (map (λ e. if e.field_name_hash =? key then assigned embedding canonical e else e) fs)
      ≡ (any (is_pending_at hash) fs && not (key =? hash))
assigned_rows key embedding canonical hash [] = refl
assigned_rows key embedding canonical hash (e ∷ fs) = ground (
  arith,
  eq_iff e.field_name_hash key,
  eq_iff e.field_name_hash hash,
  eq_iff key hash,
  assigned_rows key embedding canonical hash fs,
)

-- An assignment settles the rows with the field's hash, and makes no other row pending.
dedup_field_settles :
    (tools : DedupTools) (e : EmergentField) (hash : String) (r : Registry)
    → any (is_pending_at hash) (dedup_field tools e r).0.fields
      ≡ (any (is_pending_at hash) r.fields && not (e.field_name_hash =? hash))
unfolding dedup_field set_field_embedding_canonical
dedup_field_settles tools e hash r =
    let near =
      nearest_canonical_field tools.similarity (tools.embed e.field_name) e.field_name_hash e.head
        r in
    assigned_rows e.field_name_hash (tools.embed e.field_name) (gate tools e near).0 hash r.fields

dedup_all_settles :
    (tools : DedupTools) (es : List EmergentField) (hash : String) (r : Registry)
    → any (is_pending_at hash) (dedup_all tools es r).0.fields
      ≡ (any (is_pending_at hash) r.fields && not (any (has_hash hash) es))
dedup_all_settles tools [] hash r = ground arith
dedup_all_settles tools (e ∷ es) hash r = ground (
  arith,
  dedup_field_settles tools e hash r,
  dedup_all_settles tools es hash (dedup_field tools e r).0,
)

any-keep :
    (hash : String) (fs : List EmergentField)
    → any (has_hash hash) (keep is_pending fs) ≡ any (is_pending_at hash) fs
any-keep hash [] = refl
any-keep hash (e ∷ fs) = elim (Bool-cases (is_pending e)) [
  | inl waits ↦ rw (waits, keep) (ground (arith, any-keep hash fs))
  | inr placed ↦ rw (placed, keep) (any-keep hash fs)
]

keep_none :
    (fs : List EmergentField)
    → ((hash : String) → any (is_pending_at hash) fs ≡ false)
    → keep is_pending fs ≡ []
keep_none [] none_left = refl
keep_none (e ∷ fs) none_left =
    let rest = keep_none fs (λ hash. ground (arith, none_left hash)) in
    let placed : is_pending e ≡ false =
      ground (arith, none_left e.field_name_hash, beq_refl e.field_name_hash) in
    rw (placed, keep) rest

-- The pass that follows a pass, whatever the models then say, assigns nothing and changes nothing.
pub dedup_registry_again :
    (tools later : DedupTools) (r : Registry)
    → dedup_registry later (dedup_registry tools r).0 ≡ ((dedup_registry tools r).0, [])
unfolding dedup_registry list_undeduped_variants
dedup_registry_again tools later r =
    let pending = sort_by seen_earlier (keep is_pending r.fields) in
    let final = (dedup_all tools pending r).0 in
    let none_left : (hash : String) → any (is_pending_at hash) final.fields ≡ false = λ hash.
      ground (
        arith,
        dedup_all_settles tools pending hash r,
        any-sort_by seen_earlier (has_hash hash) (keep is_pending r.fields),
        any-keep hash r.fields,
      ) in
    rw (keep_none final.fields none_left) refl
