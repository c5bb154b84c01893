-- ===== src/Schema/Dedup/Invariant.antt =====
-- dedup_registry of engine/app/schema/dedup.py: the rows that it starts from, and its invariant.
use text.Mathlib.TextEquality.{eq_iff}
use structured_chaos.Prelude.{
  All, All-sort_by, Bool, Bool-cases, List, String, String-Eq, [], any, any-insert_by, any-sort_by,
  ap, arith, beq_refl, false, inl, inr, insert_by, is_some, keep, map, none, not, refl, sort_by,
  true, ℕ-Eq, ◌=?◌, ◌||◌, ◌∙◌, ◌∷◌, ◌≡◌,
}
use structured_chaos.Schema.Dedup.{DedupTools, dedup_all, dedup_field, dedup_registry, gate}
use structured_chaos.Schema.Dedup.Merged.{IsReady, dedup_all-is_merged}
use structured_chaos.Schema.Dedup.Rows.{
  All-IsFound, All-weaken, IsFound, IsUnique, IsUnique-assign, assign, has_hash, is_anchor,
  is_merged,
}
use structured_chaos.Store.Registry.{
  EmergentField, Registry, is_pending, list_undeduped_variants, nearest_canonical_field,
  seen_earlier, set_field_embedding_canonical,
}

-- A field that was not embedded has no canonical field yet.
abbrev pub is_placed : EmergentField → Bool
is_placed e = is_some e.embedding || not (is_some e.canonical_hash)

-- The hash is the key; a canonical field is assigned with an embedding; and what a field points at is a
-- canonical field under its own head: no alias of an alias, and no merge across heads.
pub record IsMerged (fs : List EmergentField) : Type 0 where
  pub unique : IsUnique fs
  pub placed : All (λ e. is_placed e ≡ true) fs
  pub merged : All (λ e. is_merged fs e ≡ true) fs

abbrev IsOnly : List EmergentField → EmergentField → Type 0
IsOnly fs e = All (λ x. (x.field_name_hash =? e.field_name_hash) ≡ true → x ≡ e) fs

none_at :
    (e : EmergentField) (fs : List EmergentField)
    → any (has_hash e.field_name_hash) fs ≡ false
    → IsOnly fs e
none_at e [] h = tt
none_at e (x ∷ fs) h = (
  (λ at. cc (or_parts (x.field_name_hash =? e.field_name_hash) _ h at)),
  none_at e fs (ground (arith, h)),
)
  where
    or_parts : (a b : Bool) → (a || b) ≡ false → a ≡ true → ◌≡◌ {A = Bool} true false
    or_parts a b p q = ground (arith, p, q)

IsOnly-later :
    (e : EmergentField) (fs xs : List EmergentField)
    → any (has_hash e.field_name_hash) fs ≡ false
    → All (IsFound fs) xs
    → All (IsOnly fs) xs
    → All (IsOnly (e ∷ fs)) xs
IsOnly-later e fs [] fresh here only = tt
IsOnly-later e fs (x ∷ xs) fresh here only = (
  (
    (λ at. cc (
        here.0 (has_hash e.field_name_hash) (
          ground
            (arith, at, eq_iff e.field_name_hash x.field_name_hash, beq_refl x.field_name_hash)))),
    only.0,
  ),
  IsOnly-later e fs xs fresh here.1 only.1,
)

All-IsOnly : (fs : List EmergentField) → IsUnique fs → All (IsOnly fs) fs
All-IsOnly [] u = tt
All-IsOnly (e ∷ fs) u = (
  ((λ at. refl), none_at e fs u.0),
  IsOnly-later e fs fs u.0 (All-IsFound fs) (All-IsOnly fs u.1),
)

anchor_none :
    (e : EmergentField) (fs : List EmergentField)
    → e.canonical_hash ≡ none
    → IsOnly fs e
    → any (is_anchor none e.field_name_hash) fs ≡ false
anchor_none e [] unset only = refl
anchor_none e (x ∷ fs) unset only = elim (Bool-cases (x.field_name_hash =? e.field_name_hash)) [
  | inl at ↦
      let none_set : x.canonical_hash ≡ none =
        ap (λ (y : EmergentField). y.canonical_hash) (only.0 at) ∙ unset in
      rw (at, none_set) (anchor_none e fs unset only.1)
  | inr elsewhere ↦ rw elsewhere (anchor_none e fs unset only.1)
]

only-IsReady :
    (fs : List EmergentField) (e : EmergentField)
    → e.canonical_hash ≡ none
    → IsOnly fs e
    → IsReady fs e
only-IsReady fs e unset only = (
  anchor_none e fs unset only,
  All-weaken fs (λ x same at. ap (λ (y : EmergentField). y.head) (same at)) only,
)

unset_pending :
    (e : EmergentField) → is_placed e ≡ true → is_pending e ≡ true → e.canonical_hash ≡ none
unset_pending e placed waits = ground (arith, placed, waits)

pending-IsReady :
    (fs xs : List EmergentField)
    → All (λ e. is_placed e ≡ true) xs
    → All (IsOnly fs) xs
    → All (IsReady fs) (keep is_pending xs)
pending-IsReady fs [] placed only = tt
pending-IsReady fs (x ∷ xs) placed only = elim (Bool-cases (is_pending x)) [
  | inl waits ↦
      rw (waits, keep)
        (
          only-IsReady fs x (unset_pending x placed.0 waits) only.0,
          pending-IsReady fs xs placed.1 only.1,
        )
  | inr passed ↦ rw (passed, keep) (pending-IsReady fs xs placed.1 only.1)
]

any-keep-false :
    (p q : EmergentField → Bool) (fs : List EmergentField)
    → any p fs ≡ false
    → any p (keep q fs) ≡ false
any-keep-false p q [] h = refl
any-keep-false p q (e ∷ fs) h = ground (arith, any-keep-false p q fs)

IsUnique-keep :
    (q : EmergentField → Bool) (fs : List EmergentField) → IsUnique fs → IsUnique (keep q fs)
IsUnique-keep q [] u = tt
IsUnique-keep q (e ∷ fs) u = elim (Bool-cases (q e)) [
  | inl yes_kept ↦
      rw (yes_kept, keep)
        (any-keep-false (has_hash e.field_name_hash) q fs u.0, IsUnique-keep q fs u.1)
  | inr passed ↦ rw (passed, keep) (IsUnique-keep q fs u.1)
]

IsUnique-insert_by :
    (before : EmergentField → EmergentField → Bool) (x : EmergentField) (ys : List EmergentField)
    → any (has_hash x.field_name_hash) ys ≡ false
    → IsUnique ys
    → IsUnique (insert_by before x ys)
IsUnique-insert_by before x [] fresh u = (refl, tt)
IsUnique-insert_by before x (y ∷ ys) fresh u = elim (Bool-cases (before y x)) [
  | inl earlier ↦
      rw (earlier, insert_by)
        (
          any-insert_by before (has_hash y.field_name_hash) x ys
              ∙ ground (
                arith,
                fresh,
                u.0,
                eq_iff x.field_name_hash y.field_name_hash,
                beq_refl y.field_name_hash,
              ),
          IsUnique-insert_by before x ys (ground (arith, fresh)) u.1,
        )
  | inr later ↦ rw (later, insert_by) (fresh, u)
]

IsUnique-sort_by :
    (before : EmergentField → EmergentField → Bool) (fs : List EmergentField)
    → IsUnique fs
    → IsUnique (sort_by before fs)
IsUnique-sort_by before [] u = tt
IsUnique-sort_by before (e ∷ fs) u =
    IsUnique-insert_by before e (sort_by before fs)
      (any-sort_by before (has_hash e.field_name_hash) fs ∙ u.0) (IsUnique-sort_by before fs u.1)

placed_assign :
    (key embedding canonical : String) (fs : List EmergentField)
    → All (λ e. is_placed e ≡ true) fs
    → All (λ e. is_placed e ≡ true) (map (assign key embedding canonical) fs)
placed_assign key embedding canonical [] h = tt
placed_assign key embedding canonical (e ∷ fs) h =
    (ground (arith, h.0), placed_assign key embedding canonical fs h.1)

dedup_all-rows :
    (tools : DedupTools) (es : List EmergentField) (r : Registry)
    → IsUnique r.fields
    → All (λ e. is_placed e ≡ true) r.fields
    → IsUnique (dedup_all tools es r).0.fields
      × All (λ e. is_placed e ≡ true) (dedup_all tools es r).0.fields
unfolding dedup_field set_field_embedding_canonical
dedup_all-rows tools [] r u h = (u, h)
dedup_all-rows tools (e ∷ es) r u h =
    let embedding = tools.embed e.field_name in
    let canonical =
      (gate tools e
        (nearest_canonical_field tools.similarity embedding e.field_name_hash e.head r)).0 in
    dedup_all-rows tools es (dedup_field tools e r).0
      (IsUnique-assign e.field_name_hash embedding canonical r.fields u)
      (placed_assign e.field_name_hash embedding canonical r.fields h)

-- A pass keeps the registry merged, whatever the embedder, the distances and the model say: every field
-- that points at another one points at a canonical field under its own head, so that there is never an
-- alias of an alias nor a merge across heads.
pub dedup_registry-IsMerged :
    (tools : DedupTools) (r : Registry)
    → IsMerged r.fields
    → IsMerged (dedup_registry tools r).0.fields
unfolding dedup_registry list_undeduped_variants
dedup_registry-IsMerged tools r m =
    let pending = keep is_pending r.fields in
    let rows = sort_by seen_earlier pending in
    let (unique_after, placed_after) = dedup_all-rows tools rows r m.unique m.placed in
    record {
      unique = unique_after;
      placed = placed_after;
      merged =
          dedup_all-is_merged tools rows r
            (IsUnique-sort_by seen_earlier pending (IsUnique-keep is_pending r.fields m.unique))
            (All-sort_by (IsReady r.fields) seen_earlier pending
              (pending-IsReady r.fields r.fields m.placed (All-IsOnly r.fields m.unique)))
            m.merged;
    }
