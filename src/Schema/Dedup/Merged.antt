-- ===== src/Schema/Dedup/Merged.antt =====
-- dedup_registry of engine/app/schema/dedup.py keeps the registry merged.
use text.Mathlib.TextEquality.{eq_iff}
use structured_chaos.Prelude.{
  All, Bool-cases, List, Option, String, String-Eq, [], any, arith, beq_refl, false, inl, inr, leb,
  ltb, map, none, refl, some, true, ℕ, ℕ-Eq, ◌=?◌, ◌∙◌, ◌∷◌, ◌≡◌,
}
use structured_chaos.Schema.Dedup.{DedupTools, adjudicated, dedup_all, dedup_field, gate}
use structured_chaos.Schema.Dedup.Canonical.{IsTarget, nearest-is_anchor, row_merged}
use structured_chaos.Schema.Dedup.Rows.{
  All-IsFound, All-unmap, IsFound, IsUnique, any-is_anchor_other, assign, has_hash, is_anchor,
  is_merged,
}
use structured_chaos.Store.Registry.{
  EmergentField, Registry, nearest, nearest_canonical_field, set_field_embedding_canonical,
}
use structured_chaos.Store.Registry.Minted.{merged}

rows_merged :
    (key embedding canonical : String) (head : Option String) (fs xs : List EmergentField)
    → any (is_anchor none key) fs ≡ false
    → IsTarget key head canonical fs
    → All (λ x. (x.field_name_hash =? key) ≡ true → x.head ≡ head) xs
    → All
        (λ x. IsFound (map (assign key embedding canonical) fs) (assign key embedding canonical x))
        xs
    → All (λ x. is_merged fs x ≡ true) xs
    → All
        (λ x. is_merged (map (assign key embedding canonical) fs) x ≡ true)
        (map (assign key embedding canonical) xs)
rows_merged key embedding canonical head fs [] free target heads here merged = tt
rows_merged key embedding canonical head fs (x ∷ xs) free target heads here merged = (
  row_merged key embedding canonical head fs x free target heads.0 here.0 merged.0,
  rows_merged key embedding canonical head fs xs free target heads.1 here.1 merged.1,
)

-- A row that may be assigned: no canonical row has its hash, and its rows are under its head.
abbrev pub IsReady : List EmergentField → EmergentField → Type 0
IsReady fs e =
    (any (is_anchor none e.field_name_hash) fs ≡ false)
    × All (λ x. (x.field_name_hash =? e.field_name_hash) ≡ true → x.head ≡ e.head) fs

gate-IsTarget :
    (tools : DedupTools) (e : EmergentField) (fs : List EmergentField)
    (near : Option (EmergentField × ℕ))
    → nearest tools.similarity (tools.embed e.field_name) e.field_name_hash e.head fs ≡ near
    → IsTarget e.field_name_hash e.head (gate tools e near).0 fs
gate-IsTarget tools e fs none eq = inl refl
gate-IsTarget tools e fs (some (c, sim)) eq =
    let anchored =
      nearest-is_anchor tools.similarity (tools.embed e.field_name) e.field_name_hash e.head fs c
        sim eq in
    elim (Bool-cases (leb 8500 sim)) [
      | inl near ↦ rw near (inr anchored)
      | inr apart ↦ elim (Bool-cases (ltb sim 7000)) [
        | inl far ↦ rw (apart, far) (inl refl)
        | inr gray ↦ elim (Bool-cases (adjudicated tools e.field_name c.field_name)) [
          | inl agreed ↦ rw (apart, gray, agreed) (inr anchored)
          | inr kept ↦ rw (apart, gray, kept) (inl refl)
        ]
      ]
    ]

-- The registry's rows after one assignment.
assigned_fields : DedupTools → EmergentField → List EmergentField → List EmergentField
assigned_fields tools e fs =
    map
      (assign e.field_name_hash (tools.embed e.field_name)
        (gate tools e
          (nearest tools.similarity (tools.embed e.field_name) e.field_name_hash e.head fs)).0)
      fs

dedup_field-fields :
    (tools : DedupTools) (e : EmergentField) (r : Registry)
    → (dedup_field tools e r).0.fields ≡ assigned_fields tools e r.fields
unfolding dedup_field set_field_embedding_canonical nearest_canonical_field assigned_fields
dedup_field-fields tools e r = refl

assigned_fields-is_merged :
    (tools : DedupTools) (e : EmergentField) (fs : List EmergentField)
    → IsReady fs e
    → All (λ x. is_merged fs x ≡ true) fs
    → All (λ x. is_merged (assigned_fields tools e fs) x ≡ true) (assigned_fields tools e fs)
unfolding assigned_fields
assigned_fields-is_merged tools e fs ready_row merged =
    let near = nearest tools.similarity (tools.embed e.field_name) e.field_name_hash e.head fs in
    let canonical = (gate tools e near).0 in
    let set = assign e.field_name_hash (tools.embed e.field_name) canonical in
    rows_merged e.field_name_hash (tools.embed e.field_name) canonical e.head fs fs ready_row.0
      (gate-IsTarget tools e fs near refl) ready_row.1
      (All-unmap (IsFound (map set fs)) set fs (All-IsFound (map set fs))) merged

heads_assign :
    (key embedding canonical hash : String) (head : Option String) (fs : List EmergentField)
    → All (λ x. (x.field_name_hash =? hash) ≡ true → x.head ≡ head) fs
    → All
        (λ x. (x.field_name_hash =? hash) ≡ true → x.head ≡ head)
        (map (assign key embedding canonical) fs)
heads_assign key embedding canonical hash head [] h = tt
heads_assign key embedding canonical hash head (x ∷ fs) h =
    ((λ at. ground (arith, h.0)), heads_assign key embedding canonical hash head fs h.1)

assigned_fields-IsReady :
    (tools : DedupTools) (e f : EmergentField) (fs : List EmergentField)
    → (e.field_name_hash =? f.field_name_hash) ≡ false
    → IsReady fs f
    → IsReady (assigned_fields tools e fs) f
unfolding assigned_fields
assigned_fields-IsReady tools e f fs unlike ready_row =
    let near = nearest tools.similarity (tools.embed e.field_name) e.field_name_hash e.head fs in
    let canonical = (gate tools e near).0 in
    (
      any-is_anchor_other e.field_name_hash (tools.embed e.field_name) canonical f.field_name_hash
            fs unlike
          ∙ ready_row.0,
      heads_assign e.field_name_hash (tools.embed e.field_name) canonical f.field_name_hash f.head
          fs ready_row.1,
    )

all-IsReady :
    (tools : DedupTools) (e : EmergentField) (fs es : List EmergentField)
    → any (has_hash e.field_name_hash) es ≡ false
    → All (IsReady fs) es
    → All (IsReady (assigned_fields tools e fs)) es
all-IsReady tools e fs [] fresh ready_rows = tt
all-IsReady tools e fs (f ∷ es) fresh ready_rows = (
  assigned_fields-IsReady tools e f fs
      (ground
        (arith, fresh, eq_iff e.field_name_hash f.field_name_hash, beq_refl e.field_name_hash))
      ready_rows.0,
  all-IsReady tools e fs es (ground (arith, fresh)) ready_rows.1,
)

pub dedup_all-is_merged :
    (tools : DedupTools) (es : List EmergentField) (r : Registry)
    → IsUnique es
    → All (IsReady r.fields) es
    → All (λ x. is_merged r.fields x ≡ true) r.fields
    → All (λ x. is_merged (dedup_all tools es r).0.fields x ≡ true) (dedup_all tools es r).0.fields
dedup_all-is_merged tools [] r unique ready_rows merged = merged
dedup_all-is_merged tools (e ∷ es) r unique ready_rows merged =
    let after = (dedup_field tools e r).0 in
    let same = dedup_field-fields tools e r in
    dedup_all-is_merged tools es after unique.1
      (rw same (all-IsReady tools e r.fields es unique.0 ready_rows.1))
      (rw same (assigned_fields-is_merged tools e r.fields ready_rows.0 merged))
