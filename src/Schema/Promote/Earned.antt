-- ===== src/Schema/Promote/Earned.antt =====
-- promote of engine/app/schema/promote.py: exactly which variants are promoted.
use structured_chaos.Prelude.{
  Bool, Bool-cases, List, Option, String, String-Eq, Table, [], any, any-sort_by, ap, ap₂, arith,
  if◌then◌else◌, inl, inr, keep, leb, length, map, none, not, or_else, refl, some, sort_by, sym,
  true, ℕ, ℕ-Eq, ◌&&◌, ◌=?◌, ◌||◌, ◌∙◌, ◌∷◌, ◌≡◌,
}
use structured_chaos.Schema.Pii.{NameTools}
use structured_chaos.Schema.Promote.{is_open_name, promote, promote_heads, promote_qualifiers}
use structured_chaos.Schema.Promote.Rounds.{
  added_rows, any-keep, any-map, any_same, has_field, has_hash, heads_read, is_field_promoted,
  promote_head_rows-fields, promote_qualifier_rows-Adds, promotes,
}
use structured_chaos.Store.Log.{Extraction, Logs}
use structured_chaos.Store.Registry.{
  EmergentField, EmergentHead, Registry, attesting, by_head_and_name, effective_support, is_alias,
  is_emergent, is_text, is_variant, list_emergent_heads, list_promotable_qualifier_variants,
}

-- The numbers that are there, each once.
abbrev pub distinct : List ℕ → List ℕ
distinct [] = []
distinct (n ∷ ns) = let rest = distinct ns in if any (λ m. m =? n) rest then rest else n ∷ rest

-- The path is the name of a field whose canonical field has the hash.
abbrev pub is_pooled : String → List EmergentField → String → Bool
is_pooled hash fields path =
    any (λ f. (f.field_name =? path) && is_text f.canonical_hash hash) fields

-- The distinct cases behind a variant: those of all its aliases once it has a canonical field, and
-- else the ones counted when it was registered.
abbrev pub cases_behind : Logs → List EmergentField → EmergentField → ℕ
cases_behind l fields e = elim e.canonical_hash [
  | none ↦ e.support_count
  | some h ↦ length (
      distinct (
        map (λ x. x.case_id)
          (keep (λ x. is_emergent x.layer && is_pooled e.field_name_hash fields x.field_path)
            l.extractions)))
]

-- A variant of a promoted head, no alias of another field, with an open name and eight cases.
abbrev pub is_earned :
    NameTools → Logs → List EmergentField → Table String EmergentHead → EmergentField → Bool
is_earned py l fields heads e =
    is_variant e
    && elim e.canonical_hash [ none ↦ true | some h ↦ h =? e.field_name_hash ]
    && any (λ row. (row.0 =? or_else e.head "") && row.1.promoted) heads
    && leb 8 (cases_behind l fields e)
    && is_open_name py e.field_name

attesting-distinct :
    (accepts : String → Bool) (es : List Extraction)
    → attesting accepts es
      ≡ distinct (map (λ x. x.case_id) (keep (λ x. is_emergent x.layer && accepts x.field_path) es))
attesting-distinct accepts [] = refl
attesting-distinct accepts (e ∷ es) =
    elim (Bool-cases (is_emergent e.layer && accepts e.field_path)) [
      | inl counted ↦ rw (counted, keep, attesting-distinct accepts es) refl
      | inr passed ↦ rw (passed, keep) (attesting-distinct accepts es)
    ]

effective_support-cases_behind :
    (l : Logs) (fields : List EmergentField) (e : EmergentField)
    → effective_support l fields e ≡ cases_behind l fields e
effective_support-cases_behind l fields e = pooled e.canonical_hash
  where
    pooled :
        (o : Option String)
        → elim o [
          | none ↦ e.support_count
          | some h ↦ length (attesting (is_pooled e.field_name_hash fields) l.extractions)
        ]
          ≡ elim o [
            | none ↦ e.support_count
            | some h ↦ length (
                distinct (
                  map
                    (λ x. x.case_id)
                    (keep
                      (λ x. is_emergent x.layer && is_pooled e.field_name_hash fields x.field_path)
                      l.extractions)))
          ]
    pooled none = refl
    pooled (some h) =
        ap length (attesting-distinct (is_pooled e.field_name_hash fields) l.extractions)

-- The rows that the scan of the variants visits, and the rounds in which they are promoted.
visited :
    (py : NameTools) (l : Logs) (hash : String) (r : Registry)
    → any (promotes py (list_emergent_heads r) hash) (list_promotable_qualifier_variants l r)
      ≡ any (λ e. has_hash hash e && (is_earned py l r.fields r.heads e && not e.promoted)) r.fields
unfolding list_promotable_qualifier_variants
visited py l hash r =
    let listed = λ (e : EmergentField). is_variant e && not (is_alias e) in
    let row : EmergentField → EmergentField × ℕ = λ e. (e, effective_support l r.fields e) in
    let promoted_by = promotes py (list_emergent_heads r) hash in
    any-map promoted_by row (sort_by by_head_and_name (keep listed r.fields))
    ∙ any-sort_by by_head_and_name (λ e. promoted_by (row e)) (keep listed r.fields)
    ∙ any-keep (λ e. promoted_by (row e)) listed r.fields
    ∙ any_same (λ e. listed e && promoted_by (row e))
        (λ e. has_hash hash e && (is_earned py l r.fields r.heads e && not e.promoted)) r.fields
        (λ e.
          ground
            (arith, heads_read (or_else e.head "") r, effective_support-cases_behind l r.fields e))

-- After a scan a field is promoted exactly if it was before, or if it is a variant that has earned it:
-- no alias of another field, with a name that is not sensitive, attested by at least eight cases, and
-- under a head that is promoted in the registry that the scan leaves.
pub promote-is_earned :
    (py : NameTools) (l : Logs) (hash : String) (r : Registry)
    → let after = (promote py l r).0 in
      is_field_promoted hash after ≡ (
        is_field_promoted hash r
        || any (λ e. (e.field_name_hash =? hash) && is_earned py l r.fields after.heads e) r.fields)
unfolding promote promote_heads promote_qualifiers
promote-is_earned py l hash r =
    let headed = (promote_heads py r).0 in
    let same : headed.fields ≡ r.fields = promote_head_rows-fields py (list_emergent_heads r) r in
    let variants = list_promotable_qualifier_variants l headed in
    let (one, there, heads_kept) =
      promote_qualifier_rows-Adds py (list_emergent_heads headed) hash variants headed in
    one
    ∙ ap (λ b. is_field_promoted hash headed || (has_field hash headed && b))
        (visited py l hash headed)
    ∙ added_rows hash (is_earned py l headed.fields headed.heads) headed.fields
    ∙ ap₂
        (λ fs heads.
          any (λ e. (e.field_name_hash =? hash) && e.promoted) fs
          || any (λ e. (e.field_name_hash =? hash) && is_earned py l fs heads e) fs)
        same (sym heads_kept)
