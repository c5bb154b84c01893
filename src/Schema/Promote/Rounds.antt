-- ===== src/Schema/Promote/Rounds.antt =====
-- The rounds of promote_qualifiers (engine/app/schema/promote.py) and the flag of a field.
use text.Mathlib.TextEquality.{eq_iff}
use structured_chaos.Prelude.{
  Bool, List, String, String-Eq, [], any, any-sort_by, ap, arith, if◌then◌else◌, keep, leb, map,
  not, or_else, refl, some, true, ℕ, ℕ-Eq, ◌&&◌, ◌=?◌, ◌||◌, ◌∙◌, ◌∷◌, ◌≡◌,
}
use structured_chaos.Schema.Pii.{NameTools, classify_sensitivity}
use structured_chaos.Schema.Promote.{
  is_open_name, is_promoted_row, promote_head, promote_head_rows, promote_qualifier,
  promote_qualifier_rows,
}
use structured_chaos.Store.Registry.{
  EmergentField, Registry, earlier_head, head_row, list_emergent_heads, mark_field_promoted,
  mark_head_promoted, set_field_sensitivity, set_head_sensitivity,
}

-- A field with the hash is promoted.
abbrev pub is_field_promoted : String → Registry → Bool
is_field_promoted hash r = any (λ e. (e.field_name_hash =? hash) && e.promoted) r.fields

pub any_same :
    {A : Type 0} (f g : A → Bool) (xs : List A) → ((x : A) → f x ≡ g x) → any f xs ≡ any g xs
any_same f g [] same = refl
any_same f g (x ∷ xs) same = ground (arith, same x, any_same f g xs same)

pub any-map :
    {A B : Type 0} (f : B → Bool) (g : A → B) (xs : List A)
    → any f (map g xs) ≡ any (λ x. f (g x)) xs
any-map f g [] = refl
any-map f g (x ∷ xs) = ground (arith, any-map f g xs)

pub any-keep :
    {A : Type 0} (f g : A → Bool) (xs : List A) → any f (keep g xs) ≡ any (λ x. g x && f x) xs
any-keep f g [] = refl
any-keep f g (x ∷ xs) = ground (arith, any-keep f g xs)

abbrev pub has_hash : String → EmergentField → Bool
has_hash hash e = e.field_name_hash =? hash

marked-any :
    (key hash : String) (fs : List EmergentField)
    → (any
          (λ e. has_hash hash e && e.promoted)
          (map (λ e. if e.field_name_hash =? key then record e { promoted = true } else e) fs)
        ≡ (any (λ e. has_hash hash e && e.promoted) fs
            || (any (has_hash hash) fs && (key =? hash))))
      × (any
            (has_hash hash)
            (map (λ e. if e.field_name_hash =? key then record e { promoted = true } else e) fs)
          ≡ any (has_hash hash) fs)
marked-any key hash [] = (refl, refl)
marked-any key hash (e ∷ fs) =
    let rest = marked-any key hash fs in
    (
      ground (
        arith,
        rest,
        eq_iff e.field_name_hash key,
        eq_iff e.field_name_hash hash,
        eq_iff key hash,
      ),
      ground (arith, rest),
    )

flagged-any :
    (key hash sensitivity : String) (fs : List EmergentField)
    → (any
          (λ e. has_hash hash e && e.promoted)
          (map
            (λ e.
              if e.field_name_hash =? key then record e { sensitivity = some sensitivity } else e)
            fs)
        ≡ any (λ e. has_hash hash e && e.promoted) fs)
      × (any (has_hash hash) (
            map
              (λ e.
                if e.field_name_hash =? key then record e { sensitivity = some sensitivity } else e)
              fs)
          ≡ any (has_hash hash) fs)
flagged-any key hash sensitivity [] = (refl, refl)
flagged-any key hash sensitivity (e ∷ fs) =
    let rest = flagged-any key hash sensitivity fs in (ground (arith, rest), ground (arith, rest))

-- A round promotes the field.
abbrev pub promotes : NameTools → List (String × ℕ × Bool) → String → EmergentField × ℕ → Bool
promotes py heads hash (e, support) =
    has_hash hash e
    && any (is_promoted_row (or_else e.head "")) heads
    && leb 8 support
    && is_open_name py e.field_name
    && not e.promoted

abbrev pub has_field : String → Registry → Bool
has_field hash r = any (has_hash hash) r.fields

-- What a round, and a run of rounds, does to a field's promotion.
abbrev Adds : String → Registry → Registry → Bool → Type 0
Adds hash r after added =
    (is_field_promoted hash after ≡ (is_field_promoted hash r || (has_field hash r && added)))
    × (has_field hash after ≡ has_field hash r)
    × (after.heads ≡ r.heads)

promote_qualifier-Adds :
    (py : NameTools) (heads : List (String × ℕ × Bool)) (hash : String) (e : EmergentField)
    (support : ℕ) (r : Registry)
    → Adds hash r
        (promote_qualifier py heads (e, support) r).0
        (promotes py heads hash (e, support))
unfolding promote_qualifier mark_field_promoted set_field_sensitivity
promote_qualifier-Adds py heads hash e support r =
    let mark = marked-any e.field_name_hash hash r.fields in
    let flag =
      flagged-any e.field_name_hash hash (classify_sensitivity py e.field_name []) r.fields in
    (ground (arith, mark, flag), ground (arith, mark, flag), ground arith)

pub promote_qualifier_rows-Adds :
    (py : NameTools) (heads : List (String × ℕ × Bool)) (hash : String)
    (rows : List (EmergentField × ℕ)) (r : Registry)
    → Adds hash r (promote_qualifier_rows py heads rows r).0 (any (promotes py heads hash) rows)
promote_qualifier_rows-Adds py heads hash [] r = (ground arith, refl, refl)
promote_qualifier_rows-Adds py heads hash ((e, support) ∷ rows) r =
    let after = (promote_qualifier py heads (e, support) r).0 in
    let (one, there, heads_kept) = promote_qualifier-Adds py heads hash e support r in
    let (more, there_too, heads_too) = promote_qualifier_rows-Adds py heads hash rows after in
    (ground (arith, one, there, more), there_too ∙ there, heads_too ∙ heads_kept)

pub promote_head_rows-fields :
    (py : NameTools) (rows : List (String × ℕ × Bool)) (r : Registry)
    → (promote_head_rows py rows r).0.fields ≡ r.fields
unfolding promote_head mark_head_promoted set_head_sensitivity
promote_head_rows-fields py [] r = refl
promote_head_rows-fields py ((h, support, already) ∷ rows) r =
    promote_head_rows-fields py rows (promote_head py (h, support, already) r).0 ∙ ground arith

pub heads_read :
    (head : String) (r : Registry)
    → any (is_promoted_row head) (list_emergent_heads r)
      ≡ any (λ row. (row.0 =? head) && row.1.promoted) r.heads
unfolding list_emergent_heads
heads_read head r =
    any-sort_by earlier_head (is_promoted_row head) (map head_row r.heads)
    ∙ any-map (is_promoted_row head) head_row r.heads

has-any :
    (hash : String) (f : EmergentField → Bool) (fs : List EmergentField)
    → (any (has_hash hash) fs && any (λ e. has_hash hash e && f e) fs)
      ≡ any (λ e. has_hash hash e && f e) fs
has-any hash f [] = refl
has-any hash f (e ∷ fs) = ground (arith, has-any hash f fs)

promoted-any :
    (hash : String) (earned : EmergentField → Bool) (fs : List EmergentField)
    → (any (λ e. has_hash hash e && e.promoted) fs
        || any (λ e. has_hash hash e && (earned e && not e.promoted)) fs)
      ≡ (any (λ e. has_hash hash e && e.promoted) fs || any (λ e. has_hash hash e && earned e) fs)
promoted-any hash earned [] = refl
promoted-any hash earned (e ∷ fs) = ground (arith, promoted-any hash earned fs)

-- The rounds that promote a field are those of the rows that earn it and are not promoted yet.
pub added_rows :
    (hash : String) (earned : EmergentField → Bool) (fs : List EmergentField)
    → (any (λ e. has_hash hash e && e.promoted) fs
        || (any (has_hash hash) fs
            && any (λ e. has_hash hash e && (earned e && not e.promoted)) fs))
      ≡ (any (λ e. has_hash hash e && e.promoted) fs || any (λ e. has_hash hash e && earned e) fs)
added_rows hash earned fs =
    ap (λ b. any (λ e. has_hash hash e && e.promoted) fs || b)
      (has-any hash (λ e. earned e && not e.promoted) fs)
    ∙ promoted-any hash earned fs
