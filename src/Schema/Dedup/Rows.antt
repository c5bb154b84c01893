-- ===== src/Schema/Dedup/Rows.antt =====
-- An assignment of engine/app/schema/dedup.py as an update of the rows with one hash.
use mathlib.Core.Path.{subst}
use text.Mathlib.TextEquality.{eq_iff}
use structured_chaos.Prelude.{
  All, Bool, Bool-cases, List, Option, String, String-Eq, [], any, arith, false, if◌then◌else◌, inl,
  inr, map, none, refl, some, sym, true, ℕ-Eq, ◌&&◌, ◌=?◌, ◌||◌, ◌∙◌, ◌∷◌, ◌≡◌,
}
use structured_chaos.Store.Registry.{EmergentField, has_head, is_canonical}

-- The canonical row that a hash names under a head: not an alias.
abbrev pub is_anchor : Option String → String → EmergentField → Bool
is_anchor head hash e =
    (e.field_name_hash =? hash)
    && is_canonical e
    && elim head [ none ↦ true | some h ↦ has_head h e ]

abbrev pub is_merged : List EmergentField → EmergentField → Bool
is_merged fs e = elim e.canonical_hash [ none ↦ true | some h ↦ any (is_anchor e.head h) fs ]

abbrev pub has_hash : String → EmergentField → Bool
has_hash hash e = e.field_name_hash =? hash

-- The primary key.
abbrev pub IsUnique : List EmergentField → Type 0
IsUnique [] = Unit
IsUnique (e ∷ fs) = (any (has_hash e.field_name_hash) fs ≡ false) × IsUnique fs

abbrev pub assign : String → String → String → EmergentField → EmergentField
assign key embedding canonical e =
    if e.field_name_hash =? key
    then record e { embedding = some embedding; canonical_hash = some canonical }
    else e

or_false : (a b : Bool) → (a || b) ≡ false → (a ≡ false) × (b ≡ false)
or_false a b h = ground (arith, h)

pub or_right : (a b : Bool) → b ≡ true → (a || b) ≡ true
or_right a b h = ground (arith, h)

or_either : (a b c : Bool) → (a || b) ≡ true → (b ≡ true → c ≡ true) → (a || c) ≡ true
or_either true b c h f = refl
or_either false b c h f = f h

-- A row that is no anchor at its own hash is none at all.
not_anchor :
    (head : Option String) (key hash : String) (e : EmergentField)
    → (e.field_name_hash =? key) ≡ true
    → is_anchor none key e ≡ false
    → is_anchor head hash e ≡ false
not_anchor head key hash e at_key off = ground (arith, at_key, off)

pub assign_elsewhere :
    (key embedding canonical : String) (e : EmergentField)
    → (e.field_name_hash =? key) ≡ false
    → assign key embedding canonical e ≡ e
assign_elsewhere key embedding canonical e elsewhere = rw elsewhere refl

-- An anchor that is another row stays one.
pub any-is_anchor-assign :
    (key embedding canonical : String) (head : Option String) (hash : String)
    (fs : List EmergentField)
    → any (is_anchor none key) fs ≡ false
    → any (is_anchor head hash) fs ≡ true
    → any (is_anchor head hash) (map (assign key embedding canonical) fs) ≡ true
any-is_anchor-assign key embedding canonical head hash [] free anchored = cc
any-is_anchor-assign key embedding canonical head hash (e ∷ fs) free anchored =
    let rest =
      any-is_anchor-assign key embedding canonical head hash fs
        (or_false (is_anchor none key e) (any (is_anchor none key) fs) free).1 in
    elim (Bool-cases (e.field_name_hash =? key)) [
      | inl at_key ↦
          let off =
            not_anchor head key hash e at_key
              (or_false (is_anchor none key e) (any (is_anchor none key) fs) free).0 in
          or_right (is_anchor head hash (assign key embedding canonical e)) _
            (rest (rw off at anchored))
      | inr elsewhere ↦
          let after = any (is_anchor head hash) (map (assign key embedding canonical) fs) in
          subst (λ x. (is_anchor head hash x || after) ≡ true)
            (sym (assign_elsewhere key embedding canonical e elsewhere))
            (or_either (is_anchor head hash e) (any (is_anchor head hash) fs) after anchored rest)
    ]

-- A row of another hash is an anchor after it only if it was before.
pub any-is_anchor_other :
    (key embedding canonical hash : String) (fs : List EmergentField)
    → (key =? hash) ≡ false
    → any (is_anchor none hash) (map (assign key embedding canonical) fs)
      ≡ any (is_anchor none hash) fs
any-is_anchor_other key embedding canonical hash [] unlike = refl
any-is_anchor_other key embedding canonical hash (e ∷ fs) unlike = ground (
  arith,
  eq_iff e.field_name_hash key,
  eq_iff e.field_name_hash hash,
  eq_iff key hash,
  any-is_anchor_other key embedding canonical hash fs unlike,
)

pub any-has_hash-assign :
    (key embedding canonical hash : String) (fs : List EmergentField)
    → any (has_hash hash) (map (assign key embedding canonical) fs) ≡ any (has_hash hash) fs
any-has_hash-assign key embedding canonical hash [] = refl
any-has_hash-assign key embedding canonical hash (e ∷ fs) =
    ground (arith, any-has_hash-assign key embedding canonical hash fs)

assign-hash :
    (key embedding canonical : String) (e : EmergentField)
    → (assign key embedding canonical e).field_name_hash ≡ e.field_name_hash
assign-hash key embedding canonical e = ground arith

pub IsUnique-assign :
    (key embedding canonical : String) (fs : List EmergentField)
    → IsUnique fs
    → IsUnique (map (assign key embedding canonical) fs)
IsUnique-assign key embedding canonical [] u = tt
IsUnique-assign key embedding canonical (e ∷ fs) u = (
  rw (assign-hash key embedding canonical e)
      (any-has_hash-assign key embedding canonical e.field_name_hash fs ∙ u.0),
  IsUnique-assign key embedding canonical fs u.1,
)

pub All-weaken {ℓ κ μ} :
    {A : Type ℓ} {P : A → Type κ} {Q : A → Type μ} (xs : List A)
    → ((x : A) → P x → Q x)
    → All P xs
    → All Q xs
All-weaken [] f h = tt
All-weaken (x ∷ xs) f h = (f x h.0, All-weaken xs f h.1)

-- Each row is found by every test that it passes.
abbrev pub IsFound : List EmergentField → EmergentField → Type 0
IsFound fs e = (p : EmergentField → Bool) → p e ≡ true → any p fs ≡ true

pub All-IsFound : (fs : List EmergentField) → All (IsFound fs) fs
All-IsFound [] = tt
All-IsFound (e ∷ fs) = (
  (λ p h. rw h refl),
  All-weaken {P = IsFound fs} {Q = IsFound (e ∷ fs)} fs
      (λ x f p h. or_right (p e) (any p fs) (f p h)) (All-IsFound fs),
)

pub All-unmap {κ} :
    (P : EmergentField → Type κ) (f : EmergentField → EmergentField) (fs : List EmergentField)
    → All P (map f fs)
    → All (λ x. P (f x)) fs
All-unmap P f [] h = tt
All-unmap P f (e ∷ fs) h = (h.0, All-unmap P f fs h.1)
