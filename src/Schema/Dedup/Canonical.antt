-- ===== src/Schema/Dedup/Canonical.antt =====
-- The merges of engine/app/schema/dedup.py: an alias points at a canonical field of its own head.
use mathlib.Core.Path.{subst}
use text.Mathlib.TextEquality.{eq_iff}
use structured_chaos.Prelude.{
  Bool-cases, List, Option, String, String-Eq, [], any, arith, beq_refl, false, inl, inr, ltb, map,
  none, or_else, refl, some, sym, true, ℕ, ℕ-Eq, ◌=?◌, ◌∷◌, ◌≡◌, ◌⊎◌,
}
use structured_chaos.Resolve.Objects.{hit}
use structured_chaos.Schema.Dedup.Rows.{
  IsFound, any-is_anchor-assign, assign, assign_elsewhere, is_anchor, is_merged, or_right,
}
use structured_chaos.Store.Registry.{EmergentField, is_candidate, nearer, nearest}
use structured_chaos.Store.Registry.Minted.{merged}

nearer-or :
    (e c : EmergentField) (s sim : ℕ) (rest : Option (EmergentField × ℕ))
    → ◌≡◌ {A = Option (EmergentField × ℕ)} (some (nearer e s rest)) (some (c, sim))
    → (e ≡ c) ⊎ (rest ≡ some (c, sim))
nearer-or e c s sim none h = inl (cc)
nearer-or e c s sim (some (f, best)) h = elim (Bool-cases (ltb s best)) [
  | inl farther ↦ inr (rw farther at h)
  | inr near ↦ let pair = rw near at h in inl (cc)
]

candidate-is_anchor :
    (exclude : String) (head : Option String) (e : EmergentField)
    → is_candidate exclude head e ≡ true
    → is_anchor head e.field_name_hash e ≡ true
candidate-is_anchor exclude none e h = ground (arith, beq_refl e.field_name_hash)
candidate-is_anchor exclude (some g) e h = ground (arith, beq_refl e.field_name_hash)

-- `nearest` returns a canonical row under the head.
pub nearest-is_anchor :
    (similarity : String → String → ℕ) (embedding exclude : String) (head : Option String)
    (es : List EmergentField) (c : EmergentField) (sim : ℕ)
    → nearest similarity embedding exclude head es ≡ some (c, sim)
    → any (is_anchor head c.field_name_hash) es ≡ true
nearest-is_anchor similarity embedding exclude head [] c sim hit = cc
nearest-is_anchor similarity embedding exclude head (e ∷ es) c sim hit =
    let rest = nearest similarity embedding exclude head es in
    let later = nearest-is_anchor similarity embedding exclude head es c sim in
    elim (Bool-cases (is_candidate exclude head e)) [
      | inr passed ↦
          or_right (is_anchor head c.field_name_hash e) (any (is_anchor head c.field_name_hash) es)
            (later (rw (passed, nearest) at hit))
      | inl fits ↦
          let sim_e = similarity embedding (or_else e.embedding "") in
          elim (nearer-or e c sim_e sim rest (rw (fits, nearest) at hit)) [
            | inl same ↦ rw (← same, candidate-is_anchor exclude head e fits) refl
            | inr behind ↦
                or_right (is_anchor head c.field_name_hash e)
                  (any (is_anchor head c.field_name_hash) es) (later behind)
          ]
    ]

-- What an assignment points the rows of its hash at.
abbrev pub IsTarget : String → Option String → String → List EmergentField → Type 0
IsTarget key head canonical fs = (canonical ≡ key) ⊎ (any (is_anchor head canonical) fs ≡ true)

is_merged_kept :
    (key embedding canonical : String) (fs : List EmergentField) (x : EmergentField)
    (h : Option String)
    → x.canonical_hash ≡ h
    → any (is_anchor none key) fs ≡ false
    → is_merged fs x ≡ true
    → is_merged (map (assign key embedding canonical) fs) x ≡ true
is_merged_kept key embedding canonical fs x none e free merged = rw e refl
is_merged_kept key embedding canonical fs x (some h) e free merged =
    rw e (any-is_anchor-assign key embedding canonical x.head h fs free (rw e at merged))

self_anchor :
    (key embedding canonical : String) (x : EmergentField) (h : Option String)
    → canonical ≡ key
    → x.head ≡ h
    → (x.field_name_hash =? key) ≡ true
    → is_anchor x.head canonical (assign key embedding canonical x) ≡ true
self_anchor key embedding canonical x none e eh at_key =
    rw (at_key, eh) (ground (arith, e, eq_iff x.field_name_hash key, beq_refl x.field_name_hash))
self_anchor key embedding canonical x (some h) e eh at_key =
    rw (at_key, eh)
      (ground (arith, e, eq_iff x.field_name_hash key, beq_refl x.field_name_hash, beq_refl h))

pub row_merged :
    (key embedding canonical : String) (head : Option String) (fs : List EmergentField)
    (x : EmergentField)
    → any (is_anchor none key) fs ≡ false
    → IsTarget key head canonical fs
    → ((x.field_name_hash =? key) ≡ true → x.head ≡ head)
    → IsFound (map (assign key embedding canonical) fs) (assign key embedding canonical x)
    → is_merged fs x ≡ true
    → is_merged (map (assign key embedding canonical) fs) (assign key embedding canonical x) ≡ true
row_merged key embedding canonical head fs x free target same_head here merged =
    let fs' = map (assign key embedding canonical) fs in
    elim (Bool-cases (x.field_name_hash =? key)) [
      | inr elsewhere ↦
          subst (λ y. is_merged fs' y ≡ true)
            (sym (assign_elsewhere key embedding canonical x elsewhere))
            (is_merged_kept key embedding canonical fs x x.canonical_hash refl free merged)
      | inl at_key ↦ elim target [
        | inl own ↦ rw at_key (
            here (is_anchor x.head canonical)
              (self_anchor key embedding canonical x x.head own refl at_key))
        | inr anchored ↦ rw at_key (
            any-is_anchor-assign key embedding canonical x.head canonical fs free
              (rw (same_head at_key) anchored))
      ]
    ]
