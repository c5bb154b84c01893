-- ===== src/Prelude/Assoc.antt =====
-- A database table with a key as an association list: lookup, UPDATE of the row with a key, and
-- INSERT ... ON CONFLICT DO UPDATE.
use mathlib.Core.Path.{◌≡◌, refl}
use mathlib.Core.Option.{Option, none, some}
use mathlib.Core.List.{List, [], ◌∷◌}
use native.Mathlib.Omega.{arith}
use mathlib.Core.Path.{sym}
use mathlib.Core.Logic.{inl, inr}
use structured_chaos.Prelude.Tests.{if◌then◌else◌, Bool-cases, Option-cases}
use structured_chaos.Prelude.Equality.{Eq, ◌=?◌}

abbrev pub Table {ℓ κ} : Type ℓ → Type κ → Type (ℓ ⊔ κ)
Table K V = List (K × V)

module _ {ℓ κ} {K : Type ℓ} {V : Type κ} ⦃e : Eq K⦄ where
  abbrev pub lookup : K → Table K V → Option V
  lookup k [] = none
  lookup k ((j, v) ∷ m) = if j =? k then some v else lookup k m

  abbrev pub update : K → (V → V) → Table K V → Table K V
  update k f [] = []
  update k f ((j, v) ∷ m) = if j =? k then (j, f v) ∷ m else (j, v) ∷ update k f m

  abbrev pub put : K → V → Table K V → Table K V
  put k v [] = (k, v) ∷ []
  put k v ((j, w) ∷ m) = if j =? k then (j, v) ∷ m else (j, w) ∷ put k v m

abbrev pub map_some {κ} : {V : Type κ} → (V → V) → Option V → Option V
map_some f none = none
map_some f (some v) = some (f v)

module _ {ℓ κ} {K : Type ℓ} {V : Type κ} ⦃e : Eq K⦄ where
  pub lookup-update :
      (k j : K) (f : V → V) (m : Table K V)
      → lookup j (update k f m) ≡ (if k =? j then map_some f (lookup j m) else lookup j m)
  lookup-update k j f [] = ground arith
  lookup-update k j f ((i, v) ∷ m) =
      ground (arith, e.beq_iff k j, e.beq_iff i k, e.beq_iff i j, lookup-update k j f m)

  pub lookup-put :
      (k j : K) (v : V) (m : Table K V)
      → lookup j (put k v m) ≡ (if k =? j then some v else lookup j m)
  lookup-put k j v [] = refl
  lookup-put k j v ((i, w) ∷ m) =
      ground (arith, e.beq_iff k j, e.beq_iff i k, e.beq_iff i j, lookup-put k j v m)

-- A predicate of every row that a lookup finds.
abbrev pub Rows {ℓ κ μ} :
    {K : Type ℓ} {V : Type κ} ⦃e : Eq K⦄ → (V → Type μ) → Table K V → Type (ℓ ⊔ κ ⊔ μ)
Rows {K = K} {V = V} P m = (j : K) (v : V) → lookup j m ≡ some v → P v

pub update-Rows {ℓ κ μ} :
    {K : Type ℓ} {V : Type κ} ⦃e : Eq K⦄ (P : V → Type μ) (k : K) (f : V → V) (m : Table K V)
    → Rows P m
    → ((v : V) → lookup k m ≡ some v → P (f v))
    → Rows P (update k f m)
update-Rows ⦃e⦄ P k f m h g j v found = elim (Bool-cases (k =? j)) [
  | inl same ↦ elim (Option-cases (lookup k m)) [
    | inl gone ↦ ground (arith, same, gone, found, e.beq_iff k j, lookup-update k j f m)
    | inr (w, row) ↦
        let eq : f w ≡ v = ground (arith, same, row, found, e.beq_iff k j, lookup-update k j f m) in
        rw (sym eq) (g w row)
  ]
  | inr other ↦ h j v (ground (arith, other, found, lookup-update k j f m))
]
