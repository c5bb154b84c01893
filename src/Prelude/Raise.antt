-- ===== src/Prelude/Raise.antt =====
-- A computation that may raise an exception, which is then its value, with the blocks of `do`.
use mathlib.Core.Path.{◌≡◌, refl}
use mathlib.Core.Bool.{Bool, true, false}
use mathlib.Core.Option.{Option, none, some}

pub data Result {ℓ κ} (E : Type ℓ) (A : Type κ) : Type (ℓ ⊔ κ) where
  raise : E → Result E A
  ok : A → Result E A

module _ {ℓ κ} {E : Type ℓ} {A : Type κ} where
  -- `if x is None: raise e`
  abbrev pub some_or : Option A → E → Result E A
  some_or (some x) e = ok x
  some_or none e = raise e

  infixl 5 ◌>>=◌
  abbrev pub ◌>>=◌ {μ} : {B : Type μ} → Result E A → (A → Result E B) → Result E B
  act >>= next = elim act [ raise e ↦ raise e | ok x ↦ next x ]

  -- A block that returns has returned at each of its lines.
  pub >>=-ok {μ} :
      {B : Type μ} (act : Result E A) (next : A → Result E B) {y : B}
      → (act >>= next) ≡ ok y
      → (x : A) × (act ≡ ok x) × (next x ≡ ok y)
  >>=-ok (raise e) next done = cc
  >>=-ok (ok x) next done = (x, refl, done)

module _ {ℓ κ} {E : Type ℓ} {B : Type κ} where
  infixl 5 ◌>>◌
  abbrev pub ◌>>◌ : Result E (Unit {0}) → Result E B → Result E B
  act >> next = elim act [ raise e ↦ raise e | ok u ↦ next ]

-- `if not b: raise e`
abbrev pub require {ℓ} : {E : Type ℓ} → Bool → E → Result E (Unit {0})
require false e = raise e
require true e = ok tt
