-- ===== src/Schema/Pii/Luhn.antt =====
-- The card check of engine/app/schema/pii.py, `_luhn_ok`.
use mathlib.Core.List.{reverse, reverse-append, reverse-cons, append_assoc}
use structured_chaos.Prelude.{
  Bool, List, String-Eq, [], arith, false, not, true, ℕ, ℕ-Eq, ◌%◌, ◌++◌, ◌+◌, ◌<◌, ◌∷◌, ◌≡◌, ◌≢◌,
}
use structured_chaos.Schema.Pii.{at_place, checksum, luhn_ok}

at_place_differs :
    (odd : Bool) (d e t : ℕ)
    → d < 10
    → e < 10
    → d ≢ e
    → (at_place odd d + t) % 10 ≢ (at_place odd e + t) % 10
at_place_differs odd d e t hd he ne = ground arith

checksum_differs :
    (odd : Bool) (us vs : List ℕ) (d e : ℕ)
    → d < 10
    → e < 10
    → d ≢ e
    → checksum odd (us ++ d ∷ vs) % 10 ≢ checksum odd (us ++ e ∷ vs) % 10
unfolding checksum
checksum_differs odd [] vs d e hd he ne = at_place_differs odd d e (checksum (not odd) vs) hd he ne
checksum_differs odd (u ∷ us) vs d e hd he ne =
    let ih = checksum_differs (not odd) us vs d e hd he ne in λ same. ih (omega arith)

reverse_around : (xs ys : List ℕ) (d : ℕ) → reverse (xs ++ d ∷ ys) ≡ reverse ys ++ d ∷ reverse xs
reverse_around xs ys d = simp (reverse-append, reverse-cons, append_assoc)

-- One wrong digit is always noticed: of two digit sequences that differ in exactly one place, at most
-- one is taken for a card number.
pub luhn_ok-one_digit :
    (xs ys : List ℕ) (d e : ℕ)
    → d < 10
    → e < 10
    → d ≢ e
    → luhn_ok (xs ++ d ∷ ys) ≡ true
    → luhn_ok (xs ++ e ∷ ys) ≡ false
unfolding luhn_ok
luhn_ok-one_digit xs ys d e hd he ne card = ground (
  arith,
  reverse_around xs ys d,
  reverse_around xs ys e,
  checksum_differs false (reverse ys) (reverse xs) d e hd he ne,
)
