-- ===== src/Extract/Names/Compose.antt =====
-- compose_name and split_qualifier of engine/app/extract/head_nouns.py.
use Prim.Native.String.append
use Prim.Native.String.{count}
use text.Mathlib.TextEquality.{eq_iff}
use Prim.Native.String.{◌++◌ as str_append}
use structured_chaos.Prelude.{
  Bool-cases, Option, String, String-Eq, ap, arith, beq_refl, false, if◌then◌else◌, inl, inr, none,
  refl, some, ℕ-Eq, ◌+◌, ◌<◌, ◌=?◌, ◌||◌, ◌≡◌,
}
use structured_chaos.Extract.Names.{
  before_suffix, compose_name, composed, normalise_token, split_qualifier,
}
use Prim.Native.String.count as text_count

count-append : (s t : String) → count (str_append s t) ≡ count s + count t
count-append String.[] t = rw (append.nil, text_count.nil) (omega arith)
count-append (String.◌∷◌ c s) t =
    rw (append.cons, text_count.cons, text_count.cons) (omega (arith, count-append s t))

longer_differs : (s t : String) → count t < count s → (s =? t) ≡ false
longer_differs s t longer = elim (Bool-cases (s =? t)) [
  | inl same ↦ absurd (omega (arith, ap count ((eq_iff s t).0 same)))
  | inr differs ↦ differs
]

before_suffix_self : (t : String) → before_suffix t t ≡ some ""
before_suffix_self String.[] = refl
before_suffix_self (String.◌∷◌ c s) = rw (beq_refl (String.◌∷◌ c s))

before_suffix-append : (t q : String) → before_suffix t (str_append q t) ≡ some q
before_suffix-append t String.[] = rw append.nil (before_suffix_self t)
before_suffix-append t (String.◌∷◌ c q) =
    let longer : count t < count (String.◌∷◌ c (str_append q t)) =
      omega (arith, text_count.cons c (str_append q t), count-append q t) in
    rw append.cons
      (rw (longer_differs (String.◌∷◌ c (str_append q t)) t longer, before_suffix-append t q) refl)

split_qualifier-composed :
    (q h : String)
    → split_qualifier (composed q h) h ≡ (if (q =? "") || (q =? h) then none else some q)
unfolding split_qualifier
split_qualifier-composed q h = elim (Bool-cases ((q =? "") || (q =? h))) [
  | inl bare ↦ rw bare (rw (beq_refl h) refl)
  | inr variant ↦
      let filled : (q =? "") ≡ false = ground (arith, variant) in
      let longer : count h < count (str_append q (str_append "_" h)) =
        omega (arith, count-append q (str_append "_" h), count-append "_" h) in
      rw variant (
        rw
          (
            longer_differs (str_append q (str_append "_" h)) h longer,
            before_suffix-append (str_append "_" h) q,
            filled,
          )
          refl)
]

abbrev pub qualifier_of : (String → String) → Option String → String
qualifier_of lower none = ""
qualifier_of lower (some q) = if q =? "" then "" else normalise_token lower q

-- The composite name gives its parts back: splitting it by its head finds the qualifier's normal form,
-- and finds none exactly when that form is empty or is the head itself.
pub split_qualifier-compose_name :
    (lower : String → String) (head : String) (qualifier : Option String)
    → let q = qualifier_of lower qualifier in
      let h = normalise_token lower head in
      split_qualifier (compose_name lower head qualifier) h
      ≡ (if (q =? "") || (q =? h) then none else some q)
unfolding compose_name
split_qualifier-compose_name lower head none =
    split_qualifier-composed "" (normalise_token lower head)
split_qualifier-compose_name lower head (some q) =
    split_qualifier-composed (if q =? "" then "" else normalise_token lower q)
      (normalise_token lower head)
