-- ===== src/Rules/Sentiment/Peak.antt =====
-- The peak of an arc of readings (engine/app/rules/sentiment.py).
use structured_chaos.Prelude.{
  All, All-append, List, Option, String, String-Eq, [], ap, arith, max, none, refl, some, suc, sym,
  zero, ℕ, ℕ-Eq, ◌++◌, ◌∙◌, ◌∷◌, ◌≡◌, ◌≤◌,
}
use structured_chaos.Rules.Sentiment.{
  Trajectory, add_ranked, analyze, by_rank, intensity, max_rank, summarise, usable,
}

abbrev pub peak_rank : Trajectory → Option ℕ
peak_rank t = elim t.peak [ none ↦ none | some p ↦ intensity p ]

pub max_rank-le : (r : ℕ) (vs : List (String × ℕ)) → r ≤ max_rank r vs
max_rank-le r [] = omega arith
max_rank-le r ((e, q) ∷ vs) = omega (arith, max_rank-le (max r q) vs)

max_rank-append : (r : ℕ) (vs ws : List (String × ℕ)) → max_rank r vs ≤ max_rank r (vs ++ ws)
max_rank-append r [] ws = max_rank-le r ws
max_rank-append r ((e, q) ∷ vs) ws = max_rank-append (max r q) vs ws

intensity-le : (e : String) (r : ℕ) → intensity e ≡ some r → r ≤ 2
intensity-le e r h = ground arith

intensity-by_rank : (r : ℕ) → r ≤ 2 → intensity (by_rank r) ≡ some r
intensity-by_rank zero h = refl
intensity-by_rank (suc zero) h = refl
intensity-by_rank (suc (suc zero)) h = refl
intensity-by_rank (suc (suc (suc r))) h = absurd (omega arith)

abbrev IsRanked : List (String × ℕ) → Type 0
IsRanked vs = All (λ v. intensity v.0 ≡ some v.1) vs

add_ranked-IsRanked :
    (e : String) (o : Option ℕ) (vs : List (String × ℕ))
    → intensity e ≡ o
    → IsRanked vs
    → IsRanked (add_ranked e o vs)
add_ranked-IsRanked e none vs h k = k
add_ranked-IsRanked e (some r) vs h k = (h, k)

add_ranked-append :
    (e : String) (o : Option ℕ) (vs ws : List (String × ℕ))
    → add_ranked e o vs ++ ws ≡ add_ranked e o (vs ++ ws)
add_ranked-append e none vs ws = refl
add_ranked-append e (some r) vs ws = refl

usable-IsRanked : (es : List (Option String)) → IsRanked (usable es)
usable-IsRanked [] = tt
usable-IsRanked (none ∷ es) = usable-IsRanked es
usable-IsRanked (some e ∷ es) =
    add_ranked-IsRanked e (intensity e) (usable es) refl (usable-IsRanked es)

max_rank-le_two : (r : ℕ) (vs : List (String × ℕ)) → r ≤ 2 → IsRanked vs → max_rank r vs ≤ 2
max_rank-le_two r [] h k = h
max_rank-le_two r ((e, q) ∷ vs) h k =
    max_rank-le_two (max r q) vs (omega (arith, intensity-le e q k.0)) k.1

usable-append : (es fs : List (Option String)) → usable (es ++ fs) ≡ usable es ++ usable fs
usable-append [] fs = refl
usable-append (none ∷ es) fs = usable-append es fs
usable-append (some e ∷ es) fs =
    ap (add_ranked e (intensity e)) (usable-append es fs)
    ∙ sym (add_ranked-append e (intensity e) (usable es) (usable fs))

-- The rank of the peak is the greatest rank.
summarise-peak :
    (e : String) (r : ℕ) (vs : List (String × ℕ))
    → intensity e ≡ some r
    → IsRanked vs
    → peak_rank (summarise ((e, r) ∷ vs)) ≡ some (max_rank r vs)
summarise-peak e r vs h k =
    intensity-by_rank (max_rank r vs) (max_rank-le_two r vs (intensity-le e r h) k)

-- Later turns never lower the peak: if the readings so far have a peak of some intensity, the arc
-- with any further readings has a peak of at least that intensity.
pub peak_monotone :
    (es fs : List (Option String)) (q : ℕ)
    → peak_rank (analyze es) ≡ some q
    → (r : ℕ) × (peak_rank (analyze (es ++ fs)) ≡ some r) × (q ≤ r)
unfolding analyze
peak_monotone es fs q h = rw usable-append (go (usable es) (usable-IsRanked es) h)
  where
    go :
        (vs : List (String × ℕ))
        → IsRanked vs
        → peak_rank (summarise vs) ≡ some q
        → (r : ℕ) × (peak_rank (summarise (vs ++ usable fs)) ≡ some r) × (q ≤ r)
    go [] k e = cc
    go ((x, r) ∷ vs) k e =
        let all : IsRanked (vs ++ usable fs) =
          All-append (λ v. intensity v.0 ≡ some v.1) vs (usable fs) k.1 (usable-IsRanked fs) in
        let before = summarise-peak x r vs k.0 k.1 in
        (
          max_rank r (vs ++ usable fs),
          summarise-peak x r (vs ++ usable fs) k.0 all,
          ground (arith, before, max_rank-append r vs (usable fs)),
        )
