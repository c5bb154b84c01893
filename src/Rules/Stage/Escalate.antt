-- ===== src/Rules/Stage/Escalate.antt =====
-- The emotion on which decide_case routes (engine/app/rules/stage.py).
use text.Mathlib.TextEquality.{eq_iff}
use structured_chaos.Prelude.{
  Bool, Bool-cases, List, Option, String, String-Eq, Table, [], any, arith, inl, inr, map, max,
  none, refl, some, suc, true, zero, ℕ, ℕ-Eq, ◌==◌, ◌=?◌, ◌||◌, ◌∷◌, ◌≡◌, ◌≤◌,
}
use structured_chaos.Rules.Sentiment.{
  add_ranked, analyze, by_rank, intensity, max_rank, summarise, usable,
}
use structured_chaos.Rules.Sentiment.Peak.{max_rank-le}
use structured_chaos.Rules.Stage.{get_input, inputs_of}

by_rank_top : (n : ℕ) → 2 ≤ n → by_rank n ≡ "angry"
by_rank_top zero h = absurd (omega (arith, h))
by_rank_top (suc zero) h = absurd (omega (arith, h))
by_rank_top (suc (suc n)) h = refl

has_top : List (String × ℕ) → Bool
has_top vs = any (λ v. v.1 == 2) vs

max_rank_top :
    (r : ℕ) (vs : List (String × ℕ)) → ((r == 2) || has_top vs) ≡ true → 2 ≤ max_rank r vs
unfolding has_top
max_rank_top r [] h = ground (arith, h)
max_rank_top r ((e, q) ∷ vs) h = elim (Bool-cases (has_top vs)) [
  | inl later ↦ max_rank_top (max r q) vs (ground (arith, later))
  | inr here_only ↦ ground (arith, h, here_only, max_rank-le (max r q) vs)
]

summarise_top : (vs : List (String × ℕ)) → has_top vs ≡ true → (summarise vs).peak ≡ some "angry"
unfolding has_top
summarise_top [] h = cc
summarise_top ((e, r) ∷ vs) h = rw (by_rank_top (max_rank r vs) (max_rank_top r vs h)) refl

add_ranked_top :
    (e : String) (o : Option ℕ) (vs : List (String × ℕ))
    → has_top vs ≡ true
    → has_top (add_ranked e o vs) ≡ true
unfolding has_top
add_ranked_top e none vs h = h
add_ranked_top e (some r) vs h = ground (arith, h)

usable_top :
    (history : List String)
    → any (λ e. e =? "angry") history ≡ true
    → has_top (usable (map some history)) ≡ true
unfolding has_top
usable_top [] h = cc
usable_top (e ∷ es) h = elim (Bool-cases (e =? "angry")) [
  | inl angry ↦ rw ((eq_iff e "angry").0 angry) refl
  | inr other_word ↦
      add_ranked_top e (intensity e) (usable (map some es))
        (usable_top es (ground (arith, h, other_word)))
]

-- One angry reading within the window makes the case's emotion `angry` for the policy, whatever the
-- readings before and after it say, and whatever the latest governed value is.
pub inputs_of_angry :
    (governed : Table String String) (history : List String)
    → any (λ e. e =? "angry") history ≡ true
    → get_input (inputs_of governed history) "emotion_signal" ≡ some "angry"
unfolding analyze
inputs_of_angry governed [] h = cc
inputs_of_angry governed (e ∷ es) h =
    rw (summarise_top (usable (map some (e ∷ es))) (usable_top (e ∷ es) h)) refl
