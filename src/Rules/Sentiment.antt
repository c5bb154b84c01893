-- ===== src/Rules/Sentiment.antt =====
-- engine/app/rules/sentiment.py: the arc of a conversation's emotion readings.
pub mod Peak
use structured_chaos.Prelude.{
  List, Option, String, String-Eq, [], if◌then◌else◌, length, ltb, max, none, some, suc, zero, ℕ,
  ℕ-Eq, ◌==◌, ◌=?◌, ◌∷◌,
}

-- `_INTENSITY.get(e)`
abbrev pub intensity : String → Option ℕ
intensity e =
    if e =? "calm"
    then some 0
    else if e =? "frustrated"
    then some 1
    else if e =? "angry"
    then some 2
    else none

-- `_BY_RANK[n]`, at the ranks 0, 1 and 2.
abbrev pub by_rank : ℕ → String
by_rank zero = "calm"
by_rank (suc zero) = "frustrated"
by_rank (suc (suc n)) = "angry"

pub data Trend : Type 0 where
  single steady escalating de_escalating : Trend

pub record Trajectory : Type 0 where
  pub current : Option String
  pub peak : Option String
  pub trend : Trend
  pub readings : ℕ

-- A reading of an unknown emotion is dropped.
abbrev pub add_ranked : String → Option ℕ → List (String × ℕ) → List (String × ℕ)
add_ranked e none vs = vs
add_ranked e (some r) vs = (e, r) ∷ vs

-- The known readings with their ranks: `vals` and `ranks`.
abbrev pub usable : List (Option String) → List (String × ℕ)
usable [] = []
usable (none ∷ es) = usable es
usable (some e ∷ es) = add_ranked e (intensity e) (usable es)

abbrev pub last_of : String × ℕ → List (String × ℕ) → String × ℕ
last_of v [] = v
last_of v (w ∷ vs) = last_of w vs

abbrev pub max_rank : ℕ → List (String × ℕ) → ℕ
max_rank r [] = r
max_rank r ((e, q) ∷ vs) = max_rank (max r q) vs

abbrev pub trend_of : ℕ → ℕ → ℕ → ℕ → Trend
trend_of count first last top =
    if count == 1
    then single
    else if ltb first last
    then escalating
    else if ltb last first
    then de_escalating
    else if ltb last top
    then de_escalating
    else steady

abbrev pub summarise : List (String × ℕ) → Trajectory
summarise [] = record { current = none; peak = none; trend = single; readings = 0 }
summarise ((e, r) ∷ vs) =
    let (current, last) = last_of (e, r) vs in
    let top = max_rank r vs in
    record {
      current = some current;
      peak = some (by_rank top);
      trend = trend_of (suc (length vs)) r last top;
      readings = suc (length vs);
    }

unfoldable pub analyze : List (Option String) → Trajectory
analyze emotions = summarise (usable emotions)
