-- ===== src/Elicit/Policy/Moves.antt =====
-- The moves of `decide` (engine/app/elicit/policy.py): when it closes, when it asks, and what.
use structured_chaos.Prelude.{
  Bool, Option, String-Eq, arith, bit, false, ltb, none, not, some, true, ℕ-Eq, ◌&&◌, ◌+◌, ◌↔◌, ◌≡◌,
  ◌≢◌, ◌≤◌,
}
use structured_chaos.Elicit.Policy.{
  QuestionKind, Situation, actionable, anchor, decide, drill, effective_fields, fault, fault_q,
  has_essentials, in_review, incomplete, is_angry, total_cap,
}

-- A case is actionable exactly when category, fault and outcome are known, counting a fault and a
-- category only where the fault is grounded: the last return of `decide` is never reached without.
pub decide_actionable :
    (s : Situation) → ((decide s).state ≡ actionable) ↔ (has_essentials (effective_fields s) ≡ true)
unfolding decide
decide_actionable s = (λ h. ground arith, λ h. ground arith)

-- A question is issued exactly in the state `incomplete`, and it has a kind exactly then.
pub decide_asks :
    (s : Situation)
    → ((decide s).state ≡ incomplete ↔ (decide s).next_question ≢ none)
      × ((decide s).state ≡ incomplete ↔ (decide s).question_kind ≢ none)
unfolding decide
decide_asks s = ((λ h. ground arith, λ h. ground arith), (λ h. ground arith, λ h. ground arith))

-- The budget of the module's comment, restated on the counters: no question when three have been
-- asked, a drill only while fewer than two of those asked were drills, the anchor at most once and
-- only without a known anchor.
abbrev pub within_budget : Situation → Option QuestionKind → Bool
within_budget s none = true
within_budget s (some anchor) = ltb s.question_count 3 && not s.anchor_asked && not s.has_anchor
within_budget s (some drill) =
    ltb s.question_count 3 && ltb s.question_count (2 + bit s.anchor_asked)

-- Every move is within the budget: no question when three have been asked, a drill only while
-- fewer than two of those asked were drills, and the anchor at most once and only without a known
-- anchor.
pub decide_budget : (s : Situation) → within_budget s (decide s).question_kind ≡ true
unfolding decide
decide_budget s = ground arith

-- An angry customer is asked one thing only: what happened, and only when nothing is known.
pub decide_angry :
    (s : Situation)
    → is_angry s.emotion ≡ true
    → (decide s).next_question ≢ none
    → ((decide s).next_question ≡ some fault_q)
      × (effective_fields s fault ≡ false)
      × (s.has_anchor ≡ false)
      × (s.category_known ≡ false)
unfolding decide
decide_angry s angry asks = ground arith

-- Once three questions have been asked, a case that still has gaps goes to a human.
pub decide_spent :
    (s : Situation)
    → total_cap ≤ s.question_count
    → has_essentials (effective_fields s) ≡ false
    → (decide s).state ≡ in_review
unfolding decide
decide_spent s spent gaps = ground arith
