-- ===== src/Intake/Windowing/Merge.antt =====
-- When decide_window (engine/app/intake/windowing.py) folds a message into a prior case.
use text.Mathlib.TextEquality.{eq_iff}
use structured_chaos.Prelude.{
  Bool-cases, Option, String, String-Eq, ap, arith, false, inl, inr, ltb, none, refl, some, sym,
  true, ℕ, ℕ-Eq, ◌+◌, ◌=?◌, ◌∙◌, ◌≡◌, ◌≢◌, ◌≤◌, ◌⊎◌,
}
use structured_chaos.Elicit.Policy.{CaseState, committed}
use structured_chaos.Intake.Windowing.{
  Classifier, InboundMessage, PriorCase, WindowDecision, classify, decide_window, follow_up,
  idle_gap, is_near, is_terminal, new, start_new, terminal_state, verdict_of,
}

-- Within a day of each other, whichever came first.
abbrev pub WithinDay : ℕ → ℕ → Type 0
WithinDay sent_at last = (sent_at ≤ last + 86400) × (last ≤ sent_at + 86400)

-- The classifier was asked and its key `decision` was `follow_up`.
abbrev pub SaysFollowUp : Option Classifier → InboundMessage → PriorCase → Type 0
SaysFollowUp llm inbound prior =
    (ask : Classifier) × (reason : String) × (llm ≡ some ask)
    × (ask inbound prior ≡ some (some "follow_up", reason))

-- When a message may be merged: into a case that is not committed by nearness or by verdict; into a
-- committed one by verdict and only up to four days after its last activity.
abbrev pub MayMerge : Option Classifier → InboundMessage → PriorCase → Type 0
MayMerge llm inbound prior =
    ((prior.case_state ≢ committed)
      × (WithinDay inbound.sent_at prior.last_activity_at ⊎ SaysFollowUp llm inbound prior))
    ⊎ ((prior.case_state ≡ committed)
        × (inbound.sent_at ≤ prior.last_activity_at + 345600)
        × SaysFollowUp llm inbound prior)

abbrev answer_of : Option Classifier → InboundMessage → PriorCase → Option (Option String × String)
answer_of none inbound prior = none
answer_of (some ask) inbound prior = ask inbound prior

says-answer :
    (llm : Option Classifier) (inbound : InboundMessage) (prior : PriorCase)
    → SaysFollowUp llm inbound prior
    → (reason : String) × (answer_of llm inbound prior ≡ some (some "follow_up", reason))
says-answer llm inbound prior (ask, reason, asked, answer) =
    (reason, ap (λ o. answer_of o inbound prior) asked ∙ answer)

-- What a verdict decides.
abbrev Decides : Option Classifier → InboundMessage → PriorCase → WindowDecision → Type 0
Decides llm inbound prior d =
    ((d.action ≡ follow_up prior.case_id) × SaysFollowUp llm inbound prior)
    ⊎ ((d.action ≡ new) × (SaysFollowUp llm inbound prior → ⊥))

abbrev word_of : Option (Option String × String) → String
word_of none = ""
word_of (some (none, reason)) = ""
word_of (some (some word, reason)) = word

verdict_of-Decides :
    (ask : Classifier) (inbound : InboundMessage) (prior : PriorCase)
    (answer : Option (Option String × String))
    → ask inbound prior ≡ answer
    → Decides (some ask) inbound prior (verdict_of prior answer)
verdict_of-Decides ask inbound prior none answered =
    inr (refl, λ says. let (reason, told) = says-answer (some ask) inbound prior says in cc)
verdict_of-Decides ask inbound prior (some (none, said)) answered =
    inr (refl, λ says. let (reason, told) = says-answer (some ask) inbound prior says in cc)
verdict_of-Decides ask inbound prior (some (some d, said)) answered =
    elim (Bool-cases (d =? "follow_up")) [
      | inl same ↦
          let word : d ≡ "follow_up" = (eq_iff d "follow_up").0 same in
          inl (rw same refl, (ask, said, refl, answered ∙ ap (λ w. some (some w, said)) word))
      | inr other ↦ inr (
        rw other refl,
        λ says.
            let (reason, told) = says-answer (some ask) inbound prior says in
            let same : d ≡ "follow_up" = ap word_of (sym answered ∙ told) in
            ground (arith, other, (eq_iff d "follow_up").1 same),
      )
    ]

classify-Decides :
    (llm : Option Classifier) (inbound : InboundMessage) (prior : PriorCase)
    (missing : WindowDecision)
    → missing.action ≡ new
    → Decides llm inbound prior (classify inbound prior llm missing)
classify-Decides none inbound prior missing starts =
    inr (starts, λ says. let (reason, told) = says-answer none inbound prior says in cc)
classify-Decides (some ask) inbound prior missing starts =
    verdict_of-Decides ask inbound prior (ask inbound prior) refl

is_terminal-committed : (s : CaseState) → is_terminal s ≡ true → s ≡ committed
is_terminal-committed s h = ground (arith, h)

not_terminal : (s : CaseState) → is_terminal s ≡ false → s ≢ committed
not_terminal s h same = cc (rw same at h)

is_near-WithinDay : (sent_at last : ℕ) → is_near sent_at last ≡ true → WithinDay sent_at last
is_near-WithinDay sent_at last h = ground (arith, h)

not_near : (sent_at last : ℕ) → is_near sent_at last ≡ false → WithinDay sent_at last → ⊥
not_near sent_at last h near = ground (arith, h, near)

-- A message with a prior case follows that case exactly if it may be merged, and opens a new case
-- otherwise: a failure of the classifier, or its absence, never merges.
pub decide_window_merge :
    (inbound : InboundMessage) (prior : PriorCase) (llm : Option Classifier)
    → ((decide_window inbound (some prior) llm).action ≡ follow_up prior.case_id
        × MayMerge llm inbound prior)
      ⊎ ((decide_window inbound (some prior) llm).action ≡ new × (MayMerge llm inbound prior → ⊥))
unfolding decide_window
decide_window_merge inbound prior llm = elim (Bool-cases (is_terminal prior.case_state)) [
  | inl closed ↦
      let over : prior.case_state ≡ committed = is_terminal-committed prior.case_state closed in
      elim (Bool-cases (ltb (prior.last_activity_at + 345600) inbound.sent_at)) [
        | inl late ↦
            rw (closed, late)
              (inr (
                refl,
                λ may. elim may [
                  | inl going ↦ going.0 over
                  | inr again ↦ ground (arith, again.1, late)
                ],
              ))
        | inr soon ↦
            let missing =
              start_new "closed case, no classifier available → default new" terminal_state in
            rw (closed, soon)
              (elim (classify-Decides llm inbound prior missing refl) [
                | inl (follows, says) ↦ inl (follows, inr (over, ground (arith, soon), says))
                | inr (starts, silent) ↦ inr (
                  starts,
                  λ may. elim may [ inl going ↦ going.0 over | inr again ↦ silent again.2 ],
                )
              ])
      ]
  | inr going ↦
      let still : prior.case_state ≢ committed = not_terminal prior.case_state going in
      elim (Bool-cases (is_near inbound.sent_at prior.last_activity_at)) [
        | inl near ↦
            rw (going, near)
              (inl (
                refl,
                inl (still, inl (is_near-WithinDay inbound.sent_at prior.last_activity_at near)),
              ))
        | inr far ↦
            let missing =
              start_new "open case, message outside 24h window, no classifier → default new"
                idle_gap in
            rw (going, far)
              (elim (classify-Decides llm inbound prior missing refl) [
                | inl (follows, says) ↦ inl (follows, inl (still, inr says))
                | inr (starts, silent) ↦ inr (
                  starts,
                  λ may. elim may [
                    | inl (other, inl near) ↦
                        not_near inbound.sent_at prior.last_activity_at far near
                    | inl (other, inr says) ↦ silent says
                    | inr (over, soon, says) ↦ still over
                  ],
                )
              ])
      ]
]
