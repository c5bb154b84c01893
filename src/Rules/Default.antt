-- ===== src/Rules/Default.antt =====
-- engine/app/rules/policy_default.yaml: the policy of a tenant without one of its own.
use structured_chaos.Prelude.{
  Bool, Bool-cases, List, Result, String, String-Eq, [], all, any, arith, drop, raise,
  if◌then◌else◌, inl, inr, none, ok, refl, some, take, true, ℕ, ℕ-Eq, ◌++◌, ◌=?◌, ◌||◌, ◌∷◌, ◌≡◌,
}
use structured_chaos.Rules.Policy.{
  Decision, InputKey, Inputs, Policy, PolicyError, Rule, category, decimal, emotion, emotion_trend,
  evaluate, first_match, matches, one_of, severity,
}
use structured_chaos.Rules.Policy.Parse.{conditions}

abbrev rule : String → List (InputKey × List String) → String → String → ℕ → String → Rule
rule id conditions priority routing hours rationale = record {
  rule_id = id;
  when = conditions;
  priority = priority;
  routing = routing;
  sla_hours = decimal hours 0;
  rationale = rationale;
}

abbrev pub default_rules : List Rule
default_rules =
    rule "safety-critical" ((severity, "safety_health" ∷ []) ∷ []) "P1" "safety_escalation" 1
      "Safety or health risk flagged — urgent, routed to safety escalation."
    ∷ rule "vulnerable-party" ((severity, "vulnerable_party" ∷ []) ∷ []) "P1" "priority_support" 2
        "A vulnerable party is involved — urgent, routed to priority support."
    ∷ rule "angry-financial-harm" ((severity, "financial_harm" ∷ []) ∷ (emotion, "angry" ∷ []) ∷ [])
        "P1" "priority_support" 2
        "Financial harm reported by an angry customer — urgent, routed to priority support."
    ∷ rule "financial-harm" ((severity, "financial_harm" ∷ []) ∷ []) "P2" "finance_billing" 4
        "Financial harm reported — high priority, routed to finance/billing."
    ∷ rule "angry-any" ((emotion, "angry" ∷ []) ∷ []) "P2" "human_review" 4
        "An angry customer — high priority, routed to a human reviewer."
    ∷ rule "escalating-sentiment" ((emotion_trend, "escalating" ∷ []) ∷ []) "P2" "human_review" 4
        "The customer's frustration is escalating across the conversation — routed to a human reviewer."
    ∷ rule "safety-category" ((category, "safety_health" ∷ []) ∷ []) "P1" "safety_escalation" 2
        "A safety or health complaint — urgent, routed to safety escalation."
    ∷ rule "billing-or-record" ((category, "billing_charge" ∷ "record_accuracy" ∷ []) ∷ []) "P2"
        "finance_billing" 8
        "A billing or record-accuracy dispute — high priority, routed to finance/billing."
    ∷ rule "unclear" ((category, "UNCLEAR" ∷ []) ∷ []) "P3" "triage" 12
        "The complaint is not yet clear — routed to triage for clarification."
    ∷ rule "delivery" ((category, "delivery_fulfilment" ∷ []) ∷ []) "P3" "fulfilment" 12
        "A delivery or fulfilment issue — routed to the fulfilment team."
    ∷ rule "product" ((category, "product_fault" ∷ []) ∷ []) "P3" "returns_quality" 12
        "A product fault — routed to returns and quality."
    ∷ rule "service" ((category, "service_fault" ∷ []) ∷ []) "P3" "customer_care" 12
        "A service or handling complaint — routed to customer care."
    ∷ rule "staff-conduct" ((category, "staff_conduct" ∷ []) ∷ []) "P3" "people_conduct" 12
        "A staff-conduct complaint — routed to the people and conduct team."
    ∷ rule "access" ((category, "access_availability" ∷ []) ∷ []) "P3" "operations" 12
        "An access or availability issue — routed to operations."
    ∷ rule "default" [] "P3" "general_queue" 24
        "A general complaint — normal priority, routed to the general queue."
    ∷ []

abbrev pub default_policy : Policy
default_policy = record { version = "default-v3"; rules = default_rules }

abbrev pub priority_of : Result PolicyError Decision → String
priority_of (ok d) = d.priority
priority_of (raise e) = ""

abbrev pub is_urgent : String → Bool
is_urgent p = (p =? "P1") || (p =? "P2")

-- A flagged safety risk or vulnerable party is P1 whatever the other signals say.
pub default_policy_severe :
    (inputs : Inputs)
    → one_of ("safety_health" ∷ "vulnerable_party" ∷ []) (inputs "severity_signal") ≡ true
    → priority_of (evaluate inputs default_policy) ≡ "P1"
unfolding evaluate matches
default_policy_severe inputs h = ground (arith, h)

first_match-urgent :
    (inputs : Inputs) (before after : List Rule)
    → all (λ r. is_urgent r.priority) before ≡ true
    → any (λ r. matches r inputs) before ≡ true
    → (r : Rule) × (first_match inputs (before ++ after) ≡ some r) × (is_urgent r.priority ≡ true)
first_match-urgent inputs [] after urgent some_match = cc
first_match-urgent inputs (r ∷ rs) after urgent some_match = elim (Bool-cases (matches r inputs)) [
  | inl match ↦ (r, rw match refl, ground (arith, urgent))
  | inr missed ↦
      let (q, first, high) =
        first_match-urgent inputs rs after (ground (arith, urgent))
          (ground (arith, some_match, missed)) in
      (q, rw missed first, high)
]

urgent_match :
    (inputs : Inputs)
    → (one_of ("angry" ∷ []) (inputs "emotion_signal")
        || one_of ("escalating" ∷ []) (inputs "emotion_trend"))
      ≡ true
    → any (λ r. matches r inputs) (take 6 default_rules) ≡ true
unfolding matches
urgent_match inputs h = ground (arith, h)

-- An angry customer, or one whose emotion is escalating, is P1 or P2 whatever the other signals say.
pub default_policy_angry :
    (inputs : Inputs)
    → (one_of ("angry" ∷ []) (inputs "emotion_signal")
        || one_of ("escalating" ∷ []) (inputs "emotion_trend"))
      ≡ true
    → is_urgent (priority_of (evaluate inputs default_policy)) ≡ true
unfolding evaluate
default_policy_angry inputs h =
    let (r, first, urgent) =
      first_match-urgent inputs (take 6 default_rules) (drop 6 default_rules) refl
        (urgent_match inputs h) in
    ground (arith, first, urgent)

-- With no severity flagged, a safety complaint is P1 from a customer who is calm and not escalating,
-- and P2 from one who is angry: the rule on anger stands before the rule on the category.
pub default_policy_safety :
    (inputs : Inputs)
    → inputs "severity_signal" ≡ none
    → inputs "category" ≡ some "safety_health"
    → priority_of (evaluate inputs default_policy) ≡ (
        if one_of ("angry" ∷ []) (inputs "emotion_signal")
          || one_of ("escalating" ∷ []) (inputs "emotion_trend")
        then "P2"
        else "P1")
unfolding evaluate matches
default_policy_safety inputs h k = ground (arith, h, k)
