-- ===== src/Rules/Policy/Total.antt =====
-- What parse_policy checks, and evaluation after it (engine/app/rules/engine.py).
use text.Mathlib.TextEquality.{eq_iff}
use structured_chaos.Prelude.{
  >>=-ok, All, Bool, Bool-cases, List, Option, Result, String, String-Eq, [], any, arith, false,
  inl, inr, ltb, none, ok, raise, refl, require, some, some_or, suc, sym, true, ℕ, ℕ-Eq, ◌++◌, ◌=?◌,
  ◌>>=◌, ◌∷◌, ◌≡◌, ◌≢◌, ◌⊎◌,
}
use structured_chaos.Rules.Policy.{
  Decision, Entries, Float, InputKey, Inputs, Items, Policy, PolicyError, Rule, Yaml, bad_condition,
  bad_priority, bad_rationale, bad_routing, bad_sla, cons, decimal, decision_of, end, entry,
  evaluate, first_match, inf, mapping, matches, missing_id, nan, neg_inf, negative, nil,
  no_catch_all, no_version, not_yaml, parse_key, str, unknown_key, when_not_a_mapping,
}
use structured_chaos.Rules.Policy.Parse.{
  allowed_values, conditions, ends_in_catch_all, get, is_priority, load_policy, need_hours,
  need_priority, need_rules, need_text, no_repeat, parse_doc, parse_policy, parse_rule, parse_rules,
  repeated, tenant_version, when_entries,
}

-- The last rule is there and has no condition.
abbrev pub IsCaught : List Rule → Type 0
IsCaught [] = ⊥
IsCaught (r ∷ []) = r.when ≡ []
IsCaught (r ∷ s ∷ rs) = IsCaught (s ∷ rs)

ends_in_catch_all-IsCaught : (rs : List Rule) → ends_in_catch_all rs ≡ true → IsCaught rs
ends_in_catch_all-IsCaught [] h = cc
ends_in_catch_all-IsCaught (r ∷ []) h = ground (arith, h)
ends_in_catch_all-IsCaught (r ∷ s ∷ rs) h = ends_in_catch_all-IsCaught (s ∷ rs) h

first_match_total :
    (inputs : Inputs) (rs : List Rule) → IsCaught rs → (r : Rule) × (first_match inputs rs ≡ some r)
unfolding matches
first_match_total inputs [] h = absurd h
first_match_total inputs (r ∷ []) h = (r, ground (arith, h))
first_match_total inputs (r ∷ s ∷ rs) h =
    let (q, found) = first_match_total inputs (s ∷ rs) h in
    elim (Bool-cases (matches r inputs)) [
      | inl found ↦ (r, rw found)
      | inr miss ↦ (q, rw miss found)
    ]

-- What the parser has checked of one rule.
abbrev pub is_positive : Float → Bool
is_positive (decimal m s) = ltb 0 m
is_positive inf = true
is_positive (negative m s) = false
is_positive neg_inf = false
is_positive nan = false

abbrev pub IsChecked : Rule → Type 0
IsChecked r =
    ((r.priority ≡ "P1") ⊎ (r.priority ≡ "P2") ⊎ (r.priority ≡ "P3") ⊎ (r.priority ≡ "P4"))
    × (r.rule_id ≢ "")
    × (r.routing ≢ "")
    × (r.rationale ≢ "")
    × ((is_positive r.sla_hours ≡ true) ⊎ (r.sla_hours ≡ nan))
    × All (λ c. c.1 ≢ []) r.when

allowed_values_filled : (v : Yaml) (a : List String) → allowed_values v ≡ some a → a ≢ []
allowed_values_filled v a h = ground arith

conditions_step :
    (id : String) (key : Option InputKey) (values : Option (List String))
    (others : Result PolicyError (List (InputKey × List String)))
    (cs : List (InputKey × List String))
    → (do
      k ← some_or key (unknown_key id)
      a ← some_or values (bad_condition id)
      rest ← others
      ok ((k, a) ∷ rest))
      ≡ ok cs
    → (rest : List (InputKey × List String)) × (others ≡ ok rest)
      × (k : InputKey) × (a : List String) × (values ≡ some a)
      × (cs ≡ (k, a) ∷ rest)
conditions_step id (some k) (some a) (ok rest) cs h = (rest, refl, k, a, refl, ground (arith, h))
conditions_step id none values others cs h = cc
conditions_step id (some k) none others cs h = cc
conditions_step id (some k) (some a) (raise e) cs h = cc

conditions_filled :
    (id : String) (es : Entries) (cs : List (InputKey × List String))
    → conditions id es ≡ ok cs
    → All (λ c. c.1 ≢ []) cs
conditions_filled id end [] h = tt
conditions_filled id end (c ∷ cs) h = cc
conditions_filled id (entry k v es) cs h =
    let (rest, parsed, key, a, allowed, eq) =
      conditions_step id (parse_key k) (allowed_values v) (conditions id es) cs h in
    rw eq (allowed_values_filled v a allowed, conditions_filled id es rest parsed)

need_text_filled : (v : Option Yaml) (e : PolicyError) (s : String) → need_text v e ≡ ok s → s ≢ ""
need_text_filled v e s h = ground (arith, eq_iff s "")

abbrev IsKnown : String → Type 0
IsKnown s = (s ≡ "P1") ⊎ (s ≡ "P2") ⊎ (s ≡ "P3") ⊎ (s ≡ "P4")

is_priority-IsKnown : (s : String) → is_priority s ≡ true → IsKnown s
is_priority-IsKnown s h = elim (Bool-cases ("P1" =? s)) [
  | inl p1 ↦ inl (sym ((eq_iff "P1" s).0 p1))
  | inr not_p1 ↦ elim (Bool-cases ("P2" =? s)) [
    | inl p2 ↦ inr (inl (sym ((eq_iff "P2" s).0 p2)))
    | inr not_p2 ↦ elim (Bool-cases ("P3" =? s)) [
      | inl p3 ↦ inr (inr (inl (sym ((eq_iff "P3" s).0 p3))))
      | inr not_p3 ↦
          inr (inr (inr (sym ((eq_iff "P4" s).0 (ground (arith, h, not_p1, not_p2, not_p3))))))
    ]
  ]
]

need_priority-IsKnown :
    (v : Option Yaml) (e : PolicyError) (s : String) → need_priority v e ≡ ok s → IsKnown s
need_priority-IsKnown (some (str t)) e s h = elim (Bool-cases (is_priority t)) [
  | inl known ↦ let same : t ≡ s = cc (rw known at h) in is_priority-IsKnown s (rw (← same) known)
  | inr unknown ↦ absurd (ground (arith, h, unknown))
]
need_priority-IsKnown v e s h = absurd (ground arith)

need_hours_positive :
    (v : Option Yaml) (e : PolicyError) (f : Float)
    → need_hours v e ≡ ok f
    → (is_positive f ≡ true) ⊎ (f ≡ nan)
need_hours_positive v e f h = ground arith

-- What the parser guarantees of a rule: a known priority, texts that are filled, hours above zero
-- or not a number, and no condition with an empty set of values.
parse_rule-IsChecked : (y : Yaml) (idx : ℕ) (r : Rule) → parse_rule y idx ≡ ok r → IsChecked r
unfolding parse_rule
parse_rule-IsChecked (mapping raw) idx r h =
    let (id, h1, k1) = >>=-ok (need_text (get "id" raw) (missing_id idx)) _ h in
    let (es, h2, k2) = >>=-ok (when_entries (get "when" raw) (when_not_a_mapping id)) _ k1 in
    let (cs, h3, k3) = >>=-ok (conditions id es) _ k2 in
    let (p, h4, k4) = >>=-ok (need_priority (get "priority" raw) (bad_priority id)) _ k3 in
    let (route, h5, k5) = >>=-ok (need_text (get "routing" raw) (bad_routing id)) _ k4 in
    let (hours, h6, k6) = >>=-ok (need_hours (get "sla_hours" raw) (bad_sla id)) _ k5 in
    let (why, h7, k7) = >>=-ok (need_text (get "rationale" raw) (bad_rationale id)) _ k6 in
    let parsed : record {
      rule_id = id;
      when = cs;
      priority = p;
      routing = route;
      sla_hours = hours;
      rationale = why;
    }
        ≡ r =
      ground (arith, k7) in
    rw (sym parsed) (
      need_priority-IsKnown (get "priority" raw) (bad_priority id) p h4,
      need_text_filled (get "id" raw) (missing_id idx) id h1,
      need_text_filled (get "routing" raw) (bad_routing id) route h5,
      need_text_filled (get "rationale" raw) (bad_rationale id) why h7,
      need_hours_positive (get "sla_hours" raw) (bad_sla id) hours h6,
      conditions_filled id es cs h3,
    )
parse_rule-IsChecked y idx r h = ground arith

parse_rules-IsChecked :
    (ys : Items) (idx : ℕ) (rs : List Rule) → parse_rules ys idx ≡ ok rs → All IsChecked rs
parse_rules-IsChecked nil idx [] h = tt
parse_rules-IsChecked nil idx (r ∷ rs) h = cc
parse_rules-IsChecked (cons y ys) idx rs h =
    let (r, h1, k1) = >>=-ok (parse_rule y idx) _ h in
    let (others, h2, k2) = >>=-ok (parse_rules ys (suc idx)) _ k1 in
    let parsed : r ∷ others ≡ rs = ground (arith, k2) in
    rw (sym parsed) (parse_rule-IsChecked y idx r h1, parse_rules-IsChecked ys (suc idx) others h2)

-- No rule has the id of another.
abbrev pub IsDistinct : List Rule → Type 0
IsDistinct [] = Unit
IsDistinct (r ∷ rs) = All (λ q. q.rule_id ≢ r.rule_id) rs × IsDistinct rs

unlike_seen :
    (seen : List String) (r : Rule) (rs : List Rule)
    → All (λ q. any (λ i. i =? q.rule_id) (r.rule_id ∷ seen) ≡ false) rs
    → All (λ q. any (λ i. i =? q.rule_id) seen ≡ false) rs × All (λ q. q.rule_id ≢ r.rule_id) rs
unlike_seen seen r [] h = (tt, tt)
unlike_seen seen r (q ∷ qs) h =
    let (old, new_id) = unlike_seen seen r qs h.1 in
    (
      (ground (arith, h.0), old),
      (λ same. ground (arith, h.0, eq_iff r.rule_id q.rule_id, sym same), new_id),
    )

repeated-IsDistinct :
    (seen : List String) (rs : List Rule)
    → repeated seen rs ≡ none
    → All (λ q. any (λ i. i =? q.rule_id) seen ≡ false) rs × IsDistinct rs
repeated-IsDistinct seen [] h = (tt, tt)
repeated-IsDistinct seen (r ∷ rs) h = elim (Bool-cases (any (λ i. i =? r.rule_id) seen)) [
  | inl there ↦ absurd (ground (arith, there, h))
  | inr unseen ↦
      let (rest, distinct) =
        repeated-IsDistinct (r.rule_id ∷ seen) rs (ground (arith, unseen, h)) in
      let (old, unlike) = unlike_seen seen r rs rest in ((unseen, old), (unlike, distinct))
]

abbrev pub IsSound : Policy → Type 0
IsSound p = All IsChecked p.rules × IsCaught p.rules × IsDistinct p.rules

require-ok : (b : Bool) (e : PolicyError) {u : Unit {0}} → require b e ≡ ok u → b ≡ true
require-ok b e h = ground arith

no_repeat-ok : (rs : List Rule) {u : Unit {0}} → no_repeat rs ≡ ok u → repeated [] rs ≡ none
no_repeat-ok rs h = ground arith

parse_doc-IsSound : (y : Yaml) (p : Policy) → parse_doc y ≡ ok p → IsSound p
parse_doc-IsSound (mapping doc) p h =
    let (version, h1, k1) = >>=-ok (need_text (get "version" doc) no_version) _ h in
    let (raw, h2, k2) = >>=-ok (need_rules (get "rules" doc)) _ k1 in
    let (rules, h3, k3) = >>=-ok (parse_rules raw 0) _ k2 in
    let (u, h4, k4) = >>=-ok (require (ends_in_catch_all rules) no_catch_all) _ k3 in
    let (w, h5, k5) = >>=-ok (no_repeat rules) _ k4 in
    let parsed : record { version = version; rules = rules } ≡ p = ground (arith, k5) in
    rw (sym parsed) (
      parse_rules-IsChecked raw 0 rules h3,
      ends_in_catch_all-IsCaught rules (require-ok (ends_in_catch_all rules) no_catch_all h4),
      (repeated-IsDistinct [] rules (no_repeat-ok rules h5)).1,
    )
parse_doc-IsSound y p h = ground arith

-- A text that parses gives a policy whose rules are all checked (a known priority, filled texts, a
-- positive or not-a-number SLA, filled value lists), whose last rule has no condition, and in which
-- no rule id stands twice.
pub parse_policy-IsSound :
    (safe_load : String → Option Yaml) (text : String) (p : Policy)
    → parse_policy safe_load text ≡ ok p
    → IsSound p
unfolding parse_policy
parse_policy-IsSound safe_load text p h =
    let (doc, h1, k1) = >>=-ok (some_or (safe_load text) not_yaml) _ h in parse_doc-IsSound doc p k1

load_policy-IsSound :
    (safe_load : String → Option Yaml) (is_blank : String → Bool) (default : String)
    (tenant : Option String) (p : Policy)
    → load_policy safe_load is_blank default tenant ≡ ok p
    → IsSound p
unfolding load_policy
load_policy-IsSound safe_load is_blank default none p h = parse_policy-IsSound safe_load default p h
load_policy-IsSound safe_load is_blank default (some text) p h = elim (Bool-cases (is_blank text)) [
  | inl blank ↦ parse_policy-IsSound safe_load default p (ground arith)
  | inr filled ↦
      let (q, h1, k1) =
        >>=-ok (parse_policy safe_load text) (λ q. ok (tenant_version q)) {y = p}
          (ground (arith, h)) in
      let parsed : tenant_version q ≡ p = ground (arith, k1) in
      rw (sym parsed) (parse_policy-IsSound safe_load text q h1)
]

evaluate_total :
    (inputs : Inputs) (p : Policy) → IsSound p → (d : Decision) × (evaluate inputs p ≡ ok d)
unfolding evaluate
evaluate_total inputs p sound =
    let (r, found) = first_match_total inputs p.rules sound.1 in
    (decision_of p r, ground (arith, found))

-- A policy that loads, the tenant's or the default one, decides every case: evaluation never
-- reaches its `no rule matched` error, whatever the signals.
pub load_policy-evaluate :
    (safe_load : String → Option Yaml) (is_blank : String → Bool) (default : String)
    (tenant : Option String) (p : Policy) (inputs : Inputs)
    → load_policy safe_load is_blank default tenant ≡ ok p
    → (d : Decision) × (evaluate inputs p ≡ ok d)
load_policy-evaluate safe_load is_blank default tenant p inputs h =
    evaluate_total inputs p (load_policy-IsSound safe_load is_blank default tenant p h)

first_match-append :
    (inputs : Inputs) (before : List Rule) (r : Rule) (after : List Rule)
    → All (λ q. matches q inputs ≡ false) before
    → matches r inputs ≡ true
    → first_match inputs (before ++ r ∷ after) ≡ some r
first_match-append inputs [] r after misses found = rw found refl
first_match-append inputs (q ∷ qs) r after misses found =
    rw misses.0 (first_match-append inputs qs r after misses.1 found)

-- Precedence: of the rules that match, the first decides. The rules before it do not match.
pub first_match-evaluate :
    (inputs : Inputs) (version : String) (before : List Rule) (r : Rule) (after : List Rule)
    → All (λ q. matches q inputs ≡ false) before
    → matches r inputs ≡ true
    → evaluate inputs (record { version = version; rules = before ++ r ∷ after })
      ≡ ok (decision_of (record { version = version; rules = before ++ r ∷ after }) r)
unfolding evaluate
first_match-evaluate inputs version before r after misses found =
    ground (arith, first_match-append inputs before r after misses found)
