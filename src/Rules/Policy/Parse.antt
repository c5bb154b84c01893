-- ===== src/Rules/Policy/Parse.antt =====
-- engine/app/rules/engine.py: parse_policy and load_policy. `yaml.safe_load` is a parameter; `none`
-- is its own exception.
use Prim.Native.String.{◌++◌ as str_append}
use structured_chaos.Prelude.{
  Bool, List, Option, Result, String, String-Eq, [], any, raise, false, if◌then◌else◌, ltb, none,
  not, ok, require, some, some_or, suc, true, ℕ, ℕ-Eq, ◌==◌, ◌=?◌, ◌>>=◌, ◌>>◌, ◌∷◌,
}
use structured_chaos.Rules.Policy.{
  Entries, Float, InputKey, Items, Policy, PolicyError, Rule, Yaml, bad_condition, bad_priority,
  bad_rationale, bad_routing, bad_sla, bool, cons, decimal, duplicate_id, end, entry, float, inf,
  int, mapping, missing_id, nan, neg_inf, neg_int, negative, nil, no_catch_all, no_rules,
  no_version, not_a_mapping, not_yaml, null, parse_key, rule_not_a_mapping, seq, str, unknown_key,
  when_not_a_mapping,
}

abbrev pub get : String → Entries → Option Yaml
get k end = none
get k (entry none v es) = get k es
get k (entry (some j) v es) = if j =? k then some v else get k es

-- Python's truth value of a loaded value.
abbrev pub is_truthy : Yaml → Bool
is_truthy null = false
is_truthy (bool b) = b
is_truthy (int n) = ltb 0 n
is_truthy (neg_int n) = true
is_truthy (float (decimal m s)) = ltb 0 m
is_truthy (float f) = true
is_truthy (str s) = not (s =? "")
is_truthy (seq nil) = false
is_truthy (seq (cons y ys)) = true
is_truthy (mapping end) = false
is_truthy (mapping (entry k v es)) = true

-- `not isinstance(v, str) or not v`
abbrev pub need_text : Option Yaml → PolicyError → Result PolicyError String
need_text (some (str s)) e = if s =? "" then raise e else ok s
need_text v e = raise e

-- `raw.get("when", {}) or {}`, and its type test.
abbrev pub when_entries : Option Yaml → PolicyError → Result PolicyError Entries
when_entries none e = ok end
when_entries (some (mapping es)) e = ok es
when_entries (some v) e = if is_truthy v then raise e else ok end

abbrev pub texts : Items → Option (List String)
texts nil = some []
texts (cons (str s) ys) = elim (texts ys) [ none ↦ none | some r ↦ some (s ∷ r) ]
texts (cons y ys) = none

-- A non-empty list of strings.
abbrev pub allowed_values : Yaml → Option (List String)
allowed_values (seq (cons y ys)) = texts (cons y ys)
allowed_values v = none

abbrev pub conditions : String → Entries → Result PolicyError (List (InputKey × List String))
conditions id end = ok []
conditions id (entry k v es) = do
  key ← some_or (parse_key k) (unknown_key id)
  allowed ← some_or (allowed_values v) (bad_condition id)
  rest ← conditions id es
  ok ((key, allowed) ∷ rest)

abbrev pub is_priority : String → Bool
is_priority p = any (λ q. q =? p) ("P1" ∷ "P2" ∷ "P3" ∷ "P4" ∷ [])

abbrev pub need_priority : Option Yaml → PolicyError → Result PolicyError String
need_priority (some (str s)) e = if is_priority s then ok s else raise e
need_priority v e = raise e

-- `isinstance(x, (int, float))`, no `bool`, not `x <= 0`; then `float(x)`.
abbrev pub need_hours : Option Yaml → PolicyError → Result PolicyError Float
need_hours (some (int n)) e = if n == 0 then raise e else ok (decimal n 0)
need_hours (some (float (decimal m s))) e = if m == 0 then raise e else ok (decimal m s)
need_hours (some (float (negative m s))) e = raise e
need_hours (some (float neg_inf)) e = raise e
need_hours (some (float inf)) e = ok inf
need_hours (some (float nan)) e = ok nan
need_hours v e = raise e

unfoldable pub parse_rule : Yaml → ℕ → Result PolicyError Rule
parse_rule (mapping raw) idx = do
  id ← need_text (get "id" raw) (missing_id idx)
  when_raw ← when_entries (get "when" raw) (when_not_a_mapping id)
  when ← conditions id when_raw
  priority ← need_priority (get "priority" raw) (bad_priority id)
  routing ← need_text (get "routing" raw) (bad_routing id)
  sla_hours ← need_hours (get "sla_hours" raw) (bad_sla id)
  rationale ← need_text (get "rationale" raw) (bad_rationale id)
  ok (record {
    rule_id = id;
    when = when;
    priority = priority;
    routing = routing;
    sla_hours = sla_hours;
    rationale = rationale;
  })
parse_rule v idx = raise (rule_not_a_mapping idx)

abbrev pub parse_rules : Items → ℕ → Result PolicyError (List Rule)
parse_rules nil idx = ok []
parse_rules (cons y ys) idx = do r ← parse_rule y idx; rs ← parse_rules ys (suc idx); ok (r ∷ rs)

abbrev pub need_rules : Option Yaml → Result PolicyError Items
need_rules (some (seq (cons y ys))) = ok (cons y ys)
need_rules v = raise no_rules

-- `rules[-1].when` is empty.
abbrev pub ends_in_catch_all : List Rule → Bool
ends_in_catch_all [] = false
ends_in_catch_all (r ∷ []) = elim r.when [ [] ↦ true | c ∷ cs ↦ false ]
ends_in_catch_all (r ∷ s ∷ rs) = ends_in_catch_all (s ∷ rs)

-- The first id that stands in `seen` or is repeated.
abbrev pub repeated : List String → List Rule → Option String
repeated seen [] = none
repeated seen (r ∷ rs) =
    let rest = repeated (r.rule_id ∷ seen) rs in
    if any (λ i. i =? r.rule_id) seen then some r.rule_id else rest

abbrev pub no_repeat : List Rule → Result PolicyError (Unit {0})
no_repeat rs = elim (repeated [] rs) [ none ↦ ok tt | some id ↦ raise (duplicate_id id) ]

abbrev pub parse_doc : Yaml → Result PolicyError Policy
parse_doc (mapping doc) = do
  version ← need_text (get "version" doc) no_version
  raw_rules ← need_rules (get "rules" doc)
  rules ← parse_rules raw_rules 0
  require (ends_in_catch_all rules) no_catch_all
  no_repeat rules
  ok (record { version = version; rules = rules })
parse_doc v = raise not_a_mapping

unfoldable pub parse_policy : (String → Option Yaml) → String → Result PolicyError Policy
parse_policy safe_load text = do doc ← some_or (safe_load text) not_yaml; parse_doc doc

abbrev pub tenant_version : Policy → Policy
tenant_version p = record p { version = str_append "tenant:" p.version }

-- `tenant_yaml and tenant_yaml.strip()`: a blank text is a parameter.
unfoldable pub load_policy :
    (String → Option Yaml) → (String → Bool) → String → Option String → Result PolicyError Policy
load_policy safe_load is_blank default none = parse_policy safe_load default
load_policy safe_load is_blank default (some text) =
    if is_blank text
    then parse_policy safe_load default
    else (do p ← parse_policy safe_load text; ok (tenant_version p))
