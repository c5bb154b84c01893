-- ===== src/Elicit/Stage.antt =====
-- engine/app/elicit/stage.py: elicit_case, the whole transaction on one case.
pub mod Budget
pub mod Replay
use Prim.Native.String.{◌++◌ as str_append}
use structured_chaos.Prelude.{
  Bool, List, Option, String, String-Eq, Table, [], bit, false, if◌then◌else◌, is_some, leb, lookup,
  none, not, or_else, some, true, ℕ, ℕ-Eq, ◌&&◌, ◌=?◌, ◌||◌, ◌∷◌,
}
use structured_chaos.Elicit.Grounding.{confirmation_of, is_fault_grounded}
use structured_chaos.Elicit.Policy.{
  CaseState, ElicitationPlan, Fields, GovernedKey, QuestionKind, Situation, anchor, anchor_value,
  category, committed, decide, desired_outcome, drill, emotion_signal, fault, fault_options,
  in_review, severity_signal, truthy,
}
use structured_chaos.Elicit.Provenance.{Services, is_silent, record_provenance}
use structured_chaos.Resolve.Objects.{Objects, get_object}
use structured_chaos.Resolve.Resolver.{Resolution, resolve_object}
use structured_chaos.Rules.Policy.{emotion}
use structured_chaos.Store.Case.{
  ElicitMeta, apply_elicitation, get_case_elicit_state, touch_elicit_processed,
}
use structured_chaos.Store.Database.{Database, Job, dispatch_job, get_emergent_values_by_head}
use structured_chaos.Store.Documents.{get_case_normalised_text, object_snapshot}
use structured_chaos.Store.Ledger.{
  Versions, claim_stage, complete_stage, compute_idempotency_key, separator,
}
use structured_chaos.Store.Log.{get_field_values, holds}
use structured_chaos.Store.Registry.{nearest}

abbrev pub policy_version : String
policy_version = "elicit-v5"

abbrev pub key_name : GovernedKey → String
key_name category = "category"
key_name fault = "fault"
key_name desired_outcome = "desired_outcome"
key_name emotion_signal = "emotion_signal"
key_name severity_signal = "severity_signal"
key_name anchor_value = "anchor_value"

abbrev pub governed_keys : List String
governed_keys =
    "category" ∷ "fault" ∷ "desired_outcome" ∷ "emotion_signal" ∷ "severity_signal" ∷ "anchor_value"
    ∷ []

-- `set(governed)`, as its membership test.
abbrev pub fields_of : Table String String → Fields
fields_of governed k = is_some (lookup (key_name k) governed)

abbrev pub versions_of : Services → ℕ → Table String String → Versions
versions_of env case governed = record {
  source_sha256 =
      env.sha256 (str_append (env.uuid_text case) (str_append separator (env.dumps governed)));
  stage = "elicit";
  model_version = "-";
  prompt_version = policy_version;
  code_version = env.code_version;
}

unfoldable pub elicit_key : Services → ℕ → Table String String → String
elicit_key env case governed = compute_idempotency_key env.sha256 (versions_of env case governed)

abbrev pub customer_qualifiers : List String
customer_qualifiers = "customer" ∷ "customer_name" ∷ "complainant" ∷ "caller" ∷ "client" ∷ []

abbrev pub first_customer : List (String × String) → Option String
first_customer [] = none
first_customer ((qualifier, value) ∷ pairs) =
    if holds qualifier customer_qualifiers then some value else first_customer pairs

abbrev pub customer_name : ℕ → Database → Option String
customer_name case db =
    first_customer (or_else (get_emergent_values_by_head case "person" db.logs db.registry) [])

-- The resolution, where there is an anchor, a sender or a name to resolve.
unfoldable pub resolution_of :
    Services → ℕ → Option String → Table String String → Database → Option Resolution
resolution_of env case contact_ref governed db =
    let anchor_text = lookup "anchor_value" governed in
    let name = customer_name case db in
    if truthy anchor_text || truthy contact_ref || (truthy name && is_some env.lookups.nearest)
    then some (resolve_object env.lookups db.objects anchor_text contact_ref name)
    else none

-- The object of a silent match.
abbrev pub resolved_id : Option Resolution → Option ℕ
resolved_id none = none
resolved_id (some r) = if is_silent r.mode then r.object_id else none

abbrev pub confirmation_for : Services → Option ℕ → Objects → Option String
confirmation_for env none objects = none
confirmation_for env (some id) objects = elim (get_object id objects) [
  | none ↦ none
  | some obj ↦ some (confirmation_of env.py obj)
]

-- A category that is absent passes the test too: `None not in _UNCATEGORISED`.
abbrev pub is_categorised : Option String → Bool
is_categorised none = true
is_categorised (some c) = not ((c =? "other") || (c =? "UNCLEAR"))

-- `max(0, question_count - (1 if anchor_asked else 0)) == 0`
abbrev pub is_first_drill : ℕ → Bool → Bool
is_first_drill question_count anchor_asked = leb question_count (bit anchor_asked)

abbrev pub narrowed : Option String → Option String
narrowed none = none
narrowed (some c) = if c =? "" then none else some (str_append c " What went wrong with it?")

abbrev pub when {ℓ} : {A : Type ℓ} → Bool → Option A → Option A
when true o = o
when false o = none

abbrev pub situation_of :
    Services → ℕ → ℕ × Bool × Option String → Table String String → Option ℕ → Database → Situation
situation_of env case (question_count, anchor_asked, contact_ref) governed resolved db =
    let category_known = is_categorised (lookup "category" governed) in
    let stated =
      when (is_first_drill question_count anchor_asked)
        (confirmation_for env resolved db.objects) in
    let prompt = narrowed stated in
    record {
      present_fields = fields_of governed;
      emotion = lookup "emotion_signal" governed;
      has_anchor = truthy (lookup "anchor_value" governed) || is_some resolved;
      anchor_asked = anchor_asked;
      question_count = question_count;
      confirmation = stated;
      fault_grounded =
          is_fault_grounded env.py (lookup "fault" governed)
            (get_case_normalised_text case db.documents)
          && category_known;
      category_known = category_known;
      fault_prompt = prompt;
      offered = when (is_some prompt) (some fault_options);
    }

abbrev pub is_anchor_kind : Option QuestionKind → Bool
is_anchor_kind none = false
is_anchor_kind (some anchor) = true
is_anchor_kind (some drill) = false

abbrev pub meta_of : ℕ → Situation → ElicitationPlan → Option ℕ → ℕ → ElicitMeta
meta_of now s plan snapshot n = record {
  anchor_asked = s.anchor_asked || is_anchor_kind plan.question_kind;
  next_question = plan.next_question;
  question_kind = plan.question_kind;
  reason = plan.reason;
  state = plan.state;
  options = plan.options;
  object_snapshot = snapshot;
  contradictions = n;
  fault_grounded = s.fault_grounded;
  processed_at = now;
}

abbrev pub provenance_of :
    Services
    → ℕ
    → ℕ
    → ℕ
    → Option Resolution
    → Table String String
    → Database
    → Database × Option ℕ × ℕ
provenance_of env now new_id case none governed db = (db, none, 0)
provenance_of env now new_id case (some r) governed db =
    if env.has_blob
    then record_provenance env now new_id case r (lookup "fault" governed) db
    else (db, none, 0)

abbrev pub defer : Bool → Job → Database → Database
defer asked job db = if asked then record db { jobs = job ∷ db.jobs } else db

-- What the stage writes for a plan: the case, the ledger, the deferred dispatch.
unfoldable pub persist :
    ℕ → ℕ → String → Situation → ElicitationPlan → Option ℕ → ℕ → Database → Database
persist now case key s plan snapshot n db =
    let asked = is_some plan.next_question in
    defer asked (dispatch_job case) (record db {
      cases = apply_elicitation case plan.state asked (meta_of now s plan snapshot n) db.cases;
      ledger = complete_stage key db.ledger;
    })

abbrev pub is_finished : CaseState → Bool
is_finished in_review = true
is_finished committed = true
is_finished _ = false

-- The stage after its claim.
unfoldable pub elicit_claimed :
    Services → ℕ → ℕ → ℕ → ℕ × Bool × Option String → Table String String → Database → Database
elicit_claimed env now new_id case (question_count, anchor_asked, contact_ref) governed db =
    let resolution = resolution_of env case contact_ref governed db in
    let s =
      situation_of env case (question_count, anchor_asked, contact_ref) governed
        (resolved_id resolution) db in
    let (after, snapshot, n) = provenance_of env now new_id case resolution governed db in
    persist now case (elicit_key env case governed) s (decide s) snapshot n after

-- The claim, and the skip of a state that was handled before. Where the query for the customer's name
-- raises, the transaction is undone, the claim included, and nothing was decided.
abbrev pub elicit_open :
    Services → ℕ → ℕ → ℕ → ℕ × Bool × Option String → Database → Database × Bool
elicit_open env now new_id case row db =
    let governed = get_field_values case governed_keys db.logs in
    let (ledger, fresh) = claim_stage (elicit_key env case governed) db.ledger in
    let named = is_some (get_emergent_values_by_head case "person" db.logs db.registry) in
    if fresh
    then (if named
        then (elicit_claimed env now new_id case row governed (record db { ledger = ledger }), true)
        else (db, false))
    else (record db { ledger = ledger; cases = touch_elicit_processed case now db.cases }, false)

-- The stage on the row that it reads: absent, past elicitation, or open.
abbrev pub elicit_row :
    Services
    → ℕ
    → ℕ
    → ℕ
    → Option (CaseState × ℕ × Bool × Option String)
    → Database
    → Database × Bool
elicit_row env now new_id case none db = (db, false)
elicit_row env now new_id case (some (state, question_count, anchor_asked, contact_ref)) db =
    if is_finished state
    then (db, false)
    else elicit_open env now new_id case (question_count, anchor_asked, contact_ref) db

-- `now` and `new_id` are the clock and the id of a new document.
unfoldable pub elicit_case : Services → ℕ → ℕ → ℕ → Database → Database × Bool
elicit_case env now new_id case db =
    elicit_row env now new_id case (get_case_elicit_state case db.cases) db
