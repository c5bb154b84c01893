-- ===== src/Portal/Status/Fresh.antt =====
-- What public_status (engine/app/portal/store.py) shows of a question and of a read-back.
use structured_chaos.Prelude.{
  ==_iff, All, Bool, List, Option, String, String-Eq, Table, [], ap, arith, false, inl, inr, lookup,
  none, or_else, refl, some, true, ℕ, ℕ-Eq, ◌++◌, ◌<◌, ◌∙◌, ◌∷◌, ◌≡◌, ◌≢◌, ◌≤◌, ◌⊎◌,
}
use structured_chaos.Elicit.Policy.{CaseState, committed, in_review}
use structured_chaos.Elicit.Provenance.{Services}
use structured_chaos.Elicit.Stage.{elicit_case, is_finished}
use structured_chaos.Elicit.Stage.Budget.{get_case_elicit_state_present}
use structured_chaos.Portal.Status.{
  Clock, PublicStatus, is_after, is_created, is_failed, is_inbound, is_ungrounded, newest_inbound,
  public_status, read_back, ready, reprocessing, status_keys, status_of, still_waiting, trusted,
  waiting, without_category,
}
use structured_chaos.Store.Case.{CaseRecord, ElicitMeta, get_pending_question}
use structured_chaos.Store.Database.{Database}
use structured_chaos.Store.Documents.{SourceDocument, object_snapshot}
use structured_chaos.Store.Log.{get_field_values}

still_waiting_never_ready :
    (clock : Clock) (case since : ℕ) (gov : Table String String) (db : Database)
    (headline detail : String) (due : Option ℕ) (understood question : Option String)
    (options : Option (List String))
    → still_waiting clock case since gov db ≢ ready headline detail due understood question options
still_waiting_never_ready clock case since gov db headline detail due understood question options
      h =
    ground (arith, h)

status_of_ready :
    (clock : Clock) (case : ℕ) (db : Database) (c : CaseRecord) (headline detail : String)
    (due : Option ℕ) (understood question : Option String) (options : Option (List String))
    → status_of clock case c db ≡ ready headline detail due understood question options
    → (is_failed c.case_state ≡ false)
      × (is_created c.case_state ≡ false)
      × ((reprocessing case c db).0 ≡ false)
      × (question ≡ get_pending_question case db.cases)
      × (understood ≡ read_back (trusted c (get_field_values case status_keys db.logs)))
status_of_ready clock case db c headline detail due understood question options h = ground (
  arith,
  h,
  still_waiting_never_ready clock case (reprocessing case c db).1
      (get_field_values case status_keys db.logs) db headline detail due understood question
      options,
)

shown_row :
    (clock : Clock) (case : ℕ) (db : Database) (c : CaseRecord) (s : PublicStatus)
    → lookup case db.cases ≡ some c
    → public_status clock case db ≡ some s
    → status_of clock case c db ≡ s
unfolding public_status
shown_row clock case db c s row shown = ground (arith, row, shown)

-- Every document that the customer sent on the case was there at the last move, if there was one.
abbrev pub IsRead : ℕ → Option ElicitMeta → List SourceDocument → Type 0
IsRead case none ds = Unit
IsRead case (some m) ds =
    All
      (λ d. (d.case_id ≢ case) ⊎ (d.doc_kind ≡ object_snapshot) ⊎ (d.received_at ≤ m.processed_at))
      ds

without_category-lookup :
    (gov : Table String String) → lookup "category" (without_category gov) ≡ none
without_category-lookup [] = refl
without_category-lookup ((k, v) ∷ m) = ground (arith, without_category-lookup m)

-- A case whose fault is not grounded shows no read-back: nothing is asserted about a problem that the
-- customer has not described.
pub public_status_ungrounded :
    (clock : Clock) (case : ℕ) (db : Database) (c : CaseRecord) (headline detail : String)
    (due : Option ℕ) (understood question : Option String) (options : Option (List String))
    → lookup case db.cases ≡ some c
    → is_ungrounded c ≡ true
    → public_status clock case db ≡ some (ready headline detail due understood question options)
    → understood ≡ none
unfolding public_status read_back
public_status_ungrounded clock case db c headline detail due understood question options row
      ungrounded shown =
    let gov = get_field_values case status_keys db.logs in
    let (healthy, begun, fresh, asked, told) =
      status_of_ready clock case db c headline detail due understood question options
        (shown_row clock case db c _ row shown) in
    told ∙ rw (ungrounded, without_category-lookup gov) refl

abbrev pub is_waiting : Option PublicStatus → Bool
is_waiting none = false
is_waiting (some (waiting held stage headline detail)) = true
is_waiting (some (ready headline detail due understood question options)) = false

newest_covers :
    (case : ℕ) (before : List SourceDocument) (d : SourceDocument) (after : List SourceDocument)
    → d.case_id ≡ case
    → is_inbound d.doc_kind ≡ true
    → d.received_at ≤ or_else (newest_inbound case (before ++ d ∷ after)) 0
newest_covers case [] d after own theirs = ground (arith, (==_iff d.case_id case).1 own, theirs)
newest_covers case (e ∷ before) d after own theirs =
    ground (arith, newest_covers case before d after own theirs)

is_after_bound : (o : Option ℕ) (p n : ℕ) → n ≤ or_else o 0 → p < n → is_after o (some p) ≡ true
is_after_bound none p n h k = ground (arith, h, k)
is_after_bound (some q) p n h k = ground (arith, h, k)

is_finished_state : (s : CaseState) → (s ≡ in_review) ⊎ (s ≡ committed) → is_finished s ≡ true
is_finished_state s (inl review) = rw review refl
is_finished_state s (inr over) = rw over refl

-- Runs of elicitation on one case.
abbrev pub elicit_all : List (Services × ℕ × ℕ) → ℕ → Database → Database
elicit_all [] case db = db
elicit_all ((env, now, new_id) ∷ more) case db =
    elicit_all more case (elicit_case env now new_id case db).0

elicit_all_idle :
    (runs : List (Services × ℕ × ℕ)) (case : ℕ) (db : Database) (c : CaseRecord)
    → lookup case db.cases ≡ some c
    → is_finished c.case_state ≡ true
    → elicit_all runs case db ≡ db
unfolding elicit_case
elicit_all_idle [] case db c row finished = refl
elicit_all_idle ((env, now, new_id) ∷ more) case db c row finished =
    let idle : (elicit_case env now new_id case db).0 ≡ db =
      rw (get_case_elicit_state_present case db.cases c row, finished) refl in
    ap (elicit_all more case) idle ∙ elicit_all_idle more case db c row finished

-- Once a case in review or committed has a reply that is newer than its last move, no run of
-- elicitation on it changes anything, and after any number of them the portal shows the case, at every
-- time, with a status that is one of the waiting ones.
pub public_status_finished_reply :
    (clock : Clock) (runs : List (Services × ℕ × ℕ)) (case : ℕ) (db : Database) (c : CaseRecord)
    (m : ElicitMeta) (before after : List SourceDocument) (reply : SourceDocument)
    → lookup case db.cases ≡ some c
    → (c.case_state ≡ in_review) ⊎ (c.case_state ≡ committed)
    → c.elicit ≡ some m
    → db.documents.sources ≡ before ++ reply ∷ after
    → reply.case_id ≡ case
    → is_inbound reply.doc_kind ≡ true
    → m.processed_at < reply.received_at
    → (elicit_all runs case db ≡ db)
      × (is_waiting (public_status clock case (elicit_all runs case db)) ≡ true)
unfolding public_status reprocessing
public_status_finished_reply clock runs case db c m before after reply row state stamped listed own
      theirs late =
    let idle = elicit_all_idle runs case db c row (is_finished_state c.case_state state) in
    let bound : reply.received_at ≤ or_else (newest_inbound case db.documents.sources) 0 =
      rw listed (newest_covers case before reply after own theirs) in
    let newer : is_after (newest_inbound case db.documents.sources) (some m.processed_at) ≡ true =
      is_after_bound (newest_inbound case db.documents.sources) m.processed_at reply.received_at
        bound late in
    (idle, rw idle (ground (arith, row, newer, stamped, is_finished_state c.case_state state)))
