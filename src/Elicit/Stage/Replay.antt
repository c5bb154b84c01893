-- ===== src/Elicit/Stage/Replay.antt =====
-- A second run of elicit_case (engine/app/elicit/stage.py) on the result of a first.
use structured_chaos.Prelude.{
  Bool, Bool-cases, List, Option, Option-cases, String, String-Eq, Table, [], arith, false, inl,
  inr, is_some, lookup, map, none, put, refl, some, true, ℕ, ℕ-Eq, ◌∷◌, ◌≡◌, ◌⊎◌,
}
use structured_chaos.Elicit.Policy.{CaseState}
use structured_chaos.Elicit.Provenance.{
  Contradiction, Services, cite_found, cite_mismatch, disagreement_of, found, mismatch_of,
  record_provenance, snapshot_object,
}
use structured_chaos.Elicit.Stage.{
  elicit_case, elicit_claimed, elicit_key, elicit_open, elicit_row, governed_keys, is_finished,
  persist, provenance_of, resolution_of,
}
use structured_chaos.Resolve.Objects.{get_object}
use structured_chaos.Resolve.Resolver.{Resolution}
use structured_chaos.Store.Case.{get_case_elicit_state, touch_elicit_processed}
use structured_chaos.Store.Database.{Database, get_emergent_values_by_head}
use structured_chaos.Store.Ledger.{claim_stage, complete_stage, is_done, running}
use structured_chaos.Store.Ledger.Once.{put-complete-done}
use structured_chaos.Store.Log.{Logs, get_field_values, get_latest_extraction_id}
use structured_chaos.Store.Log.Append.{cite_all-logs}

get_field_values-current :
    (case : ℕ) (paths : List String) (l m : Logs)
    → l.current ≡ m.current
    → get_field_values case paths l ≡ get_field_values case paths m
unfolding get_field_values
get_field_values-current case [] l m same = refl
get_field_values-current case (p ∷ ps) l m same =
    ground (arith, same, get_field_values-current case ps l m same)

-- The projection and the ledger are as before.
abbrev IsKept : Database → Database → Type 0
IsKept db after = (after.logs.current ≡ db.logs.current) × (after.ledger ≡ db.ledger)

cite_found-keeps :
    (snap ext : Option ℕ) (cs : List Contradiction) (db : Database)
    → IsKept db (cite_found snap ext cs db).0
cite_found-keeps (some s) (some e) cs db =
    ((cite_all-logs e (map (disagreement_of s) cs) db.logs).2, refl)
cite_found-keeps none ext cs db = (refl, refl)
cite_found-keeps (some s) none cs db = (refl, refl)

cite_mismatch-keeps :
    (snap ext : Option ℕ) (db : Database) → IsKept db (cite_mismatch snap ext db).0
cite_mismatch-keeps (some s) (some e) db = ((cite_all-logs e (mismatch_of s ∷ []) db.logs).2, refl)
cite_mismatch-keeps none ext db = (refl, refl)
cite_mismatch-keeps (some s) none db = (refl, refl)

snapshot_object-keeps :
    (env : Services) (now new_id case object_id : ℕ) (db : Database)
    → IsKept db (snapshot_object env now new_id case object_id db).0
unfolding snapshot_object
snapshot_object-keeps env now new_id case object_id db = ground arith

record_provenance-keeps :
    (env : Services) (now new_id case : ℕ) (r : Resolution) (fault_value : Option String)
    (db : Database)
    → IsKept db (record_provenance env now new_id case r fault_value db).0
unfolding record_provenance
record_provenance-keeps env now new_id case r fault_value db = elim (Option-cases r.object_id) [
  | inl no_object ↦ ground (arith, no_object)
  | inr (id, bound) ↦
      let (after, snap) = snapshot_object env now new_id case id db in
      ground (
        arith,
        bound,
        snapshot_object-keeps env now new_id case id db,
        cite_found-keeps snap (get_latest_extraction_id case "fault" after.logs)
            (found env snap fault_value (get_object id after.objects)) after,
        cite_mismatch-keeps snap (get_latest_extraction_id case "anchor_value" after.logs) after,
      )
]

provenance_of-keeps :
    (env : Services) (now new_id case : ℕ) (r : Option Resolution) (governed : Table String String)
    (db : Database)
    → IsKept db (provenance_of env now new_id case r governed db).0
provenance_of-keeps env now new_id case none governed db = (refl, refl)
provenance_of-keeps env now new_id case (some r) governed db =
    ground (arith, record_provenance-keeps env now new_id case r (lookup "fault" governed) db)

elicit_claimed-keeps :
    (env : Services) (now new_id case : ℕ) (question_count : ℕ) (anchor_asked : Bool)
    (ref : Option String) (governed : Table String String) (db : Database)
    → let after =
        elicit_claimed env now new_id case (question_count, anchor_asked, ref) governed db in
      (after.logs.current ≡ db.logs.current)
      × (after.ledger ≡ complete_stage (elicit_key env case governed) db.ledger)
unfolding elicit_claimed persist
elicit_claimed-keeps env now new_id case question_count anchor_asked ref governed db =
    let r = resolution_of env case ref governed db in
    ground (arith, provenance_of-keeps env now new_id case r governed db)

-- What makes a run on a case idle: its key is done, or the query of the stage raises.
abbrev IsQuiet : Services → ℕ → Database → Type 0
IsQuiet env case db =
    (is_done (lookup (elicit_key env case (get_field_values case governed_keys db.logs)) db.ledger)
      ≡ true)
    ⊎ (is_some (get_emergent_values_by_head case "person" db.logs db.registry) ≡ false)

-- A run on an open case leaves it so: it was skipped, it raised, or it decided.
open-IsQuiet :
    (env : Services) (now new_id case question_count : ℕ) (anchor_asked : Bool)
    (ref : Option String) (db : Database)
    → IsQuiet env case (elicit_open env now new_id case (question_count, anchor_asked, ref) db).0
unfolding claim_stage
open-IsQuiet env now new_id case question_count anchor_asked ref db =
    let governed = get_field_values case governed_keys db.logs in
    let key = elicit_key env case governed in
    let claimed_db : Database = record db { ledger = put key running db.ledger } in
    let after =
      elicit_claimed env now new_id case (question_count, anchor_asked, ref) governed claimed_db in
    let kept =
      elicit_claimed-keeps env now new_id case question_count anchor_asked ref governed
        claimed_db in
    elim (Bool-cases (is_done (lookup key db.ledger))) [
      | inl old ↦ rw old (inl old)
      | inr fresh ↦
          elim (Bool-cases
            (is_some (get_emergent_values_by_head case "person" db.logs db.registry))) [
              | inr unnamed ↦ rw (fresh, unnamed) (inr unnamed)
              | inl named ↦
                  rw (fresh, named)
                    (inl (
                      rw
                        (
                          get_field_values-current case governed_keys after.logs db.logs kept.0,
                          kept.1,
                        )
                        (put-complete-done key db.ledger)))
            ]
    ]

abbrev pub IsIdle : ℕ → ℕ → Database → Database × Bool → Type 0
IsIdle case later db (again, ran) =
    (ran ≡ false)
    × (again.jobs ≡ db.jobs)
    × (again.logs ≡ db.logs)
    × (again.documents ≡ db.documents)
    × (again.ledger ≡ db.ledger)
    × ((again.cases ≡ db.cases) ⊎ (again.cases ≡ touch_elicit_processed case later db.cases))

open_skips :
    (env : Services) (later other_id case : ℕ) (row : ℕ × Bool × Option String) (db : Database)
    → IsQuiet env case db
    → IsIdle case later db (elicit_open env later other_id case row db)
unfolding claim_stage
open_skips env later other_id case row db (inl old) =
    rw old (refl, refl, refl, refl, refl, inr refl)
open_skips env later other_id case row db (inr unnamed) =
    let key = elicit_key env case (get_field_values case governed_keys db.logs) in
    elim (Bool-cases (is_done (lookup key db.ledger))) [
      | inl old ↦ rw old (refl, refl, refl, refl, refl, inr refl)
      | inr fresh ↦ rw (fresh, unnamed) (refl, refl, refl, refl, refl, inl refl)
    ]

row_skips :
    (env : Services) (later other_id case : ℕ) (row : Option (CaseState × ℕ × Bool × Option String))
    (db : Database)
    → IsQuiet env case db
    → IsIdle case later db (elicit_row env later other_id case row db)
row_skips env later other_id case none db h = (refl, refl, refl, refl, refl, inl refl)
row_skips env later other_id case (some (state, n, asked, ref)) db h =
    elim (Bool-cases (is_finished state)) [
      | inl finished ↦ rw finished (refl, refl, refl, refl, refl, inl refl)
      | inr unfinished ↦ rw unfinished (open_skips env later other_id case (n, asked, ref) db h)
    ]

-- A run on the result of a run on the row that it read.
row_again :
    (env : Services) (now new_id later other_id case : ℕ)
    (row : Option (CaseState × ℕ × Bool × Option String)) (db : Database)
    → get_case_elicit_state case db.cases ≡ row
    → let after = (elicit_row env now new_id case row db).0 in
      IsIdle case later after
        (elicit_row env later other_id case (get_case_elicit_state case after.cases) after)
row_again env now new_id later other_id case none db read =
    rw read (refl, refl, refl, refl, refl, inl refl)
row_again env now new_id later other_id case (some (state, n, asked, ref)) db read =
    elim (Bool-cases (is_finished state)) [
      | inl finished ↦ rw (finished, read) (rw finished (refl, refl, refl, refl, refl, inl refl))
      | inr unfinished ↦
          let after = (elicit_open env now new_id case (n, asked, ref) db).0 in
          rw unfinished (
            row_skips env later other_id case (get_case_elicit_state case after.cases) after
              (open-IsQuiet env now new_id case n asked ref db))
    ]

-- A run makes a run on its result idle, at any later time, whether it decided, was skipped or raised:
-- the second one decides nothing, defers no job, and writes no log, document or ledger row; of the
-- case rows it can only stamp the time of the run.
pub elicit_case_replay :
    (env : Services) (now new_id later other_id case : ℕ) (db : Database)
    → let after = (elicit_case env now new_id case db).0 in
      let (again, ran) = elicit_case env later other_id case after in
      (ran ≡ false)
      × (again.jobs ≡ after.jobs)
      × (again.logs ≡ after.logs)
      × (again.documents ≡ after.documents)
      × (again.ledger ≡ after.ledger)
      × ((again.cases ≡ after.cases)
          ⊎ (again.cases ≡ touch_elicit_processed case later after.cases))
unfolding elicit_case
elicit_case_replay env now new_id later other_id case db =
    row_again env now new_id later other_id case (get_case_elicit_state case db.cases) db refl
