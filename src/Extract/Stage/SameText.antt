-- ===== src/Extract/Stage/SameText.antt =====
-- The idempotency key of engine/app/extract/stage.py.
use structured_chaos.Prelude.{
  Bool-cases, List, Option, Option-cases, String, String-Eq, Table, [], all, ap, ap₂, arith, false,
  inl, inr, keep, length, map, none, refl, some, sort_by, suc, true, ℕ, ℕ-Eq, ◌+◌, ◌=?◌, ◌∙◌, ◌∷◌,
  ◌≡◌,
}
use structured_chaos.Confidence.{confidence}
use structured_chaos.Extract.Extractor.{ExtractionResult, RawExtraction, grounded_emergent}
use structured_chaos.Extract.Grounded.{EmergentAttribute, name_of}
use structured_chaos.Extract.Stage.{
  ExtractEnv, Sources, answered, cite, extract_case, extract_key, extracted_row, field_validity,
  finish, sources_of, write_emergent, write_governed, write_result,
}
use structured_chaos.Schema.Backfill.{register_attribute}
use structured_chaos.Store.Database.{Database, elicit_job, rules_job}
use structured_chaos.Store.Documents.{get_case_normalised_text}
use structured_chaos.Store.Ledger.{claim_stage, complete_stage}
use structured_chaos.Store.Ledger.Once.{Event, apply_all, claim_stage_once, is_harmless}
use structured_chaos.Store.Log.{Logs, emergent, rebuild_field_current, record_extraction}
use structured_chaos.Store.Registry.{
  MintedHead, Registry, register_emergent_field, register_emergent_head,
}
use structured_chaos.Store.Registry.Minted.{earlier_name, is_open, list_minted_heads}

write_emergent-minted :
    (env : ExtractEnv) (case run : ℕ) (src : Sources) (validity : String) (id : ℕ)
    (es : List EmergentAttribute) (l l' : Logs) (r r' : Registry)
    → write_emergent env case run src validity id es l r ≡ some (l', r')
    → r'.minted ≡ r.minted
unfolding register_emergent_field register_emergent_head
write_emergent-minted env case run src validity id [] l l' r r' h = ground (arith, h)
write_emergent-minted env case run src validity id (a ∷ es) l l' r r' h =
    let name = name_of env.py a in
    let row =
      extracted_row env id case run name a.value emergent
        (confidence env.floats env.calibration name (some a.value) validity) in
    elim (Option-cases (record_extraction row (cite env src a.value) l)) [
      | inl refused ↦ cc (rw (refused, write_emergent) at h)
      | inr ((mid, row_id), wrote) ↦
          write_emergent-minted env case run src validity (suc id) es mid l'
            (register_attribute env.py env.sha256 env.now a mid r) r'
            (rw (wrote, write_emergent) at h)
    ]

write_result-minted :
    (env : ExtractEnv) (case run : ℕ) (src : Sources) (id : ℕ) (result : ExtractionResult)
    (l l' : Logs) (r r' : Registry)
    → write_result env case run src id result l r ≡ some (l', r')
    → r'.minted ≡ r.minted
write_result-minted env case run src id result l l' r r' h =
    elim (Option-cases (write_governed env case run src id result.governed l)) [
      | inl refused ↦ cc (rw (refused, write_result) at h)
      | inr (mid, wrote) ↦
          write_emergent-minted env case run src (field_validity env result)
            (id + length result.governed) (grounded_emergent result) mid l' r r'
            (rw (wrote, write_result) at h)
    ]

-- What a run that extracts leaves as it was, and its key.
record IsDoneRun (key : String) (db after : Database) : Type 0 where
  minted_same : after.registry.minted ≡ db.registry.minted
  key_done : after.ledger ≡ complete_stage key (claim_stage key db.ledger).0

finish-IsDoneRun :
    (case : ℕ) (key : String) (db after : Database) (written : Option (Logs × Registry))
    → ((l : Logs) (r : Registry) → written ≡ some (l, r) → r.minted ≡ db.registry.minted)
    → finish case key (record db { ledger = (claim_stage key db.ledger).0 }) written
      ≡ some (after, true)
    → IsDoneRun key db after
finish-IsDoneRun case key db after none minted h = cc
finish-IsDoneRun case key db after (some (l, r)) minted h =
    let e : record db {
      logs = (rebuild_field_current case l).0;
      registry = r;
      ledger = complete_stage key (claim_stage key db.ledger).0;
      jobs = rules_job case ∷ elicit_job case ∷ db.jobs;
    }
        ≡ after =
      cc in
    rw (← e) (record { minted_same = minted l r refl; key_done = refl })

-- The key of a run on a case.
abbrev pub run_key : ExtractEnv → ℕ → Database → String
run_key env case db =
    extract_key env (get_case_normalised_text case db.documents) (list_minted_heads db.registry)

extract_case-IsDoneRun :
    (env : ExtractEnv) (run id case : ℕ) (db after : Database)
    → extract_case env run id case db ≡ some (after, true)
    → IsDoneRun (run_key env case db) db after
unfolding extract_case
extract_case-IsDoneRun env run id case db after h =
    let key = run_key env case db in
    let blank_text = env.py.strip (get_case_normalised_text case db.documents) =? "" in
    elim (Bool-cases blank_text) [
      | inl blank_case ↦ cc (rw blank_case at h)
      | inr filled ↦ elim (Bool-cases (claim_stage key db.ledger).1) [
        | inr old ↦ cc (rw (filled, old) at h)
        | inl fresh ↦
            finish-IsDoneRun case key db after
              (write_result env case run (sources_of case db) id (answered env case db) db.logs
                db.registry)
              (λ l r.
                write_result-minted env case run (sources_of case db) id (answered env case db)
                  db.logs l db.registry r)
              (rw (filled, fresh) at h)
      ]
    ]

list_minted_heads_same :
    (r r' : Registry) → r'.minted ≡ r.minted → list_minted_heads r' ≡ list_minted_heads r
unfolding list_minted_heads
list_minted_heads_same r r' same =
    ap (λ (m : Table String MintedHead). map (λ row. row.0) (sort_by earlier_name (keep is_open m)))
      same

extract_key_same :
    (env : ExtractEnv) (answer : String → List String → Table String String → Option RawExtraction)
    (now : ℕ) (text : String) (minted : List String)
    → extract_key (record env { answer = answer; now = now }) text minted
      ≡ extract_key env text minted
unfolding extract_key
extract_key_same env answer now text minted = refl

-- A text is extracted once for a vocabulary: after a run that extracted one case's text, a run on any
-- case with the same text extracts nothing, changes nothing and says so, whatever the model and the
-- clock then say, in any later database in which the minted heads are still those of the run and the
-- ledger has seen no failure of the run's key.
pub extract_case_same_text :
    (env : ExtractEnv) (run id case : ℕ) (db after later : Database)
    (answer : String → List String → Table String String → Option RawExtraction)
    (now run' id' another : ℕ) (es : List Event)
    → extract_case env run id case db ≡ some (after, true)
    → get_case_normalised_text another later.documents ≡ get_case_normalised_text case db.documents
    → list_minted_heads later.registry ≡ list_minted_heads after.registry
    → later.ledger ≡ apply_all es after.ledger
    → all (is_harmless (run_key env case db)) es ≡ true
    → extract_case (record env { answer = answer; now = now }) run' id' another later
      ≡ some (later, false)
unfolding extract_case
extract_case_same_text env run id case db after later answer now run' id' another es ran same heads
      ledger harmless =
    let key = run_key env case db in
    let run_done = extract_case-IsDoneRun env run id case db after ran in
    let text = get_case_normalised_text another later.documents in
    let key_again : extract_key (record env { answer = answer; now = now }) text
          (list_minted_heads later.registry)
        ≡ key =
      extract_key_same env answer now text (list_minted_heads later.registry)
      ∙ ap₂ (extract_key env) same
          (heads ∙ list_minted_heads_same db.registry after.registry run_done.minted_same) in
    let events : later.ledger ≡ apply_all es (complete_stage key (claim_stage key db.ledger).0) =
      ledger ∙ ap (apply_all es) run_done.key_done in
    let refused : (claim_stage key later.ledger).1 ≡ false =
      ap (λ l. (claim_stage key l).1) events
      ∙ ap (λ c. c.1) (claim_stage_once key db.ledger es harmless) in
    elim (Bool-cases (env.py.strip text =? "")) [
      | inl blank_case ↦ rw blank_case refl
      | inr filled ↦ rw (filled, key_again, refused) refl
    ]
