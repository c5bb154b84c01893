-- ===== src/Schema/Backfill/Marked.antt =====
-- The markers of engine/app/schema/backfill.py.
use structured_chaos.Prelude.{
  ==_iff, Bool, Bool-cases, List, Option, Option-cases, String, String-Eq, [], any, any-sort_by, ap,
  arith, beq_refl, false, if◌then◌else◌, inl, inr, keep, map, none, refl, some, suc, sym, take,
  true, zero, ℕ, ℕ-Eq, ◌=?◌, ◌∙◌, ◌∷◌, ◌≡◌, ◌≢◌, ◌⊎◌,
}
use structured_chaos.Extract.Grounded.{EmergentAttribute, SourceTools}
use structured_chaos.Schema.Backfill.{
  BackfillEnv, CaseResult, backfill_case, backfill_cases, backfill_concept_batch, backfilled_row,
  concept_of, conclude, is_unready, mark_absent, register_attribute, scanned, was_absent, was_found,
  was_skipped, whole_document, write_found, written,
}
use structured_chaos.Schema.Promote.{BackfillJob}
use structured_chaos.Store.Case.{CaseRecord, Cases}
use structured_chaos.Store.Database.{Database}
use structured_chaos.Store.Documents.{list_case_source_documents}
use structured_chaos.Store.Log.{Logs, rebuild_field_current, record_extraction}
use structured_chaos.Store.Registry.{
  BackfillOutcome, Registry, absent, found, register_emergent_field, register_emergent_head,
}
use structured_chaos.Store.Registry.Backlog.{
  cases_needing_backfill, is_attempt, is_attempted, needs_backfill, older_case, pending_cases,
  record_backfill_attempt,
}

abbrev holds_id : ℕ → List ℕ → Bool
holds_id case ids = any (λ i. i =? case) ids

any-take :
    (case n : ℕ) (rows : List (ℕ × CaseRecord))
    → any (λ row. row.0 =? case) rows ≡ false
    → holds_id case (map (λ row. row.0) (take n rows)) ≡ false
any-take case zero rows h = refl
any-take case (suc n) [] h = refl
any-take case (suc n) (row ∷ rows) h = ground (arith, any-take case n rows)

any-keep_attempted :
    (key : String) (cats : List String) (l : Logs) (r : Registry) (case : ℕ) (cases : Cases)
    → is_attempted case key r ≡ true
    → any (λ row. row.0 =? case) (keep (needs_backfill key cats l r) cases) ≡ false
any-keep_attempted key cats l r case [] h = refl
any-keep_attempted key cats l r case ((id, c) ∷ cases) h =
    elim (Bool-cases (needs_backfill key cats l r (id, c))) [
      | inl needs ↦
          let unlike : (id =? case) ≡ false = elim (Bool-cases (id =? case)) [
            | inl same ↦ absurd (marked_excluded same needs)
            | inr differs ↦ differs
          ] in
          rw (needs, keep) (rw unlike (any-keep_attempted key cats l r case cases h))
      | inr passed ↦ rw (passed, keep) (any-keep_attempted key cats l r case cases h)
    ]
  where
    marked_excluded : (id =? case) ≡ true → needs_backfill key cats l r (id, c) ≡ true → ⊥
    marked_excluded same needs =
        let e : id ≡ case = (==_iff id case).0 same in
        let marked : is_attempted id key r ≡ true = rw e h in ground (arith, marked, needs)

-- A marked case is not scanned.
attempted-not_needed :
    (key : String) (cats : List String) (limit : ℕ) (l : Logs) (r : Registry) (cases : Cases)
    (case : ℕ)
    → is_attempted case key r ≡ true
    → holds_id case (cases_needing_backfill key cats limit l r cases) ≡ false
unfolding cases_needing_backfill
attempted-not_needed key [] limit l r cases case h = refl
attempted-not_needed key (c ∷ cs) limit l r cases case h =
    any-take case limit (pending_cases key (c ∷ cs) l r cases) (
      any-sort_by older_case (λ row. row.0 =? case) (keep (needs_backfill key (c ∷ cs) l r) cases)
      ∙ any-keep_attempted key (c ∷ cs) l r case cases h)

attempt_made :
    (case : ℕ) (key : String) (o : BackfillOutcome) (r : Registry)
    → is_attempted case key (record_backfill_attempt case key o r) ≡ true
unfolding record_backfill_attempt
attempt_made case key o r = elim (Bool-cases (is_attempted case key r)) [
  | inl made ↦ rw made made
  | inr fresh ↦ rw fresh (ground (arith, beq_refl case, beq_refl key))
]

attempt_kept :
    (c case : ℕ) (other key : String) (o : BackfillOutcome) (r : Registry)
    → is_attempted c other r ≡ true
    → is_attempted c other (record_backfill_attempt case key o r) ≡ true
unfolding record_backfill_attempt
attempt_kept c case other key o r h = ground arith

register_attribute-attempts :
    (py : SourceTools) (name_hash : String → String) (now : ℕ) (a : EmergentAttribute) (l : Logs)
    (r : Registry)
    → (register_attribute py name_hash now a l r).attempts ≡ r.attempts
unfolding register_emergent_field register_emergent_head
register_attribute-attempts py name_hash now a l r = refl

-- What one case does to the markers: its own is made, and those of every concept stay.
record Marks (case : ℕ) (key : String) (db after : Database) (result : CaseResult) : Type 0 where
  made : (result ≡ was_skipped) ⊎ (is_attempted case key after.registry ≡ true)
  kept :
      (c : ℕ) (other : String)
      → is_attempted c other db.registry ≡ true
      → is_attempted c other after.registry ≡ true

absent-Marks :
    (job : BackfillJob) (case : ℕ) (db : Database)
    → Marks case job.concept_key db (mark_absent case job db) was_absent
absent-Marks job case db = record {
  made = inr (attempt_made case job.concept_key absent db.registry);
  kept = λ c k h. attempt_kept c case k job.concept_key absent db.registry h;
}

found-Marks :
    (env : BackfillEnv) (job : BackfillJob) (id case : ℕ) (docs : List ℕ) (a : EmergentAttribute)
    (db after : Database)
    → write_found env id case docs job a db ≡ some after
    → Marks case job.concept_key db after was_found
found-Marks env job id case docs a db after h =
    go (record_extraction (backfilled_row env id case job a) (map whole_document docs) db.logs) refl
  where
    go :
        (written : Option (Logs × ℕ))
        → record_extraction (backfilled_row env id case job a) (map whole_document docs) db.logs
          ≡ written
        → Marks case job.concept_key db after was_found
    go none e = cc (rw (e, write_found) at h)
    go (some (logs, row)) e =
        let r = register_attribute env.py env.name_hash env.now a logs db.registry in
        let same = register_attribute-attempts env.py env.name_hash env.now a logs db.registry in
        let eq : record db {
          logs = (rebuild_field_current case logs).0;
          registry = record_backfill_attempt case job.concept_key found r;
        }
            ≡ after =
          ground (arith, rw (e, write_found) at h) in
        rw (sym eq) (record {
          made = inr (attempt_made case job.concept_key found r);
          kept = λ c k hc.
              attempt_kept c case k job.concept_key found r (ap (any (is_attempt c k)) same ∙ hc);
        })

-- A transaction's end, from its value.
ended-Marks :
    (case : ℕ) (key : String) (db final after : Database) (r result : CaseResult)
    → Marks case key db final r
    → ◌≡◌ {A = Option (Database × CaseResult)} (some (final, r)) (some (after, result))
    → Marks case key db after result
ended-Marks case key db final after r result marks h =
    let e : final ≡ after = cc in let f : r ≡ result = cc in rw (← e, ← f) marks

conclude-Marks :
    (env : BackfillEnv) (job : BackfillJob) (id case : ℕ) (db after : Database)
    (result : CaseResult) (concept : Option EmergentAttribute)
    → conclude env job id case db concept ≡ some (after, result)
    → Marks case job.concept_key db after result
conclude-Marks env job id case db after result none h =
    ended-Marks case job.concept_key db (mark_absent case job db) after was_absent result
      (absent-Marks job case db) h
conclude-Marks env job id case db after result (some a) h =
    let docs = list_case_source_documents case db.documents in
    elim (Option-cases (write_found env id case docs job a db)) [
      | inl failed ↦ cc (rw (failed, written) at h)
      | inr (final, wrote) ↦
          ended-Marks case job.concept_key db final after was_found result
            (found-Marks env job id case docs a db final wrote) (cc (ap written wrote))
    ]

backfill_case-Marks :
    (env : BackfillEnv) (job : BackfillJob) (id case : ℕ) (db after : Database)
    (result : CaseResult)
    → backfill_case env job id case db ≡ some (after, result)
    → Marks case job.concept_key db after result
unfolding backfill_case
backfill_case-Marks env job id case db after result h = elim (Bool-cases (is_unready env case db)) [
  | inl unready ↦
      ended-Marks case job.concept_key db db after was_skipped result
        (record { made = inl refl; kept = λ c k hc. hc }) (rw unready at h)
  | inr able ↦
      conclude-Marks env job id case db after result (concept_of env job case db) (rw able at h)
]

backfill_cases-kept :
    (env : BackfillEnv) (job : BackfillJob) (id : ℕ) (cases : List ℕ) (db : Database) (c : ℕ)
    (key : String)
    → is_attempted c key db.registry ≡ true
    → is_attempted c key (backfill_cases env job id cases db).0.registry ≡ true
backfill_cases-kept env job id [] db c key h = h
backfill_cases-kept env job id (case ∷ cases) db c key h =
    elim (Option-cases (backfill_case env job id case db)) [
      | inl failed ↦ rw (failed, backfill_cases) h
      | inr ((after, result), ended) ↦
          let marks = backfill_case-Marks env job id case db after result ended in
          rw (ended, backfill_cases)
            (backfill_cases-kept env job (suc id) cases after c key (marks.kept c key h))
    ]

-- The result of a case in the batch.
abbrev pub result_of : ℕ → List ℕ → List CaseResult → Option CaseResult
result_of case [] results = none
result_of case (c ∷ cs) [] = none
result_of case (c ∷ cs) (r ∷ rs) =
    let rest = result_of case cs rs in if c =? case then some r else rest

-- A case with a result is marked by its own transaction, or by a later one of the batch.
marked_step :
    (env : BackfillEnv) (job : BackfillJob) (id : ℕ) (cases : List ℕ) (after db : Database)
    (c case : ℕ) (result r : CaseResult)
    → Marks c job.concept_key db after result
    → r ≢ was_skipped
    → (if c =? case
        then some result
        else result_of case cases (backfill_cases env job id cases after).1)
      ≡ some r
    → (result_of case cases (backfill_cases env job id cases after).1 ≡ some r
        → is_attempted case job.concept_key (backfill_cases env job id cases after).0.registry
          ≡ true)
    → is_attempted case job.concept_key (backfill_cases env job id cases after).0.registry ≡ true
marked_step env job id cases after db c case result r marks ne h later =
    elim (Bool-cases (c =? case)) [
      | inr differs ↦ later (rw differs at h)
      | inl same ↦
          let e : result ≡ r = cc (rw same at h) in
          let f : c ≡ case = (==_iff c case).0 same in
          elim marks.made [
            | inl passed ↦ absurd (ne (sym e ∙ passed))
            | inr made ↦
                rw (← f) (backfill_cases-kept env job id cases after c job.concept_key made)
          ]
    ]

backfill_cases-marked :
    (env : BackfillEnv) (job : BackfillJob) (id : ℕ) (cases : List ℕ) (db : Database) (case : ℕ)
    (r : CaseResult)
    → result_of case cases (backfill_cases env job id cases db).1 ≡ some r
    → r ≢ was_skipped
    → is_attempted case job.concept_key (backfill_cases env job id cases db).0.registry ≡ true
backfill_cases-marked env job id [] db case r h ne = cc
backfill_cases-marked env job id (c ∷ cases) db case r h ne =
    elim (Option-cases (backfill_case env job id c db)) [
      | inl failed ↦ cc (rw (failed, backfill_cases) at h)
      | inr ((after, result), ended) ↦
          let marks = backfill_case-Marks env job id c db after result ended in
          rw (ended, backfill_cases)
            (marked_step env job (suc id) cases after db c case result r marks ne
              (rw (ended, backfill_cases) at h)
              (λ hr. backfill_cases-marked env job (suc id) cases after case r hr ne))
    ]

-- Batches of any concepts, each with the answers that the model gives then.
abbrev pub backfill_all : List (BackfillEnv × BackfillJob × ℕ) → Database → Database
backfill_all [] db = db
backfill_all ((env, job, id) ∷ more) db = backfill_all more (backfill_concept_batch env job id db).0

backfill_all-kept :
    (batches : List (BackfillEnv × BackfillJob × ℕ)) (db : Database) (c : ℕ) (key : String)
    → is_attempted c key db.registry ≡ true
    → is_attempted c key (backfill_all batches db).registry ≡ true
unfolding backfill_concept_batch
backfill_all-kept [] db c key h = h
backfill_all-kept ((env, job, id) ∷ more) db c key h =
    backfill_all-kept more (backfill_concept_batch env job id db).0 c key
      (backfill_cases-kept env job id (scanned job db) db c key h)

-- Once a batch has recorded a case as found or absent, also if a later case of the batch failed, no
-- scan for the concept has the case again: after any further batches, for this concept and for others,
-- and with whatever categories and batch size the concept is then scanned.
pub backfill_once :
    (env : BackfillEnv) (job next : BackfillJob) (id : ℕ) (db : Database) (case : ℕ)
    (r : CaseResult) (later : List (BackfillEnv × BackfillJob × ℕ))
    → result_of case (scanned job db) (backfill_cases env job id (scanned job db) db).1 ≡ some r
    → r ≢ was_skipped
    → next.concept_key ≡ job.concept_key
    → any
        (λ i. i =? case)
        (scanned next (backfill_all later (backfill_concept_batch env job id db).0))
      ≡ false
unfolding backfill_concept_batch
backfill_once env job next id db case r later h ne same =
    let first = (backfill_cases env job id (scanned job db) db).0 in
    let final = backfill_all later first in
    let marked =
      backfill_all-kept later first case job.concept_key
        (backfill_cases-marked env job id (scanned job db) db case r h ne) in
    attempted-not_needed next.concept_key next.categories next.batch_size final.logs final.registry
      final.cases case (ap (λ k. is_attempted case k final.registry) same ∙ marked)
