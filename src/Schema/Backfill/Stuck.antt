-- ===== src/Schema/Backfill/Stuck.antt =====
-- A full batch of cases that cannot be extracted, in engine/app/schema/backfill.py.
use structured_chaos.Prelude.{
  All, List, String-Eq, [], arith, beq_refl, length, refl, suc, true, ℕ, ℕ-Eq, ◌∷◌, ◌≡◌,
}
use structured_chaos.Schema.Backfill.{
  BackfillEnv, backfill, backfill_case, backfill_cases, backfill_concept_batch, is_unready, scanned,
}
use structured_chaos.Schema.Promote.{BackfillJob}
use structured_chaos.Store.Database.{Database}

unready_cases :
    (env : BackfillEnv) (job : BackfillJob) (id : ℕ) (cases : List ℕ) (db : Database)
    → All (λ case. is_unready env case db ≡ true) cases
    → ((backfill_cases env job id cases db).0 ≡ db)
      × ((backfill_cases env job id cases db).2 ≡ true)
unfolding backfill_case
unready_cases env job id [] db h = (refl, refl)
unready_cases env job id (case ∷ cases) db h =
    let (same, ended) = unready_cases env job (suc id) cases db h.1 in
    rw (h.0, backfill_cases) (same, ended)

-- Where the oldest cases without a marker fill a batch and none of them has a text and a document, the
-- task changes nothing and queues itself again: the cases behind them are never reached.
pub backfill_stuck :
    (env : BackfillEnv) (job : BackfillJob) (id : ℕ) (db : Database)
    → length (scanned job db) ≡ job.batch_size
    → All (λ case. is_unready env case db ≡ true) (scanned job db)
    → backfill env job id db ≡ (db, job ∷ [])
unfolding backfill backfill_concept_batch
backfill_stuck env job id db full unready =
    let (same, ended) = unready_cases env job id (scanned job db) db unready in
    ground (arith, full, same, ended, beq_refl job.batch_size)
