-- ===== src/Pipeline/Chained.antt =====
-- A normalisation and the extraction that follows it are queued together.
use structured_chaos.Prelude.{ℕ-Eq}
use structured_chaos.Store.Database.{Database}
use structured_chaos.Store.Ledger.{Ledger}
