-- ===== src/Store/Ledger.antt =====
-- The idempotency ledger `stage_execution`: claim_stage, complete_stage, fail_stage and
-- compute_idempotency_key of engine/app/store/api.py. The hash is a parameter.
pub mod Once
use Prim.Native.String.{◌++◌ as str_append}
use structured_chaos.Prelude.{
  Bool, Option, String, String-Eq, Table, false, if◌then◌else◌, lookup, none, put, some, true,
  update, ℕ-Eq,
}

pub data StageStatus : Type 0 where
  running done failed : StageStatus

abbrev pub Ledger : Type 0
Ledger = Table String StageStatus

abbrev pub is_done : Option StageStatus → Bool
is_done none = false
is_done (some done) = true
is_done (some running) = false
is_done (some failed) = false

-- The flag says whether a row was inserted or updated: the caller does the work.
unfoldable pub claim_stage : String → Ledger → Ledger × Bool
claim_stage key ledger =
    if is_done (lookup key ledger) then (ledger, false) else (put key running ledger, true)

unfoldable pub complete_stage : String → Ledger → Ledger
complete_stage key ledger = update key (λ _. done) ledger

unfoldable pub fail_stage : String → Ledger → Ledger
fail_stage key ledger = update key (λ _. failed) ledger

pub record Versions : Type 0 where
  pub source_sha256 : String
  pub stage : String
  pub model_version : String
  pub prompt_version : String
  pub code_version : String

abbrev pub separator : String
separator = "\u{1f}"

-- The hashed text; the hash is the caller's.
unfoldable pub compute_idempotency_key : (String → String) → Versions → String
compute_idempotency_key sha256 v = sha256 (
    str_append v.source_sha256 (
      str_append separator (
        str_append v.stage (
          str_append separator (
            str_append v.model_version (
              str_append separator
                (str_append v.prompt_version (str_append separator v.code_version))))))))
