-- ===== src/Confidence.antt =====
-- engine/app/confidence/model.py: the runtime. A float of the artifact is its text, a confidence is a
-- number of ten-thousandths, and tau_auto is rounded up to one. The product of two floats, rounded to
-- four places, is a parameter; a negative one is 0. Fitting is left out.
pub mod Safe
mod Tests
use structured_chaos.Prelude.{
  Bool, List, Option, String, String-Eq, Table, [], false, if◌then◌else◌, leb, lookup, ltb, none,
  or_else, some, true, ℕ, ℕ-Eq, ◌∷◌,
}
use structured_chaos.Store.Log.{holds}

pub record FieldCalibration : Type 0 where
  pub reliability : Table String String
  pub default : String
  pub support : Table String ℕ

pub record Calibration : Type 0 where
  pub version : String
  pub fit_on : String
  pub fields : Table String FieldCalibration
  pub tau_auto : ℕ
  pub gate_met : Bool

pub record FloatTools : Type 0 where
  pub product : String → String → ℕ
  pub strip : String → String

abbrev pub abstentions : List String
abstentions = "UNCLEAR" ∷ []

abbrev pub safe_default_confidence : String
safe_default_confidence = "0.4"

-- `round(max(0.0, min(1.0, a * b)), 4)`
abbrev pub clamped : ℕ → ℕ
clamped n = if ltb 10000 n then 10000 else n

abbrev pub abstains : FloatTools → Option String → Bool
abstains py none = true
abstains py (some v) = holds (py.strip v) abstentions

unfoldable pub confidence : FloatTools → Calibration → String → Option String → String → ℕ
confidence py cal field_path value grounding = if abstains py value then 0 else elim cal.fields [
  | [] ↦ clamped (py.product safe_default_confidence grounding)
  | row ∷ rows ↦ elim (lookup field_path (row ∷ rows)) [
    | none ↦ clamped (py.product "1.0" grounding)
    | some fc ↦
        clamped
          (py.product (or_else (lookup (or_else value "") fc.reliability) fc.default) grounding)
  ]
]

pub data Route : Type 0 where
  auto review : Route

unfoldable pub route : Calibration → ℕ → Route
route cal c = if leb cal.tau_auto c then auto else review

abbrev pub blank : Calibration
blank = record {
  version = "unfitted";
  fit_on = "no calibration artifact";
  fields = [];
  tau_auto = 10100;
  gate_met = false;
}

-- The artifact, as far as it can be read and parsed.
unfoldable pub load_calibration : Option Calibration → Calibration
load_calibration artifact = or_else artifact blank
