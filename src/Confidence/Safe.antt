-- ===== src/Confidence/Safe.antt =====
-- The fail-safe of engine/app/confidence/model.py.
use structured_chaos.Prelude.{
  Option, String, String-Eq, Table, [], arith, inl, inr, none, refl, true, ℕ-Eq, ◌<◌, ◌∷◌, ◌≡◌, ◌≤◌,
  ◌⊎◌,
}
use structured_chaos.Confidence.{
  Calibration, FieldCalibration, FloatTools, abstains, blank, confidence, load_calibration, review,
  route,
}

confidence-le :
    (py : FloatTools) (cal : Calibration) (path : String) (value : Option String) (g : String)
    → confidence py cal path value g ≤ 10000
unfolding confidence
confidence-le py cal path value g = go cal.fields
  where
    go :
        (fields : Table String FieldCalibration)
        → confidence py (record cal { fields = fields }) path value g ≤ 10000
    go [] = ground arith
    go (row ∷ rows) = ground arith

confidence_refused :
    (py : FloatTools) (cal : Calibration) (path : String) (value : Option String) (g : String)
    → abstains py value ≡ true
    → confidence py cal path value g ≡ 0
unfolding confidence
confidence_refused py cal path value g refused = rw refused refl

-- A missing artifact can only make the engine more cautious: with none, every value of every field goes
-- to review; and with any artifact whose threshold is above zero, a value that the model refused to
-- give is at confidence 0 and goes to review.
pub route-confidence_safe :
    (py : FloatTools) (artifact : Option Calibration) (path : String) (value : Option String)
    (grounding : String)
    → (artifact ≡ none) ⊎ ((abstains py value ≡ true) × (0 < (load_calibration artifact).tau_auto))
    → route
        (load_calibration artifact)
        (confidence py (load_calibration artifact) path value grounding)
      ≡ review
unfolding route load_calibration
route-confidence_safe py artifact path value grounding (inl missing) =
    rw missing (ground (arith, confidence-le py blank path value grounding))
route-confidence_safe py artifact path value grounding (inr (refused, above)) =
    ground
      (arith, above, confidence_refused py (load_calibration artifact) path value grounding refused)
