-- ===== src/Confidence/Tests.antt =====
-- The fail-safe with no artifact.
use structured_chaos.Prelude.{String-Eq, inl, none, refl, some, ℕ-Eq, ◌≡◌}
use structured_chaos.Confidence.{FloatTools, confidence, load_calibration, review, route}
use structured_chaos.Confidence.Safe.{route-confidence_safe}

abbrev floats : FloatTools
floats = record { product = λ a b. 9000; strip = λ s. s }

route-confidence_safe_example :
    route
      (load_calibration none)
      (confidence floats (load_calibration none) "fault" (some "late") "1.0")
    ≡ review
route-confidence_safe_example =
    route-confidence_safe floats none "fault" (some "late") "1.0" (inl refl)
