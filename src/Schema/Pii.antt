-- ===== src/Schema/Pii.antt =====
-- engine/app/schema/pii.py: the sensitivity of a concept, by its name and its values. Python's `str`
-- methods and its regular expressions are parameters.
pub mod Luhn
use mathlib.Core.List.{reverse}
use structured_chaos.Prelude.{
  Bool, List, String, String-Eq, [], any, false, if◌then◌else◌, leb, length, ltb, not, ℕ, ℕ-Eq, ◌%◌,
  ◌&&◌, ◌*◌, ◌+◌, ◌-◌, ◌=?◌, ◌||◌, ◌∷◌,
}
use structured_chaos.Resolve.Resolver.{by_name}
use structured_chaos.Store.Log.{holds}

pub record NameTools : Type 0 where
  pub tokens : String → List String  -- `_TOKEN.findall(s.lower())`
  pub lower : String → String
  pub squash : String → String  -- `s.replace("_", "")`
  pub contains : String → String → Bool  -- `t in s`
  pub has_ssn : String → Bool  -- `_SSN.search`
  pub card_runs : String → List (List ℕ)  -- the digits of each match of `_CARD`

abbrev pub keywords : List (String × List String)
keywords =
    (
      "government_id",
      "ssn" ∷ "social_security" ∷ "passport" ∷ "passport_number" ∷ "drivers_license"
          ∷ "driver_license" ∷ "national_id" ∷ "tax_id" ∷ "ein" ∷ "state_id" ∷ "green_card"
          ∷ "visa_number" ∷ [],
    )
    ∷ (
      "payment_card",
      "card_number" ∷ "cardnumber" ∷ "cvv" ∷ "cvc" ∷ "ccv" ∷ "credit_card_number"
          ∷ "debit_card_number" ∷ "pan" ∷ "card_num" ∷ "expiry" ∷ "expiration_date"
          ∷ "security_code" ∷ [],
    )
    ∷ (
      "health",
      "diagnosis" ∷ "disease" ∷ "medical" ∷ "medical_record" ∷ "prescription" ∷ "medication"
          ∷ "disability" ∷ "pregnancy" ∷ "mental_health" ∷ "therapy" ∷ "hiv" ∷ "cancer" ∷ "illness"
          ∷ "patient" ∷ "blood_type" ∷ "allergy" ∷ "immunization" ∷ "vaccination" ∷ [],
    )
    ∷ (
      "biometric",
      "fingerprint" ∷ "biometric" ∷ "retina" ∷ "iris" ∷ "dna" ∷ "faceprint" ∷ "voiceprint" ∷ [],
    )
    ∷ (
      "credentials",
      "password" ∷ "passcode" ∷ "pin" ∷ "pin_number" ∷ "security_answer" ∷ "secret_question" ∷ [],
    )
    ∷ []

abbrev pub no_category : String
no_category = "none"

-- The doubled digit of every second place, its digits added.
abbrev pub doubled : ℕ → ℕ
doubled d = if ltb 9 (2 * d) then 2 * d - 9 else 2 * d

abbrev pub at_place : Bool → ℕ → ℕ
at_place odd d = if odd then doubled d else d

-- The digits from the last to the first; the flag is `i % 2 == 1`.
unfoldable pub checksum : Bool → List ℕ → ℕ
checksum odd [] = 0
checksum odd (d ∷ ds) = at_place odd d + checksum (not odd) ds

unfoldable pub luhn_ok : List ℕ → Bool
luhn_ok ds = leb 13 (length ds) && leb (length ds) 19 && (checksum false (reverse ds) % 10) =? 0

-- A keyword is a token of the name, or, with more than one word, a part of it.
abbrev pub is_keyword : NameTools → String → String → Bool
is_keyword py name k =
    holds k (py.tokens name)
    || (py.contains k "_" && py.contains (py.squash (py.lower name)) (py.squash k))

abbrev pub name_category : NameTools → String → List (String × List String) → String
name_category py name [] = no_category
name_category py name ((category, kws) ∷ rest) =
    let later = name_category py name rest in
    if any (is_keyword py name) kws then category else later

abbrev pub value_category : NameTools → List String → String
value_category py [] = no_category
value_category py (v ∷ vs) =
    let later = value_category py vs in
    if py.has_ssn v
    then "government_id"
    else if any luhn_ok (py.card_runs v)
    then "payment_card"
    else later

unfoldable pub classify_sensitivity : NameTools → String → List String → String
classify_sensitivity py name values =
    let by_name = name_category py name keywords in
    if by_name =? no_category then value_category py values else by_name
