-- ===== src/Extract/Provenance.antt =====
-- engine/app/extract/provenance.py: where in the case's texts a value stands. Python's `str` methods are
-- parameters.
use structured_chaos.Prelude.{
  Bool, List, Option, String, String-Eq, [], if◌then◌else◌, is_some, map, none, not, some, ℕ, ℕ-Eq,
  ◌&&◌, ◌+◌, ◌=?◌, ◌∷◌,
}
use structured_chaos.Store.Documents.{NormalisedContent, Span}
use structured_chaos.Store.Log.{Citation, Locator, chars, primary}

pub record LocateTools : Type 0 where
  pub strip : String → String
  pub lower : String → String
  pub find : String → String → Option ℕ  -- `s.find(t)`, the text first; `none` is -1
  pub size : String → ℕ
  pub is_multi_span : String → Bool  -- `mime.startswith(("audio/", "image/"))`

abbrev pub in_text : LocateTools → String → String → Bool
in_text py low text = is_some (py.find (py.lower text) low)

abbrev pub in_spans : LocateTools → String → List Span → Option (Option Locator)
in_spans py low [] = none
in_spans py low (s ∷ ss) =
    let rest = in_spans py low ss in
    if not (s.text =? "") && in_text py low s.text then some s.locator else rest

abbrev pub sited : ℕ → Option (Option Locator) → Option (ℕ × Option Locator)
sited id none = none
sited id (some locator) = some (id, locator)

-- The place in one document; `base` is the offset of its text in the joined text.
abbrev pub in_document :
    LocateTools → String → ℕ → String → NormalisedContent → Option (ℕ × Option Locator)
in_document py needle base mime doc =
    if py.is_multi_span mime
    then sited doc.source_document_id (in_spans py (py.lower needle) doc.spans)
    else elim (py.find (py.lower doc.text) (py.lower needle)) [
      | none ↦ none
      | some i ↦ some (doc.source_document_id, some (chars (base + i) (base + i + py.size needle)))
    ]

-- One more for the line break before each document but the first.
abbrev pub locate_from :
    LocateTools → String → ℕ → List (String × NormalisedContent) → Option (ℕ × Option Locator)
locate_from py needle base [] = none
locate_from py needle base ((mime, doc) ∷ docs) =
    let rest = locate_from py needle (base + py.size doc.text + 1) docs in
    elim (in_document py needle base mime doc) [ none ↦ rest | some hit ↦ some hit ]

unfoldable pub locate :
    LocateTools → String → List (String × NormalisedContent) → Option (ℕ × Option Locator)
locate py value docs =
    let needle = py.strip value in if needle =? "" then none else locate_from py needle 0 docs

abbrev pub primary_citation : ℕ → Option Locator → Citation
primary_citation id locator = record {
  source_document_id = id;
  role = primary;
  locator = locator;
  weight = none;
}

unfoldable pub build_field_citations :
    LocateTools → String → List (String × NormalisedContent) → List ℕ → List Citation
build_field_citations py value docs fallback = elim (locate py value docs) [
  | none ↦ map (λ d. primary_citation d none) fallback
  | some (id, locator) ↦ primary_citation id locator ∷ []
]
