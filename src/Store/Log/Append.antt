-- ===== src/Store/Log/Append.antt =====
-- Appending to the logs of engine/app/store/api.py: citations and corrections.
use text.Mathlib.TextPositions.{eq_refl}
use structured_chaos.Prelude.{
  All, Bool, List, Option-cases, String-Eq, [], any, arith, inl, inr, length, none, refl, some,
  true, ℕ, ℕ-Eq, ◌+◌, ◌==◌, ◌∙◌, ◌∷◌, ◌≡◌, ◌≢◌, ◌⊎◌,
}
use structured_chaos.Elicit.Provenance.{found}
use structured_chaos.Store.Log.{
  Citation, Correction, Extraction, Logs, add_citation, cite_all, current_at, from_correction,
  of_run, rebuild_field_current, record_correction, record_extraction,
}
use structured_chaos.Store.Log.Projection.{rebuild_field_current-lookup}

-- Every recorded extraction has a citation.
abbrev pub is_cited : ℕ → List (ℕ × Citation) → Bool
is_cited id cs = any (λ c. c.0 == id) cs

abbrev pub IsCited : Logs → Type 0
IsCited l = All (λ e. is_cited e.id l.citations ≡ true) l.extractions

pub cite_all-logs :
    (id : ℕ) (cs : List Citation) (l : Logs)
    → ((cite_all id cs l).extractions ≡ l.extractions)
      × ((cite_all id cs l).corrections ≡ l.corrections)
      × ((cite_all id cs l).current ≡ l.current)
      × (length (cite_all id cs l).citations ≡ length cs + length l.citations)
unfolding add_citation
cite_all-logs id [] l = (refl, refl, refl, omega arith)
cite_all-logs id (c ∷ cs) l =
    let (a, b, d, n) = cite_all-logs id cs (add_citation id c l) in (a, b, d, omega (arith, n))

cite_all-is_cited :
    (id j : ℕ) (cs : List Citation) (l : Logs)
    → is_cited j l.citations ≡ true
    → is_cited j (cite_all id cs l).citations ≡ true
unfolding add_citation
cite_all-is_cited id j [] l h = h
cite_all-is_cited id j (c ∷ cs) l h = cite_all-is_cited id j cs (add_citation id c l) (ground arith)

cite_all_self :
    (id : ℕ) (c : Citation) (cs : List Citation) (l : Logs)
    → is_cited id (cite_all id (c ∷ cs) l).citations ≡ true
unfolding add_citation
cite_all_self id c cs l = cite_all-is_cited id id cs (add_citation id c l) (ground arith)

cited_more :
    (id : ℕ) (cs : List Citation) (l : Logs) (es : List Extraction)
    → All (λ e. is_cited e.id l.citations ≡ true) es
    → All (λ e. is_cited e.id (cite_all id cs l).citations ≡ true) es
cited_more id cs l [] h = tt
cited_more id cs l (e ∷ es) h = (cite_all-is_cited id e.id cs l h.0, cited_more id cs l es h.1)

-- A new (run, path) appends one row and its citations; a replay of one changes nothing.
record_extraction_cases :
    (e : Extraction) (cs : List Citation) (l l' : Logs) (id : ℕ)
    → record_extraction e cs l ≡ some (l', id)
    → ((of_run e.run_id e.field_path l.extractions ≡ none)
        × (l' ≡ cite_all e.id cs (record l { extractions = e ∷ l.extractions }))
        × (id ≡ e.id)
        × (cs ≢ []))
      ⊎ ((of_run e.run_id e.field_path l.extractions ≡ some id) × (l' ≡ l))
unfolding record_extraction
record_extraction_cases e [] l l' id h = cc
record_extraction_cases e (c ∷ cs) l l' id h =
    elim (Option-cases (of_run e.run_id e.field_path l.extractions)) [
      | inl new ↦ inl (new, ground arith, ground arith, λ p. cc)
      | inr (old, found) ↦ inr (ground arith, ground arith)
    ]

-- A recorded extraction appends one row with one citation for each given source, or, for a
-- (run, path) that is recorded, changes nothing and returns the recorded id. The corrections and the
-- projection are left alone.
pub record_extraction_appends :
    (e : Extraction) (cs : List Citation) (l l' : Logs) (id : ℕ)
    → record_extraction e cs l ≡ some (l', id)
    → (((l'.extractions ≡ e ∷ l.extractions)
          × (id ≡ e.id)
          × (length l'.citations ≡ length cs + length l.citations))
        ⊎ ((of_run e.run_id e.field_path l.extractions ≡ some id) × (l' ≡ l)))
      × (l'.corrections ≡ l.corrections)
      × (l'.current ≡ l.current)
record_extraction_appends e cs l l' id h =
    let (a, b, c, n) = cite_all-logs e.id cs (record l { extractions = e ∷ l.extractions }) in
    elim (record_extraction_cases e cs l l' id h) [
      | inl (new, same, i, some_cs) ↦ rw same (inl (a, i, n), b, c)
      | inr (found, same) ↦ rw same (inr (found, refl), refl, refl)
    ]

-- No value without provenance: recording an extraction keeps that every extraction is cited.
pub record_extraction-IsCited :
    (e : Extraction) (cs : List Citation) (l l' : Logs) (id : ℕ)
    → IsCited l
    → record_extraction e cs l ≡ some (l', id)
    → IsCited l'
record_extraction-IsCited e [] l l' id h r = unfold record_extraction in cc
record_extraction-IsCited e (c ∷ cs) l l' id h r =
    let l1 : Logs = record l { extractions = e ∷ l.extractions } in
    let (a, b, d, n) = cite_all-logs e.id (c ∷ cs) l1 in
    elim (record_extraction_cases e (c ∷ cs) l l' id r) [
      | inl (new, same, i, some_cs) ↦
          rw same (rw a (cite_all_self e.id c cs l1, cited_more e.id (c ∷ cs) l1 l.extractions h))
      | inr (found, same) ↦ rw same h
    ]

-- A correction wins over every extraction, also one that is recorded after it: once a reviewer has
-- corrected a field, extracting it again under any run and rebuilding shows the corrected value.
pub correction_wins :
    (c : Correction) (e : Extraction) (cs : List Citation) (l l' : Logs) (id : ℕ)
    → record_extraction e cs (record_correction c l).0 ≡ some (l', id)
    → current_at c.case_id c.field_path (rebuild_field_current c.case_id l').0.current
      ≡ some (from_correction c.case_id c)
unfolding record_correction
correction_wins c e cs l l' id h =
    let (_, corrections, _) = record_extraction_appends e cs (record_correction c l).0 l' id h in
    rebuild_field_current-lookup c.case_id c.field_path l'
    ∙ rw corrections (ground (arith, eq_refl c.field_path))
