-- ===== src/Store/Log/Projection.antt =====
-- rebuild_field_current of engine/app/store/api.py against its specification.
use text.Mathlib.TextEquality.{eq_iff}
use structured_chaos.Prelude.{
  Bool-cases, List, Option, String, String-Eq, [], arith, beq_refl, false, if◌then◌else◌, inl, inr,
  keep, none, not, refl, some, ℕ, ℕ-Eq, ◌++◌, ◌==◌, ◌=?◌, ◌||◌, ◌∙◌, ◌∷◌, ◌≡◌, ◌≢◌,
}
use structured_chaos.Store.Log.{
  Correction, CurrentField, Extraction, Logs, corr_paths, current_at, distinct, ext_paths,
  from_correction, from_extraction, holds, joined, joined_paths, latest_corr, latest_ext, of_case,
  projected, rebuild_field_current,
}

-- What the projection holds at a path: the specification.
abbrev pub expected : Option Extraction → Option Correction → ℕ → Option CurrentField
expected e (some c) case = some (from_correction case c)
expected (some e) none case = some (from_extraction case e)
expected none none case = none

abbrev or_row : Option CurrentField → Option CurrentField → Option CurrentField
or_row none d = d
or_row (some f) d = some f

holds-append : (p : String) (xs ys : List String) → holds p (xs ++ ys) ≡ (holds p xs || holds p ys)
holds-append p [] ys = refl
holds-append p (x ∷ xs) ys = ground (arith, holds-append p xs ys)

holds-distinct : (p : String) (xs : List String) → holds p (distinct xs) ≡ holds p xs
holds-distinct p [] = refl
holds-distinct p (x ∷ xs) = ground (arith, holds-distinct p xs, eq_iff x p, holds-distinct x xs)

latest_ext-path :
    (case : ℕ) (p : String) (es : List Extraction) (e : Extraction)
    → latest_ext case p es ≡ some e
    → e.field_path ≡ p
latest_ext-path case p [] e h = cc
latest_ext-path case p (x ∷ es) e h =
    ground (arith, eq_iff x.field_path p, latest_ext-path case p es e)

latest_corr-path :
    (case : ℕ) (p : String) (cs : List Correction) (c : Correction)
    → latest_corr case p cs ≡ some c
    → c.field_path ≡ p
latest_corr-path case p [] c h = cc
latest_corr-path case p (x ∷ cs) c h =
    ground (arith, eq_iff x.field_path p, latest_corr-path case p cs c)

latest_ext_absent :
    (case : ℕ) (p : String) (es : List Extraction)
    → holds p (ext_paths case es) ≡ false
    → latest_ext case p es ≡ none
latest_ext_absent case p [] h = refl
latest_ext_absent case p (x ∷ es) h = ground (arith, latest_ext_absent case p es)

latest_corr_absent :
    (case : ℕ) (p : String) (cs : List Correction)
    → holds p (corr_paths case cs) ≡ false
    → latest_corr case p cs ≡ none
latest_corr_absent case p [] h = refl
latest_corr_absent case p (x ∷ cs) h = ground (arith, latest_corr_absent case p cs)

current_at-keep :
    (case other : ℕ) (p : String) (fs : List CurrentField)
    → current_at other p (keep (λ f. not (of_case case f)) fs)
      ≡ (if case == other then none else current_at other p fs)
current_at-keep case other p [] = ground arith
current_at-keep case other p (f ∷ fs) = ground (arith, current_at-keep case other p fs)

current_at-joined :
    (case : ℕ) (p q : String) (l : Logs) (rows : List CurrentField)
    → let e = latest_ext case q l.extractions in
      let c = latest_corr case q l.corrections in
      current_at case p (joined case e c rows) ≡ (
        if q =? p
        then or_row (expected e c case) (current_at case p rows)
        else current_at case p rows)
current_at-joined case p q l rows =
    go (latest_ext case q l.extractions) refl (latest_corr case q l.corrections) refl
  where
    go :
        (e : Option Extraction)
        → latest_ext case q l.extractions ≡ e
        → (c : Option Correction) → latest_corr case q l.corrections ≡ c
        → current_at case p (joined case e c rows) ≡ (
            if q =? p
            then or_row (expected e c case) (current_at case p rows)
            else current_at case p rows)
    go e he (some c) hc = ground (arith, latest_corr-path case q l.corrections c)
    go (some e) he none hc = ground (arith, latest_ext-path case q l.extractions e)
    go none he none hc = ground arith

current_at-projected :
    (case : ℕ) (p : String) (l : Logs) (ps : List String) (rows : List CurrentField)
    → current_at case p rows ≡ none
    → current_at case p (projected case l ps rows) ≡ (
        if holds p ps
        then expected (latest_ext case p l.extractions) (latest_corr case p l.corrections) case
        else none)
current_at-projected case p l [] rows h = h
current_at-projected case p l (q ∷ ps) rows h =
    rw
      (
        current_at-joined case p q l (projected case l ps rows),
        current_at-projected case p l ps rows h,
      )
      (ground (arith, eq_iff q p))

expected_absent :
    (case : ℕ) (p : String) (l : Logs)
    → holds p (joined_paths case l) ≡ false
    → expected (latest_ext case p l.extractions) (latest_corr case p l.corrections) case ≡ none
expected_absent case p l h =
    let paths = holds-distinct p (ext_paths case l.extractions ++ corr_paths case l.corrections) in
    let both = holds-append p (ext_paths case l.extractions) (corr_paths case l.corrections) in
    ground (
      arith,
      paths,
      both,
      latest_ext_absent case p l.extractions,
      latest_corr_absent case p l.corrections,
    )

-- After a rebuild the case's field at every path is its latest correction, else its latest
-- extraction, and is absent exactly where neither log has the path.
pub rebuild_field_current-lookup :
    (case : ℕ) (p : String) (l : Logs)
    → current_at case p (rebuild_field_current case l).0.current
      ≡ expected (latest_ext case p l.extractions) (latest_corr case p l.corrections) case
unfolding rebuild_field_current
rebuild_field_current-lookup case p l =
    let others = keep (λ f. not (of_case case f)) l.current in
    let gone : current_at case p others ≡ none =
      current_at-keep case case p l.current ∙ rw (beq_refl case) in
    elim (Bool-cases (holds p (joined_paths case l))) [
      | inl held ↦ current_at-projected case p l (joined_paths case l) others gone ∙ rw held
      | inr lost ↦
          current_at-projected case p l (joined_paths case l) others gone
          ∙ rw (lost, expected_absent case p l lost)
    ]

current_at-projected_other :
    (case other : ℕ) (p : String) (l : Logs) (ps : List String) (rows : List CurrentField)
    → case ≢ other
    → current_at other p (projected case l ps rows) ≡ current_at other p rows
current_at-projected_other case other p l [] rows ne = refl
current_at-projected_other case other p l (q ∷ ps) rows ne =
    ground (arith, current_at-projected_other case other p l ps rows ne)

-- A rebuild of one case leaves the fields of every other case, and the three logs, as they were.
pub rebuild_field_current_others :
    (case other : ℕ) (p : String) (l : Logs)
    → case ≢ other
    → (current_at other p (rebuild_field_current case l).0.current ≡ current_at other p l.current)
      × ((rebuild_field_current case l).0.extractions ≡ l.extractions)
      × ((rebuild_field_current case l).0.corrections ≡ l.corrections)
      × ((rebuild_field_current case l).0.citations ≡ l.citations)
unfolding rebuild_field_current
rebuild_field_current_others case other p l ne = (
  current_at-projected_other case other p l (joined_paths case l)
        (keep (λ f. not (of_case case f)) l.current) ne
      ∙ current_at-keep case other p l.current
      ∙ ground arith,
  refl,
  refl,
  refl,
)
